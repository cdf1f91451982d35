-- ===== src/Media/Staging/Calm.antt =====
-- Operations whose calls all work neither end the process nor leave an answer behind.
use event_gallery.Base.{◌≡◌, refl, Bool, true, false, List, [], ◌∷◌, if◌then◌else◌}
use event_gallery.Media.Staging.{
  Place, finished, failed, crashed, Ran, Op, stops, call, change, change_if, ask, quiet, after,
  in_order,
}

abbrev pub Calm : Ran → Type 0
Calm (crashed, p, ws) = ⊥
Calm (finished, p, ws) = ws ≡ []
Calm (failed, p, ws) = ws ≡ []

abbrev pub IsCalm : Op → Type 0
IsCalm op = (p : Place) → Calm (op p [])

pub change-IsCalm : (f : Place → Place) → IsCalm (change f)
unfolding call
change-IsCalm f p = refl

pub change_if-IsCalm : (test : Place → Bool) (f : Place → Place) → IsCalm (change_if test f)
unfolding call
change_if-IsCalm test f p = calm (test p)
  where
    calm : (b : Bool) → Calm (if b then stops finished (f p) [] else stops failed p [])
    calm true = refl
    calm false = refl

pub ask-IsCalm :
    (test : Place → Bool) (k : Bool → Op) → ((b : Bool) → IsCalm (k b)) → IsCalm (ask test k)
unfolding call
ask-IsCalm test k h p = h (test p) p

after-Calm : (b : Op) (r : Ran) → IsCalm b → Calm r → Calm (after b r)
after-Calm b (finished, p, ws) h e = rw e (h p)
after-Calm b (failed, p, ws) h e = e
after-Calm b (crashed, p, ws) h e = e

pub in_order_nil-IsCalm : IsCalm (in_order [])
unfolding in_order
in_order_nil-IsCalm p = refl

pub in_order-IsCalm :
    (a : Op) (ops : List Op) → IsCalm a → IsCalm (in_order ops) → IsCalm (in_order (a ∷ ops))
unfolding in_order
in_order-IsCalm a ops ha hb p = after-Calm (in_order ops) (a p []) hb (ha p)

pub quiet-IsCalm : (ops : List Op) → IsCalm (in_order ops) → IsCalm (in_order (quiet ∷ ops))
quiet-IsCalm ops h = in_order-IsCalm quiet ops (change-IsCalm (λ p. p)) h
