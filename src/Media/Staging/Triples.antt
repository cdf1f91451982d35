-- ===== src/Media/Staging/Triples.antt =====
-- What operations on the files of an item establish, whichever system calls work, fail or never return.
use event_gallery.Base.{
  ◌≡◌, ◌∙◌, ap, Bool, true, Bool-cases, inl, inr, if◌then◌else◌, List, [], ◌∷◌, refl,
}
use event_gallery.Media.Staging.{
  Place, Answer, works, fails, crashes, finished, failed, crashed, Ran, Op, stops, call, change,
  change_if, quiet, after, in_order, still_failed, cleaned, or_clean,
}

-- A claim for operations that finish and one for the others.
abbrev pub Ends : (Place → Type 0) → (Place → Type 0) → Ran → Type 0
Ends J E (finished, p, ws) = J p
Ends J E (failed, p, ws) = E p
Ends J E (crashed, p, ws) = E p

abbrev pub Triple : (Place → Type 0) → (Place → Type 0) → (Place → Type 0) → Op → Type 0
Triple P J E op = (p : Place) (ws : List Answer) → P p → Ends J E (op p ws)

-- Without faults the operation finishes, and later calls have none either.
abbrev pub Works : (Place → Type 0) → (Place → Type 0) → Op → Type 0
Works P J op = (p : Place) → P p → (q : Place) × (op p [] ≡ (finished, q, [])) × J q

module _ (P J E : Place → Type 0) where
  pub Triple-call :
      (k : Place → Op)
      → ((p : Place) → P p → E p)
      → ((p : Place) (ws : List Answer) → P p → Ends J E (k p p ws))
      → Triple P J E (call k)
  unfolding call
  Triple-call k stop go p [] h = go p [] h
  Triple-call k stop go p (works ∷ ws) h = go p ws h
  Triple-call k stop go p (fails ∷ ws) h = stop p h
  Triple-call k stop go p (crashes ∷ ws) h = stop p h

  pub Triple-change :
      (f : Place → Place)
      → ((p : Place) → P p → E p)
      → ((p : Place) → P p → J (f p))
      → Triple P J E (change f)
  Triple-change f stop go = Triple-call (λ p q ws. stops finished (f p) ws) stop λ p ws h. go p h

  -- A change that fails unless the files allow it.
  pub Triple-change_if :
      (test : Place → Bool) (f : Place → Place)
      → ((p : Place) → P p → E p)
      → ((p : Place) → P p → J (f p))
      → Triple P J E (change_if test f)
  Triple-change_if test f stop go =
      Triple-call (λ p q ws. if test p then stops finished (f p) ws else stops failed p ws) stop
        λ p ws h. elim (Bool-cases (test p)) [ inl e ↦ simp e (go p h) | inr e ↦ simp e (stop p h) ]

  pub Triple-in_order_nil : ((p : Place) → P p → J p) → Triple P J E (in_order [])
  unfolding in_order
  Triple-in_order_nil go p ws h = go p h

  Ends-after :
      (Q : Place → Type 0) (b : Op) (r : Ran) → Triple Q J E b → Ends Q E r → Ends J E (after b r)
  Ends-after Q b (finished, p, ws) tb h = tb p ws h
  Ends-after Q b (failed, p, ws) tb h = h
  Ends-after Q b (crashed, p, ws) tb h = h

  pub Triple-in_order :
      (Q : Place → Type 0) (a : Op) (ops : List Op)
      → Triple P Q E a
      → Triple Q J E (in_order ops)
      → Triple P J E (in_order (a ∷ ops))
  unfolding in_order
  Triple-in_order Q a ops ta tb p ws h = Ends-after Q (in_order ops) (a p ws) tb (ta p ws h)

  Ends-mono :
      (K F : Place → Type 0) (r : Ran)
      → ((p : Place) → J p → K p)
      → ((p : Place) → E p → F p)
      → Ends J E r
      → Ends K F r
  Ends-mono K F (finished, p, ws) j e h = j p h
  Ends-mono K F (failed, p, ws) j e h = e p h
  Ends-mono K F (crashed, p, ws) j e h = e p h

  pub Triple-mono :
      (K F : Place → Type 0) (op : Op)
      → ((p : Place) → J p → K p)
      → ((p : Place) → E p → F p)
      → Triple P J E op
      → Triple P K F op
  Triple-mono K F op j e t p ws h = Ends-mono K F (op p ws) j e (t p ws h)

-- A call that changes no file keeps what stands.
pub Triple-quiet :
    (P J E : Place → Type 0) (ops : List Op)
    → ((p : Place) → P p → E p)
    → Triple P J E (in_order ops)
    → Triple P J E (in_order (quiet ∷ ops))
Triple-quiet P J E ops stop t =
    Triple-in_order P J E P quiet ops (Triple-change P P E (λ p. p) stop (λ p h. h)) t

-- What holds of every end holds of the files.
pub Ends-place : (K : Place → Type 0) (r : Ran) → Ends K K r → K r.1
Ends-place K (finished, p, ws) h = h
Ends-place K (failed, p, ws) h = h
Ends-place K (crashed, p, ws) h = h

module _ (P J E F : Place → Type 0) where
  Ends-still_failed : (r : Ran) → Ends F F r → Ends J F (still_failed r)
  Ends-still_failed (finished, p, ws) h = h
  Ends-still_failed (failed, p, ws) h = h
  Ends-still_failed (crashed, p, ws) h = h

  Ends-cleaned :
      (h : Op) (r : Ran)
      → Triple E F F h
      → ((p : Place) → E p → F p)
      → Ends J E r
      → Ends J F (cleaned h r)
  Ends-cleaned h (finished, p, ws) th k e = e
  Ends-cleaned h (failed, p, ws) th k e = Ends-still_failed (h p ws) (th p ws e)
  Ends-cleaned h (crashed, p, ws) th k e = k p e

  pub Triple-or_clean :
      (a h : Op)
      → Triple P J E a
      → Triple E F F h
      → ((p : Place) → E p → F p)
      → Triple P J F (or_clean a h)
  unfolding or_clean
  Triple-or_clean a h ta th k p ws pre = Ends-cleaned h (a p ws) th k (ta p ws pre)

module _ (P J : Place → Type 0) where
  pub Works-change : (f : Place → Place) → ((p : Place) → P p → J (f p)) → Works P J (change f)
  unfolding call
  Works-change f go p h = (f p, refl, go p h)

  pub Works-change_if :
      (test : Place → Bool) (f : Place → Place)
      → ((p : Place) → P p → test p ≡ true)
      → ((p : Place) → P p → J (f p))
      → Works P J (change_if test f)
  unfolding call
  Works-change_if test f allowed go p h = (f p, simp (allowed p h), go p h)

  pub Works-in_order_nil : ((p : Place) → P p → J p) → Works P J (in_order [])
  unfolding in_order
  Works-in_order_nil go p h = (p, refl, go p h)

  pub Works-in_order :
      (Q : Place → Type 0) (a : Op) (ops : List Op)
      → Works P Q a
      → Works Q J (in_order ops)
      → Works P J (in_order (a ∷ ops))
  unfolding in_order
  Works-in_order Q a ops wa wb p h =
      let (q, e, hq) = wa p h in
      let (r, f, hr) = wb q hq in (r, ap (λ x. after (in_order ops) x) e ∙ f, hr)

pub Works-quiet :
    (P J : Place → Type 0) (ops : List Op)
    → Works P J (in_order ops)
    → Works P J (in_order (quiet ∷ ops))
Works-quiet P J ops w = Works-in_order P J P quiet ops (Works-change P P (λ p. p) (λ p h. h)) w
