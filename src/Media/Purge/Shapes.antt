-- ===== src/Media/Purge/Shapes.antt =====
-- Where the files of an item stand during a purge, and what each change does to that.
use mathlib.Core.Path.{subst}
use event_gallery.Base.{
  ◌≡◌, ◌⊎◌, inl, inr, refl, true, false, Bool-cases, Option, none, some, String, if◌then◌else◌,
}
use event_gallery.Media.Staging.{
  Artifact, original, thumbnail, preview, same_artifact, Slots, put, Manifest, Place,
}

-- Where an artifact stands: in its live place, in the stage, in one of the two, in the stage or
-- nowhere, or nowhere.
pub data Tag : Type 0 where
  home gone either lost spent : Tag

abbrev pub At : Tag → Option String → Option String → Option String → Type 0
At home o l s = (l ≡ o) × (s ≡ none)
At gone o l s = (l ≡ none) × (s ≡ o)
At either o l s = ((l ≡ o) × (s ≡ none)) ⊎ ((l ≡ none) × (s ≡ o))
At lost o l s = (l ≡ none) × ((s ≡ none) ⊎ (s ≡ o))
At spent o l s = (l ≡ none) × (s ≡ none)

-- The stage directory stands with the manifest of the item and no temporary file.
unfoldable pub Marked : Manifest → Place → Type 0
Marked m p = (p.manifest ≡ some m) × (p.has_temporary ≡ false) × (p.has_dir ≡ true)

unfoldable pub Shape : (Artifact → Tag) → Slots → Manifest → Place → Type 0
Shape g orig m p = ((a : Artifact) → At (g a) (orig a) (p.live a) (p.staged a)) × Marked m p

-- With no manifest.
unfoldable pub Bare : Tag → Slots → Place → Type 0
Bare t orig p = ((a : Artifact) → At t (orig a) (p.live a) (p.staged a)) × (p.manifest ≡ none)

abbrev pub tag : Artifact → Tag → (Artifact → Tag) → Artifact → Tag
tag a t g b = if same_artifact a b then t else g b

abbrev pub all_at : Tag → Artifact → Tag
all_at t a = t

-- The item's files while its row stands, and after the row is gone.
unfoldable pub Held : Slots → Manifest → Place → Type 0
Held orig m p = Bare home orig p ⊎ Shape (all_at either) orig m p

unfoldable pub Going : Slots → Manifest → Place → Type 0
Going orig m p = Bare spent orig p ⊎ Shape (all_at lost) orig m p

same_artifact_iff : (a b : Artifact) → same_artifact a b ≡ true → a ≡ b
same_artifact_iff original original e = refl
same_artifact_iff original thumbnail e = absurd (cc)
same_artifact_iff original preview e = absurd (cc)
same_artifact_iff thumbnail original e = absurd (cc)
same_artifact_iff thumbnail thumbnail e = refl
same_artifact_iff thumbnail preview e = absurd (cc)
same_artifact_iff preview original e = absurd (cc)
same_artifact_iff preview thumbnail e = absurd (cc)
same_artifact_iff preview preview e = refl

-- What the slots of one artifact are changed to decides its tag, and the others keep theirs.
pub At-put :
    (g : Artifact → Tag) (orig live staged : Slots) (a : Artifact) (t : Tag) (l s : Option String)
    (b : Artifact)
    → At t (orig a) l s
    → At (g b) (orig b) (live b) (staged b)
    → At (tag a t g b) (orig b) (put a l live b) (put a s staged b)
unfolding put
At-put g orig live staged a t l s b new old = elim (Bool-cases (same_artifact a b)) [
  | inl e ↦ simp e (subst (λ x. At t (orig x) l s) (same_artifact_iff a b e) new)
  | inr e ↦ simp e old
]

module _ (g : Artifact → Tag) (orig : Slots) (a : Artifact) (t : Tag) where
  -- The tag of one artifact may change when its slots are as the new tag says.
  At-tag :
      (l s : Option String) (b : Artifact)
      → (a ≡ b → At t (orig b) l s)
      → At (g b) (orig b) l s
      → At (tag a t g b) (orig b) l s
  At-tag l s b new old = elim (Bool-cases (same_artifact a b)) [
    | inl e ↦ simp e (new (same_artifact_iff a b e))
    | inr e ↦ simp e old
  ]

  pub Shape-tag :
      (m : Manifest) (p : Place)
      → At t (orig a) (p.live a) (p.staged a)
      → Shape g orig m p
      → Shape (tag a t g) orig m p
  unfolding Shape
  Shape-tag m p new (slots, rest) = (
    λ b.
        At-tag (p.live b) (p.staged b) b
          (λ e. subst (λ x. At t (orig x) (p.live x) (p.staged x)) e new) (slots b),
    rest,
  )

  pub Shape-put :
      (m : Manifest) (p : Place) (l s : Option String)
      → At t (orig a) l s
      → Shape g orig m p
      → Shape (tag a t g) orig m (record p { live = put a l p.live; staged = put a s p.staged })
  unfolding Shape Marked
  Shape-put m p l s new (slots, rest) =
      (λ b. At-put g orig p.live p.staged a t l s b new (slots b), rest)

  pub Shape-stage :
      (m : Manifest) (p : Place) (s : Option String)
      → At t (orig a) (p.live a) s
      → Shape g orig m p
      → Shape (tag a t g) orig m (record p { staged = put a s p.staged })
  unfolding Shape Marked put
  Shape-stage m p s new (slots, rest) = (
    λ b. elim (Bool-cases (same_artifact a b)) [
      | inl e ↦ simp e (subst (λ x. At t (orig x) (p.live x) s) (same_artifact_iff a b e) new)
      | inr e ↦ simp e (slots b)
    ],
    rest,
  )

-- All tags of one kind are below another kind when every place of the first is one of the second.
unfoldable pub Under : Tag → (Artifact → Tag) → Type 0
Under u g = (b : Artifact) (o l s : Option String) → At (g b) o l s → At u o l s

pub Under-tag :
    (u t : Tag) (a : Artifact) (g : Artifact → Tag)
    → ((o l s : Option String) → At t o l s → At u o l s)
    → Under u g
    → Under u (tag a t g)
unfolding Under
Under-tag u t a g new old b o l s = elim (Bool-cases (same_artifact a b)) [
  | inl e ↦ simp e λ h. new o l s h
  | inr e ↦ simp e λ h. old b o l s h
]

pub Shape-Under :
    (u : Tag) (g : Artifact → Tag) (orig : Slots) (m : Manifest) (p : Place)
    → Under u g
    → Shape g orig m p
    → Shape (all_at u) orig m p
unfolding Shape Under
Shape-Under u g orig m p under (slots, rest) =
    (λ b. under b (orig b) (p.live b) (p.staged b) (slots b), rest)

-- The tags after a change of each of the three artifacts.
abbrev pub tag_all : Tag → (Artifact → Tag) → Artifact → Tag
tag_all t g = tag preview t (tag thumbnail t (tag original t g))

pub Shape-all :
    (t : Tag) (g : Artifact → Tag) (orig : Slots) (m : Manifest) (p : Place)
    → Shape (tag_all t g) orig m p
    → Shape (all_at t) orig m p
unfolding Shape
Shape-all t g orig m p (slots, rest) = (
  λ b. elim b as (λ b. At t (orig b) (p.live b) (p.staged b)) [
    | original ↦ slots original
    | thumbnail ↦ slots thumbnail
    | preview ↦ slots preview
  ],
  rest,
)
