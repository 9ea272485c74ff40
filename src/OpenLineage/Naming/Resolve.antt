-- ===== src/OpenLineage/Naming/Resolve.antt =====
-- `_normalize`, against the pieces that slashes divide a text into.
use community_integrations.Base.{
  ℕ, ◌≡◌, refl, ap, ◌∙◌, arith, not, Bool, true, false, List, [], ◌∷◌, ◌++◌, ◌==◌, ◌||◌, nat_eq,
  Bool-cases, inl, inr, if◌then◌else◌,
}
use community_integrations.Base.Lists.{is_empty, keep, All}
use community_integrations.Base.Text.{Text}
use community_integrations.OpenLineage.Naming.{
  squeeze, collapse, strip_left, strip_right, normalize,
}

-- `value.split("/")`: the first piece, and the others.
unfoldable pub split : Text → Text × List Text
split [] = ([], [])
split (c ∷ cs) =
    let (first, others) = split cs in
    if c == b'/' then ([], first ∷ others) else (c ∷ first, others)

abbrev pub is_word : Text → Bool
is_word t = not (is_empty t)

-- Each text, after a slash.
abbrev pub slashed : List Text → Text
slashed [] = []
slashed (w ∷ ws) = b'/' ∷ w ++ slashed ws

-- `"/".join(texts)`
unfoldable pub join_slash : List Text → Text
join_slash [] = []
join_slash (w ∷ ws) = w ++ slashed ws

-- The pieces that are not empty.
unfoldable pub words : Text → List Text
words value = let (first, others) = split value in keep is_word (first ∷ others)

abbrev starts_slash : Text → Bool
starts_slash [] = false
starts_slash (c ∷ cs) = c == b'/'

abbrev right : Text → Text
right t = strip_right (collapse t)

abbrev shape : Text × List Text → Text
shape (first, others) = first ++ slashed (keep is_word others)

starts_slash-collapse : (t : Text) → starts_slash (collapse t) ≡ starts_slash t
unfolding collapse
starts_slash-collapse [] = refl
starts_slash-collapse (c ∷ cs) = go (collapse cs)
  where
    go : (t : Text) → starts_slash (squeeze c t) ≡ (c == b'/')
    go [] = refl
    go (d ∷ ds) = ground arith

strip_right-squeeze_other :
    (c : ℕ) (t : Text) → (c == b'/') ≡ false → strip_right (squeeze c t) ≡ c ∷ strip_right t
unfolding strip_right
strip_right-squeeze_other c [] h = ground arith
strip_right-squeeze_other c (d ∷ ds) h = ground arith

strip_right-squeeze_slash :
    (t : Text)
    → strip_right (squeeze b'/' t)
      ≡ (if starts_slash t || is_empty (strip_right t) then strip_right t else b'/' ∷ strip_right t)
unfolding strip_right nat_eq
strip_right-squeeze_slash [] = refl
strip_right-squeeze_slash (d ∷ ds) = elim (Bool-cases (d == b'/')) [
  | inl slash ↦ ground arith
  | inr other ↦ ground arith
]

split_first : (t : Text) → (starts_slash t ≡ false) → (split t).0 ≡ [] → t ≡ []
unfolding split
split_first [] h e = refl
split_first (c ∷ cs) h e = absurd (ground arith)

split_word : (t : Text) → starts_slash t ≡ true → (split t).0 ≡ []
unfolding split
split_word [] h = cc
split_word (c ∷ cs) h = ground arith

right-slash :
    (t : Text) (first : Text) (others : List Text)
    → split t ≡ (first, others)
    → right t ≡ shape (first, others)
    → right (b'/' ∷ t) ≡ slashed (keep is_word (first ∷ others))
unfolding collapse keep strip_right
right-slash t first others e h =
    strip_right-squeeze_slash (collapse t) ∙ go first (ap (λ p. p.0) e) h
  where
    go :
        (first : Text)
        → (split t).0 ≡ first
        → right t ≡ shape (first, others)
        → (if starts_slash (collapse t) || is_empty (right t) then right t else b'/' ∷ right t)
          ≡ slashed (keep is_word (first ∷ others))
    go (f ∷ fs) e h =
        let no_slash : starts_slash t ≡ false = ground (arith, split_word t) in
        ground (arith, starts_slash-collapse t)
    go [] e h = elim (Bool-cases (starts_slash t)) [
      | inl slash ↦ ground (arith, starts_slash-collapse t)
      | inr other ↦
          let nothing : right t ≡ [] = ap right (split_first t other e) in
          ground (arith, starts_slash-collapse t)
    ]

right-shape : (t : Text) → right t ≡ shape (split t)
unfolding collapse strip_right split keep nat_eq
right-shape [] = refl
right-shape (c ∷ cs) =
    let before = right-shape cs in
    elim (Bool-cases (c == b'/')) [
      | inl slash ↦
          let is : c ≡ b'/' = ground arith in
          rw is (right-slash cs (split cs).0 (split cs).1 refl before)
      | inr other ↦
          rw other (strip_right-squeeze_other c (collapse cs) other ∙ ap (λ t. c ∷ t) before)
    ]

abbrev HasNoSlash : Text → Type 0
HasNoSlash t = starts_slash t ≡ false

split-HasNoSlash : (t : Text) → HasNoSlash (split t).0 × All HasNoSlash (split t).1
unfolding split
split-HasNoSlash [] = (refl, tt)
split-HasNoSlash (c ∷ cs) =
    let rest = split-HasNoSlash cs in
    elim (Bool-cases (c == b'/')) [
      | inl slash ↦ rw slash (refl, rest)
      | inr other ↦ rw other (other, rest.1)
    ]

strip_left-slashed :
    (ts : List Text)
    → All HasNoSlash ts
    → strip_left (slashed (keep is_word ts)) ≡ join_slash (keep is_word ts)
unfolding strip_left join_slash keep nat_eq
strip_left-slashed [] h = refl
strip_left-slashed ([] ∷ ts) h = strip_left-slashed ts h.1
strip_left-slashed ((c ∷ cs) ∷ ts) h = rw h.0 refl

strip_left-shape :
    (first : Text) (others : List Text)
    → HasNoSlash first
    → All HasNoSlash others
    → strip_left (shape (first, others)) ≡ join_slash (keep is_word (first ∷ others))
unfolding strip_left join_slash keep
strip_left-shape [] others h hs = strip_left-slashed others hs
strip_left-shape (c ∷ cs) others h hs = rw h refl

-- Normalising divides a text at its slashes, drops the pieces that are empty, and joins the others by
-- slashes again.
pub normalize-eq-join_slash : (value : Text) → normalize value ≡ join_slash (words value)
unfolding normalize words
normalize-eq-join_slash value =
    let (first, others) = split-HasNoSlash value in
    ap strip_left (right-shape value)
    ∙ strip_left-shape (split value).0 (split value).1 first others
