-- ===== src/Base/Members.antt =====
-- Membership in a list, with the place kept, and what the list functions make of it.
use mathlib.Core.Path.{◌≡◌, refl, sym, ap, ◌∙◌}
use mathlib.Core.Logic.{◌⊎◌, inl, inr}
use mathlib.Core.Bool.{Bool, true, false}
use mathlib.Core.Option.{some}
use mathlib.Core.List.{List, [], ◌∷◌, ◌++◌, map}
use native.Mathlib.Omega.{arith}
use community_integrations.Base.Equality.{Eq, ◌==◌, contains, Bool-cases}
use community_integrations.Base.Lists.{keep, any, find}

module _ {A : Type 0} where
  abbrev pub In : A → List A → Type 0
  In a [] = ⊥
  In a (x ∷ xs) = (a ≡ x) ⊎ In a xs

module _ {A : Type 0} (p : A → Bool) where
  pub any_of_In : (a : A) (xs : List A) → In a xs → p a ≡ true → any p xs ≡ true
  unfolding any
  any_of_In a [] h pa = absurd h
  any_of_In a (x ∷ xs) (inl e) pa = rw (sym e) (rw pa)
  any_of_In a (x ∷ xs) (inr h) pa = ground (arith, any_of_In a xs h pa)

  pub In-of_any : (xs : List A) → any p xs ≡ true → (a : A) × In a xs × (p a ≡ true)
  unfolding any
  In-of_any [] h = cc
  In-of_any (x ∷ xs) h = elim (Bool-cases (p x)) [
    | inl px ↦ (x, inl refl, px)
    | inr nx ↦ let (a, i, pa) = In-of_any xs (ground arith) in (a, inr i, pa)
  ]

  pub any-false : (xs : List A) → ((a : A) → In a xs → p a ≡ false) → any p xs ≡ false
  unfolding any
  any-false [] h = refl
  any-false (x ∷ xs) h = ground (arith, h x (inl refl), any-false xs (λ a i. h a (inr i)))

  pub In-keep : (a : A) (xs : List A) → In a (keep p xs) → In a xs × (p a ≡ true)
  unfolding keep
  In-keep a [] h = absurd h
  In-keep a (x ∷ xs) h = elim (Bool-cases (p x)) [
    | inl px ↦
        let h' : In a (x ∷ keep p xs) = rw px at h in
        elim h' [ inl e ↦ (inl e, rw e px) | inr i ↦ let (j, pa) = In-keep a xs i in (inr j, pa) ]
    | inr nx ↦
        let h' : In a (keep p xs) = rw nx at h in let (j, pa) = In-keep a xs h' in (inr j, pa)
  ]

  pub In-keep_intro : (a : A) (xs : List A) → In a xs → p a ≡ true → In a (keep p xs)
  unfolding keep
  In-keep_intro a [] h pa = absurd h
  In-keep_intro a (x ∷ xs) (inl e) pa = let px : p x ≡ true = ap p (sym e) ∙ pa in rw px (inl e)
  In-keep_intro a (x ∷ xs) (inr i) pa = elim (Bool-cases (p x)) [
    | inl px ↦ rw px (inr (In-keep_intro a xs i pa))
    | inr nx ↦ rw nx (In-keep_intro a xs i pa)
  ]

  pub In-find : (xs : List A) {a : A} → find p xs ≡ some a → In a xs × (p a ≡ true)
  unfolding find
  In-find [] h = cc
  In-find (x ∷ xs) {a} h = elim (Bool-cases (p x)) [
    | inl px ↦ let e : a ≡ x = ground arith in (inl e, ap p e ∙ px)
    | inr nx ↦ let (i, pa) = In-find xs {a = a} (ground arith) in (inr i, pa)
  ]

  pub find_of_In : (a : A) (xs : List A) → In a xs → p a ≡ true → (b : A) × (find p xs ≡ some b)
  unfolding find
  find_of_In a [] h pa = absurd h
  find_of_In a (x ∷ xs) (inl e) pa = (x, let px : p x ≡ true = ap p (sym e) ∙ pa in rw px)
  find_of_In a (x ∷ xs) (inr i) pa = elim (Bool-cases (p x)) [
    | inl px ↦ (x, rw px)
    | inr nx ↦ let (b, f) = find_of_In a xs i pa in (b, rw nx f)
  ]

module _ {A : Type 0} ⦃e : Eq A⦄ where
  pub contains_of_In : (a : A) (xs : List A) → In a xs → contains xs a ≡ true
  contains_of_In a [] h = absurd h
  contains_of_In a (x ∷ xs) (inl p) = ground arith
  contains_of_In a (x ∷ xs) (inr i) = ground (arith, contains_of_In a xs i)

  pub In-of_contains : (a : A) (xs : List A) → contains xs a ≡ true → In a xs
  In-of_contains a [] h = cc
  In-of_contains a (x ∷ xs) h = elim (e.dec a x) [
    | yes p ↦ inl p
    | no n ↦ inr (In-of_contains a xs (ground arith))
  ]

  pub contains-map :
      {B : Type 0} (f : B → A) (xs : List B) (a : A)
      → contains (map f xs) a ≡ any (λ x. a == f x) xs
  unfolding any
  contains-map f [] a = refl
  contains-map f (x ∷ xs) a = ground (arith, contains-map f xs a)

pub In-map : {A B : Type 0} (f : A → B) (a : A) (xs : List A) → In a xs → In (f a) (map f xs)
In-map f a [] h = absurd h
In-map f a (x ∷ xs) (inl e) = inl (ap f e)
In-map f a (x ∷ xs) (inr i) = inr (In-map f a xs i)

module _ {A : Type 0} where
  pub In-append_left : (a : A) (xs ys : List A) → In a xs → In a (xs ++ ys)
  In-append_left a [] ys h = absurd h
  In-append_left a (x ∷ xs) ys (inl e) = inl e
  In-append_left a (x ∷ xs) ys (inr i) = inr (In-append_left a xs ys i)

  pub In-append_right : (a : A) (xs ys : List A) → In a ys → In a (xs ++ ys)
  In-append_right a [] ys h = h
  In-append_right a (x ∷ xs) ys h = inr (In-append_right a xs ys h)

  pub In-append : (a : A) (xs ys : List A) → In a (xs ++ ys) → In a xs ⊎ In a ys
  In-append a [] ys h = inr h
  In-append a (x ∷ xs) ys (inl e) = inl (inl e)
  In-append a (x ∷ xs) ys (inr h) = elim (In-append a xs ys h) [
    | inl i ↦ inl (inr i)
    | inr i ↦ inr i
  ]
