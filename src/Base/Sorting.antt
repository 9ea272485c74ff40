-- ===== src/Base/Sorting.antt =====
-- Python's `sorted`, stable, over any Boolean order, and its order on texts.
use Prim.Native.Char.{code}
use Prim.Native.Nat.{ℕ, suc}
use Prim.Native.String.{String}
use mathlib.Core.Path.{◌≡◌, refl, ap}
use mathlib.Core.Bool.{Bool, true, false, ◌||◌}
use mathlib.Core.List.{List, [], ◌∷◌}
use native.Mathlib.Omega.{arith}
use text.Mathlib.TextEquality.{Char-path}
use community_integrations.Base.Equality.{Eq, ◌==◌, contains, if◌then◌else◌, string_eq}
use community_integrations.Base.Lists.{count, ltb}

module _ {ℓ} {A : Type ℓ} (le : A → A → Bool) where
  unfoldable pub insert : A → List A → List A
  insert x [] = x ∷ []
  insert x (y ∷ ys) = if le x y then x ∷ y ∷ ys else y ∷ insert x ys

  unfoldable pub sort : List A → List A
  unfolding insert
  sort [] = []
  sort (x ∷ xs) = insert x (sort xs)

-- A total order, as a test.
pub record IsTotalOrder {ℓ} {A : Type ℓ} (le : A → A → Bool) : Type ℓ where
  pub total : (a b : A) → le a b ≡ false → le b a ≡ true
  pub antisym : (a b : A) → le a b ≡ true → le b a ≡ true → a ≡ b
  pub trans : (a b c : A) → le a b ≡ true → le b c ≡ true → le a c ≡ true

module _ {ℓ} {A : Type ℓ} ⦃e : Eq A⦄ (le : A → A → Bool) where
  contains-insert :
      (x : A) (xs : List A) (a : A) → contains (insert le x xs) a ≡ (a == x || contains xs a)
  unfolding insert
  contains-insert x [] a = refl
  contains-insert x (y ∷ ys) a = ground (arith, contains-insert x ys a)

  pub contains-sort : (xs : List A) (a : A) → contains (sort le xs) a ≡ contains xs a
  unfolding sort
  contains-sort [] a = refl
  contains-sort (x ∷ xs) a = ground (arith, contains-insert x (sort le xs) a, contains-sort xs a)

  count-insert :
      (x : A) (xs : List A) (a : A)
      → count a (insert le x xs) ≡ (if a == x then suc (count a xs) else count a xs)
  unfolding insert
  count-insert x [] a = refl
  count-insert x (y ∷ ys) a = ground (arith, count-insert x ys a)

  pub count-sort : (xs : List A) (a : A) → count a (sort le xs) ≡ count a xs
  unfolding sort
  count-sort [] a = refl
  count-sort (x ∷ xs) a = ground (arith, count-insert x (sort le xs) a, count-sort xs a)

module _ {ℓ} {A : Type ℓ} ⦃e : Eq A⦄ (le : A → A → Bool) (t : IsTotalOrder le) where
  insert_comm :
      (x y : A) (xs : List A) → insert le x (insert le y xs) ≡ insert le y (insert le x xs)
  unfolding insert
  insert_comm x y [] = ground (arith, t.total x y, t.antisym x y)
  insert_comm x y (z ∷ zs) = ground (
    arith,
    t.total x y,
    t.antisym x y,
    t.trans x y z,
    t.trans y x z,
    t.total x z,
    t.total y z,
    insert_comm x y zs,
  )

  pub erase : A → List A → List A
  erase a [] = []
  erase a (x ∷ xs) = if a == x then xs else x ∷ erase a xs

  sort-erase :
      (a : A) (xs : List A) → contains xs a ≡ true → sort le xs ≡ insert le a (sort le (erase a xs))
  unfolding sort erase
  sort-erase a [] h = cc
  sort-erase a (x ∷ xs) h = ground (arith, sort-erase a xs, insert_comm x a (sort le (erase a xs)))

  count-erase :
      (a b : A) (xs : List A)
      → contains xs a ≡ true
      → count b xs ≡ (if b == a then suc (count b (erase a xs)) else count b (erase a xs))
  unfolding erase
  count-erase a b [] h = cc
  count-erase a b (x ∷ xs) h = ground (arith, count-erase a b xs)

  contains_of_count : (a : A) (xs : List A) (n : ℕ) → count a xs ≡ suc n → contains xs a ≡ true
  contains_of_count a [] n h = absurd (omega arith)
  contains_of_count a (x ∷ xs) n h = ground (arith, contains_of_count a xs n)

  -- Two lists that hold the same items, as often, sort to the same list.
  pub sort-eq_of_count :
      (xs ys : List A) → ((a : A) → count a xs ≡ count a ys) → sort le xs ≡ sort le ys
  unfolding sort
  sort-eq_of_count [] [] h = refl
  sort-eq_of_count [] (y ∷ ys) h = absurd (ground (arith, h y))
  sort-eq_of_count (x ∷ xs) ys h =
      let found : contains ys x ≡ true =
        contains_of_count x ys (count x xs) (ground (arith, h x)) in
      rw (sort-erase x ys found) (
        ap (insert le x)
          (sort-eq_of_count xs (erase x ys) (λ b. ground (arith, h b, count-erase x b ys found))))

-- `s <= t`, by code points.
unfoldable pub str_le : String → String → Bool
str_le String.[] t = true
str_le (String.◌∷◌ c s) String.[] = false
str_le (String.◌∷◌ c s) (String.◌∷◌ d t) =
    if ltb (code c) (code d) then true else if ltb (code d) (code c) then false else str_le s t

str_le_total : (s t : String) → str_le s t ≡ false → str_le t s ≡ true
unfolding str_le
str_le_total String.[] t h = cc
str_le_total (String.◌∷◌ c s) String.[] h = refl
str_le_total (String.◌∷◌ c s) (String.◌∷◌ d t) h = ground (arith, str_le_total s t)

str_le_trans : (s t u : String) → str_le s t ≡ true → str_le t u ≡ true → str_le s u ≡ true
unfolding str_le
str_le_trans String.[] t u h k = refl
str_le_trans (String.◌∷◌ c s) String.[] u h k = cc
str_le_trans (String.◌∷◌ c s) (String.◌∷◌ d t) String.[] h k = cc
str_le_trans (String.◌∷◌ c s) (String.◌∷◌ d t) (String.◌∷◌ b u) h k =
    ground (arith, str_le_trans s t u)

str_le_antisym : (s t : String) → str_le s t ≡ true → str_le t s ≡ true → s ≡ t
unfolding str_le
str_le_antisym String.[] String.[] h k = refl
str_le_antisym String.[] (String.◌∷◌ d t) h k = cc
str_le_antisym (String.◌∷◌ c s) String.[] h k = cc
str_le_antisym (String.◌∷◌ c s) (String.◌∷◌ d t) h k =
    let same : c ≡ d = Char-path c d (ground arith) in
    let rest : s ≡ t = str_le_antisym s t (ground arith) (ground arith) in
    λ i. String.◌∷◌ (same i) (rest i)

pub str_le-IsTotalOrder : IsTotalOrder str_le
str_le-IsTotalOrder = record {
  total = str_le_total;
  antisym = str_le_antisym;
  trans = str_le_trans;
}
