-- ===== src/Base/Dict.antt =====
-- Python's dicts: association lists in the order of insertion.
use mathlib.Core.Path.{◌≡◌, refl}
use mathlib.Core.Bool.{true, false, ◌||◌}
use mathlib.Core.Option.{Option, none, some}
use mathlib.Core.List.{List, [], ◌∷◌, ◌++◌}
use native.Mathlib.Omega.{arith}
use Prim.Native.Nat.{ℕ, zero, suc, ◌≤◌, ◌<◌}
use mathlib.Core.Logic.{inl, inr}
use community_integrations.Base.Equality.{Eq, ◌==◌, contains, Option-cases, if◌then◌else◌}
use community_integrations.Base.Lists.{length, drop}

abbrev pub Dict {ℓ κ} : Type ℓ → Type κ → Type (ℓ ⊔ κ)
Dict K V = List (K × V)

module _ {ℓ κ} {K : Type ℓ} {V : Type κ} where
  unfoldable pub keys : Dict K V → List K
  keys [] = []
  keys ((k, _) ∷ d) = k ∷ keys d

  unfoldable pub values : Dict K V → List V
  values [] = []
  values ((_, v) ∷ d) = v ∷ values d

module _ {ℓ κ} {K : Type ℓ} {V : Type κ} ⦃e : Eq K⦄ where
  -- `d.get(k)`
  unfoldable pub get : Dict K V → K → Option V
  get [] k = none
  get ((j, v) ∷ d) k = if j == k then some v else get d k

  -- `d[k] = v`: a key that is there keeps its place.
  unfoldable pub put : Dict K V → K → V → Dict K V
  put [] k v = (k, v) ∷ []
  put ((j, w) ∷ d) k v = if j == k then (j, v) ∷ d else (j, w) ∷ put d k v

  -- `d.pop(k, None)`, which leaves no entry of the key.
  unfoldable pub pop : Dict K V → K → Dict K V
  pop [] k = []
  pop ((j, w) ∷ d) k = let rest = pop d k in if j == k then rest else (j, w) ∷ rest

  pub get-put :
      (d : Dict K V) (k j : K) (v : V) → get (put d k v) j ≡ (if k == j then some v else get d j)
  unfolding get put
  get-put [] k j v = refl
  get-put ((i, w) ∷ d) k j v = ground (arith, get-put d k j v)

  pub get-pop : (d : Dict K V) (k j : K) → get (pop d k) j ≡ (if k == j then none else get d j)
  unfolding get pop
  get-pop [] k j = ground arith
  get-pop ((i, w) ∷ d) k j = ground (arith, get-pop d k j)

  pub get-append :
      (c d : Dict K V) (k : K)
      → get (c ++ d) k ≡ elim (get c k) [ some v ↦ some v | none ↦ get d k ]
  unfolding get
  get-append [] d k = refl
  get-append ((i, w) ∷ c) d k = ground (arith, get-append c d k)

  -- Every key stands once.
  abbrev pub NodupKeys : Dict K V → Type 0
  NodupKeys [] = Unit
  NodupKeys ((k, _) ∷ d) = (contains (keys d) k ≡ false) × NodupKeys d

  pub contains-keys :
      (d : Dict K V) (k : K) → contains (keys d) k ≡ elim (get d k) [ some v ↦ true | none ↦ false ]
  unfolding keys get
  contains-keys [] k = refl
  contains-keys ((j, w) ∷ d) k = ground (arith, contains-keys d k)

  contains-keys-put :
      (d : Dict K V) (k : K) (v : V) (j : K)
      → contains (keys (put d k v)) j ≡ (if k == j then true else contains (keys d) j)
  unfolding keys put
  contains-keys-put [] k v j = ground arith
  contains-keys-put ((i, w) ∷ d) k v j = ground (arith, contains-keys-put d k v j)

  pub contains-keys-pop :
      (d : Dict K V) (k j : K)
      → contains (keys (pop d k)) j ≡ (if k == j then false else contains (keys d) j)
  unfolding keys pop
  contains-keys-pop [] k j = ground arith
  contains-keys-pop ((i, w) ∷ d) k j = ground (arith, contains-keys-pop d k j)

  pub put-NodupKeys : (d : Dict K V) (k : K) (v : V) → NodupKeys d → NodupKeys (put d k v)
  unfolding put keys
  put-NodupKeys [] k v h = (refl, tt)
  put-NodupKeys ((i, w) ∷ d) k v h =
      ground (arith, put-NodupKeys d k v h.1, contains-keys-put d k v i)

  pub pop-NodupKeys : (d : Dict K V) (k : K) → NodupKeys d → NodupKeys (pop d k)
  unfolding pop keys
  pop-NodupKeys [] k h = tt
  pop-NodupKeys ((i, w) ∷ d) k h = ground (arith, pop-NodupKeys d k h.1, contains-keys-pop d k i)

  pub length-pop-le : (d : Dict K V) (k : K) → length (pop d k) ≤ length d
  unfolding pop
  length-pop-le [] k = omega arith
  length-pop-le ((i, w) ∷ d) k = ground (arith, length-pop-le d k)

  contains-keys_append :
      (c d : Dict K V) (k : K)
      → contains (keys (c ++ d)) k ≡ (contains (keys c) k || contains (keys d) k)
  unfolding keys
  contains-keys_append [] d k = refl
  contains-keys_append ((i, w) ∷ c) d k = ground (arith, contains-keys_append c d k)

  -- A new key is added at the end.
  pub append-NodupKeys :
      (d : Dict K V) (k : K) (v : V)
      → contains (keys d) k ≡ false
      → NodupKeys d
      → NodupKeys (d ++ (k, v) ∷ [])
  unfolding keys
  append-NodupKeys [] k v h n = (refl, tt)
  append-NodupKeys ((i, w) ∷ d) k v h n =
      ground (arith, append-NodupKeys d k v, contains-keys_append d ((k, v) ∷ []) i)

  pub drop-NodupKeys : (n : ℕ) (d : Dict K V) → NodupKeys d → NodupKeys (drop n d)
  drop-NodupKeys zero d h = h
  drop-NodupKeys (suc n) [] h = tt
  drop-NodupKeys (suc n) ((i, w) ∷ d) h = drop-NodupKeys n d h.1

  pub length-pop_lt :
      (d : Dict K V) (k : K) {v : V} → get d k ≡ some v → length (pop d k) < length d
  unfolding get pop
  length-pop_lt [] k h = absurd (ground arith)
  length-pop_lt ((i, w) ∷ d) k h =
      let less = length-pop-le d k in
      elim (Option-cases (get d k)) [
        | inl gone ↦ ground (arith, less, gone)
        | inr (v, found) ↦ ground (arith, less, found, length-pop_lt d k found)
      ]

  -- A key that is there keeps its place.
  pub length-put :
      (d : Dict K V) (k : K) {v : V} (w : V) → get d k ≡ some v → length (put d k w) ≡ length d
  unfolding get put
  length-put [] k w h = absurd (ground arith)
  length-put ((i, u) ∷ d) k w h = elim (Option-cases (get d k)) [
    | inl gone ↦ ground (arith, gone)
    | inr (v, found) ↦ ground (arith, found, length-put d k w found)
  ]
