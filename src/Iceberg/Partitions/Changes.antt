-- ===== src/Iceberg/Partitions/Changes.antt =====
-- What it says of a dimension that the changes of a table's spec could be computed.
use community_integrations.Base.{
  ℕ, ◌≡◌, refl, sym, ap, subst, ◌∙◌, inl, inr, Bool, true, false, String, List, [], ◌∷◌, map,
  Option, some, ◌==◌, contains, nat_eq, string_eq, option_eq, arith, if◌then◌else◌, Result, ok, err,
  ◌>>=◌, ◌>>◌, keep_if, bind_returned, Bool-cases, Option-cases,
}
use community_integrations.Base.Dict.{Dict, values}
use community_integrations.Base.Lists.{keep, is_empty, difference}
use community_integrations.Base.Members.{In}
use community_integrations.Iceberg.Error.{value_error, no_partition_dimensions}
use community_integrations.Iceberg.Window.{Calendar, transform_eq}
use community_integrations.Iceberg.Partitions.{Column, Schema, PartitionField, Dimension}
use community_integrations.Iceberg.Partitions.Mapper.{
  PartitionMapper, check_type, check_types, get_dimensions, dimension_names,
  new_partition_field_names, updated_time_field, new_dimensions, updated_dimensions, deleted_fields,
  is_deleted, map_partition_spec_to_fields,
}
use community_integrations.Iceberg.Partitions.Updater.{Changes, changes}

-- A comprehension whose test is one computation that may raise, made for each element.
module _ {E A B : Type 0} (r : Result E B) (q : B → A → Bool) where
  abbrev tested : List A → Result E (List A)
  tested = keep_if (λ d. r >>= λ n. ok (q n d))

  tested_ok : (xs : List A) (n : B) → r ≡ ok n → tested xs ≡ ok (keep (q n) xs)
  unfolding keep_if keep
  tested_ok [] n h = refl
  tested_ok (x ∷ xs) n h = rw (tested_ok xs n h) (rw h (ground arith))

  tested_err : (a : A) (xs : List A) {x : E} → In a xs → r ≡ err x → tested xs ≡ err x
  unfolding keep_if
  tested_err a [] i h = absurd i
  tested_err a (y ∷ ys) i h = rw h

  tested_parts :
      (a : A) (xs : List A) {ys : List A}
      → In a xs
      → tested xs ≡ ok ys
      → (n : B) × (r ≡ ok n) × (ys ≡ keep (q n) xs)
  tested_parts a xs {ys} i h = go r refl
    where
      go : (s : Result E B) → r ≡ s → (n : B) × (r ≡ ok n) × (ys ≡ keep (q n) xs)
      go (ok n) e = (n, e, cc (tested_ok xs n e))
      go (err x) e = cc (tested_err a xs i e)

keep_if-In :
    {E A : Type 0} (p : A → Result E Bool) (a : A) (xs ys : List A)
    → keep_if p xs ≡ ok ys
    → In a ys
    → In a xs
unfolding keep_if
keep_if-In p a [] ys h i = let e : ys ≡ [] = cc in subst (In a) e i
keep_if-In p a (x ∷ xs) ys h i =
    let (passed, got, h₁) = bind_returned _ (p x) h in
    let (rest, got', h₂) = bind_returned _ (keep_if p xs) h₁ in
    let e : ys ≡ (if passed then x ∷ rest else rest) = cc in
    elim (Bool-cases passed) [
      | inl kept ↦
          let j : In a (x ∷ rest) =
            subst (In a) (e ∙ ap (λ b. if b then x ∷ rest else rest) kept) i in
          elim j [ inl same ↦ inl same | inr k ↦ inr (keep_if-In p a xs rest got' k) ]
      | inr left_out ↦ inr (
          keep_if-In p a xs rest got'
            (subst (In a) (e ∙ ap (λ b. if b then x ∷ rest else rest) left_out) i))
    ]

module _ {Time : Type 0} where
  checked :
      (schema : Schema) (allow : Bool) (xs ds : List (Dimension Time))
      → (if is_empty xs
          then (if allow then ok [] else err (value_error no_partition_dimensions))
          else (check_types schema xs >> ok xs))
        ≡ ok ds
      → (ds ≡ xs) × (check_types schema xs ≡ ok tt)
  unfolding check_types
  checked schema true [] ds h = (cc, refl)
  checked schema false [] ds h = cc
  checked schema allow (x ∷ xs) ds h = ground arith

  -- A column of the right type stands behind each dimension that was checked.
  pub check_types-In :
      (schema : Schema) (xs : List (Dimension Time)) (d : Dimension Time)
      → In d xs
      → check_types schema xs ≡ ok tt
      → (c : Column) × (schema.find_field d.partition_expr ≡ some c)
        × (check_type d.partition_expr d.partitions c ≡ ok tt)
  unfolding check_types
  check_types-In schema [] d i h = absurd i
  check_types-In schema (x ∷ xs) d (inr i) h = check_types-In schema xs d i (ground arith)
  check_types-In schema (x ∷ xs) d (inl e) h =
      elim (Option-cases (schema.find_field x.partition_expr)) [
        | inl missing ↦ absurd (ground arith)
        | inr (c, found) ↦
            subst
              (λ y.
                (c : Column) × (schema.find_field y.partition_expr ≡ some c)
                × (check_type y.partition_expr y.partitions c ≡ ok tt))
              (sym e) (c, found, ground arith)
      ]

module _ {Time : Type 0} (cal : Calendar Time) (m : PartitionMapper Time) where
  abbrev pub names : List String
  names = map (λ d. d.partition_expr) m.dimensions

  pub changes_parts :
      {c : Changes Time}
      → changes cal m ≡ ok c
      → (new_dimensions m ≡ ok c.new)
        × (updated_dimensions cal m ≡ ok c.updated)
        × (deleted_fields m ≡ ok c.deleted)
  unfolding changes
  changes_parts h = ground arith

  pub dimensions_of :
      (allow : Bool) (ds : List (Dimension Time))
      → get_dimensions m allow ≡ ok ds
      → (ds ≡ m.dimensions) × (check_types m.schema m.dimensions ≡ ok tt)
  unfolding get_dimensions
  dimensions_of allow ds h = checked m.schema allow m.dimensions ds h

  names_of : (allow : Bool) (ns : List String) → dimension_names m allow ≡ ok ns → ns ≡ names
  unfolding dimension_names
  names_of allow ns h =
      let (ds, got, same) =
        bind_returned (λ ds. ok (map (λ d. d.partition_expr) ds)) (get_dimensions m allow) h in
      let e : ds ≡ m.dimensions = (dimensions_of allow ds got).0 in
      let k : map (λ d. d.partition_expr) ds ≡ ns = cc in sym k ∙ ap (map (λ d. d.partition_expr)) e

  pub deleted_of :
      (del : List PartitionField)
      → deleted_fields m ≡ ok del
      → del ≡ keep (is_deleted m.schema names) m.spec
  unfolding deleted_fields
  deleted_of del h =
      let (ns, got, same) =
        bind_returned (λ current. ok (keep (is_deleted m.schema current) m.spec))
          (dimension_names m true) h in
      let k : keep (is_deleted m.schema ns) m.spec ≡ del = cc in
      sym k ∙ ap (λ ns. keep (is_deleted m.schema ns) m.spec) (names_of true ns got)

  pub new_names_of :
      (ns : List String)
      → new_partition_field_names m ≡ ok ns
      → (fields : Dict ℕ String) × (map_partition_spec_to_fields m.spec m.schema ≡ ok fields)
        × (ns ≡ difference names (values fields))
  unfolding new_partition_field_names
  new_names_of ns h =
      let (xs, got, h₁) = bind_returned _ (dimension_names m false) h in
      let (fields, read, h₂) = bind_returned _ (map_partition_spec_to_fields m.spec m.schema) h₁ in
      let k : difference xs (values fields) ≡ ns = cc in
      (fields, read, sym k ∙ ap (λ xs. difference xs (values fields)) (names_of false xs got))

  pub new_of :
      (d : Dimension Time) (new : List (Dimension Time))
      → In d m.dimensions
      → new_dimensions m ≡ ok new
      → (ns : List String) × (new_partition_field_names m ≡ ok ns)
        × (new ≡ keep (λ d. contains ns d.partition_expr) m.dimensions)
  unfolding new_dimensions
  new_of d new i h =
      let (ds, got, h₁) = bind_returned _ (get_dimensions m true) h in
      let e : ds ≡ m.dimensions = (dimensions_of true ds got).0 in
      tested_parts (new_partition_field_names m) (λ names d. contains names d.partition_expr) d
        m.dimensions i (rw e at h₁)

  pub updated_of :
      (d : Dimension Time) (updated : List (Dimension Time))
      → In d m.dimensions
      → updated_dimensions cal m ≡ ok updated
      → (u : Option String) × (updated_time_field cal m ≡ ok u)
        × (updated ≡ keep (λ d. u == some d.partition_expr) m.dimensions)
  unfolding updated_dimensions
  updated_of d updated i h =
      let (ds, got, h₁) = bind_returned _ (get_dimensions m true) h in
      let e : ds ≡ m.dimensions = (dimensions_of true ds got).0 in
      tested_parts (updated_time_field cal m) (λ field d. field == some d.partition_expr) d
        m.dimensions i (rw e at h₁)

  pub new_In :
      (d : Dimension Time) (new : List (Dimension Time))
      → new_dimensions m ≡ ok new
      → In d new
      → In d m.dimensions
  unfolding new_dimensions
  new_In d new h i =
      let (ds, got, h₁) = bind_returned _ (get_dimensions m true) h in
      subst (In d) (dimensions_of true ds got).0 (keep_if-In _ d ds new h₁ i)

  pub updated_In :
      (d : Dimension Time) (updated : List (Dimension Time))
      → updated_dimensions cal m ≡ ok updated
      → In d updated
      → In d m.dimensions
  unfolding updated_dimensions
  updated_In d updated h i =
      let (ds, got, h₁) = bind_returned _ (get_dimensions m true) h in
      subst (In d) (dimensions_of true ds got).0 (keep_if-In _ d ds updated h₁ i)

  -- The column of a dimension.
  pub column_of :
      (d : Dimension Time) (ds : List (Dimension Time))
      → In d m.dimensions
      → get_dimensions m true ≡ ok ds
      → (c : Column) × (m.schema.find_field d.partition_expr ≡ some c)
        × (check_type d.partition_expr d.partitions c ≡ ok tt)
  column_of d ds i got = check_types-In m.schema m.dimensions d i (dimensions_of true ds got).1

  pub dimensions_read :
      (new : List (Dimension Time))
      → new_dimensions m ≡ ok new
      → (ds : List (Dimension Time)) × (get_dimensions m true ≡ ok ds)
  unfolding new_dimensions
  dimensions_read new h = let (ds, got, h₁) = bind_returned _ (get_dimensions m true) h in (ds, got)
