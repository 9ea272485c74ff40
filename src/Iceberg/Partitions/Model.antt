-- ===== src/Iceberg/Partitions/Model.antt =====
-- A table whose commits are carried out: what is assumed of pyiceberg's can hold.
use community_integrations.Base.{
  ℕ, ◌-◌, ◌≡◌, ◌↔◌, refl, sym, ap, subst, ◌∙◌, ◌⊎◌, inl, inr, not, Bool, true, false, String, List,
  [], ◌∷◌, ◌++◌, Option, none, some, ◌==◌, contains, nat_eq, string_eq, option_eq, arith, ◌&&◌,
}
use community_integrations.Base.Lists.{keep, any, find}
use community_integrations.Base.Members.{
  In, In-keep, In-keep_intro, In-append, In-append_left, In-append_right, any_of_In,
}
use community_integrations.Iceberg.Error.{Error, value_error, foreign}
use community_integrations.Iceberg.Window.{Transform, positive, Calendar, transform_eq}
use community_integrations.Iceberg.Partitions.{
  Column, timestamp, string, Schema, IsSchema, PartitionField,
}
use community_integrations.Iceberg.Partitions.Updater.{
  SpecUpdate, remove_field, add_field, Recorded, Tables,
}
use community_integrations.Iceberg.Partitions.Sync.{IsTables, removed, Added}

-- Times are hours.
abbrev pub hours : Calendar ℕ
hours = record { in_hours = λ s e. positive (e - s); in_months = λ s e. positive 0 }

abbrev pub columns : List Column
columns =
    record { field_id = 1; name = "ts"; field_type = timestamp }
    ∷ record { field_id = 2; name = "region"; field_type = string }
    ∷ record { field_id = 3; name = "country"; field_type = string }
    ∷ []

abbrev pub schema : Schema
schema = record { fields = columns; find_field = λ n. find (λ (c : Column). c.name == n) columns }

abbrev FoundByName : Column → Type 0
FoundByName c = schema.find_field c.name ≡ some c

ts_found : FoundByName (record { field_id = 1; name = "ts"; field_type = timestamp })
unfolding find string_eq
ts_found = refl

region_found : FoundByName (record { field_id = 2; name = "region"; field_type = string })
unfolding find string_eq
region_found = refl

country_found : FoundByName (record { field_id = 3; name = "country"; field_type = string })
unfolding find string_eq
country_found = refl

pub schema-IsSchema : IsSchema schema
unfolding find nat_eq
schema-IsSchema = record {
  found = λ n {c} h. ground arith;
  finds = λ i {c} h. elim (nat_eq.dec 1 i) [
    | yes p ↦ subst FoundByName (ground arith) ts_found
    | no n1 ↦ elim (nat_eq.dec 2 i) [
      | yes p ↦ subst FoundByName (ground arith) region_found
      | no n2 ↦ subst FoundByName (ground arith) country_found
    ]
  ];
}

-- Names stand once.
unfoldable pub distinct : List PartitionField → Bool
distinct [] = true
distinct (f ∷ fs) = not (any (λ (g : PartitionField). g.name == f.name) fs) && distinct fs

distinct_unique :
    (fs : List PartitionField) (f g : PartitionField)
    → distinct fs ≡ true
    → In f fs
    → In g fs
    → f.name ≡ g.name
    → f ≡ g
unfolding distinct
distinct_unique [] f g h i j e = absurd i
distinct_unique (x ∷ fs) f g h (inl p) (inl q) e = p ∙ sym q
distinct_unique (x ∷ fs) f g h (inl p) (inr j) e =
    let found = any_of_In (λ (g : PartitionField). g.name == x.name) g fs j (ground arith) in
    absurd (ground (arith, found))
distinct_unique (x ∷ fs) f g h (inr i) (inl q) e =
    let found = any_of_In (λ (g : PartitionField). g.name == x.name) f fs i (ground arith) in
    absurd (ground (arith, found))
distinct_unique (x ∷ fs) f g h (inr i) (inr j) e = distinct_unique fs f g (ground arith) i j e

abbrev pub field_for : Column → Transform → String → PartitionField
field_for c t n = record { source_id = c.field_id; name = n; transform = t }

abbrev pub cons_found :
    Option Column → Transform → String → List PartitionField → List PartitionField
cons_found none t n fs = fs
cons_found (some c) t n fs = field_for c t n ∷ fs

unfoldable pub added_fields : List SpecUpdate → List PartitionField
added_fields [] = []
added_fields (remove_field n ∷ us) = added_fields us
added_fields (add_field e t n ∷ us) = cons_found (schema.find_field e) t n (added_fields us)

cons_found_intro :
    (o : Option Column) (t : Transform) (n : String) (fs : List PartitionField) (f : PartitionField)
    → In f fs
    → In f (cons_found o t n fs)
cons_found_intro none t n fs f i = i
cons_found_intro (some c) t n fs f i = inr i

added_fields_intro :
    (us : List SpecUpdate) (e n : String) (t : Transform) (c : Column)
    → In (add_field e t n) us
    → schema.find_field e ≡ some c
    → In (field_for c t n) (added_fields us)
unfolding added_fields
added_fields_intro [] e n t c i h = absurd i
added_fields_intro (remove_field k ∷ us) e n t c (inl p) h = cc
added_fields_intro (remove_field k ∷ us) e n t c (inr i) h = added_fields_intro us e n t c i h
added_fields_intro (add_field e' t' n' ∷ us) e n t c (inl p) h =
    let found : schema.find_field e' ≡ some c = ap schema.find_field (ground arith) ∙ h in
    subst (λ o. In (field_for c t n) (cons_found o t' n' (added_fields us))) (sym found)
      (inl (ground arith))
added_fields_intro (add_field e' t' n' ∷ us) e n t c (inr i) h =
    cons_found_intro (schema.find_field e') t' n' (added_fields us) _
      (added_fields_intro us e n t c i h)

added_fields-In :
    (us : List SpecUpdate) (f : PartitionField) → In f (added_fields us) → Added schema us f
unfolding added_fields
added_fields-In [] f i = absurd i
added_fields-In (remove_field k ∷ us) f i =
    let (e, t, n, c, j, found, same) = added_fields-In us f i in (e, t, n, c, inr j, found, same)
added_fields-In (add_field e t n ∷ us) f i = go (schema.find_field e) refl i (added_fields-In us f)
  where
    go :
        (o : Option Column)
        → schema.find_field e ≡ o
        → In f (cons_found o t n (added_fields us))
        → (In f (added_fields us) → Added schema us f)
        → Added schema (add_field e t n ∷ us) f
    go none h j rest =
        let (e', t', n', c', k, found, same) = rest j in (e', t', n', c', inr k, found, same)
    go (some c) h (inl p) rest = (e, t, n, c, inl refl, h, p)
    go (some c) h (inr j) rest =
        let (e', t', n', c', k, found, same) = rest j in (e', t', n', c', inr k, found, same)

-- A table is a spec whose names stand once; a commit that would break this fails.
abbrev pub Table : Type 0
Table = (spec : List PartitionField) × (distinct spec ≡ true)

abbrev pub outcome : Recorded → List PartitionField → List PartitionField
outcome r spec =
    keep (λ f. not (contains (removed r.updates) f.name)) spec ++ added_fields r.updates

unfoldable pub store :
    (t : Table) (spec : List PartitionField) (b : Bool) → distinct spec ≡ b → Option Error × Table
store t spec true h = (none, (spec, h))
store t spec false h = (some (value_error (foreign "duplicate field")), t)

abbrev pub tables : Tables Table
tables = record {
  schema = λ t. schema;
  spec = λ t. t.0;
  commit = λ r t. store t (outcome r t.0) (distinct (outcome r t.0)) refl;
  refresh = λ t. (none, t);
}

store_lem :
    (t : Table) (spec : List PartitionField) (b : Bool) (h : distinct spec ≡ b)
    → (store t spec b h).0 ≡ none
    → (store t spec b h).1.0 ≡ spec
unfolding store
store_lem t spec true h e = refl
store_lem t spec false h e = cc

tables-committed :
    (r : Recorded) (t : Table)
    → (tables.commit r t).0 ≡ none
    → (f : PartitionField)
    → In f (tables.commit r t).1.0
      ↔ ((In f t.0 × (contains (removed r.updates) f.name ≡ false)) ⊎ Added schema r.updates f)
tables-committed r t done f =
    let kept_test = λ (f : PartitionField). not (contains (removed r.updates) f.name) in
    let same = store_lem t (outcome r t.0) (distinct (outcome r t.0)) refl done in
    (
      λ i. elim (In-append f (keep kept_test t.0) (added_fields r.updates) (subst (In f) same i)) [
        | inl j ↦ let (k, left) = In-keep kept_test f t.0 j in inl (k, ground arith)
        | inr j ↦ inr (added_fields-In r.updates f j)
      ],
      λ c. subst (In f) (sym same) (elim c [
        | inl (i, left) ↦
            In-append_left f (keep kept_test t.0) (added_fields r.updates)
              (In-keep_intro kept_test f t.0 i (rw left))
        | inr (e, tr, n, b, i, found, p) ↦
            In-append_right f (keep kept_test t.0) (added_fields r.updates)
              (rw p (added_fields_intro r.updates e n tr b i found))
      ]),
    )

pub tables-IsTables : IsTables tables
tables-IsTables = record {
  lawful = λ t. schema-IsSchema;
  unique = λ t f g. distinct_unique t.0 f g t.1;
  kept = λ r t done. refl;
  committed = λ r t quiet done f. tables-committed r t done f;
}
