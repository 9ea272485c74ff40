-- ===== src/Iceberg/Handler/Chosen.antt =====
-- The prefix and the mode of a handler.
use mathlib.Core.Option.{some-injective}
use community_integrations.Base.{
  ◌≡◌, ◌⊎◌, inl, inr, refl, sym, subst, ◌∙◌, arith, String, Option, none, some, string_eq, ok, err,
}
use community_integrations.Iceberg.Error.{Error, value_error, invalid_write_mode}
use community_integrations.Iceberg.Writer.{WriteMode, append_mode, overwrite_mode, upsert_mode}
use community_integrations.Iceberg.Handler.{
  ResourceConfig, no_config, other_config, dict_config, catalog_config, get_or,
  get_partition_field_name_prefix, get_write_mode, write_mode_of, mode_or,
}

-- The value that is given, or the default.
abbrev pub IsOr : {A : Type 0} → A → Option A → A → Type 0
IsOr default none value = value ≡ default
IsOr default (some given) value = value ≡ given

-- The prefix of the definition's metadata, or the configuration's, or "part"; there is none where the
-- configuration has another type.
abbrev pub IsPrefix : ResourceConfig → Option String → String → Type 0
IsPrefix no_config definition prefix = ⊥
IsPrefix other_config definition prefix = ⊥
IsPrefix (dict_config none) definition prefix = IsOr "part" definition prefix
IsPrefix (dict_config (some configured)) definition prefix = IsOr configured definition prefix
IsPrefix (catalog_config configured) definition prefix = IsOr configured definition prefix

abbrev pub Spells : String → WriteMode → Type 0
Spells text append_mode = text ≡ "append"
Spells text overwrite_mode = text ≡ "overwrite"
Spells text upsert_mode = text ≡ "upsert"

abbrev pub IsMode : WriteMode → Option String → WriteMode → Type 0
IsMode default none mode = mode ≡ default
IsMode default (some text) mode = Spells text mode

-- The mode that the output's metadata spell, or the definition's, or "overwrite"; there is none where
-- either text spells no mode.
abbrev pub IsChosen : Option String → Option String → WriteMode → Type 0
IsChosen definition output mode =
    (defined : WriteMode) × IsMode overwrite_mode definition defined × IsMode defined output mode

pub get_or-IsOr : {A : Type 0} (default : A) (o : Option A) → IsOr default o (get_or default o)
get_or-IsOr default none = refl
get_or-IsOr default (some given) = refl

pub prefix_cases :
    (config : ResourceConfig) (definition : Option String)
    → ((prefix : String) × (get_partition_field_name_prefix config definition ≡ ok prefix)
        × IsPrefix config definition prefix)
      ⊎ ((e : Error) × (get_partition_field_name_prefix config definition ≡ err e)
          × ((prefix : String) → ¬ IsPrefix config definition prefix))
unfolding get_partition_field_name_prefix
prefix_cases no_config definition = inr (_, refl, λ prefix h. h)
prefix_cases other_config definition = inr (_, refl, λ prefix h. h)
prefix_cases (dict_config none) definition = inl (_, refl, get_or-IsOr "part" definition)
prefix_cases (dict_config (some configured)) definition =
    inl (_, refl, get_or-IsOr configured definition)
prefix_cases (catalog_config configured) definition =
    inl (_, refl, get_or-IsOr configured definition)

abbrev NoSpelling : String → Type 0
NoSpelling text = (mode : WriteMode) → ¬ Spells text mode

spelled_cases :
    (text : String)
    → ((mode : WriteMode) × (write_mode_of text ≡ some mode) × Spells text mode)
      ⊎ ((write_mode_of text ≡ none) × NoSpelling text)
unfolding write_mode_of
spelled_cases text = elim (string_eq.dec text "append") [
  | yes append ↦ inl (append_mode, ground (arith, append), append)
  | no not_append ↦ elim (string_eq.dec text "overwrite") [
    | yes overwrite ↦ inl (overwrite_mode, ground (arith, not_append, overwrite), overwrite)
    | no not_overwrite ↦ elim (string_eq.dec text "upsert") [
      | yes upsert ↦ inl (upsert_mode, ground (arith, not_append, not_overwrite, upsert), upsert)
      | no not_upsert ↦ inr (
        ground (arith, not_append, not_overwrite, not_upsert),
        λ mode. elim mode as (λ m. ¬ Spells text m) [
          | append_mode ↦ not_append
          | overwrite_mode ↦ not_overwrite
          | upsert_mode ↦ not_upsert
        ],
      )
    ]
  ]
]

IsMode-cases :
    (default : WriteMode) (o : Option String)
    → ((mode : WriteMode) × (mode_or default o ≡ some mode) × IsMode default o mode)
      ⊎ ((mode_or default o ≡ none) × ((mode : WriteMode) → ¬ IsMode default o mode))
IsMode-cases default none = inl (default, refl, refl)
IsMode-cases default (some text) = spelled_cases text

Spells-read : (text : String) (m : WriteMode) → Spells text m → write_mode_of text ≡ some m
unfolding write_mode_of string_eq
Spells-read text append_mode h = rw h refl
Spells-read text overwrite_mode h = rw h refl
Spells-read text upsert_mode h = rw h refl

Spells-unique : (text : String) (m n : WriteMode) → Spells text m → Spells text n → m ≡ n
Spells-unique text m n h k = some-injective m n (sym (Spells-read text m h) ∙ Spells-read text n k)

IsMode-unique :
    (default : WriteMode) (o : Option String) (m n : WriteMode)
    → IsMode default o m
    → IsMode default o n
    → m ≡ n
IsMode-unique default none m n h k = h ∙ sym k
IsMode-unique default (some text) m n h k = Spells-unique text m n h k

pub IsChosen-cases :
    (definition output : Option String)
    → ((mode : WriteMode) × (get_write_mode definition output ≡ ok mode)
        × IsChosen definition output mode)
      ⊎ ((e : Error) × (get_write_mode definition output ≡ err e)
          × ((mode : WriteMode) → ¬ IsChosen definition output mode))
unfolding get_write_mode
IsChosen-cases definition output = elim (IsMode-cases overwrite_mode definition) [
  | inr (invalid, never) ↦ inr (
    value_error (invalid_write_mode output),
    rw invalid refl,
    λ mode (defined, h, k). never defined h,
  )
  | inl (defined, read, is_defined) ↦ elim (IsMode-cases defined output) [
    | inl (mode, chosen, is_mode) ↦
        inl (mode, rw (read, chosen) refl, (defined, is_defined, is_mode))
    | inr (invalid, never) ↦ inr (
      value_error (invalid_write_mode output),
      rw (read, invalid) refl,
      λ mode (other, h, k). never mode (
          subst (λ m. IsMode m output mode)
            (IsMode-unique overwrite_mode definition other defined h is_defined) k),
    )
  ]
]
