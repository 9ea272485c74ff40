-- ===== src/Iceberg/Predicates/Sql.antt =====
-- The text of the SQL filters.
use community_integrations.Base.{◌≡◌, refl, String, [], ◌∷◌}
use community_integrations.Base.Text.{◌<>◌, join}
use community_integrations.Iceberg.Predicates.{sql_filters}
use text.Mathlib.TextLemmas.{append_assoc}

quote_or : (x : String) → "' OR " <> x ≡ "'" <> " OR " <> x
quote_or x = append_assoc "'" " OR " x

-- The keys are put between quotes as they are: the filter of three keys is, as a text, that of two,
-- of which the second has quotes in it.
pub sql_filters_merge :
    (column k l m : String)
    → sql_filters column (k ∷ l ∷ m ∷ [])
      ≡ sql_filters column (k ∷ (l <> "' OR " <> column <> " = '" <> m) ∷ [])
unfolding sql_filters join
sql_filters_merge column k l m = simp (append_assoc, quote_or) refl
