-- ===== src/OpenLineage/Assets/Lineage.antt =====
-- What the datasets of a materialization say of the assets.
use community_integrations.Base.{
  ℕ, ◌≡◌, ◌↔◌, inl, inr, refl, sym, ap, ◌∙◌, false, List, [], ◌∷◌, ◌++◌, Option, ◌==◌, nat_eq,
}
use mathlib.Core.List.{map}
use community_integrations.Base.Dict.{Dict}
use community_integrations.Base.Lists.{All}
use community_integrations.Base.Members.{In}
use community_integrations.Base.Text.{Text}
use community_integrations.OpenLineage.Naming.Resolve.{split, slashed, join_slash}
use community_integrations.OpenLineage.Assets.{
  AssetPath, Named, Adapter, dataset_in, upstream_or_none, namespace_of, asset_materialization,
}

abbrev pub IsSlashFree : Text → Type 0
IsSlashFree t = All (λ c. (c == b'/') ≡ false) t

-- A path of at least one part, of which none has a slash.
abbrev pub IsPlain : AssetPath → Type 0
IsPlain [] = ⊥
IsPlain (w ∷ ws) = IsSlashFree w × All IsSlashFree ws

split-append :
    (w : Text) (ws : List Text)
    → IsSlashFree w
    → split (slashed ws) ≡ ([], ws)
    → split (w ++ slashed ws) ≡ (w, ws)
unfolding split
split-append [] ws plain h = h
split-append (c ∷ cs) ws (other, plain) h = rw (split-append cs ws plain h) (rw other refl)

split-slashed : (ws : List Text) → All IsSlashFree ws → split (slashed ws) ≡ ([], ws)
unfolding split nat_eq
split-slashed [] plain = refl
split-slashed (w ∷ ws) (first, plain) = rw (split-append w ws first (split-slashed ws plain)) refl

abbrev pieces : Text × List Text → List Text
pieces (first, others) = first ∷ others

split-join_slash : (path : AssetPath) → IsPlain path → pieces (split (join_slash path)) ≡ path
unfolding join_slash
split-join_slash [] plain = absurd plain
split-join_slash (w ∷ ws) (first, plain) =
    rw (split-append w ws first (split-slashed ws plain)) refl

module _ (namespace : Text) where
  dataset_in-injective :
      (p q : AssetPath)
      → IsPlain p
      → IsPlain q
      → dataset_in namespace p ≡ dataset_in namespace q
      → p ≡ q
  dataset_in-injective p q plain_p plain_q h =
      sym (split-join_slash p plain_p)
      ∙ ap (λ (d : Named). pieces (split d.name)) h
      ∙ split-join_slash q plain_q

  In-datasets :
      (q : AssetPath) (ps : List AssetPath)
      → IsPlain q
      → All IsPlain ps
      → In (dataset_in namespace q) (map (dataset_in namespace) ps) ↔ In q ps
  In-datasets q [] plain all = (λ i. i, λ i. i)
  In-datasets q (p ∷ ps) plain (here, all) =
      let (from, to) = In-datasets q ps plain all in
      (
        λ i. elim i [ inl e ↦ inl (dataset_in-injective q p plain here e) | inr j ↦ inr (from j) ],
        λ i. elim i [ inl e ↦ inl (ap (dataset_in namespace) e) | inr j ↦ inr (to j) ],
      )

pub asset_materialization_lineage :
    (to_user_string : AssetPath → Text) (iso : ℕ → Text) (adapter : Adapter) (path : AssetPath)
    (run : Text) (time : ℕ) (upstream : Option (List AssetPath)) (tags : Option (Dict Text Text))
    (q : AssetPath)
    → IsPlain path
    → All IsPlain (upstream_or_none upstream)
    → IsPlain q
    → let e = asset_materialization to_user_string iso adapter path run time upstream tags in
      let d = dataset_in (namespace_of adapter tags) q in
      (In d e.inputs ↔ In q (upstream_or_none upstream)) × (In d e.outputs ↔ (q ≡ path))
unfolding asset_materialization
asset_materialization_lineage to_user_string iso adapter path run time upstream tags q plain all
      plain_q =
    (
      In-datasets (namespace_of adapter tags) q (upstream_or_none upstream) plain_q all,
      (
        λ i. elim i [
          | inl e ↦ dataset_in-injective (namespace_of adapter tags) q path plain_q plain e
          | inr j ↦ absurd j
        ],
        λ e. inl (ap (dataset_in (namespace_of adapter tags)) e),
      ),
    )
