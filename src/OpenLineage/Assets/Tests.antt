-- ===== src/OpenLineage/Assets/Tests.antt =====
-- An asset that is made of another.
use community_integrations.Base.{◌≡◌, ◌↔◌, refl, [], ◌∷◌, none, some, nat_eq}
use community_integrations.Base.Members.{In}
use community_integrations.Base.Text.{codes}
use community_integrations.OpenLineage.Assets.{
  AssetPath, Adapter, dataset_in, namespace_of, asset_materialization,
}
use community_integrations.OpenLineage.Assets.Lineage.{IsPlain, asset_materialization_lineage}

abbrev adapter : Adapter
adapter = record { namespace = codes "prod"; parsed_template = none }

abbrev orders : AssetPath
orders = codes "shop" ∷ codes "orders" ∷ []

abbrev raw : AssetPath
raw = codes "raw" ∷ []

orders-IsPlain : IsPlain orders
unfolding nat_eq
orders-IsPlain =
    ((refl, (refl, (refl, (refl, tt)))), ((refl, (refl, (refl, (refl, (refl, (refl, tt)))))), tt))

raw-IsPlain : IsPlain raw
unfolding nat_eq
raw-IsPlain = ((refl, (refl, (refl, tt))), tt)

asset_materialization_lineage_example :
    let e =
      asset_materialization
        (λ p. codes "shop/orders")
        (λ t. [])
        adapter
        orders
        (codes "r1")
        5
        (some (raw ∷ []))
        none in
    let d = dataset_in (namespace_of adapter none) raw in
    (In d e.inputs ↔ In raw (raw ∷ [])) × (In d e.outputs ↔ (raw ≡ orders))
asset_materialization_lineage_example =
    asset_materialization_lineage (λ p. codes "shop/orders") (λ t. []) adapter orders (codes "r1") 5
      (some (raw ∷ [])) none raw orders-IsPlain (raw-IsPlain, tt) raw-IsPlain
