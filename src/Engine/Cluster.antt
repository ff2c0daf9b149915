-- ===== src/Engine/Cluster.antt =====
-- `EllaCluster` of ella-engine/src/cluster.rs: the catalogs of a datastore.
use ella.Prelude.{codes, Bool, ◌||◌, Option, none, some, List, ◌++◌, if◌then◌else◌}
use ella.Prelude.DashMap
use ella.Prelude.Result.{catalog_exists, catalog_not_found}
use ella.External.{External}
use ella.Registry.Id.{Ident}
use ella.Registry.Transaction.{create_catalog, drop_catalog, new_catalog}
use ella.Registry.LogApi.{LogApi}
use ella.Engine.Outcome.{Outcome, done, failed, engine, execution, and_then}
use ella.Engine.World.{EllaCatalog, World, Services, commit, close_each}
use ella.Engine.Catalog.{catalog_new, drop_schemas, close_catalog}

-- The value that `EllaCluster::create_catalog` registers.
unfoldable pub new_catalog_named : {X : External} → Ident → EllaCatalog X
unfolding catalog_new
new_catalog_named i = catalog_new (record { id = i })

pub record EllaCluster {X : External} (L : LogApi X) : Type 0 where
  pub catalogs : List (Ident × EllaCatalog X)
  pub world : World L

module _ {X : External} {L : LogApi X} where
  -- `EllaCluster::catalog`
  unfoldable pub catalog : Ident → EllaCluster L → Option (EllaCatalog X)
  unfolding DashMap.get
  catalog i c = DashMap.get i c.catalogs

  -- The cluster with what a method did to the log.
  abbrev pub in_world {ℓ} :
      {A : Type ℓ} → EllaCluster L → World L × Outcome A → EllaCluster L × Outcome A
  in_world c r = (record c { world = r.0 }, r.1)

  -- What a method of the catalog with this id left, written back into the cluster.
  unfoldable pub put_catalog : Ident → EllaCluster L → EllaCatalog X × World L → EllaCluster L
  unfolding DashMap.modify
  put_catalog i c p = record { catalogs = DashMap.modify i (λ _. p.0) c.catalogs; world = p.1 }

  abbrev pub in_catalog {ℓ} :
      {A : Type ℓ}
      → Ident
      → EllaCluster L
      → (EllaCatalog X × World L) × Outcome A
      → EllaCluster L × Outcome A
  in_catalog i c r = (put_catalog i c r.0, r.1)

module _ {X : External} {L : LogApi X} (V : Services L) where
  -- `EllaCluster::register`, which returns the catalog that it replaces.
  unfoldable pub register_catalog :
      Ident → EllaCatalog X → EllaCluster L → EllaCluster L × Outcome (Option (EllaCatalog X))
  unfolding commit and_then DashMap.insert catalog new_catalog
  register_catalog i a c =
      and_then
        (in_world c
          (commit V (λ u. create_catalog (new_catalog u (record { id = i }) V.root)) c.world))
        (λ _ d. (record d { catalogs = DashMap.insert i a d.catalogs }, done (catalog i d)))

  -- `EllaCluster::create_catalog`
  unfoldable pub open_catalog :
      Ident → Bool → EllaCluster L → EllaCluster L × Outcome (EllaCatalog X)
  unfolding catalog register_catalog and_then
  open_catalog i if_not_exists c = elim (catalog i c) [
    | some a ↦ (c, if if_not_exists then done a else failed (engine (catalog_exists i)))
    | none ↦
        and_then (register_catalog i (new_catalog_named i) c)
          (λ _ d. (d, done (new_catalog_named i)))
  ]

  -- `EllaCluster::deregister`
  unfoldable pub deregister_catalog :
      Ident → Bool → EllaCluster L → EllaCluster L × Outcome (Unit {0})
  unfolding catalog DashMap.is_empty DashMap.remove drop_schemas commit and_then
  deregister_catalog i cascade c = elim (catalog i c) [
    | some a ↦
        if cascade || DashMap.is_empty a.schemas
        then in_world (record c { catalogs = DashMap.remove i c.catalogs })
            (let dropped = drop_schemas V (a, c.world) in
              and_then (dropped.0.1, dropped.1)
                (λ _ w.
                  commit V (λ u. drop_catalog (record { uuid = u; id = record { id = i } })) w))
        else (c, failed (execution (codes "cannot remove non-empty catalog " ++ i)))
    | none ↦ (c, failed (engine (catalog_not_found i)))
  ]

  -- `EllaCluster::close`
  unfoldable pub close_cluster : EllaCluster L → EllaCluster L × Outcome (Unit {0})
  unfolding close_each close_catalog
  close_cluster c =
      let r = close_each (close_catalog V) c.catalogs c.world in
      (record { catalogs = r.0.0; world = r.0.1 }, r.1)
