-- ===== src/Engine/Drop.antt =====
-- Dropping catalogs, schemas and views (ella-engine/src/cluster.rs, catalog.rs, schema.rs): which drops
-- return, and what a refused one leaves.
use ella.Prelude.{◌≡◌, refl, ◌∙◌, ap, Bool, true, none, some, List, ◌∷◌, ◌==◌, eq_text_refl, arith}
use ella.Prelude.DashMap
use ella.Prelude.DashMap.Laws.{IsUnique, get-remove}
use ella.Prelude.Result.{EngineError, err}
use ella.External.{External}
use ella.Registry.Id.{Ident, table_of}
use ella.Registry.Transaction.{drop_table, drop_catalog}
use ella.Registry.LogApi.{LogApi}
use ella.Engine.Outcome.{Outcome, failed, blocked, engine, and_then}
use ella.Engine.Table.{EllaView, view_table}
use ella.Engine.World.{EllaSchema, EllaCatalog, World, Services, commit, drop_shards}
use ella.Engine.Schema
use ella.Engine.Schema.{drop_view, deregister}
use ella.Engine.Catalog.{schema, deregister_schema, drop_each_schema, drop_schemas}
use ella.Engine.Cluster.{EllaCluster, catalog, in_world, deregister_catalog}

module _ {X : External} {L : LogApi X} (V : Services L) where
  held_bucket : (k : Ident) → (V.bucket k == V.bucket k) ≡ true
  held_bucket k = ground arith

  -- The first schema that `drop_schemas` comes to is one whose lock its iterator holds.
  deregister_schema-blocked :
      (s : EllaSchema X) (m : List (Ident × EllaSchema X)) (a : EllaCatalog X) (w : World L)
      → a.schemas ≡ (s.id.schema, s) ∷ m
      → deregister_schema V (some s.id.schema) s.id.schema true true (a, w) ≡ ((a, w), blocked)
  unfolding deregister_schema schema DashMap.get
  deregister_schema-blocked s m a w e =
      let first : DashMap.get s.id.schema a.schemas ≡ some s =
        rw (e, DashMap.get, eq_text_refl s.id.schema) refl in
      rw (first, deregister_schema, schema, held_bucket s.id.schema) refl

  drop_schemas-blocked :
      (s : EllaSchema X) (m : List (Ident × EllaSchema X)) (a : EllaCatalog X) (w : World L)
      → a.schemas ≡ (s.id.schema, s) ∷ m
      → drop_schemas V (a, w) ≡ ((a, w), blocked)
  unfolding drop_schemas drop_each_schema and_then
  drop_schemas-blocked s m a w e =
      ap (λ l. drop_each_schema V l (a, w)) e
      ∙ ap (λ r. and_then r (λ _ p. drop_each_schema V m p)) (deregister_schema-blocked s m a w e)

  -- What `CASCADE` does to a catalog, by how dropping its schemas ends.
  cascade :
      (i : Ident) (a : EllaCatalog X) (c : EllaCluster L)
      → DashMap.get i c.catalogs ≡ some a
      → drop_schemas V (a, c.world) ≡ ((a, c.world), blocked)
      → deregister_catalog V i true c
        ≡ (record { catalogs = DashMap.remove i c.catalogs; world = c.world }, blocked)
  unfolding deregister_catalog catalog and_then
  cascade i a c h e =
      rw (h, deregister_catalog, catalog)
        (ap
          (λ (d : (EllaCatalog X × World L) × Outcome (Unit {0})).
            in_world (record c { catalogs = DashMap.remove i c.catalogs })
              (and_then (d.0.1, d.1)
                (λ _ w.
                  commit V (λ u. drop_catalog (record { uuid = u; id = record { id = i } })) w)))
          e)

  -- Dropping a catalog of the cluster with `CASCADE`, where its first schema is filed under its own id,
  -- never returns: it takes the catalog out of the cluster and then waits for a lock that the drop
  -- itself holds; nothing is committed.
  pub deregister_catalog-blocked :
      (i : Ident) (a : EllaCatalog X) (s : EllaSchema X) (m : List (Ident × EllaSchema X))
      (c : EllaCluster L)
      → DashMap.get i c.catalogs ≡ some a
      → a.schemas ≡ (s.id.schema, s) ∷ m
      → deregister_catalog V i true c
        ≡ (record { catalogs = DashMap.remove i c.catalogs; world = c.world }, blocked)
  deregister_catalog-blocked i a s m c h e = cascade i a c h (drop_schemas-blocked s m a c.world e)

  -- Dropping a view that a schema, whose tables have distinct names, has, where the log refuses the
  -- transaction: the error is returned, the view is gone from memory, and the next restart replays the
  -- same transactions as before.
  pub drop_view-refused :
      (i : Ident) (if_exists : Bool) (s : EllaSchema X) (w : World L) (v : EllaView X)
      (e : EngineError)
      → DashMap.get i s.tables ≡ some (view_table v)
      → IsUnique s.tables
      → (L.commit (drop_table (record { uuid = V.fresh w.drawn; id = table_of s.id i })) w.log).1
        ≡ err e
      → ((drop_view V i if_exists (s, w)).1 ≡ failed (engine e))
        × (Schema.table i (drop_view V i if_exists (s, w)).0.0 ≡ none)
        × (L.replayed (drop_view V i if_exists (s, w)).0.1.log ≡ L.replayed w.log)
  unfolding drop_view deregister Schema.table drop_shards and_then commit
  drop_view-refused i if_exists s w v e h u k = (
    rw (h, drop_view, deregister, Schema.table, k) refl,
    rw (h, drop_view, deregister, Schema.table, get-remove i i s.tables u, eq_text_refl i) refl,
    rw (h, drop_view, deregister, Schema.table) (L.replayed-commit_err _ w.log e k),
  )
