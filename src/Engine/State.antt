-- ===== src/Engine/State.antt =====
-- `EllaState` of ella-engine/src/engine/state.rs: creating topics, views, schemas and catalogs by their
-- full ids.
use ella.Prelude.{Text, codes, Bool, true, Option, none, some, List, ◌++◌, if◌then◌else◌}
use ella.Prelude.DashMap
use ella.Prelude.Result.{catalog_not_found, schema_not_found, table_exists}
use ella.External.{External}
use ella.Config.{EllaConfig}
use ella.Registry.Id.{Ident, SchemaRef, TableRef, TableId}
use ella.Registry.SchemaRef
use ella.Registry.TableRef
use ella.Registry.TableRef.{display_id}
use ella.Registry.Info.{TopicInfo, ViewInfo, TableInfo, topic, view}
use ella.Registry.LogApi.{LogApi}
use ella.Engine.Outcome.{Outcome, done, failed, engine, execution, and_then, bind, map_outcome}
use ella.Engine.Table.{
  EllaTopic, EllaView, EllaTable, topic_table, view_table, as_topic, as_view, topic_new, view_new,
  set_plan,
}
use ella.Engine.World.{EllaSchema, EllaCatalog, World, Services}
use ella.Engine.Schema
use ella.Engine.Catalog
use ella.Engine.Schema.{register, drop_table_named}
use ella.Engine.Catalog.{open_schema}
use ella.Engine.Cluster.{EllaCluster, catalog, in_catalog, put_catalog, open_catalog}

module _ {X : External} {L : LogApi X} where
  -- `EllaState::table`
  unfoldable pub table_in : TableId → EllaCluster L → Option (EllaTable X)
  unfolding catalog Catalog.schema Schema.table
  table_in i c = elim (catalog i.catalog c) [
    | none ↦ none
    | some a ↦ elim (Catalog.schema i.schema a) [ none ↦ none | some s ↦ Schema.table i.table s ]
  ]

  -- What a method of a schema of the catalog left, written back.
  unfoldable pub put_schema :
      TableId → EllaCatalog X → EllaCluster L → EllaSchema X × World L → EllaCluster L
  unfolding DashMap.modify put_catalog
  put_schema i a c p =
      put_catalog i.catalog c
        (record a { schemas = DashMap.modify i.schema (λ _. p.0) a.schemas }, p.1)

  abbrev pub in_schema {ℓ} :
      {A : Type ℓ}
      → TableId
      → EllaCatalog X
      → EllaCluster L
      → (EllaSchema X × World L) × Outcome A
      → EllaCluster L × Outcome A
  in_schema i a c r = (put_schema i a c r.0, r.1)

-- The complaints about a table of the other kind.
unfoldable pub not_a_topic : TableId → Text
unfolding display_id
not_a_topic i = codes "table " ++ display_id i ++ codes " exists but is a view not a topic"

unfoldable pub not_a_view : TableId → Text
unfolding display_id
not_a_view i = codes "table " ++ display_id i ++ codes " exists but is a topic not a view"

-- What `create_topic` and `create_view` do alike: the value is built by `build`, `of` puts it into a
-- table, `taken` takes it out of an existing one, and `other` is the complaint about one of the other kind.
module _ {X : External} {L : LogApi X} (V : Services L) {T : Type 0} (of : T → EllaTable X)
    (taken : EllaTable X → Option T) (other : Text) where
  -- The arms that build a value and register it, the second one after dropping what was there.
  unfoldable pub build_entry :
      TableId → Outcome T → EllaSchema X × World L → (EllaSchema X × World L) × Outcome T
  unfolding and_then register
  build_entry i build p =
      and_then (p, build) (λ t p. and_then (register V i.table (of t) p) (λ _ p. (p, done t)))

  unfoldable pub replace_entry :
      TableId → Outcome T → EllaSchema X × World L → (EllaSchema X × World L) × Outcome T
  unfolding and_then register drop_table_named
  replace_entry i build p =
      and_then (p, build)
        (λ t p.
          and_then (drop_table_named V i.table true p)
            (λ _ p. and_then (register V i.table (of t) p) (λ _ p. (p, done t))))

  -- The match on the two flags and the existing table.
  unfoldable pub create_entry :
      TableId
      → Bool
      → Bool
      → Outcome T
      → EllaSchema X × World L
      → (EllaSchema X × World L) × Outcome T
  unfolding build_entry replace_entry Schema.table display_id
  create_entry i if_not_exists or_replace build p = elim (Schema.table i.table p.0) [
    | none ↦ build_entry i build p
    | some t ↦
        if if_not_exists
        then if or_replace
          then (p, failed (execution (codes "IF NOT EXISTS and REPLACE cannot both be specified")))
          else (p, elim (taken t) [ some x ↦ done x | none ↦ failed (execution other) ])
        else if or_replace
        then replace_entry i build p
        else (p, failed (engine (table_exists (display_id i))))
  ]

  -- The lookups of the catalog and the schema come first.
  unfoldable pub create_in :
      TableId → Bool → Bool → Outcome T → EllaCluster L → EllaCluster L × Outcome T
  unfolding catalog Catalog.schema create_entry
  create_in i if_not_exists or_replace build c = elim (catalog i.catalog c) [
    | none ↦ (c, failed (engine (catalog_not_found i.catalog)))
    | some a ↦ elim (Catalog.schema i.schema a) [
      | none ↦ (c, failed (engine (schema_not_found i.schema)))
      | some s ↦ in_schema i a c (create_entry i if_not_exists or_replace build (s, c.world))
    ]
  ]

module _ {X : External} {L : LogApi X} (V : Services L) where
  unfoldable pub create_topic :
      TableId → TopicInfo X → Bool → Bool → EllaCluster L → EllaCluster L × Outcome (EllaTopic X)
  unfolding create_in as_topic topic_new
  create_topic i t if_not_exists or_replace =
      create_in V topic_table as_topic (not_a_topic i) i if_not_exists or_replace
        (topic_new V.root i t)

  -- `EllaView::new` with `resolve` set.
  unfoldable pub resolved_view :
      TableId → ViewInfo X → List (Ident × EllaCatalog X) → Outcome (EllaView X)
  unfolding view_new bind map_outcome set_plan
  resolved_view i v catalogs =
      bind (view_new (V.plan_columns v.plan) i v)
        (λ x. map_outcome (λ p. set_plan p x) (V.resolve_plan v.plan catalogs))

  unfoldable pub create_view :
      TableId → ViewInfo X → Bool → Bool → EllaCluster L → EllaCluster L × Outcome (EllaView X)
  unfolding create_in as_view resolved_view
  create_view i v if_not_exists or_replace c =
      create_in V view_table as_view (not_a_view i) i if_not_exists or_replace
        (resolved_view i v c.catalogs) c

  unfoldable pub create_table_as :
      TableId → TableInfo X → Bool → Bool → EllaCluster L → EllaCluster L × Outcome (EllaTable X)
  unfolding create_topic create_view map_outcome
  create_table_as i (topic t) if_not_exists or_replace c =
      let r = create_topic i t if_not_exists or_replace c in (r.0, map_outcome topic_table r.1)
  create_table_as i (view v) if_not_exists or_replace c =
      let r = create_view i v if_not_exists or_replace c in (r.0, map_outcome view_table r.1)

  -- `EllaState::create_schema`, of a reference that may leave the catalog to the default.
  unfoldable pub create_schema_in :
      EllaConfig X → SchemaRef → Bool → EllaCluster L → EllaCluster L × Outcome (EllaSchema X)
  unfolding SchemaRef.resolve catalog open_schema
  create_schema_in config r if_not_exists c =
      let i = SchemaRef.resolve r config.default_catalog in
      elim (catalog i.catalog c) [
        | none ↦ (c, failed (engine (catalog_not_found i.catalog)))
        | some a ↦ in_catalog i.catalog c (open_schema V i.schema if_not_exists (a, c.world))
      ]

  -- `EllaState::resolve`
  unfoldable pub resolve_table : EllaConfig X → TableRef → TableId
  unfolding TableRef.resolve
  resolve_table config r = TableRef.resolve r config.default_catalog config.default_schema

  -- The end of `EllaState::restore`: the default catalog and schema.
  unfoldable pub open_defaults : EllaConfig X → EllaCluster L → EllaCluster L × Outcome (Unit {0})
  unfolding open_catalog open_schema and_then
  open_defaults config c = and_then (open_catalog V config.default_catalog true c) (λ a c.
      and_then
        (in_catalog config.default_catalog c
          (open_schema V config.default_schema true (a, c.world)))
        (λ _ c. (c, done tt)))
