-- ===== src/Engine/Catalog.antt =====
-- `EllaCatalog` of ella-engine/src/catalog.rs: the schemas of a catalog.
use ella.Prelude.{
  codes, Bool, true, false, ◌||◌, ◌==◌, Option, none, some, List, [], ◌∷◌, ◌++◌, if◌then◌else◌,
}
use ella.Prelude.DashMap
use ella.Prelude.Result.{schema_exists, schema_not_found}
use ella.External.{External}
use ella.Registry.Id.{Ident, CatalogId, schema_of}
use ella.Registry.Transaction.{create_schema, drop_schema, new_schema}
use ella.Registry.LogApi.{LogApi}
use ella.Engine.Outcome.{Outcome, done, failed, blocked, engine, execution, and_then}
use ella.Engine.World.{EllaSchema, EllaCatalog, World, Services, with_left, commit, close_each}
use ella.Engine.Schema.{schema_new, drop_tables, close_schema}

module _ {X : External} where
  -- `EllaCatalog::new`
  unfoldable pub catalog_new : CatalogId → EllaCatalog X
  catalog_new i = record { id = i; schemas = [] }

  -- `EllaCatalog::schema`
  unfoldable pub schema : Ident → EllaCatalog X → Option (EllaSchema X)
  unfolding DashMap.get
  schema i c = DashMap.get i c.schemas

  -- The value that `EllaCatalog::create_schema` registers.
  unfoldable pub new_schema_in : Ident → EllaCatalog X → EllaSchema X
  unfolding schema_new schema_of
  new_schema_in i c = schema_new (schema_of c.id i)

module _ {X : External} {L : LogApi X} (V : Services L) where
  -- `EllaCatalog::register`, which returns the schema that it replaces.
  unfoldable pub register_schema :
      Ident
      → EllaSchema X
      → EllaCatalog X × World L
      → (EllaCatalog X × World L) × Outcome (Option (EllaSchema X))
  unfolding commit and_then DashMap.insert schema new_schema schema_of
  register_schema i s (c, w) =
      and_then
        (with_left c (commit V (λ u. create_schema (new_schema u (schema_of c.id i) V.root)) w))
        (λ _ p. ((record c { schemas = DashMap.insert i s c.schemas }, p.1), done (schema i c)))

  -- `EllaCatalog::create_schema`
  unfoldable pub open_schema :
      Ident → Bool → EllaCatalog X × World L → (EllaCatalog X × World L) × Outcome (EllaSchema X)
  unfolding schema register_schema and_then
  open_schema i if_not_exists (c, w) = elim (schema i c) [
    | some s ↦ ((c, w), if if_not_exists then done s else failed (engine (schema_exists i)))
    | none ↦
        and_then (register_schema i (new_schema_in i c) (c, w))
          (λ _ p. (p, done (new_schema_in i c)))
  ]

  -- Whether `remove` waits for the lock of the entry that the caller is reading.
  abbrev pub waits : Option Ident → Ident → Bool
  waits none i = false
  waits (some k) i = V.bucket k == V.bucket i

  -- `EllaCatalog::deregister`; `reading` is the key of the entry that an iterator of the caller holds.
  unfoldable pub deregister_schema :
      Option Ident
      → Ident
      → Bool
      → Bool
      → EllaCatalog X × World L
      → (EllaCatalog X × World L) × Outcome (Unit {0})
  unfolding schema DashMap.is_empty DashMap.remove drop_tables commit and_then schema_of
  deregister_schema reading i if_exists cascade (c, w) = elim (schema i c) [
    | some s ↦
        if cascade || DashMap.is_empty s.tables
        then if waits reading i
          then ((c, w), blocked)
          else with_left (record c { schemas = DashMap.remove i c.schemas })
              (let dropped = drop_tables V (s, w) in
                and_then (dropped.0.1, dropped.1)
                  (λ _ w.
                    commit V (λ u. drop_schema (record { uuid = u; id = schema_of c.id i })) w))
        else ((c, w), failed (execution (codes "cannot remove non-empty schema " ++ i)))
    | none ↦ ((c, w), if if_exists then done tt else failed (engine (schema_not_found i)))
  ]

  -- The loop of `EllaCatalog::drop_schemas`, which deregisters while its iterator reads the map.
  unfoldable pub drop_each_schema :
      List (Ident × EllaSchema X)
      → EllaCatalog X × World L
      → (EllaCatalog X × World L) × Outcome (Unit {0})
  unfolding deregister_schema and_then
  drop_each_schema [] p = (p, done tt)
  drop_each_schema ((k, s) ∷ m) p =
      and_then (deregister_schema (some k) s.id.schema true true p) (λ _ p. drop_each_schema m p)

  unfoldable pub drop_schemas :
      EllaCatalog X × World L → (EllaCatalog X × World L) × Outcome (Unit {0})
  unfolding drop_each_schema
  drop_schemas p = drop_each_schema p.0.schemas p

  -- `EllaCatalog::close`
  unfoldable pub close_catalog :
      EllaCatalog X → World L → (EllaCatalog X × World L) × Outcome (Unit {0})
  unfolding close_each close_schema
  close_catalog c w =
      let r = close_each (close_schema V) c.schemas w in
      ((record c { schemas = r.0.0 }, r.0.1), r.1)
