-- ===== src/Engine/Schema.antt =====
-- `EllaSchema` of ella-engine/src/schema.rs: the tables of a schema. A table is put into the map after
-- its transaction is committed, and is taken out before.
use ella.Prelude.{Bool, true, false, Option, none, some, List, [], ◌∷◌, if◌then◌else◌, map}
use ella.Prelude.DashMap
use ella.Prelude.Result.{table_exists, table_not_found}
use ella.External.{External}
use ella.Registry.Id.{Ident, SchemaId, table_of}
use ella.Registry.TableRef.{display_id}
use ella.Registry.Transaction.{create_table, drop_table}
use ella.Registry.LogApi.{LogApi}
use ella.Engine.Outcome.{Outcome, done, failed, engine, and_then}
use ella.Engine.Table.{EllaTable, id_of, transaction, topic_table, view_table}
use ella.Engine.World.{
  EllaSchema, World, Services, with_left, commit, drop_shards, close_each, close_table,
}

abbrev pub holds {ℓ} : {A : Type ℓ} → Option A → Bool
holds none = false
holds (some a) = true

-- The tests that `drop_topic`, `drop_view` and `drop_table` give to `deregister`.
abbrev pub is_topic : {X : External} → EllaTable X → Bool
is_topic (topic_table t) = true
is_topic (view_table v) = false

abbrev pub is_view : {X : External} → EllaTable X → Bool
is_view (topic_table t) = false
is_view (view_table v) = true

abbrev pub any_table : {X : External} → EllaTable X → Bool
any_table t = true

-- The value that `DashMap::remove_if` removes.
abbrev pub removable :
    {X : External} → (EllaTable X → Bool) → Option (EllaTable X) → Option (EllaTable X)
removable f none = none
removable f (some t) = if f t then some t else none

module _ {X : External} where
  -- `EllaSchema::new`
  unfoldable pub schema_new : SchemaId → EllaSchema X
  schema_new i = record { id = i; tables = [] }

  -- `EllaSchema::table`
  unfoldable pub table : Ident → EllaSchema X → Option (EllaTable X)
  unfolding DashMap.get
  table i s = DashMap.get i s.tables

module _ {X : External} {L : LogApi X} (V : Services L) where
  unfoldable pub register :
      Ident → EllaTable X → EllaSchema X × World L → (EllaSchema X × World L) × Outcome (Unit {0})
  unfolding table DashMap.insert commit and_then transaction display_id table_of
  register i t (s, w) =
      if holds (table i s)
      then ((s, w), failed (engine (table_exists (display_id (table_of s.id i)))))
      else and_then (with_left s (commit V (λ u. create_table (transaction u t)) w))
          (λ _ p. ((record s { tables = DashMap.insert i t s.tables }, p.1), done tt))

  unfoldable pub deregister :
      Ident
      → Bool
      → (EllaTable X → Bool)
      → EllaSchema X × World L
      → (EllaSchema X × World L) × Outcome (Unit {0})
  unfolding table DashMap.remove commit and_then drop_shards display_id table_of
  deregister i if_exists f (s, w) = elim (removable f (table i s)) [
    | some t ↦
        with_left (record s { tables = DashMap.remove i s.tables })
          (and_then (drop_shards V t w)
            (λ _ w. commit V (λ u. drop_table (record { uuid = u; id = table_of s.id i })) w))
    | none ↦ (
      (s, w),
      if if_exists
          then done tt
          else failed (engine (table_not_found (display_id (table_of s.id i)))),
    )
  ]

  unfoldable pub drop_table_named :
      Ident → Bool → EllaSchema X × World L → (EllaSchema X × World L) × Outcome (Unit {0})
  unfolding deregister
  drop_table_named i if_exists = deregister i if_exists any_table

  unfoldable pub drop_topic :
      Ident → Bool → EllaSchema X × World L → (EllaSchema X × World L) × Outcome (Unit {0})
  unfolding deregister
  drop_topic i if_exists = deregister i if_exists is_topic

  unfoldable pub drop_view :
      Ident → Bool → EllaSchema X × World L → (EllaSchema X × World L) × Outcome (Unit {0})
  unfolding deregister
  drop_view i if_exists = deregister i if_exists is_view

  -- The loop of `EllaSchema::drop_tables`, over the tables' ids that were collected before.
  unfoldable pub drop_each :
      List Ident → EllaSchema X × World L → (EllaSchema X × World L) × Outcome (Unit {0})
  unfolding deregister and_then
  drop_each [] p = (p, done tt)
  drop_each (i ∷ is) p = and_then (deregister i true any_table p) (λ _ p. drop_each is p)

  unfoldable pub drop_tables :
      EllaSchema X × World L → (EllaSchema X × World L) × Outcome (Unit {0})
  unfolding drop_each id_of DashMap.values
  drop_tables p = drop_each (map (λ t. (id_of t).table) (DashMap.values p.0.tables)) p

  -- `EllaSchema::close`
  unfoldable pub close_schema :
      EllaSchema X → World L → (EllaSchema X × World L) × Outcome (Unit {0})
  unfolding close_each close_table
  close_schema s w =
      let r = close_each (close_table V) s.tables w in ((record s { tables = r.0.0 }, r.0.1), r.1)
