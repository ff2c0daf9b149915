-- ===== src/Engine/World.antt =====
-- The tree of an open datastore in memory (ella-engine/src/cluster.rs, catalog.rs, schema.rs), and what
-- its methods share: the transaction log and the ids that are drawn.
use ella.Prelude.{ℕ, suc, ◌+◌, Text, List, ◌∷◌, length, Option, none, some, [], ◌≡◌, inl, inr}
use ella.Prelude.Result.{ok, EngineError, err, Result-cases}
use ella.External.{External}
use ella.Registry.Id.{Ident, CatalogId, SchemaId}
use ella.Registry.Info.{ShardInfo}
use ella.Registry.Transaction.{Transaction}
use ella.Registry.LogApi.{LogApi}
use ella.Topic.ShardSet
use ella.Topic.ShardSet.{ShardSet}
use ella.Engine.Outcome.{Outcome, done, failed, panicked, blocked, of_result, and_then}
use ella.Engine.Table.{EllaTopic, EllaTable, topic_table, view_table}

module _ (X : External) where
  pub record EllaSchema : Type 0 where
    pub id : SchemaId
    pub tables : List (Ident × EllaTable X)

  pub record EllaCatalog : Type 0 where
    pub id : CatalogId
    pub schemas : List (Ident × EllaSchema)

-- The log, and the number of ids drawn so far.
pub record World {X : External} (L : LogApi X) : Type 0 where
  pub log : L.Log
  pub drawn : ℕ

-- What the methods use and this model does not contain: the root's path, the source of fresh ids, the
-- bucket whose lock a `DashMap` takes for a key, the shutdown of a topic's buffer and worker (which
-- may commit transactions and change the topic's shards), and the columns and the resolution of a
-- view's plan, which looks its tables up in the catalogs.
pub record Services {X : External} (L : LogApi X) : Type 0 where
  pub root : X.UrlPath
  pub fresh : ℕ → ℕ
  pub bucket : Ident → ℕ
  pub close_topic : EllaTopic X → World L → (EllaTopic X × World L) × Outcome (Unit {0})
  pub plan_columns : X.Plan → List Text
  pub resolve_plan : X.Plan → List (Ident × EllaCatalog X) → Outcome X.LogicalPlan

-- A method's end, with a part of the state that the method did not see.
abbrev pub with_left {ℓ} : {S W : Type 0} {A : Type ℓ} → S → W × Outcome A → (S × W) × Outcome A
with_left s r = ((s, r.0), r.1)

-- The `Ok(_)` and `Err(_)` of a close; a panic ends the joined future.
unfoldable pub joined : Outcome (Unit {0}) → Outcome (Unit {0}) → Outcome (Unit {0})
joined (done _) later = later
joined (failed e) (done _) = failed e
joined (failed e) (failed _) = failed e
joined (failed e) panicked = panicked
joined (failed e) blocked = blocked
joined panicked later = panicked
joined blocked later = blocked

module _ {X : External} {L : LogApi X} where
  -- `join_all` of the entries' `close`, and the first error among the results. The futures are run
  -- in the map's order.
  unfoldable pub close_each :
      {A : Type 0}
      → (A → World L → (A × World L) × Outcome (Unit {0}))
      → List (Ident × A)
      → World L
      → (List (Ident × A) × World L) × Outcome (Unit {0})
  unfolding joined
  close_each close [] w = (([], w), done tt)
  close_each close ((k, a) ∷ m) w =
      let first = close a w in
      let rest = close_each close m first.0.1 in
      (((k, first.0.0) ∷ rest.0.0, rest.0.1), joined first.1 rest.1)

module _ {X : External} {L : LogApi X} (V : Services L) where
  -- `self.log.commit(..)` of a transaction with a fresh id.
  unfoldable pub commit : (ℕ → Transaction X) → World L → World L × Outcome (Unit {0})
  commit t w = (
    record { log = (L.commit (t (V.fresh w.drawn)) w.log).0; drawn = suc w.drawn },
    of_result (L.commit (t (V.fresh w.drawn)) w.log).1,
  )

  -- A predicate of the state where a method goes on after its commit, or ends because the log refused
  -- the transaction.
  pub and_then-commit {ℓ κ} :
      {S : Type 0} {B : Type ℓ} (P : S → Type κ) (t : ℕ → Transaction X) (w : World L)
      (wrap : World L → S) (rest : Unit {0} → S → S × Outcome B)
      → ((L.commit (t (V.fresh w.drawn)) w.log).1 ≡ ok tt → P (rest tt (wrap (commit t w).0)).0)
      → ((e : EngineError)
          → (L.commit (t (V.fresh w.drawn)) w.log).1 ≡ err e
          → P (wrap (commit t w).0))
      → P (and_then (wrap (commit t w).0, (commit t w).1) rest).0
  unfolding commit and_then
  and_then-commit P t w wrap rest h k =
      elim (Result-cases (L.commit (t (V.fresh w.drawn)) w.log).1) [
        | inl (_, e) ↦ rw (e, and_then) (h e)
        | inr (x, e) ↦ rw (e, and_then) (k x e)
      ]

  -- `ShardManager::delete_all`, on the shards of a topic.
  unfoldable pub delete_shards :
      EllaTopic X → Option (List (ℕ × ShardInfo X)) → World L → World L × Outcome (Unit {0})
  unfolding ShardSet.delete_all
  delete_shards t none w = (w, done tt)
  delete_shards t (some m) w =
      let set : ShardSet L = record { table = t.table; path = t.path; shards = m; log = w.log } in
      let end = ShardSet.delete_all (λ k. V.fresh (w.drawn + k)) set in
      (record { log = end.0.log; drawn = w.drawn + length m }, of_result end.1)

  -- `EllaTable::close`; a view has nothing to close.
  unfoldable pub close_table : EllaTable X → World L → (EllaTable X × World L) × Outcome (Unit {0})
  close_table (topic_table t) w =
      ((topic_table (V.close_topic t w).0.0, (V.close_topic t w).0.1), (V.close_topic t w).1)
  close_table (view_table v) w = ((view_table v, w), done tt)

  -- `EllaTable::drop_shards` and `EllaTopic::drop_shards`, of a table that its schema has let go.
  unfoldable pub drop_shards : EllaTable X → World L → World L × Outcome (Unit {0})
  unfolding delete_shards and_then
  drop_shards (topic_table t) w =
      let closed = V.close_topic t w in
      and_then (closed.0.1, closed.1) (λ _ w. delete_shards closed.0.0 closed.0.0.shards w)
  drop_shards (view_table v) w = (w, done tt)
