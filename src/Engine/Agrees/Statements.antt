-- ===== src/Engine/Agrees/Statements.antt =====
-- The statements that create and drop by full ids (ella-engine/src/engine/state.rs, schema.rs): the
-- tree in memory and the one that a restart would replay stay the same.
use ella.Prelude.{
  ◌≡◌, refl, ap, Bool, false, Option, none, some, List, [], inl, inr, Option-cases, map, Text,
  if◌then◌else◌, Bool-cases, if◌then◌else◌,
}
use ella.Prelude.DashMap
use ella.External.{External}
use ella.Registry.Id.{TableId}
use ella.Registry.Info.{TopicInfo, ViewInfo, TableInfo, topic, view}
use ella.Registry.Info.Ordered.{IsShardList}
use ella.Registry.LogApi.{LogApi}
use ella.Registry.Snapshot
use ella.Registry.Snapshot.{Snapshot}
use ella.Registry.Snapshot.Invariant.{IsInfo}
use ella.Registry.Transaction.{new_topic, new_view}
use ella.Topic.ShardSet.Restart.{values-load}
use ella.Topic.ShardSet.{load}
use ella.Engine.Outcome.{
  Outcome, done, failed, panicked, blocked, of_result, and_then, and_then_kept, map_outcome, bind,
}
use ella.Engine.Table.{
  EllaTopic, EllaView, EllaTable, topic_table, view_table, id_of, transaction, topic_new, view_new,
  sorting_cols, set_plan, as_topic, as_view,
}
use ella.Engine.World.{EllaSchema, EllaCatalog, Services, drop_shards}
use ella.Engine.Schema
use ella.Engine.Schema.{register}
use ella.Engine.Catalog
use ella.Engine.Cluster.{EllaCluster, catalog}
use ella.Engine.State.{
  put_schema, build_entry, create_entry, create_in, create_topic, create_view, resolved_view,
  create_table_as, not_a_topic, not_a_view,
}
use ella.Engine.Tree.{table_view, shards_of}
use ella.Engine.Agrees.{Agrees, IsRising}
use ella.Engine.Agrees.Tables.{IsNew, register-Agrees, here, dropped-Agrees}

-- What follows of the value that an outcome returns.
abbrev pub Returned {ℓ κ} : {A : Type ℓ} → (A → Type κ) → Outcome A → Type κ
Returned P (done a) = P a
Returned P _ = Unit

pub map_outcome-Returned {ℓ κ μ} :
    {A : Type ℓ} {B : Type κ} (P : B → Type μ) (f : A → B) (o : Outcome A)
    → ((a : A) → P (f a))
    → Returned P (map_outcome f o)
unfolding map_outcome
map_outcome-Returned P f (done a) h = h a
map_outcome-Returned P f (failed e) h = tt
map_outcome-Returned P f panicked h = tt
map_outcome-Returned P f blocked h = tt

pub map_outcome-Returned_of {ℓ κ μ} :
    {A : Type ℓ} {B : Type κ} (P : B → Type μ) (f : A → B) (o : Outcome A)
    → Returned (λ a. P (f a)) o
    → Returned P (map_outcome f o)
unfolding map_outcome
map_outcome-Returned_of P f (done a) h = h
map_outcome-Returned_of P f (failed e) h = tt
map_outcome-Returned_of P f panicked h = tt
map_outcome-Returned_of P f blocked h = tt

pub bind-Returned {ℓ κ μ ν} :
    {A : Type ℓ} {B : Type κ} (Q : A → Type ν) (P : B → Type μ) (o : Outcome A) (f : A → Outcome B)
    → Returned Q o
    → ((a : A) → Q a → Returned P (f a))
    → Returned P (bind o f)
unfolding bind
bind-Returned Q P (done a) f q h = h a q
bind-Returned Q P (failed e) f q h = tt
bind-Returned Q P panicked f q h = tt
bind-Returned Q P blocked f q h = tt

module _ {X : External} where
  pub shards_of_new :
      (i : TableId) (t : TopicInfo X)
      → IsShardList i t.shards
      → shards_of t (if t.temporary then none else some (load t.shards [])) ≡ t.shards
  shards_of_new i t o = elim (Bool-cases t.temporary) [
    | inl e ↦ rw e refl
    | inr e ↦ rw e (values-load i t.shards o)
  ]

  pub topic_new-IsNew :
      (root : X.UrlPath) (i : TableId) (t : TopicInfo X)
      → IsShardList i t.shards
      → Returned (λ (x : EllaTopic X). IsNew i (topic_table x)) (topic_new root i t)
  unfolding topic_new id_of table_view transaction new_topic Snapshot.table_state
  topic_new-IsNew root i t o =
      map_outcome-Returned (λ (x : EllaTopic X). IsNew i (topic_table x)) _
        (of_result (sorting_cols (some t.index) (map (λ c. c.name) t.columns)))
        (λ cols. (
          refl,
          ap (λ ss. record { id = i; info = topic (record t { shards = ss }) })
              (shards_of_new i t o),
        ))

  pub view_new-IsNew :
      (columns : List Text) (i : TableId) (v : ViewInfo X)
      → Returned (λ (x : EllaView X). IsNew i (view_table x)) (view_new columns i v)
  unfolding view_new id_of table_view transaction new_view Snapshot.table_state
  view_new-IsNew columns i v = elim (Bool-cases v.materialized) [
    | inl m ↦ rw m tt
    | inr m ↦ rw m (
        map_outcome-Returned (λ (x : EllaView X). IsNew i (view_table x)) _
          (of_result (sorting_cols v.index columns)) (λ cols. (refl, refl)))
  ]

  set_plan-IsNew :
      (i : TableId) (p : X.LogicalPlan) (x : EllaView X)
      → IsNew i (view_table x)
      → IsNew i (view_table (set_plan p x))
  unfolding set_plan id_of table_view transaction new_view Snapshot.table_state
  set_plan-IsNew i p x h = h

module _ {X : External} {L : LogApi X} (V : Services L) (base : Snapshot X)
    (rising : IsRising V.fresh) (c : EllaCluster L) (agrees : Agrees V base c) where
  module _ {T : Type 0} (of : T → EllaTable X) (taken : EllaTable X → Option T) (other : Text)
      (i : TableId) (if_not_exists : Bool) (build : Outcome T)
      (new : Returned (λ x. IsNew i (of x)) build) where
    build_entry-Agrees :
        (a : EllaCatalog X) (s : EllaSchema X)
        → DashMap.get i.catalog c.catalogs ≡ some a
        → DashMap.get i.schema a.schemas ≡ some s
        → (b : Outcome T) → Returned (λ x. IsNew i (of x)) b
        → Agrees V base (put_schema i a c (build_entry V of taken other i b (s, c.world)).0)
    unfolding build_entry and_then
    build_entry-Agrees a s h k (done x) n =
        rw (and_then_kept (register V i.table (of x) (s, c.world)) (λ _. done x))
          (register-Agrees V base rising c agrees i a s h k (of x) n)
    build_entry-Agrees a s h k (failed e) n = here V base rising c agrees i a s h k
    build_entry-Agrees a s h k panicked n = here V base rising c agrees i a s h k
    build_entry-Agrees a s h k blocked n = here V base rising c agrees i a s h k

    entry-Agrees :
        (a : EllaCatalog X) (s : EllaSchema X)
        → DashMap.get i.catalog c.catalogs ≡ some a
        → DashMap.get i.schema a.schemas ≡ some s
        → Agrees V base (
            put_schema i a c
              (create_entry V of taken other i if_not_exists false build (s, c.world)).0)
    unfolding create_entry
    entry-Agrees a s h k = elim (Option-cases (Schema.table i.table s)) [
      | inl e ↦ rw (e, create_entry) (build_entry-Agrees a s h k build new)
      | inr (t, e) ↦ elim (Bool-cases if_not_exists) [
        | inl f ↦ rw (e, create_entry, f) (here V base rising c agrees i a s h k)
        | inr f ↦ rw (e, create_entry, f) (here V base rising c agrees i a s h k)
      ]
    ]

    create_in-Agrees : Agrees V base (create_in V of taken other i if_not_exists false build c).0
    unfolding create_in
    create_in-Agrees = elim (Option-cases (catalog i.catalog c)) [
      | inl e ↦ rw (e, create_in) agrees
      | inr (a, e) ↦ elim (Option-cases (Catalog.schema i.schema a)) [
        | inl k ↦ rw (e, create_in, k) agrees
        | inr (s, k) ↦ rw (e, create_in, k) (entry-Agrees a s e k)
      ]
    ]

  -- Where memory and log agree, the ids that are drawn rise, and the shards that a description of a topic
  -- lists are in order and its own (a built one lists none), creating a topic or a view without
  -- `OR REPLACE` keeps them in agreement on every branch: the catalog or the schema is missing, the
  -- name is taken, the value cannot be built, or the log accepts or refuses the transaction.
  pub create_table_as-Agrees :
      (i : TableId) (t : TableInfo X) (if_not_exists : Bool)
      → IsInfo i t
      → Agrees V base (create_table_as V i t if_not_exists false c).0
  unfolding create_table_as create_topic create_view resolved_view
  create_table_as-Agrees i (topic t) if_not_exists o =
      create_in-Agrees topic_table as_topic (not_a_topic i) i if_not_exists (topic_new V.root i t)
        (topic_new-IsNew V.root i t o)
  create_table_as-Agrees i (view v) if_not_exists o =
      create_in-Agrees view_table as_view (not_a_view i) i if_not_exists
        (resolved_view V i v c.catalogs)
        (bind-Returned (λ (x : EllaView X). IsNew i (view_table x))
          (λ (x : EllaView X). IsNew i (view_table x)) (view_new (V.plan_columns v.plan) i v) _
          (view_new-IsNew (V.plan_columns v.plan) i v)
          (λ x n.
            map_outcome-Returned (λ (x : EllaView X). IsNew i (view_table x)) _
              (V.resolve_plan v.plan c.catalogs) (λ p. set_plan-IsNew i p x n)))

  module _ (i : TableId) (a : EllaCatalog X) (s : EllaSchema X) (if_exists : Bool)
      (h : DashMap.get i.catalog c.catalogs ≡ some a)
      (k : DashMap.get i.schema a.schemas ≡ some s) where
    found_view-Agrees :
        (x : EllaTable X)
        → DashMap.get i.table s.tables ≡ some x
        → (Schema.drop_view V i.table if_exists (s, c.world)).1 ≡ done tt
        → Agrees V base (put_schema i a c (Schema.drop_view V i.table if_exists (s, c.world)).0)
    unfolding Schema.drop_view Schema.deregister Schema.table drop_shards and_then
    found_view-Agrees (topic_table t) e r =
        rw (e, Schema.drop_view, Schema.deregister, Schema.table)
          (here V base rising c agrees i a s h k)
    found_view-Agrees (view_table v) e r =
        rw (e, Schema.drop_view, Schema.deregister, Schema.table)
          (dropped-Agrees V base rising c agrees i a s h k
            (rw (e, Schema.drop_view, Schema.deregister, Schema.table) at r))

    -- Where memory and log agree, and the ids that are drawn rise, dropping a view of a schema that is
    -- there keeps them in agreement if it succeeds, also where there is nothing to drop.
    pub drop_view-Agrees :
        (Schema.drop_view V i.table if_exists (s, c.world)).1 ≡ done tt
        → Agrees V base (put_schema i a c (Schema.drop_view V i.table if_exists (s, c.world)).0)
    unfolding Schema.drop_view Schema.deregister Schema.table
    drop_view-Agrees r = elim (Option-cases (DashMap.get i.table s.tables)) [
      | inl e ↦
          rw (e, Schema.drop_view, Schema.deregister, Schema.table)
            (here V base rising c agrees i a s h k)
      | inr (x, e) ↦ found_view-Agrees x e r
    ]
