-- ===== src/Engine/Lookup.antt =====
-- What a lookup finds after a statement of ella-engine/src/engine/state.rs and schema.rs.
use ella.Prelude.{◌≡◌, ◌∙◌, ap, Bool, true, Option, some, inl, inr, Option-cases, Text, Bool-cases}
use mathlib.Core.Option.{some-injective}
use ella.Prelude.DashMap
use ella.Prelude.DashMap.Laws.{get-insert_same, get-modify_same}
use ella.External.{External}
use ella.Registry.Id.{Ident, TableId}
use ella.Registry.Info.{TableInfo, topic, view}
use ella.Registry.LogApi.{LogApi}
use ella.Registry.Transaction.{create_table}
use ella.Engine.Outcome.{Outcome, done, failed, panicked, blocked, and_then, map_outcome}
use ella.Engine.Table.{
  EllaTopic, EllaView, EllaTable, topic_table, view_table, as_topic, as_view, transaction,
  topic_new,
}
use ella.Engine.World.{EllaSchema, EllaCatalog, World, Services, commit, with_left}
use ella.Engine.Schema
use ella.Engine.Schema.{register, drop_table_named}
use ella.Engine.Catalog
use ella.Engine.Cluster.{EllaCluster, catalog, put_catalog}
use ella.Engine.State.{
  table_in, put_schema, build_entry, replace_entry, create_entry, create_in, create_topic,
  create_view, resolved_view, create_table_as, not_a_topic, not_a_view,
}

-- What holds of the state and the value after a success.
abbrev pub After {ℓ κ} : {S : Type 0} {A : Type ℓ} → (S → A → Type κ) → S × Outcome A → Type κ
After P (s, done a) = P s a
After P (s, failed e) = Unit
After P (s, panicked) = Unit
After P (s, blocked) = Unit

pub and_then-After {ℓ κ μ ν} :
    {S : Type 0} {A : Type ℓ} {B : Type κ} (Q : S → A → Type ν) (P : S → B → Type μ)
    (r : S × Outcome A) (rest : A → S → S × Outcome B)
    → After Q r
    → ((a : A) (s : S) → Q s a → After P (rest a s))
    → After P (and_then r rest)
unfolding and_then
and_then-After Q P (s, done a) rest q h = h a s q
and_then-After Q P (s, failed e) rest q h = tt
and_then-After Q P (s, panicked) rest q h = tt
and_then-After Q P (s, blocked) rest q h = tt

pub and_then-After_any {ℓ κ μ} :
    {S : Type 0} {A : Type ℓ} {B : Type κ} (P : S → B → Type μ) (r : S × Outcome A)
    (rest : A → S → S × Outcome B)
    → ((a : A) (s : S) → After P (rest a s))
    → After P (and_then r rest)
unfolding and_then
and_then-After_any P (s, done a) rest h = h a s
and_then-After_any P (s, failed e) rest h = tt
and_then-After_any P (s, panicked) rest h = tt
and_then-After_any P (s, blocked) rest h = tt

module _ {X : External} {L : LogApi X} (V : Services L) where
  register-found :
      (i : Ident) (x : EllaTable X) (p : EllaSchema X × World L)
      → After (λ q _. Schema.table i q.0 ≡ some x) (register V i x p)
  unfolding register Schema.table
  register-found i x (s, w) = elim (Option-cases (DashMap.get i s.tables)) [
    | inr (y, e) ↦ rw (e, register, Schema.table) tt
    | inl e ↦
        rw (e, register, Schema.table)
          (and_then-After_any
            (λ (q : EllaSchema X × World L) (_ : Unit {0}). DashMap.get i q.0.tables ≡ some x)
            (with_left s (commit V (λ u. create_table (transaction u x)) w))
            (λ _ q. ((record s { tables = DashMap.insert i x s.tables }, q.1), done tt))
            (λ _ q. get-insert_same i x s.tables))
  ]

  module _ {T : Type 0} (of : T → EllaTable X) (taken : EllaTable X → Option T) (other : Text)
      (taken-of : (t : EllaTable X) (x : T) → taken t ≡ some x → t ≡ of x) (i : TableId) where
    abbrev Found : EllaSchema X × World L → T → Type 0
    Found p x = Schema.table i.table p.0 ≡ some (of x)

    built :
        (x : T) (p : EllaSchema X × World L)
        → After Found (and_then (register V i.table (of x) p) (λ _ p. (p, done x)))
    built x p =
        and_then-After (λ q _. Schema.table i.table q.0 ≡ some (of x)) Found
          (register V i.table (of x) p) (λ _ p. (p, done x)) (register-found i.table (of x) p)
          (λ _ q h. h)

    build_entry-Found :
        (build : Outcome T) (p : EllaSchema X × World L)
        → After Found (build_entry V of taken other i build p)
    unfolding build_entry
    build_entry-Found build p = and_then-After_any Found (p, build) _ (λ x p. built x p)

    replace_entry-Found :
        (build : Outcome T) (p : EllaSchema X × World L)
        → After Found (replace_entry V of taken other i build p)
    unfolding replace_entry
    replace_entry-Found build p =
        and_then-After_any Found (p, build) _
          (λ x p. and_then-After_any Found (drop_table_named V i.table true p) _ (λ _ p. built x p))

    create_entry-Found :
        (if_not_exists or_replace : Bool) (build : Outcome T) (p : EllaSchema X × World L)
        → After Found (create_entry V of taken other i if_not_exists or_replace build p)
    unfolding create_entry
    create_entry-Found b r build p = elim (Option-cases (Schema.table i.table p.0)) [
      | inl e ↦ rw (e, create_entry) (build_entry-Found build p)
      | inr (t, e) ↦ elim (Bool-cases b) [
        | inl f ↦ elim (Bool-cases r) [
          | inl g ↦ rw (e, create_entry, f, g) tt
          | inr g ↦ elim (Option-cases (taken t)) [
            | inl k ↦ rw (e, create_entry, f, g, k) tt
            | inr (x, k) ↦ rw (e, create_entry, f, g, k) (e ∙ ap some (taken-of t x k))
          ]
        ]
        | inr f ↦ elim (Bool-cases r) [
          | inl g ↦ rw (e, create_entry, f, g) (replace_entry-Found build p)
          | inr g ↦ rw (e, create_entry, f, g) tt
        ]
      ]
    ]

    module _ (if_not_exists or_replace : Bool) (build : Outcome T) (c : EllaCluster L) where
      written :
          (a : EllaCatalog X) (s : EllaSchema X) (r : (EllaSchema X × World L) × Outcome T)
          → catalog i.catalog c ≡ some a
          → Catalog.schema i.schema a ≡ some s
          → After Found r
          → After (λ d x. table_in i d ≡ some (of x)) (put_schema i a c r.0, r.1)
      unfolding put_schema put_catalog table_in catalog Catalog.schema
      written a s (p, done x) h k f =
          rw
            (
              table_in,
              catalog,
              Catalog.schema,
              get-modify_same i.catalog a
                  (record a { schemas = DashMap.modify i.schema (λ _. p.0) a.schemas }) c.catalogs
                  h,
              get-modify_same i.schema s p.0 a.schemas k,
            )
            f
      written a s (p, failed e) h k f = tt
      written a s (p, panicked) h k f = tt
      written a s (p, blocked) h k f = tt

      create_in-found :
          After
            (λ d x. table_in i d ≡ some (of x))
            (create_in V of taken other i if_not_exists or_replace build c)
      unfolding create_in
      create_in-found = elim (Option-cases (catalog i.catalog c)) [
        | inl e ↦ rw (e, create_in) tt
        | inr (a, e) ↦ elim (Option-cases (Catalog.schema i.schema a)) [
          | inl k ↦ rw (e, create_in, k) tt
          | inr (s, k) ↦
              rw (e, create_in, k)
                (written a s
                  (create_entry V of taken other i if_not_exists or_replace build (s, c.world)) e k
                  (create_entry-Found if_not_exists or_replace build (s, c.world)))
        ]
      ]

  is_topic_of : (t : EllaTable X) (x : EllaTopic X) → as_topic t ≡ some x → t ≡ topic_table x
  unfolding as_topic
  is_topic_of (topic_table t) x h = ap topic_table (some-injective t x h)
  is_topic_of (view_table v) x h = cc

  is_view_of : (t : EllaTable X) (x : EllaView X) → as_view t ≡ some x → t ≡ view_table x
  unfolding as_view
  is_view_of (topic_table t) x h = cc
  is_view_of (view_table v) x h = ap view_table (some-injective v x h)

  After-map :
      {T : Type 0} (P : EllaCluster L → EllaTable X → Type 0) (f : T → EllaTable X)
      (r : EllaCluster L × Outcome T)
      → After (λ d x. P d (f x)) r
      → After P (r.0, map_outcome f r.1)
  unfolding map_outcome
  After-map P f (d, done x) h = h
  After-map P f (d, failed e) h = tt
  After-map P f (d, panicked) h = tt
  After-map P f (d, blocked) h = tt

  -- Where creating a topic or a view succeeds, with any of the two flags, the lookup of its full id
  -- finds the table that was returned: the existing one, the new one, or the one that replaced it.
  pub create_table_as-table_in :
      (i : TableId) (t : TableInfo X) (if_not_exists or_replace : Bool) (c : EllaCluster L)
      → After (λ d x. table_in i d ≡ some x) (create_table_as V i t if_not_exists or_replace c)
  unfolding create_table_as create_topic create_view
  create_table_as-table_in i (topic t) b r c =
      After-map (λ (d : EllaCluster L) (x : EllaTable X). table_in i d ≡ some x) topic_table
        (create_topic V i t b r c)
        (create_in-found topic_table as_topic (not_a_topic i) is_topic_of i b r
          (topic_new V.root i t) c)
  create_table_as-table_in i (view v) b r c =
      After-map (λ (d : EllaCluster L) (x : EllaTable X). table_in i d ≡ some x) view_table
        (create_view V i v b r c)
        (create_in-found view_table as_view (not_a_view i) is_view_of i b r
          (resolved_view V i v c.catalogs) c)
