-- ===== src/Engine/Tree.antt =====
-- The tree in memory (ella-engine/src/cluster.rs, catalog.rs, schema.rs) as the tree of a snapshot
-- (ella-engine/src/registry/snapshot.rs), and the form that its methods keep it in.
use ella.Prelude.{
  ℕ, Text, eq_text, eq_text_refl, eq_text_sound, ◌≡◌, refl, Bool, not, Option, none, some, List, [],
  ◌∷◌, ◌++◌, map, All, retain, arith,
}
use ella.Prelude.BTreeMap
use ella.Prelude.DashMap
use ella.Prelude.DashMap.Laws.{IsUnique, remove-absent}
use ella.Prelude.Result.{EngineError, Result, ok}
use ella.External.{External}
use ella.Registry.Id.{Ident, SchemaId, table_of}
use ella.Registry.Info.{ShardInfo, TopicInfo, topic, view}
use ella.Registry.Snapshot.{CatalogState, SchemaState, TableState, modify_first}
use ella.Engine.Table.{EllaTopic, EllaTable, topic_table, view_table, id_of}
use ella.Engine.World.{EllaSchema, EllaCatalog}

module _ {X : External} where
  -- The shards that a snapshot lists for a topic; those of a temporary one are as it was given.
  abbrev pub shards_of : TopicInfo X → Option (List (ℕ × ShardInfo X)) → List (ShardInfo X)
  shards_of t none = t.shards
  shards_of t (some m) = BTreeMap.values m

  abbrev pub topic_view : EllaTopic X → TopicInfo X
  topic_view t = record t.info { shards = shards_of t.info t.shards }

  unfoldable pub table_view : EllaTable X → TableState X
  table_view (topic_table t) = record { id = t.table; info = topic (topic_view t) }
  table_view (view_table v) = record { id = v.table; info = view v.info }

module _ (X : External) (root : X.UrlPath) where
  unfoldable pub schema_view : EllaSchema X → SchemaState X
  unfolding table_view
  schema_view s = record {
    id = s.id;
    path = X.join (X.join root s.id.catalog) s.id.schema;
    tables = map (λ e. table_view e.1) s.tables;
  }

  unfoldable pub catalog_view : EllaCatalog X → CatalogState X
  unfolding schema_view
  catalog_view c = record {
    id = c.id;
    path = X.join root c.id.id;
    schemas = map (λ e. schema_view e.1) c.schemas;
  }

  unfoldable pub tree : List (Ident × EllaCatalog X) → List (CatalogState X)
  unfolding catalog_view
  tree m = map (λ e. catalog_view e.1) m

module _ {X : External} where
  -- Every entry is filed once, under the id that it carries.
  abbrev pub IsTables : SchemaId → List (Ident × EllaTable X) → Type 0
  IsTables i m = All (λ (e : Ident × EllaTable X). id_of e.1 ≡ table_of i e.0) m × IsUnique m

  abbrev pub IsSchema : Ident → Ident × EllaSchema X → Type 0
  IsSchema c e = (e.1.id ≡ record { catalog = c; schema = e.0 }) × IsTables e.1.id e.1.tables

  abbrev pub IsCatalog : Ident × EllaCatalog X → Type 0
  IsCatalog e =
      (e.1.id ≡ record { id = e.0 }) × All (IsSchema e.0) e.1.schemas × IsUnique e.1.schemas

  abbrev pub IsCatalogs : List (Ident × EllaCatalog X) → Type 0
  IsCatalogs m = All IsCatalog m × IsUnique m

module _ {A S : Type 0} (st : A → S) (p : S → Bool) where
  -- A test on the views that looks for the key of the entry.
  abbrev pub Tests : Text → Text × A → Type 0
  Tests i e = p (st e.1) ≡ eq_text e.0 i

  -- A change of the entry that the views' search finds first.
  pub modify_first-map :
      (i : Text) (e : EngineError) (f : S → Result S) (a b : A) (m : List (Text × A))
      → All (Tests i) m
      → DashMap.get i m ≡ some a
      → f (st a) ≡ ok (st b)
      → modify_first p e f (map (λ x. st x.1) m)
        ≡ ok (map (λ x. st x.1) (DashMap.modify i (λ _. b) m))
  unfolding modify_first DashMap.get DashMap.modify
  modify_first-map i e f a b [] h g k = cc
  modify_first-map i e f a b ((j, x) ∷ m) h g k = ground (
    arith,
    h.0,
    eq_text_sound i j,
    eq_text_sound j i,
    eq_text_refl i,
    modify_first-map i e f a b m h.1,
  )

  -- Retaining what differs from a key removes its entry.
  pub retain-map :
      (i : Text) (m : List (Text × A))
      → All (Tests i) m
      → IsUnique m
      → retain (λ s. not (p s)) (map (λ x. st x.1) m) ≡ map (λ x. st x.1) (DashMap.remove i m)
  unfolding DashMap.remove DashMap.get
  retain-map i [] h u = refl
  retain-map i ((j, x) ∷ m) h u = ground (
    arith,
    h.0,
    u.0,
    eq_text_sound i j,
    eq_text_sound j i,
    eq_text_refl i,
    remove-absent i m,
    retain-map i m h.1 u.1,
  )

module _ {A S : Type 0} (st : A → S) where
  pub map-insert :
      (i : Text) (a : A) (m : List (Text × A))
      → DashMap.get i m ≡ none
      → map (λ x. st x.1) (DashMap.insert i a m) ≡ map (λ x. st x.1) m ++ st a ∷ []
  unfolding DashMap.insert DashMap.get
  map-insert i a [] h = refl
  map-insert i a ((j, x) ∷ m) h = ground (arith, map-insert i a m)
