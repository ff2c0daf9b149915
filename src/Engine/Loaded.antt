-- ===== src/Engine/Loaded.antt =====
-- Opening a datastore (`load` of ella-engine/src/cluster.rs, catalog.rs, schema.rs and table.rs): the
-- tree in memory against the snapshot that it was loaded from.
use ella.Prelude.{
  ◌≡◌, refl, sym, ◌∙◌, ap, Bool, true, false, none, some, List, [], ◌∷◌, ◌++◌, map, All, All-map,
  Text, eq_text, append_assoc, append_nil, if◌then◌else◌,
}
use mathlib.Core.Path.{subst}
use ella.Prelude.DashMap
use ella.Prelude.DashMap.Laws.{get-insert}
use ella.External.{External}
use ella.Registry.Id.{Ident, TableId}
use ella.Registry.Info.{TableInfo, topic, view}
use ella.Registry.LogApi.{LogApi}
use ella.Registry.Snapshot.{CatalogState, SchemaState, TableState}
use ella.Registry.Snapshot.Invariant.{IsInfo}
use ella.Engine.Outcome.{Outcome, done, failed, panicked, blocked, bind, map_outcome, of_result}
use ella.Engine.Table.{
  EllaTopic, EllaView, EllaTable, sorting_cols, topic_table, view_table, topic_new, view_new,
}
use ella.Engine.World.{EllaCatalog, Services}
use ella.Engine.Load.{load_each, load_schema, load_catalog, load_catalogs, table_new}
use ella.Engine.Tree.{table_view, schema_view, catalog_view, tree, map-insert}
use ella.Engine.Agrees.Statements.{
  Returned, map_outcome-Returned, map_outcome-Returned_of, shards_of_new,
}

-- No two parts have the same id.
abbrev pub IsDistinct : {S : Type 0} → (S → Text) → List S → Type 0
IsDistinct key [] = Unit
IsDistinct key (s ∷ ss) = All (λ t. eq_text (key t) (key s) ≡ false) ss × IsDistinct key ss

done-injective : {A : Type 0} (x y : A) → done x ≡ done y → x ≡ y
done-injective x y e = cc

unless-Returned :
    {A : Type 0} (P : A → Type 0) (b : Bool) (o : Outcome A)
    → Returned P o
    → Returned P (if b then panicked else o)
unless-Returned P true o h = tt
unless-Returned P false o h = h

module _ {A S : Type 0} (key : S → Text) (load : S → Outcome A) (st : A → S) where
  -- The part is loaded, and what is loaded stands for it.
  abbrev pub Loads : S → Type 0
  Loads s = (a : A) × (load s ≡ done a) × (st a ≡ s)

  abbrev IsAbsent : List (Text × A) → S → Type 0
  IsAbsent m s = DashMap.get (key s) m ≡ none

  IsAbsent-insert :
      (s : S) (a : A) (m : List (Text × A)) (ss : List S)
      → All (λ t. eq_text (key t) (key s) ≡ false) ss
      → All (IsAbsent m) ss
      → All (IsAbsent (DashMap.insert (key s) a m)) ss
  IsAbsent-insert s a m [] d h = tt
  IsAbsent-insert s a m (t ∷ ss) d h =
      (rw (get-insert (key t) (key s) a m, d.0) h.0, IsAbsent-insert s a m ss d.1 h.1)

  load_each-views :
      (ss : List S) (m : List (Text × A))
      → All Loads ss
      → IsDistinct key ss
      → All (IsAbsent m) ss
      → (n : List (Text × A)) × (load_each key load ss m ≡ done n)
        × (map (λ e. st e.1) n ≡ map (λ e. st e.1) m ++ ss)
  unfolding load_each bind
  load_each-views [] m l d h = (m, refl, sym (append_nil _))
  load_each-views (s ∷ ss) m l d h =
      let rest =
        load_each-views ss (DashMap.insert (key s) l.0.0 m) l.1 d.1
          (IsAbsent-insert s l.0.0 m ss d.0 h.1) in
      (
        rest.0,
        rw (l.0.1, bind) rest.1,
        rest.2
            ∙ ap (λ vs. vs ++ ss) (map-insert st (key s) l.0.0 m h.0)
            ∙ append_assoc _ (st l.0.0 ∷ []) ss
            ∙ ap (λ a. map (λ e. st e.1) m ++ a ∷ ss) l.0.2,
      )

  All-IsAbsent : (ss : List S) → All (IsAbsent []) ss
  unfolding DashMap.get
  All-IsAbsent [] = tt
  All-IsAbsent (s ∷ ss) = (refl, All-IsAbsent ss)

  -- Loading distinct parts that can be loaded gives a map that stands for them, in their order.
  pub load_each-view :
      (ss : List S)
      → All Loads ss
      → IsDistinct key ss
      → (n : List (Text × A)) × (load_each key load ss [] ≡ done n) × (map (λ e. st e.1) n ≡ ss)
  load_each-view ss l d = load_each-views ss [] l d (All-IsAbsent ss)

module _ {X : External} {L : LogApi X} (V : Services L) where
  -- A table that can be built again, a schema and a catalog of such tables at their paths.
  abbrev pub IsStoredTable : TableState X → Type 0
  IsStoredTable t = IsInfo t.id t.info × (x : EllaTable X) × (table_new V t.id t.info ≡ done x)

  abbrev pub IsStoredSchema : SchemaState X → Type 0
  IsStoredSchema s =
      (s.path ≡ X.join (X.join V.root s.id.catalog) s.id.schema)
      × All IsStoredTable s.tables
      × IsDistinct (λ t. t.id.table) s.tables

  abbrev pub IsStoredCatalog : CatalogState X → Type 0
  IsStoredCatalog c =
      (c.path ≡ X.join V.root c.id.id)
      × All IsStoredSchema c.schemas
      × IsDistinct (λ s. s.id.schema) c.schemas

  abbrev Stands : TableId → TableInfo X → EllaTable X → Type 0
  Stands i t x = table_view x ≡ record { id = i; info = t }

  table_new-view :
      (i : TableId) (t : TableInfo X) → IsInfo i t → Returned (Stands i t) (table_new V i t)
  unfolding table_new topic_new table_view view_new
  table_new-view i (topic t) o =
      map_outcome-Returned_of (Stands i (topic t)) topic_table (topic_new V.root i t) (
        map_outcome-Returned (λ (x : EllaTopic X). Stands i (topic t) (topic_table x)) _
          (of_result (sorting_cols (some t.index) (map (λ c. c.name) t.columns)))
          (λ cols.
            ap (λ ss. record { id = i; info = topic (record t { shards = ss }) })
              (shards_of_new i t o)))
  table_new-view i (view v) o =
      map_outcome-Returned_of (Stands i (view v)) view_table (view_new (V.plan_columns v.plan) i v)
        (unless-Returned (λ (x : EllaView X). Stands i (view v) (view_table x)) v.materialized _
          (map_outcome-Returned (λ (x : EllaView X). Stands i (view v) (view_table x)) _
            (of_result (sorting_cols v.index (V.plan_columns v.plan))) (λ cols. refl)))

  returned :
      (P : EllaTable X → Type 0) (o : Outcome (EllaTable X)) (x : EllaTable X)
      → Returned P o
      → o ≡ done x
      → P x
  returned P (done y) x r e = subst P (done-injective y x e) r
  returned P (failed y) x r e = cc
  returned P panicked x r e = cc
  returned P blocked x r e = cc

  stored_table :
      (t : TableState X)
      → IsStoredTable t
      → Loads (λ t. t.id.table) (λ t. table_new V t.id t.info) table_view t
  stored_table t h =
      (h.1, h.2, returned (Stands t.id t.info) _ h.1 (table_new-view t.id t.info h.0) h.2)

  stored_schema :
      (s : SchemaState X)
      → IsStoredSchema s
      → Loads (λ s. s.id.schema) (load_schema V) (schema_view X V.root) s
  unfolding load_schema map_outcome schema_view
  stored_schema s h =
      let parts =
        load_each-view (λ t. t.id.table) (λ t. table_new V t.id t.info) table_view s.tables
          (All-map IsStoredTable _ stored_table s.tables h.1) h.2 in
      (
        record { id = s.id; tables = parts.0 },
        rw parts.1 refl,
        ap (λ (q : X.UrlPath × List (TableState X)). record { id = s.id; path = q.0; tables = q.1 })
            (λ k. (sym h.0 k, parts.2 k)),
      )

  stored_catalog :
      (c : CatalogState X)
      → IsStoredCatalog c
      → Loads (λ c. c.id.id) (load_catalog V) (catalog_view X V.root) c
  unfolding load_catalog map_outcome catalog_view
  stored_catalog c h =
      let parts =
        load_each-view (λ s. s.id.schema) (load_schema V) (schema_view X V.root) c.schemas
          (All-map IsStoredSchema _ stored_schema c.schemas h.1) h.2 in
      (
        record { id = c.id; schemas = parts.0 },
        rw parts.1 refl,
        ap
            (λ (q : X.UrlPath × List (SchemaState X)). record {
              id = c.id;
              path = q.0;
              schemas = q.1;
            })
            (λ k. (sym h.0 k, parts.2 k)),
      )

  -- The catalogs of a snapshot whose ids are distinct, whose paths are those of the ids, whose topics have
  -- their shards in order and whose tables can be built load, and the tree in memory stands for
  -- exactly these catalogs, before the plans of its views are resolved.
  pub load_catalogs-tree :
      (cs : List (CatalogState X))
      → All IsStoredCatalog cs
      → IsDistinct (λ c. c.id.id) cs
      → (m : List (Ident × EllaCatalog X)) × (load_catalogs V cs ≡ done m) × (tree X V.root m ≡ cs)
  unfolding load_catalogs tree
  load_catalogs-tree cs h d =
      load_each-view (λ c. c.id.id) (load_catalog V) (catalog_view X V.root) cs
        (All-map IsStoredCatalog _ stored_catalog cs h) d
