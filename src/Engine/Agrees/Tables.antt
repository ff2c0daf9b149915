-- ===== src/Engine/Agrees/Tables.antt =====
-- Registering and dropping tables (ella-engine/src/schema.rs): the tree in memory and the one that a
-- restart would replay stay the same.
use ella.Prelude.{
  ℕ, ◌≡◌, refl, sym, ◌∙◌, ap, some, List, [], ◌∷◌, ◌++◌, All-map, inl, inr, Option-cases, retain,
  not, eq_text, eq_text_refl,
}
use ella.Prelude.DashMap
use ella.Prelude.DashMap.Laws.{
  insert-All, insert-IsUnique, modify-All, modify-IsUnique, modify-same, get-All, remove-All,
  remove-IsUnique,
}
use ella.Prelude.Result.{Result, ok, err}
use ella.External.{External}
use ella.Registry.Id.{Ident, SchemaId, TableId, schema_id, table_of, eq_table_id}
use ella.Registry.Transaction.{Transaction, uuid, create_table, drop_table, new_topic, new_view}
use ella.Registry.LogApi.{LogApi}
use ella.Registry.Snapshot
use ella.Registry.Snapshot.{Snapshot, CatalogState, SchemaState, TableState, apply, schema_mut}
use ella.Engine.Outcome.{Outcome, of_result, done, and_then}
use ella.Engine.Table.{EllaTable, topic_table, view_table, id_of, transaction}
use ella.Engine.World.{EllaSchema, EllaCatalog, World, Services, commit}
use ella.Engine.Schema.{table, register}
use ella.Engine.Cluster.{EllaCluster, put_catalog}
use ella.Engine.State.{put_schema}
use ella.Engine.Tree.{
  table_view, schema_view, tree, IsCatalog, IsCatalogs, IsSchema, map-insert, retain-map,
}
use ella.Engine.Agrees.{
  Agrees, IsRising, accepted-Agrees, committing-Agrees, schema_mut-view, in_catalog-tree,
}

accepted : (r : Result (Unit {0})) → of_result r ≡ done tt → r ≡ ok tt
accepted (ok u) h = refl
accepted (err e) h = cc

module _ {X : External} where
  -- A table that was just made: what it stands for is what its transaction says.
  abbrev pub IsNew : TableId → EllaTable X → Type 0
  IsNew i x = (id_of x ≡ i) × (table_view x ≡ Snapshot.table_state (transaction 0 x))

  abbrev append_table : EllaTable X → SchemaState X → Result (SchemaState X)
  append_table x s = ok (record s { tables = s.tables ++ table_view x ∷ [] })

  pub transaction-uuid : (x : EllaTable X) (u : ℕ) → uuid (create_table (transaction u x)) ≡ u
  unfolding uuid transaction new_topic new_view
  transaction-uuid (topic_table t) u = refl
  transaction-uuid (view_table v) u = refl

  view-id : (x : EllaTable X) → (table_view x).id ≡ id_of x
  unfolding table_view id_of
  view-id (topic_table t) = refl
  view-id (view_table v) = refl

  -- The handler of `DropTable` finds the table by its name.
  tests_name :
      (i : TableId) (j : SchemaId) (k : Ident) (x : EllaTable X)
      → j ≡ record { catalog = i.catalog; schema = i.schema }
      → id_of x ≡ table_of j k
      → eq_table_id (table_view x).id i ≡ eq_text k i.table
  unfolding eq_table_id table_of
  tests_name i j k x h e =
      ap (λ t. eq_table_id t i) (view-id x ∙ e ∙ ap (λ j. table_of j k) h)
      ∙ rw (eq_text_refl i.catalog, eq_text_refl i.schema) refl

  register-apply :
      (i : TableId) (x : EllaTable X) (u : ℕ) (cs : List (CatalogState X))
      → IsNew i x
      → apply (create_table (transaction u x)) cs
        ≡ Snapshot.in_catalog i.catalog (schema_mut i.schema (append_table x)) cs
  unfolding apply Snapshot.in_schema transaction new_topic new_view Snapshot.table_state schema_id
      id_of
  register-apply i (topic_table t) u cs h =
      ap
        (λ (p : TableId × TableState X).
          Snapshot.in_catalog p.0.catalog
            (schema_mut p.0.schema (λ s. ok (record s { tables = s.tables ++ p.1 ∷ [] }))) cs)
        (λ k. (h.0 k, sym h.1 k))
  register-apply i (view_table v) u cs h =
      ap
        (λ (p : TableId × TableState X).
          Snapshot.in_catalog p.0.catalog
            (schema_mut p.0.schema (λ s. ok (record s { tables = s.tables ++ p.1 ∷ [] }))) cs)
        (λ k. (h.0 k, sym h.1 k))

module _ {X : External} {L : LogApi X} (V : Services L) (base : Snapshot X)
    (rising : IsRising V.fresh) (c : EllaCluster L) (agrees : Agrees V base c) (i : TableId)
    (a : EllaCatalog X) (s : EllaSchema X) (to_catalog : DashMap.get i.catalog c.catalogs ≡ some a)
    (to_schema : DashMap.get i.schema a.schemas ≡ some s) where
  -- The catalogs with another value of the schema.
  abbrev catalog_with : EllaSchema X → EllaCatalog X
  catalog_with s' = record a { schemas = DashMap.modify i.schema (λ _. s') a.schemas }

  abbrev pub with_schema : EllaSchema X → List (Ident × EllaCatalog X)
  with_schema s' = DashMap.modify i.catalog (λ _. catalog_with s') c.catalogs

  filed_catalog : IsCatalog (i.catalog, a)
  filed_catalog = get-All IsCatalog i.catalog a c.catalogs agrees.filed.0 to_catalog

  pub filed_schema : IsSchema i.catalog (i.schema, s)
  filed_schema = get-All (IsSchema i.catalog) i.schema s a.schemas filed_catalog.1 to_schema

  with_schema-same : with_schema s ≡ c.catalogs
  with_schema-same =
      rw (modify-same i.schema s a.schemas to_schema)
        (modify-same i.catalog a c.catalogs to_catalog)

  with_schema-IsCatalogs :
      (s' : EllaSchema X) → IsSchema i.catalog (i.schema, s') → IsCatalogs (with_schema s')
  with_schema-IsCatalogs s' h = (
    modify-All IsCatalog i.catalog _ c.catalogs
        (λ _ _. (
          filed_catalog.0,
          modify-All (IsSchema i.catalog) i.schema _ a.schemas (λ _ _. h) filed_catalog.1,
          modify-IsUnique i.schema _ a.schemas filed_catalog.2,
        ))
        agrees.filed.0,
    modify-IsUnique i.catalog _ c.catalogs agrees.filed.1,
  )

  -- A handler that works on the schema of the replayed tree.
  in_schema-tree :
      (s' : EllaSchema X) (f : SchemaState X → Result (SchemaState X))
      → f (schema_view X V.root s) ≡ ok (schema_view X V.root s')
      → Snapshot.in_catalog i.catalog (schema_mut i.schema f) (tree X V.root c.catalogs)
        ≡ ok (tree X V.root (with_schema s'))
  in_schema-tree s' f e =
      in_catalog-tree {X = X} V.root i.catalog a (catalog_with s') c.catalogs
        (schema_mut i.schema f) agrees.filed to_catalog
        (schema_mut-view {X = X} V.root i.catalog i.schema a s s' f filed_catalog to_schema e)

  -- A method of the schema that commits a transaction of the schema first.
  committing-schema :
      {B : Type 0} (t : ℕ → Transaction X) (named : (u : ℕ) → uuid (t u) ≡ u)
      (f : SchemaState X → Result (SchemaState X)) (s' : EllaSchema X)
      (P : EllaSchema X × World L → Type 0) (wrap : World L → EllaSchema X × World L)
      (rest : Unit {0} → EllaSchema X × World L → (EllaSchema X × World L) × Outcome B)
      → ((u : ℕ) (cs : List (CatalogState X))
          → apply (t u) cs ≡ Snapshot.in_catalog i.catalog (schema_mut i.schema f) cs)
      → f (schema_view X V.root s) ≡ ok (schema_view X V.root s')
      → IsSchema i.catalog (i.schema, s')
      → ((w : World L) → Agrees V base (put_schema i a c (s', w)) → P (rest tt (wrap w)).0)
      → ((w : World L) → Agrees V base (put_schema i a c (s, w)) → P (wrap w))
      → P (and_then (wrap (commit V t c.world).0, (commit V t c.world).1) rest).0
  unfolding put_schema put_catalog
  committing-schema t named f s' P wrap rest applies e h good bad =
      committing-Agrees V base rising c agrees t named P wrap rest (with_schema s')
        (applies _ _ ∙ in_schema-tree s' f e) (with_schema-IsCatalogs s' h) (good _)
        (λ r. bad _ (rw with_schema-same r))

  insert-IsSchema :
      (x : EllaTable X)
      → id_of x ≡ i
      → IsSchema i.catalog (i.schema, record s { tables = DashMap.insert i.table x s.tables })
  unfolding table_of
  insert-IsSchema x h = (
    filed_schema.0,
    (
      insert-All _ i.table x s.tables (h ∙ ap (λ j. table_of j i.table) (sym filed_schema.0))
          filed_schema.1.0,
      insert-IsUnique i.table x s.tables filed_schema.1.1,
    ),
  )

  pub here : Agrees V base (put_schema i a c (s, c.world))
  unfolding put_schema put_catalog
  here = rw with_schema-same agrees

  -- Registering a new table, whether its name is taken, it is created or the log refuses it.
  pub register-Agrees :
      (x : EllaTable X)
      → IsNew i x
      → Agrees V base (put_schema i a c (register V i.table x (s, c.world)).0)
  unfolding register table schema_view
  register-Agrees x n = elim (Option-cases (DashMap.get i.table s.tables)) [
    | inr (y, e) ↦ rw (e, register, table) here
    | inl e ↦
        let s' : EllaSchema X = record s { tables = DashMap.insert i.table x s.tables } in
        rw (e, register, table)
          (committing-schema (λ u. create_table (transaction u x)) (transaction-uuid x)
            (append_table x) s' (λ p. Agrees V base (put_schema i a c p)) (λ w. (s, w)) _
            (λ u cs. register-apply i x u cs n)
            (ap
              (λ ts. ok (record {
                id = s.id;
                path = X.join (X.join V.root s.id.catalog) s.id.schema;
                tables = ts;
              }))
              (sym (map-insert table_view i.table x s.tables e)))
            (insert-IsSchema x n.0) (λ w r. r) (λ w r. r))
  ]

  -- What `DropTable` leaves of the schema.
  abbrev pub without : EllaSchema X
  without = record s { tables = DashMap.remove i.table s.tables }

  abbrev drop_it : ℕ → Transaction X
  drop_it u = drop_table (record { uuid = u; id = table_of s.id i.table })

  abbrev remove_table : SchemaState X → Result (SchemaState X)
  remove_table s = ok (record s { tables = retain (λ x. not (eq_table_id x.id i)) s.tables })

  this_table : table_of s.id i.table ≡ i
  unfolding table_of
  this_table = ap (λ j. table_of j i.table) filed_schema.0

  drop-apply :
      (u : ℕ) (cs : List (CatalogState X))
      → apply (drop_it u) cs ≡ Snapshot.in_catalog i.catalog (schema_mut i.schema remove_table) cs
  unfolding apply
  drop-apply u cs =
      ap
        (λ (j : TableId).
          Snapshot.in_catalog j.catalog
            (schema_mut j.schema
              (λ s. ok (record s { tables = retain (λ x. not (eq_table_id x.id j)) s.tables })))
            cs)
        this_table

  remove_table-view : remove_table (schema_view X V.root s) ≡ ok (schema_view X V.root without)
  unfolding schema_view
  remove_table-view =
      ap
        (λ ts. ok (record {
          id = s.id;
          path = X.join (X.join V.root s.id.catalog) s.id.schema;
          tables = ts;
        }))
        (retain-map table_view (λ x. eq_table_id x.id i) i.table s.tables
          (All-map _ _ (λ e h. tests_name i s.id e.0 e.1 filed_schema.0 h) s.tables
            filed_schema.1.0)
          filed_schema.1.1)

  without-IsSchema : IsSchema i.catalog (i.schema, without)
  without-IsSchema = (
    filed_schema.0,
    (
      remove-All _ i.table s.tables filed_schema.1.0,
      remove-IsUnique i.table s.tables filed_schema.1.1,
    ),
  )

  -- The log's acceptance of a drop.
  pub dropped-Agrees :
      (commit V drop_it c.world).1 ≡ done tt
      → Agrees V base (put_schema i a c (without, (commit V drop_it c.world).0))
  unfolding commit put_schema put_catalog uuid
  dropped-Agrees h =
      accepted-Agrees V base rising c agrees drop_it (λ u. refl) (with_schema without)
        (accepted _ h)
        (drop-apply (V.fresh c.world.drawn) (tree X V.root c.catalogs)
          ∙ in_schema-tree without remove_table remove_table-view)
        (with_schema-IsCatalogs without without-IsSchema)
