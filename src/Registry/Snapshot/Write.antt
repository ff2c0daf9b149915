-- ===== src/Registry/Snapshot/Write.antt =====
-- The write through a path of ids (ella-engine/src/registry/snapshot.rs, `table_mut` and the methods
-- below it), by the entries on the way.
use ella.Prelude.{
  ◌≡◌, refl, ◌≢◌, Bool, true, false, some, List, [], ◌∷◌, arith, find, eq_text, eq_text_iff,
  eq_text_sound, inl, inr, Bool-cases, ap,
}
use mathlib.Core.Path.{subst}
use ella.Prelude.Result.{EngineError, Result, ok, err}
use ella.External.{External}
use ella.Registry.Id.{Ident, TableId}
use ella.Registry.Info.{TopicInfo, topic}
use ella.Registry.Snapshot.{CatalogState, schema_mut, table_mut, topic_mut, in_catalog, in_topic}
use ella.Registry.Snapshot.Lookup.{
  modify_first-ok, modify_first-err, find-set_first, find-set_first_ne, catalog_at, table_with,
  schema_with, catalog_with, schema_in, table_in, table_at, Leads, set_topic,
}

find-passes {ℓ} :
    {A : Type ℓ} (p : A → Bool) (x : A) (xs : List A) → find p xs ≡ some x → p x ≡ true
find-passes p x [] h = cc
find-passes p x (z ∷ xs) h = ground (arith, find-passes p x xs)

eq_text_apart : (a b c : Ident) → eq_text a b ≡ true → eq_text b c ≡ false → eq_text a c ≡ false
eq_text_apart a b c h k = ground (arith, eq_text_iff a b, eq_text_iff a c, eq_text_iff b c)

module _ {X : External} (i : TableId) (t : TopicInfo X) (cs : List (CatalogState X))
    (l : Leads i t cs) where
  topic_mut-ok :
      (f : TopicInfo X → Result (TopicInfo X)) (u : TopicInfo X)
      → f t ≡ ok u
      → topic_mut f l.table ≡ ok (record l.table { info = topic u })
  unfolding topic_mut
  topic_mut-ok f u h = rw (l.to_topic, h) refl

  topic_mut-err :
      (f : TopicInfo X → Result (TopicInfo X)) (e : EngineError)
      → f t ≡ err e
      → topic_mut f l.table ≡ err e
  unfolding topic_mut
  topic_mut-err f e h = rw (l.to_topic, h) refl

  table_mut-ok :
      (f : TopicInfo X → Result (TopicInfo X)) (u : TopicInfo X)
      → f t ≡ ok u
      → table_mut i.table (topic_mut f) l.schema ≡ ok (schema_with i t u cs l)
  unfolding table_mut
  table_mut-ok f u h = rw (
      modify_first-ok _ _ (topic_mut f) l.table (table_with i t u cs l) l.schema.tables l.to_table
        (topic_mut-ok f u h))

  schema_mut-ok :
      (f : TopicInfo X → Result (TopicInfo X)) (u : TopicInfo X)
      → f t ≡ ok u
      → schema_mut i.schema (table_mut i.table (topic_mut f)) l.catalog
        ≡ ok (catalog_with i t u cs l)
  unfolding schema_mut
  schema_mut-ok f u h = rw (
      modify_first-ok _ _ (table_mut i.table (topic_mut f)) l.schema (schema_with i t u cs l)
        l.catalog.schemas l.to_schema (table_mut-ok f u h))

  -- Where the function succeeds on the topic, the write puts its result in the topic's place.
  pub in_topic-ok :
      (f : TopicInfo X → Result (TopicInfo X)) (u : TopicInfo X)
      → f t ≡ ok u
      → in_topic i f cs ≡ ok (set_topic i t u cs l)
  unfolding in_topic in_catalog set_topic
  in_topic-ok f u h =
      modify_first-ok _ _ (schema_mut i.schema (table_mut i.table (topic_mut f))) l.catalog
        (catalog_with i t u cs l) cs l.to_catalog (schema_mut-ok f u h)

  table_mut-err :
      (f : TopicInfo X → Result (TopicInfo X)) (e : EngineError)
      → f t ≡ err e
      → table_mut i.table (topic_mut f) l.schema ≡ err e
  unfolding table_mut
  table_mut-err f e h = rw (
      modify_first-err _ _ e (topic_mut f) l.table l.schema.tables l.to_table (topic_mut-err f e h))

  schema_mut-err :
      (f : TopicInfo X → Result (TopicInfo X)) (e : EngineError)
      → f t ≡ err e
      → schema_mut i.schema (table_mut i.table (topic_mut f)) l.catalog ≡ err e
  unfolding schema_mut
  schema_mut-err f e h = rw (
      modify_first-err _ _ e (table_mut i.table (topic_mut f)) l.schema l.catalog.schemas
        l.to_schema (table_mut-err f e h))

  -- Where it fails, so does the write.
  pub in_topic-err :
      (f : TopicInfo X → Result (TopicInfo X)) (e : EngineError)
      → f t ≡ err e
      → in_topic i f cs ≡ err e
  unfolding in_topic in_catalog
  in_topic-err f e h =
      modify_first-err _ _ e (schema_mut i.schema (table_mut i.table (topic_mut f))) l.catalog cs
        l.to_catalog (schema_mut-err f e h)

  -- The path leads to what was written.
  pub Leads-set_topic : (u : TopicInfo X) → Leads i u (set_topic i t u cs l)
  unfolding set_topic
  Leads-set_topic u = record {
    catalog = _;
    schema = _;
    table = record l.table { info = topic u };
    to_catalog =
        find-set_first _ l.catalog _ cs l.to_catalog (find-passes _ l.catalog cs l.to_catalog);
    to_schema =
        find-set_first _ l.schema _ l.catalog.schemas l.to_schema
          (find-passes _ l.schema l.catalog.schemas l.to_schema);
    to_table =
        find-set_first _ l.table _ l.schema.tables l.to_table
          (find-passes _ l.table l.schema.tables l.to_table);
    to_topic = refl;
  }

  module _ (u : TopicInfo X) where
    other_table :
        (k : Ident)
        → eq_text i.table k ≡ false
        → table_in k (some (schema_with i t u cs l)) ≡ table_in k (some l.schema)
    other_table k h =
        find-set_first_ne _ _ _ l.schema.tables (λ a e. eq_text_apart a.id.table i.table k e h)
          (eq_text_apart l.table.id.table i.table k
            (find-passes _ l.table l.schema.tables l.to_table) h)

    other_schema :
        (k : Ident)
        → eq_text i.schema k ≡ false
        → schema_in k (some (catalog_with i t u cs l)) ≡ schema_in k (some l.catalog)
    other_schema k h =
        find-set_first_ne _ _ _ l.catalog.schemas (λ a e. eq_text_apart a.id.schema i.schema k e h)
          (eq_text_apart l.schema.id.schema i.schema k
            (find-passes _ l.schema l.catalog.schemas l.to_schema) h)

    other_catalog :
        (k : Ident)
        → eq_text i.catalog k ≡ false
        → catalog_at k (set_topic i t u cs l) ≡ catalog_at k cs
    unfolding set_topic
    other_catalog k h =
        find-set_first_ne _ _ _ cs (λ a e. eq_text_apart a.id.id i.catalog k e h)
          (eq_text_apart l.catalog.id.id i.catalog k (find-passes _ l.catalog cs l.to_catalog) h)

    same_catalog :
        (k : Ident)
        → i.catalog ≡ k
        → (catalog_at k (set_topic i t u cs l) ≡ some (catalog_with i t u cs l))
          × (catalog_at k cs ≡ some l.catalog)
    unfolding set_topic
    same_catalog k e = (
      subst (λ k. catalog_at k (set_topic i t u cs l) ≡ some (catalog_with i t u cs l)) e
          (find-set_first _ l.catalog _ cs l.to_catalog (find-passes _ l.catalog cs l.to_catalog)),
      subst (λ k. catalog_at k cs ≡ some l.catalog) e l.to_catalog,
    )

    same_schema :
        (k : Ident)
        → i.schema ≡ k
        → (schema_in k (some (catalog_with i t u cs l)) ≡ some (schema_with i t u cs l))
          × (schema_in k (some l.catalog) ≡ some l.schema)
    same_schema k e = (
      subst (λ k. schema_in k (some (catalog_with i t u cs l)) ≡ some (schema_with i t u cs l)) e
          (find-set_first _ l.schema _ l.catalog.schemas l.to_schema
            (find-passes _ l.schema l.catalog.schemas l.to_schema)),
      subst (λ k. schema_in k (some l.catalog) ≡ some l.schema) e l.to_schema,
    )

    -- No other path sees the write.
    pub table_at-set_topic_ne :
        (j : TableId) → j ≢ i → table_at j (set_topic i t u cs l) ≡ table_at j cs
    table_at-set_topic_ne j ne = elim (Bool-cases (eq_text i.catalog j.catalog)) [
      | inr other ↦
          ap (λ o. table_in j.table (schema_in j.schema o)) (other_catalog j.catalog other)
      | inl same ↦
          let (a, b) = same_catalog j.catalog (eq_text_sound i.catalog j.catalog same) in
          rw (a, b)
            (elim (Bool-cases (eq_text i.schema j.schema)) [
              | inr other ↦ ap (table_in j.table) (other_schema j.schema other)
              | inl same' ↦
                  let (c, d) = same_schema j.schema (eq_text_sound i.schema j.schema same') in
                  rw (c, d)
                    (elim (Bool-cases (eq_text i.table j.table)) [
                      | inr other ↦ other_table j.table other
                      | inl same'' ↦ absurd (
                          ne (
                            ground (
                              arith,
                              eq_text_sound i.catalog j.catalog same,
                              eq_text_sound i.schema j.schema same',
                              eq_text_sound i.table j.table same'',
                            )))
                    ])
            ])
    ]

  -- Where the path of a table id leads to a topic and the function succeeds on the topic, the write
  -- succeeds, the path then leads to the function's result, and the lookup of every other table id is
  -- what it was; where the function fails on the topic, the write fails with the same error.
  pub in_topic-writes :
      (f : TopicInfo X → Result (TopicInfo X))
      → ((u : TopicInfo X)
          → f t ≡ ok u
          → (cs' : List (CatalogState X)) × (in_topic i f cs ≡ ok cs')
            × Leads i u cs'
            × ((j : TableId) → j ≢ i → table_at j cs' ≡ table_at j cs))
        × ((e : EngineError) → f t ≡ err e → in_topic i f cs ≡ err e)
  in_topic-writes f = (
    λ u h. (set_topic i t u cs l, in_topic-ok f u h, Leads-set_topic u, table_at-set_topic_ne u),
    in_topic-err f,
  )
