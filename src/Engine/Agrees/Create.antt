-- ===== src/Engine/Agrees/Create.antt =====
-- Creating catalogs and schemas (ella-engine/src/cluster.rs, catalog.rs): the tree in memory and the
-- one that a restart would replay stay the same.
use ella.Prelude.{
  ℕ, ◌≡◌, refl, sym, ◌∙◌, ap, Bool, none, some, [], ◌∷◌, ◌++◌, inl, inr, Option-cases,
}
use ella.Prelude.DashMap
use ella.Prelude.DashMap.Laws.{
  insert-All, insert-IsUnique, modify-All, modify-IsUnique, modify-same, get-All,
}
use ella.Prelude.Result.{Result, ok}
use ella.External.{External}
use ella.Registry.Id.{Ident, CatalogId, schema_of}
use ella.Registry.Transaction.{uuid, create_catalog, create_schema, new_catalog, new_schema}
use ella.Registry.LogApi.{LogApi}
use ella.Registry.Snapshot
use ella.Registry.Snapshot.{CatalogState, apply}
use ella.Engine.Outcome.{and_then, and_then_kept}
use ella.Engine.World.{EllaCatalog, Services, commit}
use ella.Engine.Catalog.{schema, open_schema, register_schema, new_schema_in}
use ella.Engine.Cluster.{
  EllaCluster, catalog, register_catalog, open_catalog, new_catalog_named, put_catalog,
}
use ella.Engine.Tree.{catalog_view, schema_view, tree, IsCatalog, IsSchema, map-insert}
use ella.Engine.Agrees.{Agrees, IsRising, done, committing-Agrees, in_catalog-tree}

module _ {X : External} {L : LogApi X} (V : Services L) (base : Snapshot.Snapshot X)
    (rising : IsRising V.fresh) (c : EllaCluster L) (agrees : Agrees V base c) where
  create_catalog-tree :
      (i : Ident) (u : ℕ)
      → DashMap.get i c.catalogs ≡ none
      → apply (create_catalog (new_catalog u (record { id = i }) V.root)) (tree X V.root c.catalogs)
        ≡ ok (tree X V.root (DashMap.insert i (new_catalog_named i) c.catalogs))
  unfolding apply tree catalog_view new_catalog Snapshot.catalog_state new_catalog_named
  create_catalog-tree i u h =
      ap ok (sym (map-insert (catalog_view X V.root) i (new_catalog_named i) c.catalogs h))

  -- Where memory and log agree, and the ids that are drawn rise, creating a catalog, with or without
  -- `IF NOT EXISTS`, keeps them in agreement: the catalog is there already, is created, or the log
  -- refuses the transaction.
  pub open_catalog-Agrees :
      (i : Ident) (if_not_exists : Bool) → Agrees V base (open_catalog V i if_not_exists c).0
  unfolding open_catalog register_catalog catalog commit and_then new_catalog new_catalog_named uuid
  open_catalog-Agrees i if_not_exists = elim (Option-cases (DashMap.get i c.catalogs)) [
    | inr (a, e) ↦ rw (e, open_catalog, catalog) agrees
    | inl e ↦
        rw (e, open_catalog, catalog)
          (rw
            (and_then_kept (register_catalog V i (new_catalog_named i) c)
              (λ _. done (new_catalog_named i)))
            (committing-Agrees V base rising c agrees
              (λ u. create_catalog (new_catalog u (record { id = i }) V.root)) (λ u. refl)
              (Agrees V base) (λ w. record c { world = w }) _
              (DashMap.insert i (new_catalog_named i) c.catalogs)
              (create_catalog-tree i (V.fresh c.world.drawn) e)
              (
                insert-All IsCatalog i _ c.catalogs (refl, tt, tt) agrees.filed.0,
                insert-IsUnique i _ c.catalogs agrees.filed.1,
              )
              (λ h. h) (λ h. h)))
  ]

  -- The catalog with a schema that it did not have.
  abbrev with_schema : Ident → EllaCatalog X → EllaCatalog X
  with_schema i a = record a { schemas = DashMap.insert i (new_schema_in i a) a.schemas }

  create_schema-tree :
      (k i : Ident) (u : ℕ) (a : EllaCatalog X)
      → a.id ≡ record { id = k }
      → DashMap.get k c.catalogs ≡ some a
      → DashMap.get i a.schemas ≡ none
      → apply (create_schema (new_schema u (schema_of a.id i) V.root)) (tree X V.root c.catalogs)
        ≡ ok (tree X V.root (DashMap.modify k (λ _. with_schema i a) c.catalogs))
  unfolding apply catalog_view schema_view new_schema schema_of Snapshot.schema_state new_schema_in
  create_schema-tree k i u a q h e =
      let state = schema_view X V.root (new_schema_in i a) in
      let f : CatalogState X → Result (CatalogState X) =
        λ c. ok (record c { schemas = c.schemas ++ state ∷ [] }) in
      ap (λ (j : CatalogId). Snapshot.in_catalog j.id f (tree X V.root c.catalogs)) q
      ∙ in_catalog-tree {X = X} V.root k a (with_schema i a) c.catalogs f agrees.filed h (
          ap (λ ss. ok (record { id = a.id; path = X.join V.root a.id.id; schemas = ss }))
            (sym (map-insert (schema_view X V.root) i (new_schema_in i a) a.schemas e)))

  with_schema-IsCatalog :
      (k i : Ident) (a : EllaCatalog X) → IsCatalog (k, a) → IsCatalog (k, with_schema i a)
  unfolding new_schema_in schema_of
  with_schema-IsCatalog k i a h = (
    h.0,
    insert-All (IsSchema k) i _ a.schemas (ap (λ (j : CatalogId). schema_of j i) h.0, (tt, tt)) h.1,
    insert-IsUnique i _ a.schemas h.2,
  )

  -- Where memory and log agree, and the ids that are drawn rise, creating a schema in a catalog that is
  -- there, with or without `IF NOT EXISTS`, keeps them in agreement: the schema is there already, is
  -- created, or the log refuses the transaction.
  pub open_schema-Agrees :
      (k i : Ident) (if_not_exists : Bool) (a : EllaCatalog X)
      → DashMap.get k c.catalogs ≡ some a
      → Agrees V base (put_catalog k c (open_schema V i if_not_exists (a, c.world)).0)
  unfolding open_schema register_schema schema commit and_then put_catalog uuid new_schema
  open_schema-Agrees k i if_not_exists a h =
      let filed : IsCatalog (k, a) = get-All IsCatalog k a c.catalogs agrees.filed.0 h in
      let kept : Agrees V base (put_catalog k c (a, c.world)) =
        rw (put_catalog, modify-same k a c.catalogs h) agrees in
      elim (Option-cases (DashMap.get i a.schemas)) [
        | inr (s, e) ↦ rw (e, open_schema, schema) kept
        | inl e ↦
            rw (e, open_schema, schema)
              (rw
                (and_then_kept (register_schema V i (new_schema_in i a) (a, c.world))
                  (λ _. done (new_schema_in i a)))
                (committing-Agrees V base rising c agrees
                  (λ u. create_schema (new_schema u (schema_of a.id i) V.root)) (λ u. refl)
                  (λ p. Agrees V base (put_catalog k c p)) (λ w. (a, w)) _
                  (DashMap.modify k (λ _. with_schema i a) c.catalogs)
                  (create_schema-tree k i (V.fresh c.world.drawn) a filed.0 h e)
                  (
                    modify-All IsCatalog k _ c.catalogs (λ _ _. with_schema-IsCatalog k i a filed)
                        agrees.filed.0,
                    modify-IsUnique k _ c.catalogs agrees.filed.1,
                  )
                  (λ r. r) (λ r. rw (put_catalog, modify-same k a c.catalogs h) r)))
      ]
