-- ===== src/Registry/Snapshot/Lookup.antt =====
-- Reading the catalog tree (ella-engine/src/registry/snapshot.rs) along a path of ids, and overwriting
-- the entry at its end.
use ella.Prelude.{
  ◌≡◌, refl, Bool, true, false, Option, none, some, List, [], ◌∷◌, if◌then◌else◌, arith, find,
  eq_text,
}
use ella.Prelude.Result.{EngineError, Result, ok, err}
use ella.External.{External}
use ella.Registry.Id.{Ident, TableId}
use ella.Registry.Info.{TopicInfo, topic}
use ella.Registry.Snapshot.{CatalogState, SchemaState, TableState, modify_first}

module _ {ℓ} {A : Type ℓ} where
  -- Overwrite the first element that passes the test.
  abbrev pub set_first : (A → Bool) → A → List A → List A
  set_first p y [] = []
  set_first p y (x ∷ xs) = let rest = set_first p y xs in if p x then y ∷ xs else x ∷ rest

  pub modify_first-ok :
      (p : A → Bool) (e : EngineError) (f : A → Result A) (x y : A) (xs : List A)
      → find p xs ≡ some x
      → f x ≡ ok y
      → modify_first p e f xs ≡ ok (set_first p y xs)
  unfolding modify_first
  modify_first-ok p e f x y [] h k = cc
  modify_first-ok p e f x y (z ∷ xs) h k = ground (arith, modify_first-ok p e f x y xs)

  pub modify_first-err :
      (p : A → Bool) (e e' : EngineError) (f : A → Result A) (x : A) (xs : List A)
      → find p xs ≡ some x
      → f x ≡ err e'
      → modify_first p e f xs ≡ err e'
  unfolding modify_first
  modify_first-err p e e' f x [] h k = cc
  modify_first-err p e e' f x (z ∷ xs) h k = ground (arith, modify_first-err p e e' f x xs)

  pub find-set_first :
      (p : A → Bool) (x y : A) (xs : List A)
      → find p xs ≡ some x
      → p y ≡ true
      → find p (set_first p y xs) ≡ some y
  find-set_first p x y [] h k = cc
  find-set_first p x y (z ∷ xs) h k = ground (arith, find-set_first p x y xs)

  -- A test that no element passes with the first one does not see the write.
  pub find-set_first_ne :
      (p q : A → Bool) (y : A) (xs : List A)
      → ((a : A) → p a ≡ true → q a ≡ false)
      → q y ≡ false
      → find q (set_first p y xs) ≡ find q xs
  find-set_first_ne p q y [] h k = refl
  find-set_first_ne p q y (z ∷ xs) h k = ground (arith, h z, find-set_first_ne p q y xs h k)

module _ {X : External} where
  abbrev pub catalog_at : Ident → List (CatalogState X) → Option (CatalogState X)
  catalog_at i = find (λ c. eq_text c.id.id i)

  abbrev pub schema_in : Ident → Option (CatalogState X) → Option (SchemaState X)
  schema_in i none = none
  schema_in i (some c) = find (λ s. eq_text s.id.schema i) c.schemas

  abbrev pub table_in : Ident → Option (SchemaState X) → Option (TableState X)
  table_in i none = none
  table_in i (some s) = find (λ t. eq_text t.id.table i) s.tables

  abbrev pub table_at : TableId → List (CatalogState X) → Option (TableState X)
  table_at i cs = table_in i.table (schema_in i.schema (catalog_at i.catalog cs))

  -- Where a path of ids leads: the entries on the way.
  pub record Leads (i : TableId) (t : TopicInfo X) (cs : List (CatalogState X)) : Type 0 where
    pub catalog : CatalogState X
    pub schema : SchemaState X
    pub table : TableState X
    pub to_catalog : catalog_at i.catalog cs ≡ some catalog
    pub to_schema : schema_in i.schema (some catalog) ≡ some schema
    pub to_table : table_in i.table (some schema) ≡ some table
    pub to_topic : table.info ≡ topic t

module _ {X : External} (i : TableId) (t u : TopicInfo X) (cs : List (CatalogState X))
    (l : Leads i t cs) where
  -- The entries on the way, and the tree, with the topic at the end of the path replaced.
  abbrev pub table_with : TableState X
  table_with = record l.table { info = topic u }

  abbrev pub schema_with : SchemaState X
  schema_with = record l.schema {
    tables = set_first (λ t. eq_text t.id.table i.table) table_with l.schema.tables;
  }

  abbrev pub catalog_with : CatalogState X
  catalog_with = record l.catalog {
    schemas = set_first (λ s. eq_text s.id.schema i.schema) schema_with l.catalog.schemas;
  }

  unfoldable pub set_topic : List (CatalogState X)
  set_topic = set_first (λ c. eq_text c.id.id i.catalog) catalog_with cs
