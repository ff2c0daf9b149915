-- ===== src/Registry/Id.antt =====
-- ella-engine/src/registry/id.rs: the identifiers of catalogs, schemas and tables. An `Id`, here
-- `Ident`, wraps a `Cow<str>`; whether the text is borrowed or owned is not modelled, so `into_owned`
-- is the identity.
use ella.Prelude.{Text, eq_text, Bool, Option, ◌&&◌, ◌≡◌, ◌↔◌, eq_text_iff, true, arith}

abbrev pub Ident : Type 0
Ident = Text

pub record SchemaRef : Type 0 where
  pub catalog : Option Ident
  pub schema : Ident

pub record TableRef : Type 0 where
  pub catalog : Option Ident
  pub schema : Option Ident
  pub table : Ident

pub record CatalogId : Type 0 where
  pub id : Ident

pub record SchemaId : Type 0 where
  pub catalog : Ident
  pub schema : Ident

pub record TableId : Type 0 where
  pub catalog : Ident
  pub schema : Ident
  pub table : Ident

-- `CatalogId::schema`
unfoldable pub schema_of : CatalogId → Ident → SchemaId
schema_of c s = record { catalog = c.id; schema = s }

-- `SchemaId::table`
unfoldable pub table_of : SchemaId → Ident → TableId
table_of s t = record { catalog = s.catalog; schema = s.schema; table = t }

-- `From<SchemaId> for CatalogId`
unfoldable pub catalog_id : SchemaId → CatalogId
catalog_id s = record { id = s.catalog }

-- `From<TableId> for SchemaId`
unfoldable pub schema_id : TableId → SchemaId
schema_id t = record { catalog = t.catalog; schema = t.schema }

-- The derived `PartialEq`.
unfoldable pub eq_schema_id : SchemaId → SchemaId → Bool
eq_schema_id a b = eq_text a.catalog b.catalog && eq_text a.schema b.schema

unfoldable pub eq_table_id : TableId → TableId → Bool
eq_table_id a b =
    eq_text a.catalog b.catalog && (eq_text a.schema b.schema && eq_text a.table b.table)

pub eq_schema_id_iff : (a b : SchemaId) → (eq_schema_id a b ≡ true) ↔ (a ≡ b)
unfolding eq_schema_id
eq_schema_id_iff a b =
    ground (arith, eq_text_iff a.catalog b.catalog, eq_text_iff a.schema b.schema)

pub eq_table_id_iff : (a b : TableId) → (eq_table_id a b ≡ true) ↔ (a ≡ b)
unfolding eq_table_id
eq_table_id_iff a b = ground (
  arith,
  eq_text_iff a.catalog b.catalog,
  eq_text_iff a.schema b.schema,
  eq_text_iff a.table b.table,
)
