-- ===== src/Registry/SchemaRef.antt =====
-- ella-engine/src/registry/id.rs: `SchemaRef` and the parser of `SchemaId`.
use mathlib.Core.Option
use ella.Prelude.{Text, none, some, List, [], ◌∷◌, ◌++◌}
use ella.Registry.Id.{Ident, SchemaRef, SchemaId}
use ella.Registry.Split.{dot, rsplit}

-- `Display for SchemaRef`
unfoldable pub display : SchemaRef → Text
display r = elim r.catalog [ none ↦ r.schema | some c ↦ c ++ dot ∷ r.schema ]

-- `Display for SchemaId`
unfoldable pub display_id : SchemaId → Text
display_id s = s.catalog ++ dot ∷ s.schema

unfoldable pub resolve : SchemaRef → Ident → SchemaId
resolve r default_catalog = record {
  catalog = Option.get_or r.catalog default_catalog;
  schema = r.schema;
}

-- The first two parts from the right; the iterator is never empty.
abbrev pub of_parts : List Text → SchemaRef
of_parts [] = record { catalog = none; schema = [] }
of_parts (s ∷ []) = record { catalog = none; schema = s }
of_parts (s ∷ c ∷ rest) = record { catalog = some c; schema = s }

-- `From<&str> for SchemaRef`
unfoldable pub of_text : Text → SchemaRef
unfolding rsplit
of_text value = of_parts (rsplit value)

-- `SchemaId::parse`
unfoldable pub parse : Text → Ident → SchemaId
unfolding of_text
parse name default_catalog = record {
  catalog = Option.get_or (of_text name).catalog default_catalog;
  schema = (of_text name).schema;
}

-- `From<Id>` and `From<SchemaId>` for `SchemaRef`
unfoldable pub of_id : Ident → SchemaRef
of_id s = record { catalog = none; schema = s }

unfoldable pub of_schema_id : SchemaId → SchemaRef
of_schema_id s = record { catalog = some s.catalog; schema = s.schema }
