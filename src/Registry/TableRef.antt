-- ===== src/Registry/TableRef.antt =====
-- ella-engine/src/registry/id.rs: `TableRef`, and its conversions from and to the query engine's
-- `TableReference`.
use mathlib.Core.Option
use ella.Prelude.{Text, Option, none, some, List, [], ◌∷◌, ◌++◌}
use ella.Registry.Id.{Ident, TableRef, TableId}
use ella.Registry.Split.{dot, rsplit}

abbrev prefix : Option Ident → Text → Text
prefix none t = t
prefix (some i) t = i ++ dot ∷ t

-- `Display for TableRef`
unfoldable pub display : TableRef → Text
display r = prefix r.catalog (prefix r.schema r.table)

-- `Display for TableId`
unfoldable pub display_id : TableId → Text
display_id t = t.catalog ++ dot ∷ (t.schema ++ dot ∷ t.table)

unfoldable pub resolve : TableRef → Ident → Ident → TableId
resolve r default_catalog default_schema = record {
  catalog = Option.get_or r.catalog default_catalog;
  schema = Option.get_or r.schema default_schema;
  table = r.table;
}

unfoldable pub with_catalog : TableRef → Ident → TableRef
with_catalog r c = record r { catalog = some c }

unfoldable pub with_schema : TableRef → Ident → TableRef
with_schema r s = record r { schema = some s }

-- `From<TableId> for TableRef`
unfoldable pub of_table_id : TableId → TableRef
of_table_id t = record { catalog = some t.catalog; schema = some t.schema; table = t.table }

-- The first three parts from the right; the iterator is never empty.
abbrev pub of_parts : List Text → TableRef
of_parts [] = record { catalog = none; schema = none; table = [] }
of_parts (t ∷ []) = record { catalog = none; schema = none; table = t }
of_parts (t ∷ s ∷ []) = record { catalog = none; schema = some s; table = t }
of_parts (t ∷ s ∷ c ∷ rest) = record { catalog = some c; schema = some s; table = t }

-- `From<&str> for TableRef`
unfoldable pub of_text : Text → TableRef
unfolding rsplit
of_text value = of_parts (rsplit value)

-- `From<Id> for TableRef`
unfoldable pub of_id : Ident → TableRef
of_id t = record { catalog = none; schema = none; table = t }

-- The variants of the query engine's `TableReference` that the two conversions name.
pub data TableReference : Type 0 where
  bare : Ident → TableReference
  partial : Ident → Ident → TableReference
  full : Ident → Ident → Ident → TableReference

-- `From<TableReference> for TableRef`
unfoldable pub of_reference : TableReference → TableRef
of_reference (bare t) = record { catalog = none; schema = none; table = t }
of_reference (partial s t) = record { catalog = none; schema = some s; table = t }
of_reference (full c s t) = record { catalog = some c; schema = some s; table = t }

abbrev reference : Option Ident → Option Ident → Ident → TableReference
reference (some c) (some s) t = full c s t
reference none (some s) t = partial s t
reference _ none t = bare t

-- `From<TableRef> for TableReference`
unfoldable pub to_reference : TableRef → TableReference
to_reference r = reference r.catalog r.schema r.table
