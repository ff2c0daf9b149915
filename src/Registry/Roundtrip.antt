-- ===== src/Registry/Roundtrip.antt =====
-- Printing and parsing the references of ella-engine/src/registry/id.rs.
use ella.Prelude.{Option, none, some, ◌≡◌, refl, ◌↔◌, [], ◌∷◌, ◌++◌, arith}
use ella.Registry.Id.{Ident, TableId, TableRef}
use ella.Registry.Split.{NoDot, rsplit, split-NoDot, split-append_dot}
use ella.Registry.SchemaRef
use ella.Registry.TableRef
use ella.Registry.TableRef.{TableReference, bare, partial, full}

abbrev pub NoDot? : Option Ident → Type 0
NoDot? none = Unit
NoDot? (some i) = NoDot i

-- No name of the reference holds a dot, and a catalog comes with a schema.
pub record IsPlain (r : TableRef) : Type 0 where
  pub catalog_plain : NoDot? r.catalog
  pub schema_plain : NoDot? r.schema
  pub table_plain : NoDot r.table
  pub nested : r.schema ≡ none → r.catalog ≡ none

module _ (c s t : Ident) where
  rsplit_three : NoDot c → NoDot s → NoDot t → rsplit (c ++ b'.' ∷ (s ++ b'.' ∷ t)) ≡ t ∷ s ∷ c ∷ []
  unfolding rsplit
  rsplit_three hc hs ht =
      rw (split-append_dot c _ hc, split-append_dot s _ hs, split-NoDot t ht) refl

rsplit_two : (s t : Ident) → NoDot s → NoDot t → rsplit (s ++ b'.' ∷ t) ≡ t ∷ s ∷ []
unfolding rsplit
rsplit_two s t hs ht = rw (split-append_dot s _ hs, split-NoDot t ht) refl

rsplit_one : (t : Ident) → NoDot t → rsplit t ≡ t ∷ []
unfolding rsplit
rsplit_one t ht = rw (split-NoDot t ht) refl

of_text-display_parts :
    (c s : Option Ident) (t : Ident)
    → NoDot? c
    → NoDot? s
    → NoDot t
    → (s ≡ none → c ≡ none)
    → TableRef.of_text (TableRef.display (record { catalog = c; schema = s; table = t }))
      ≡ record { catalog = c; schema = s; table = t }
unfolding TableRef.of_text TableRef.display
of_text-display_parts none none t hc hs ht h = rw (rsplit_one t ht)
of_text-display_parts none (some s) t hc hs ht h = rw (rsplit_two s t hs ht)
of_text-display_parts (some c) none t hc hs ht h = cc (h refl)
of_text-display_parts (some c) (some s) t hc hs ht h = rw (rsplit_three c s t hc hs ht)

-- A table reference whose names hold no dot, and which has no catalog unless it has a schema, is
-- parsed back from its printed form.
pub of_text-display : (r : TableRef) → IsPlain r → TableRef.of_text (TableRef.display r) ≡ r
of_text-display r h =
    of_text-display_parts r.catalog r.schema r.table h.catalog_plain h.schema_plain h.table_plain
      h.nested

-- The printed form of a full table id whose names hold no dot parses and resolves to that id,
-- whatever the default catalog and schema; the same holds of a schema id.
pub resolve-display_id :
    (t : TableId) (dc ds : Ident)
    → NoDot t.catalog
    → NoDot t.schema
    → NoDot t.table
    → (TableRef.resolve (TableRef.of_text (TableRef.display_id t)) dc ds ≡ t)
      × (SchemaRef.parse
            (SchemaRef.display_id (record { catalog = t.catalog; schema = t.schema }))
            dc
          ≡ record { catalog = t.catalog; schema = t.schema })
unfolding TableRef.resolve TableRef.of_text TableRef.display_id SchemaRef.parse SchemaRef.display_id
resolve-display_id t dc ds hc hs ht = (
  rw (rsplit_three t.catalog t.schema t.table hc hs ht) refl,
  rw (rsplit_two t.catalog t.schema hc hs) refl,
)

reference_parts :
    (c s : Option Ident) (t : Ident)
    → (TableRef.of_reference (TableRef.to_reference (record { catalog = c; schema = s; table = t }))
        ≡ record { catalog = c; schema = s; table = t })
      ↔ (s ≡ none → c ≡ none)
unfolding TableRef.of_reference TableRef.to_reference
reference_parts none s t = ground arith
reference_parts (some c) none t = ground arith
reference_parts (some c) (some s) t = ground arith

to_reference-of_reference :
    (q : TableReference) → TableRef.to_reference (TableRef.of_reference q) ≡ q
unfolding TableRef.of_reference TableRef.to_reference
to_reference-of_reference (bare t) = refl
to_reference-of_reference (partial s t) = refl
to_reference-of_reference (full c s t) = refl

-- A table reference survives the conversion to the query engine's reference and back exactly when
-- it has no catalog without a schema; every reference of the query engine survives the way back.
pub of_reference-to_reference :
    (r : TableRef) (q : TableReference)
    → ((TableRef.of_reference (TableRef.to_reference r) ≡ r) ↔ (r.schema ≡ none → r.catalog ≡ none))
      × (TableRef.to_reference (TableRef.of_reference q) ≡ q)
of_reference-to_reference r q =
    (reference_parts r.catalog r.schema r.table, to_reference-of_reference q)
