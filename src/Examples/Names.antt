-- ===== src/Examples/Names.antt =====
-- Names and time-ordered ids.
use ella.Prelude.{ℕ, ◌≡◌, ◌↔◌, codes, none, some, arith, ◌+◌}
use ella.Registry.Id.{TableRef}
use ella.Registry.TableRef
use ella.Registry.TableRef.{TableReference, bare}
use ella.Registry.Roundtrip.{IsPlain, of_text-display, of_reference-to_reference}

abbrev reference : TableRef
reference = record { catalog = some (codes "c"); schema = some (codes "s"); table = codes "t" }

plain : IsPlain reference
plain = record {
  catalog_plain = (omega arith, tt);
  schema_plain = (omega arith, tt);
  table_plain = (omega arith, tt);
  nested = λ e. cc;
}

of_text-display_example : TableRef.of_text (TableRef.display reference) ≡ reference
of_text-display_example = of_text-display reference plain

of_reference-to_reference_example :
    ((TableRef.of_reference (TableRef.to_reference reference) ≡ reference)
      ↔ (reference.schema ≡ none → reference.catalog ≡ none))
    × (TableRef.to_reference (TableRef.of_reference (bare (codes "t"))) ≡ bare (codes "t"))
of_reference-to_reference_example = of_reference-to_reference reference (bare (codes "t"))

abbrev random : ℕ → ℕ
random k = k + 200
