-- ===== src/Examples/Columns.antt =====
-- Rows of a time and a number, at concrete arrays: a field is the tag of a type and whether it is
-- nullable, and an array has the tag of its type.
use ella.Prelude.{
  ℕ, Bool, false, ◌==◌, ◌≡◌, refl, arith, some, none, List, length, get_elem?, if◌then◌else◌,
}
use ella.Rows.{Arrow, RowFormat, RowLaws, row_format}
use ella.Rows.Scalar.{
  IsAccepted, TensorValue, TensorValueLaws, scalar_format, scalar_format-RowLaws,
}
use ella.Rows.Times.{
  TimeCrate, Time, timestamp, from_timestamp, time_value, time_value-TensorValueLaws,
}
use ella.Rows.Stamped.{BothAccept, BothKeep, row_format-RowLaws}

abbrev arrow : Arrow
arrow = record {
  Field = ℕ × Bool;
  ArrayRef = ℕ × List ℕ;
  Error = ℕ × ℕ;
  column_count = λ a b. (a, b);
  incompatible_row = λ f. (f.0, 0);
  is_nullable = λ f. f.1;
  array_len = λ a. length a.1;
}

-- Numbers whose type has the tag `tag`.
abbrev column : ℕ → TensorValue arrow ℕ
column tag = record {
  Array = List ℕ;
  nullable = false;
  contains = λ f. f.0 == tag;
  cast_error = λ a. (a.0, tag);
  from_vec = λ xs. xs;
  to_ref = λ a. (tag, a);
  downcast = λ a. if a.0 == tag then some a.1 else none;
  len = length;
  value = get_elem?;
}

column-TensorValueLaws : (tag : ℕ) → TensorValueLaws (column tag) (λ x. Unit)
column-TensorValueLaws tag = record {
  downcasts = λ a. ground arith;
  array_len-to_ref = λ a. refl;
  len-from_vec = λ xs. refl;
  value-from_vec = λ xs i h. refl;
}

-- A time is its number of nanoseconds.
abbrev clock : TimeCrate
clock = record {
  OffsetDateTime = ℕ;
  unix_timestamp_nanos = λ t. t;
  from_unix_timestamp_nanos = some;
}

abbrev time_format : RowFormat arrow (Time clock)
time_format = scalar_format (time_value clock (column 0))

time_format-RowLaws :
    RowLaws time_format
      (IsAccepted (time_value clock (column 0)))
      (λ t. from_timestamp clock (timestamp clock t) ≡ some t)
time_format-RowLaws =
    scalar_format-RowLaws (time_value clock (column 0))
      (λ t. from_timestamp clock (timestamp clock t) ≡ some t)
      (time_value-TensorValueLaws clock (column 0) (λ x. Unit) (column-TensorValueLaws 0) (λ t. tt))

row_format-RowLaws_example :
    RowLaws
      (row_format time_format (scalar_format (column 1)))
      (BothAccept 1 (IsAccepted (time_value clock (column 0))) (IsAccepted (column 1)))
      (BothKeep (λ t. from_timestamp clock (timestamp clock t) ≡ some t) (λ x. Unit))
unfolding scalar_format
row_format-RowLaws_example =
    row_format-RowLaws time_format (scalar_format (column 1))
      (IsAccepted (time_value clock (column 0))) (IsAccepted (column 1))
      (λ t. from_timestamp clock (timestamp clock t) ≡ some t) (λ x. Unit) time_format-RowLaws
      (scalar_format-RowLaws (column 1) (λ x. Unit) (column-TensorValueLaws 1)) refl
