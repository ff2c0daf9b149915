-- ===== src/Rows/Times.antt =====
-- Times as elements of columns (`TensorValue for Time` of ella-common/src/tensor_value.rs and `Time` of
-- ella-common/src/time.rs): an array of 64-bit time stamps in nanoseconds. Machine integers are
-- their bits.
use ella.Prelude.{
  ℕ, false, ◌+◌, ◌-◌, ◌%◌, ◌^◌, ◌≡◌, refl, ap, ◌∙◌, Option, none, some, List, [], ◌∷◌, All, length,
  map, zero, suc, get_elem?, if◌then◌else◌, ltb,
}
use ella.Rows.{Arrow}
use ella.Rows.Scalar.{TensorValue, TensorValueLaws}

-- What is used of the time crate; both give and take 128-bit integers.
pub record TimeCrate : Type 1 where
  pub OffsetDateTime : Type 0
  pub unix_timestamp_nanos : OffsetDateTime → ℕ
  pub from_unix_timestamp_nanos : ℕ → Option OffsetDateTime

-- The conversion of a signed 64-bit integer into one of 128 bits.
unfoldable pub extend : ℕ → ℕ
extend n = if ltb n (2 ^ 63) then n else n + (2 ^ 128 - 2 ^ 64)

module _ (C : TimeCrate) where
  pub record Time : Type 0 where
    pub date_time : C.OffsetDateTime

  unfoldable pub timestamp : Time → ℕ
  timestamp t = C.unix_timestamp_nanos t.date_time % 2 ^ 64

  -- `none` where the `unwrap` panics
  unfoldable pub from_timestamp : ℕ → Option Time
  unfolding extend
  from_timestamp n = elim (C.from_unix_timestamp_nanos (extend n)) [
    | none ↦ none
    | some d ↦ some (record { date_time = d })
  ]

  abbrev pub and_from : Option ℕ → Option Time
  and_from none = none
  and_from (some n) = from_timestamp n

  and_from-timestamps :
      (ts : List Time) (i : ℕ)
      → All (λ t. from_timestamp (timestamp t) ≡ some t) ts
      → and_from (get_elem? (map timestamp ts) i) ≡ get_elem? ts i
  and_from-timestamps [] i h = refl
  and_from-timestamps (t ∷ ts) zero h = h.0
  and_from-timestamps (t ∷ ts) (suc i) h = and_from-timestamps ts i h.1

  length-timestamps : (ts : List Time) → length (map timestamp ts) ≡ length ts
  length-timestamps [] = refl
  length-timestamps (t ∷ ts) = ap suc (length-timestamps ts)

  All-timestamps :
      (P : ℕ → Type 0) (ts : List Time) → ((t : Time) → P (timestamp t)) → All P (map timestamp ts)
  All-timestamps P [] h = tt
  All-timestamps P (t ∷ ts) h = (h t, All-timestamps P ts h)

  module _ {X : Arrow} where
    -- `TensorValue for Time`, over arrow's arrays of 64-bit time stamps.
    abbrev pub time_value : TensorValue X ℕ → TensorValue X Time
    time_value V = record {
      Array = V.Array;
      nullable = false;
      contains = V.contains;
      cast_error = V.cast_error;
      from_vec = λ ts. V.from_vec (map timestamp ts);
      to_ref = V.to_ref;
      downcast = V.downcast;
      len = V.len;
      value = λ a i. and_from (V.value a i);
    }

    -- Times keep the promises of elements if arrow's arrays do for time stamps: a time fits if its stamp in
    -- 64 bits gives it back.
    pub time_value-TensorValueLaws :
        (V : TensorValue X ℕ) (Fits : ℕ → Type 0)
        → TensorValueLaws V Fits
        → ((t : Time) → Fits (timestamp t))
        → TensorValueLaws (time_value V) (λ t. from_timestamp (timestamp t) ≡ some t)
    time_value-TensorValueLaws V Fits K fits = record {
      downcasts = K.downcasts;
      array_len-to_ref = K.array_len-to_ref;
      len-from_vec = λ ts. K.len-from_vec (map timestamp ts) ∙ length-timestamps ts;
      value-from_vec = λ ts i h.
          ap and_from (K.value-from_vec (map timestamp ts) i (All-timestamps Fits ts fits))
          ∙ and_from-timestamps ts i h;
    }
