-- ===== src/Tensor/Slice.antt =====
-- Slices of one axis: `Slice`, `to_abs_slice` and `do_slice` of ella-tensor/src/slice.rs, on 64-bit
-- machines. An `isize` is an `Axis`; a failed assertion and an index below zero are `none`.
pub mod Elements
use ella.Prelude.{
  ℕ, zero, suc, ◌+◌, ◌-◌, ◌*◌, ◌/◌, ◌%◌, ◌^◌, Bool, true, false, ◌&&◌, Option, none, some, ltb, leb,
  ◌==◌, if◌then◌else◌,
}
use ella.Shape.Axis.{Axis, pos, negsuc, abs_index}

pub record Slice : Type 0 where
  pub start : Axis
  pub end : Option Axis
  pub step : Axis

-- The ranges that become slices: `a..b`, `a..=b`, `a..`, `..b`, `..=b` and `..`.
pub data Bounds : Type 0 where
  range range_inclusive : Axis → Axis → Bounds
  range_from range_to range_to_inclusive : Axis → Bounds
  range_full : Bounds

abbrev one : Axis
one = pos 1

-- `if end == -1 { None } else { Some(end + 1) }`
abbrev behind : Axis → Option Axis
behind (pos n) = some (pos (suc n))
behind (negsuc zero) = none
behind (negsuc (suc n)) = some (negsuc n)

unfoldable pub of_bounds : Bounds → Slice
of_bounds (range a b) = record { start = a; end = some b; step = one }
of_bounds (range_inclusive a b) = record { start = a; end = behind b; step = one }
of_bounds (range_from a) = record { start = a; end = none; step = one }
of_bounds (range_to b) = record { start = pos 0; end = some b; step = one }
of_bounds (range_to_inclusive b) = record { start = pos 0; end = behind b; step = one }
of_bounds range_full = record { start = pos 0; end = none; step = one }

abbrev pub unsigned_abs : Axis → ℕ
unsigned_abs (pos n) = n
unsigned_abs (negsuc n) = suc n

abbrev pub is_negative : Axis → Bool
is_negative (pos n) = false
is_negative (negsuc n) = true

-- The assertions of `to_abs_slice`.
abbrev pub checked : ℕ → ℕ → ℕ → Axis → Option (ℕ × ℕ × Axis)
checked n start end step =
    if leb start n
    then if leb end n
      then if unsigned_abs step == 0 then none else some (start, end, step)
      else none
    else none

abbrev pub clamped : ℕ → Option ℕ → Option ℕ → Axis → Option (ℕ × ℕ × Axis)
clamped n none end step = none
clamped n (some start) none step = none
clamped n (some start) (some end) step = checked n start (if ltb end start then start else end) step

unfoldable pub to_abs_slice : ℕ → Slice → Option (ℕ × ℕ × Axis)
unfolding abs_index
to_abs_slice n s =
    clamped n (abs_index s.start n) (abs_index (elim s.end [ none ↦ pos n | some e ↦ e ]) n) s.step

-- The number of elements, and the position among the elements of the axis at which the slice begins.
unfoldable pub sliced_len : ℕ → ℕ → ℕ
sliced_len m abs_step =
    if abs_step == 1 then m else m / abs_step + (if ltb 0 (m % abs_step) then 1 else 0)

unfoldable pub first : ℕ → ℕ → Axis → ℕ
first start end step = if is_negative step then end - 1 else start

-- `(s * step) as usize`
abbrev pub wrapped : ℕ → Axis → ℕ
wrapped s (pos k) = (s * k) % 2 ^ 64
wrapped s (negsuc k) = (2 ^ 64 - (s * suc k) % 2 ^ 64) % 2 ^ 64

-- The offset, the new length and the new stride. The old stride is that of a layout that has not been
-- reversed, smaller than `2 ^ 63`.
unfoldable pub do_slice : ℕ → ℕ → Slice → Option (ℕ × ℕ × ℕ)
unfolding to_abs_slice sliced_len first
do_slice n s slice = elim (to_abs_slice n slice) [
  | none ↦ none
  | some p ↦
      let m = p.1 - p.0 in
      let len = sliced_len m (unsigned_abs p.2) in
      some
        (if m == 0 then 0 else first p.0 p.1 p.2 * s, len, if leb len 1 then 0 else wrapped s p.2)
]
