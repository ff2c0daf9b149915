-- ===== src/Tensor/Mask.antt =====
-- `MaskData` of ella-tensor/src/mask/data.rs: a window of a validity buffer, with the number of its
-- masked places. A failed `debug_assert!` is `none`.
pub mod Count
pub mod Window
pub mod Iter
use ella.Prelude.{
  ℕ, zero, suc, ◌+◌, ◌-◌, ◌≤◌, ◌<◌, ◌≡◌, Bool, true, false, not, ◌&&◌, Option, none, some, ltb, leb,
  ◌==◌, if◌then◌else◌,
}
use ella.Shape.Axis.{Axis, pos, negsuc}

-- The masked places among the `n` from `start` on.
unfoldable pub count : (ℕ → Bool) → ℕ → ℕ → ℕ
count valid start zero = 0
count valid start (suc n) =
    let rest = count valid (suc start) n in if valid start then rest else suc rest

-- What is used of `NullBuffer` of the crate arrow.
pub record NullBuffers : Type 1 where
  pub Buffer : Type 0
  pub len : Buffer → ℕ
  pub is_valid : Buffer → ℕ → Bool
  pub null_count : Buffer → ℕ
  pub slice : Buffer → ℕ → ℕ → Buffer
  pub null_count-count : (b : Buffer) → null_count b ≡ count (is_valid b) 0 (len b)
  pub len-slice : (b : Buffer) (o n : ℕ) → o + n ≤ len b → len (slice b o n) ≡ n
  pub is_valid-slice :
      (b : Buffer) (o n i : ℕ)
      → o + n ≤ len b
      → i < n
      → is_valid (slice b o n) i ≡ is_valid b (o + i)

pub record MaskData (N : NullBuffers) : Type 0 where
  pub values : Option N.Buffer
  pub offset : ℕ
  pub len : ℕ
  pub num_masked : ℕ

-- `self.offset as isize + offset`, which must not be negative.
abbrev pub moved : ℕ → Axis → Option ℕ
moved o (pos k) = some (o + k)
moved o (negsuc k) = if leb (suc k) o then some (o - suc k) else none

module _ (N : NullBuffers) where
  unfoldable pub count_masked : N.Buffer → ℕ → ℕ → ℕ
  unfolding count
  count_masked b start end =
      if (start == 0) && (end == N.len b)
      then N.null_count b
      else if N.null_count b == N.len b
      then end - start
      else if N.null_count b == 0
      then 0
      else count (N.is_valid b) start (end - start)

  unfoldable pub new : Option N.Buffer → ℕ → ℕ → MaskData N
  unfolding count_masked
  new values offset len = record {
    values = values;
    offset = offset;
    len = len;
    num_masked = elim values [ none ↦ 0 | some b ↦ count_masked b offset (offset + len) ];
  }

  -- The bit of a place that the window has.
  unfoldable pub is_valid : MaskData N → ℕ → Bool
  is_valid m i = elim m.values [ none ↦ true | some b ↦ N.is_valid b (i + m.offset) ]

  unfoldable pub num_valid : MaskData N → ℕ
  num_valid m = m.len - m.num_masked

  unfoldable pub all : MaskData N → Bool
  all m = m.num_masked == 0

  unfoldable pub any : MaskData N → Bool
  any m = ltb m.num_masked m.len

  -- The first match of `slice`, on where the window begins, and the second one, on where it ends.
  unfoldable pub recount_start : N.Buffer → ℕ → Axis → ℕ → ℕ → ℕ
  unfolding count_masked
  recount_start b old (negsuc k) now n = n + count_masked b now old
  recount_start b old (pos zero) now n = n
  recount_start b old (pos (suc k)) now n = n - count_masked b old now

  unfoldable pub recount_end : N.Buffer → ℕ → ℕ → ℕ → ℕ
  unfolding count_masked
  recount_end b old_end new_end n =
      if ltb old_end new_end
      then n + count_masked b old_end new_end
      else if ltb new_end old_end
      then n + count_masked b new_end old_end
      else n

  unfoldable pub unmasked : ℕ → MaskData N
  unmasked length = record { values = none; offset = 0; len = length; num_masked = 0 }

  unfoldable pub slice : MaskData N → Axis → ℕ → Option (MaskData N)
  unfolding recount_start recount_end unmasked
  slice m o length = elim (moved m.offset o) [
    | none ↦ none
    | some offset ↦ elim m.values [
      | none ↦ some (unmasked length)
      | some b ↦
          if leb (length + offset) (N.len b)
          then some (record {
            values = some b;
            offset = offset;
            len = length;
            num_masked =
                recount_end b (m.offset + m.len) (offset + length)
                  (recount_start b m.offset o offset m.num_masked);
          })
          else none
    ]
  ]

  unfoldable pub slice_exact : MaskData N → Axis → ℕ → Option (MaskData N)
  unfolding unmasked
  slice_exact m o length = elim (moved m.offset o) [
    | none ↦ none
    | some offset ↦ elim m.values [
      | none ↦ some (unmasked length)
      | some b ↦
          if leb (length + offset) (N.len b)
          then some (record {
            values = some (N.slice b offset length);
            offset = offset;
            len = length;
            num_masked = N.null_count (N.slice b offset length);
          })
          else none
    ]
  ]

  -- `MaskData::offset` by a number of places forward, which the window must have.
  unfoldable pub offset_by : MaskData N → ℕ → Option (MaskData N)
  unfolding slice
  offset_by m k = slice m (pos k) (m.len - k)
