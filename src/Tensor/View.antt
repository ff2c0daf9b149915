-- ===== src/Tensor/View.antt =====
-- Tensors as views of a buffer: `TensorData` of ella-tensor/src/tensor/data.rs, `Tensor` of
-- ella-tensor/src/tensor.rs, and the views of ella-tensor/src/ops/shape.rs, ops/slice.rs and
-- ops/index.rs. Offsets and strides are 64-bit words: a negative `isize` is its two's complement. The
-- build is one without debug assertions; a position out of range and another panic are `none`.
pub mod Words
pub mod Offsets
pub mod Axes
pub mod Steps
pub mod Broadcast
use ella.Prelude.{
  get_elem?, ℕ, zero, suc, ◌+◌, ◌-◌, ◌*◌, ◌%◌, ◌^◌, Bool, true, false, Option, none, some, List, [],
  ◌∷◌, ◌++◌, ltb, leb, ◌==◌, if◌then◌else◌, length, take, drop, reverse, map_option, ◌<◌, ◌≡◌,
}
use ella.Shape.{size, zeros, stride_offset, stride_offset_checked}
use ella.Shape.Axis.{Axis, pos, negsuc, abs_index, insert_axis, remove_axis}
use ella.Shape.Strides.{Below}
use ella.Tensor.Slice.{Slice, do_slice}

-- The array that is shared, and the part of it that is used.
pub record TensorData (A : Type 0) : Type 0 where
  pub values : List A
  pub offset : ℕ
  pub len : ℕ

pub record Tensor (A : Type 0) : Type 0 where
  pub shape : List ℕ
  pub strides : List ℕ
  pub values : TensorData A

-- The word of a number, of a sum with a word, and of a difference.
abbrev pub word : ℕ → ℕ
word n = n % 2 ^ 64

abbrev pub minus : ℕ → ℕ → ℕ
minus a b = word (a + (2 ^ 64 - word b))

module _ {A : Type 0} where
  -- `TensorData::value_unchecked`: `none` is a read outside the array, which is undefined behaviour.
  unfoldable pub value_unchecked : TensorData A → ℕ → Option A
  value_unchecked d i = get_elem? d.values (word (i + d.offset))

  -- `TensorData::slice` and `TensorData::offset`
  unfoldable pub slice_data : ℕ → ℕ → TensorData A → TensorData A
  slice_data o n d = record d { offset = word (d.offset + o); len = n }

  unfoldable pub offset_data : ℕ → TensorData A → TensorData A
  unfolding slice_data
  offset_data o d = slice_data o (minus d.len o) d

  -- `TensorData::slice_exact`, which copies, and `shrink_to_fit`
  unfoldable pub slice_data_exact : ℕ → ℕ → TensorData A → TensorData A
  slice_data_exact o n d =
      let start = word (d.offset + o) in
      record { values = take n (drop start d.values); offset = 0; len = n }

  unfoldable pub shrink_to_fit : TensorData A → TensorData A
  unfolding slice_data_exact
  shrink_to_fit d =
      if d.offset == 0
      then if d.len == length d.values then d else slice_data_exact 0 d.len d
      else slice_data_exact 0 d.len d

  -- The place in the array of the element at an index, and the element.
  abbrev pub address : Tensor A → List ℕ → ℕ
  address t i = word (stride_offset i t.strides + t.values.offset)

  abbrev pub element : Tensor A → List ℕ → Option A
  element t i = get_elem? t.values.values (address t i)

  -- `Tensor::index`, with an index by numbers
  unfoldable pub index_tensor : Tensor A → List ℕ → Option A
  unfolding value_unchecked
  index_tensor t i = elim (stride_offset_checked t.shape i t.strides) [
    | none ↦ none
    | some o ↦ value_unchecked t.values o
  ]

-- `xs[i]` and `xs[i] = x` of a slice, where `i` is in range.
unfoldable pub nth : ℕ → List ℕ → ℕ
nth i [] = 0
nth zero (x ∷ xs) = x
nth (suc i) (x ∷ xs) = nth i xs

unfoldable pub set : ℕ → ℕ → List ℕ → List ℕ
set i y [] = []
set zero y (x ∷ xs) = y ∷ xs
set (suc i) y (x ∷ xs) = x ∷ set i y xs

-- `<[usize]>::swap`
unfoldable pub swap : ℕ → ℕ → List ℕ → List ℕ
unfolding set nth
swap a b xs = set a (nth b xs) (set b (nth a xs) xs)

-- The loop of `broadcast_to`, from the last axis on, and the strides of the axes that are added.
unfoldable pub broadcast_strides : List ℕ → List ℕ → List ℕ → Option (List ℕ)
unfolding zeros
broadcast_strides [] ss to = some (zeros (length to))
broadcast_strides (e ∷ es) [] to = some (zeros (length to))
broadcast_strides (e ∷ es) (s ∷ ss) [] = some []
broadcast_strides (e ∷ es) (s ∷ ss) (d ∷ ds) =
    let rest = broadcast_strides es ss ds in
    if d == e
    then map_option (λ rs. s ∷ rs) rest
    else if e == 1
    then map_option (λ rs. 0 ∷ rs) rest
    else none

unfoldable pub diag_stride : List ℕ → ℕ
diag_stride [] = 0
diag_stride (s ∷ ss) = s + diag_stride ss

-- `iter().copied().min()`
unfoldable pub smallest : List ℕ → Option ℕ
smallest [] = none
smallest (d ∷ ds) = elim (smallest ds) [ none ↦ some d | some m ↦ some (if ltb m d then m else d) ]

module _ {A : Type 0} where
  -- `Axis::index`, where the axis that it gives is one of the tensor's
  unfoldable pub with_axis {ℓ} : {B : Type ℓ} → Axis → Tensor A → (ℕ → Option B) → Option B
  unfolding abs_index
  with_axis axis t f = elim (abs_index axis (length t.shape)) [
    | none ↦ none
    | some a ↦ if ltb a (length t.shape) then f a else none
  ]

  unfoldable pub unsqueeze : Axis → Tensor A → Option (Tensor A)
  unfolding insert_axis
  unsqueeze axis t = elim (insert_axis t.shape axis) [
    | none ↦ none
    | some shape ↦
        map_option (λ ss. record t { shape = shape; strides = ss }) (insert_axis t.strides axis)
  ]

  unfoldable pub swap_axes : Axis → Axis → Tensor A → Option (Tensor A)
  unfolding with_axis swap
  swap_axes a b t = with_axis a t (λ a.
      with_axis b t
        (λ b. some (record t { shape = swap a b t.shape; strides = swap a b t.strides })))

  -- `none` is the `ShapeError`.
  unfoldable pub broadcast_to : List ℕ → Tensor A → Option (Tensor A)
  unfolding broadcast_strides
  broadcast_to to t =
      if ltb (length to) (length t.shape)
      then none
      else map_option (λ ss. record t { shape = to; strides = reverse ss })
          (broadcast_strides (reverse t.shape) (reverse t.strides) (reverse to))

  unfoldable pub invert_axis : Axis → Tensor A → Option (Tensor A)
  unfolding with_axis nth set offset_data
  invert_axis axis t = with_axis axis t (λ a.
      let n = nth a t.shape in
      let s = nth a t.strides in
      some (record t {
        strides = set a (minus 0 s) t.strides;
        values = if n == 0 then t.values else offset_data (word ((n - 1) * s)) t.values;
      }))

  unfoldable pub squeeze : Axis → Tensor A → Option (Tensor A)
  unfolding remove_axis
  squeeze axis t = elim (remove_axis t.shape axis) [
    | none ↦ none
    | some shape ↦
        map_option (λ ss. record t { shape = shape; strides = ss }) (remove_axis t.strides axis)
  ]

  unfoldable pub slice_axis : Axis → Slice → Tensor A → Option (Tensor A)
  unfolding with_axis nth set offset_data
  slice_axis axis slice t = with_axis axis t (λ a.
      map_option
        (λ (r : ℕ × ℕ × ℕ). record {
          shape = set a r.1 t.shape;
          strides = set a r.2 t.strides;
          values = offset_data (word r.0) t.values;
        })
        (do_slice (nth a t.shape) (nth a t.strides) slice))

  -- The index is resolved against the number of the axis.
  unfoldable pub collapse_axis : Axis → Axis → Tensor A → Option (Tensor A)
  unfolding with_axis abs_index nth set offset_data
  collapse_axis axis index t = with_axis axis t (λ a.
      map_option
        (λ k. record t {
          shape = set a 1 t.shape;
          values = offset_data (word (k * nth a t.strides)) t.values;
        })
        (abs_index index a))

  unfoldable pub index_axis : Axis → Axis → Tensor A → Option (Tensor A)
  unfolding collapse_axis squeeze
  index_axis axis index t = elim (collapse_axis axis index t) [
    | none ↦ none
    | some u ↦ squeeze axis u
  ]

  unfoldable pub diag : Tensor A → Tensor A
  unfolding smallest diag_stride
  diag t = record t {
    shape = elim (smallest t.shape) [ none ↦ 1 | some m ↦ m ] ∷ [];
    strides = diag_stride t.strides ∷ [];
  }

  -- A view takes every index of its own to an index of the tensor, at the same place of the array.
  pub record IsView (f : List ℕ → List ℕ) (t u : Tensor A) : Type 0 where
    pub ranked : length u.strides ≡ length u.shape
    pub same_array : u.values.values ≡ t.values.values
    pub below : (i : List ℕ) → Below u.shape i → Below t.shape (f i)
    pub place : (i : List ℕ) → Below u.shape i → address u i ≡ address t (f i)

  -- Every index leads to a place of the array.
  abbrev pub IsInside : Tensor A → Type 0
  IsInside t = (i : List ℕ) → Below t.shape i → address t i < length t.values.values
