-- ===== src/Tensor/Iter.antt =====
-- Iterators over the elements of a tensor (ella-tensor/src/tensor/iter.rs), and the tensors that are
-- made of an iterator: the constructors of ella-tensor/src/ops/constructors.rs, `to_standard_layout`
-- and `map` of ella-tensor/src/tensor.rs, `reshape` of ops/shape.rs, and the element-wise operations
-- of ella-tensor/src/ops.rs. An item is `none` where an element is read outside the array.
pub mod Items
pub mod Elements
pub mod Fits
pub mod Binary
use ella.Prelude.{
  ℕ, zero, suc, ◌-◌, ◌==◌, Bool, Option, none, some, List, [], ◌∷◌, length, ltb, if◌then◌else◌,
  map_option,
}
use ella.Shape.{
  size, default_strides, is_standard_layout, stride_offset, broadcast, ShapeIndexIter, new_iter,
  len,
}
use ella.Shape
use ella.Shape.Axis.{Axis, pos}
use ella.Tensor.View.{
  TensorData, Tensor, value_unchecked, slice_data, broadcast_to, index_axis, word, nth, with_axis,
}

pub record TensorValuesIter (A : Type 0) : Type 0 where
  pub inner : TensorData A
  pub index : ℕ

-- `constructor` names as in the code: `Flat` and `Shaped`.
pub data TensorIter (A : Type 0) : Type 0 where
  flat : TensorValuesIter A → TensorIter A
  shaped : TensorData A → ShapeIndexIter → List ℕ → TensorIter A

module _ {A : Type 0} where
  unfoldable pub next_value : TensorValuesIter A → Option (Option A × TensorValuesIter A)
  unfolding value_unchecked
  next_value it =
      if ltb it.index it.inner.len
      then some (value_unchecked it.inner it.index, record it { index = suc it.index })
      else none

  -- `TensorIter::new` and `Tensor::iter`
  unfoldable pub iter_tensor : Tensor A → TensorIter A
  unfolding slice_data size is_standard_layout
  iter_tensor t =
      if is_standard_layout t.shape t.strides
      then flat (record { inner = slice_data 0 (size t.shape) t.values; index = 0 })
      else shaped t.values (new_iter t.shape) t.strides

  unfoldable pub next_element : TensorIter A → Option (Option A × TensorIter A)
  unfolding next_value value_unchecked stride_offset
  next_element (flat it) = elim (next_value it) [ none ↦ none | some r ↦ some (r.0, flat r.1) ]
  next_element (shaped inner shape strides) = elim (Shape.next shape) [
    | none ↦ none
    | some r ↦
        some (value_unchecked inner (word (stride_offset r.0 strides)), shaped inner r.1 strides)
  ]

  -- `ExactSizeIterator::len`
  unfoldable pub count_elements : TensorIter A → ℕ
  unfolding len
  count_elements (flat it) = it.inner.len - it.index
  count_elements (shaped inner shape strides) = len shape

  -- At most `fuel` items.
  unfoldable pub take_items : ℕ → TensorIter A → List (Option A)
  unfolding next_element
  take_items zero it = []
  take_items (suc fuel) it = elim (next_element it) [
    | none ↦ []
    | some r ↦ r.0 ∷ take_items fuel r.1
  ]

  -- As many items as the iterator says that it has, which is how many a trusted iterator is asked for.
  unfoldable pub items : Tensor A → List (Option A)
  unfolding take_items count_elements iter_tensor
  items t = take_items (count_elements (iter_tensor t)) (iter_tensor t)

-- The items, where no element was read outside the array.
unfoldable pub all_read : {A : Type 0} → List (Option A) → Option (List A)
all_read [] = some []
all_read (none ∷ xs) = none
all_read (some x ∷ xs) = map_option (λ ys. x ∷ ys) (all_read xs)

module _ {A : Type 0} where
  -- `From<A> for TensorData`
  unfoldable pub of_array : List A → TensorData A
  of_array xs = record { values = xs; offset = 0; len = length xs }

  -- `Tensor::from_trusted_len_iter`
  unfoldable pub from_items : List ℕ → List A → Tensor A
  unfolding of_array default_strides
  from_items shape xs = record {
    shape = shape;
    strides = default_strides shape;
    values = of_array xs;
  }

  -- The values are those of the standard layout; the strides are kept.
  unfoldable pub to_standard_layout : Tensor A → Option (Tensor A)
  to_standard_layout t =
      if is_standard_layout t.shape t.strides
      then some t
      else map_option (λ xs. record t { values = of_array xs }) (all_read (items t))

  -- `none` is also the failed `assert_eq!`.
  unfoldable pub reshape : List ℕ → Tensor A → Option (Tensor A)
  unfolding to_standard_layout
  reshape shape t =
      if size t.shape == size shape
      then map_option
          (λ (u : Tensor A). record {
            shape = shape;
            strides = default_strides shape;
            values = u.values;
          })
          (to_standard_layout t)
      else none

  unfoldable pub flatten_tensor : Tensor A → Option (Tensor A)
  unfolding reshape
  flatten_tensor t = reshape (size t.shape ∷ []) t

  unfoldable pub repeat_value : ℕ → A → List A
  repeat_value zero x = []
  repeat_value (suc n) x = x ∷ repeat_value n x

  unfoldable pub full : List ℕ → A → Tensor A
  unfolding from_items repeat_value
  full shape x = from_items shape (repeat_value (size shape) x)

  -- `From<Vec<T>>`
  unfoldable pub of_vec : List A → Tensor A
  unfolding from_items
  of_vec xs = from_items (length xs ∷ []) xs

unfoldable pub map_items : {A B : Type 0} → (A → B) → List A → List B
map_items f [] = []
map_items f (x ∷ xs) = f x ∷ map_items f xs

-- `Iterator::zip` and `map`
unfoldable pub zip_items : {A B C : Type 0} → (A → B → C) → List A → List B → List C
zip_items f [] ys = []
zip_items f (x ∷ xs) [] = []
zip_items f (x ∷ xs) (y ∷ ys) = f x y ∷ zip_items f xs ys

-- `Tensor::map` and `unary_op`
unfoldable pub unary_op : {A B : Type 0} → (A → B) → Tensor A → Option (Tensor B)
unfolding items all_read from_items map_items
unary_op f t = map_option (λ xs. from_items t.shape (map_items f xs)) (all_read (items t))

unfoldable pub eq_shape : List ℕ → List ℕ → Bool
eq_shape [] [] = Bool.true
eq_shape [] (d ∷ ds) = Bool.false
eq_shape (d ∷ ds) [] = Bool.false
eq_shape (d ∷ ds) (e ∷ es) = let rest = eq_shape ds es in if d == e then rest else Bool.false

module _ {A B : Type 0} where
  -- The result has a variant of `Shape` with enough axes; here a shape is a list.
  unfoldable pub broadcast_with : Tensor A → Tensor B → Option (Tensor A × Tensor B)
  unfolding eq_shape broadcast_to
  broadcast_with t s = elim (broadcast t.shape s.shape) [
    | none ↦ none
    | some shape ↦ elim (if eq_shape shape t.shape then some t else broadcast_to shape t) [
      | none ↦ none
      | some u ↦
          map_option (λ v. (u, v)) (if eq_shape shape s.shape then some s else broadcast_to shape s)
    ]
  ]

  -- Both branches end with this.
  unfoldable pub zip_op : {C : Type 0} → (A → B → C) → Tensor A → Tensor B → Option (Tensor C)
  zip_op f t s = elim (all_read (items t)) [
    | none ↦ none
    | some xs ↦ map_option (λ ys. from_items t.shape (zip_items f xs ys)) (all_read (items s))
  ]

  unfoldable pub binary_op : {C : Type 0} → (A → B → C) → Tensor A → Tensor B → Option (Tensor C)
  unfolding eq_shape broadcast_with zip_op
  binary_op f t s =
      if eq_shape t.shape s.shape
      then zip_op f t s
      else elim (broadcast_with t s) [ none ↦ none | some p ↦ zip_op f p.0 p.1 ]

pub record AxisIter (A : Type 0) : Type 0 where
  pub inner : Tensor A
  pub axis : ℕ
  pub index : ℕ

module _ {A : Type 0} where
  -- `AxisIter::new` and `Tensor::axis_iter`
  unfoldable pub axis_iter : Axis → Tensor A → Option (AxisIter A)
  unfolding with_axis
  axis_iter axis t = with_axis axis t (λ a. some (record { inner = t; axis = a; index = 0 }))

  -- The outer `none` is a panic.
  unfoldable pub next_part : AxisIter A → Option (Option (Tensor A × AxisIter A))
  unfolding nth index_axis
  next_part it =
      if ltb it.index (nth it.axis it.inner.shape)
      then map_option (λ u. some (u, record it { index = suc it.index }))
          (index_axis (pos it.axis) (pos it.index) it.inner)
      else some none

  unfoldable pub count_parts : AxisIter A → ℕ
  unfolding nth
  count_parts it = nth it.axis it.inner.shape - it.index
