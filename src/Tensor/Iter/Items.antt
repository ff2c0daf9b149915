-- ===== src/Tensor/Iter/Items.antt =====
-- The items of the iterator over a tensor (`TensorIter` of ella-tensor/src/tensor/iter.rs) are the
-- tensor's elements in row-major order.
use native.Mathlib.Nat.{mul-suc, mul-zero}
use ella.Prelude.{
  ℕ, zero, suc, ◌+◌, ◌*◌, ◌≤◌, ◌<◌, ◌≡◌, refl, sym, ap, ◌∙◌, arith, Bool-cases, Option, none, some,
  List, [], ◌∷◌, length, reverse, reverse-reverse, get_elem?, ltb, inl, inr, Option-cases, true,
  false,
}
use ella.Shape.{
  size, default_strides, is_standard_layout, stride_offset, no_zero, ShapeIndexIter, new_iter,
  shape_next,
}
use ella.Shape
use ella.Shape.Strides.{Below, Below-reverse, position, position-lt, size-reverse}
use ella.Shape.Iter.{offset-position, Below-no_zero, advance, after, indices-row_major}
use ella.Shape.Layout.{is_standard_layout-offset}
use ella.Tensor.View.{TensorData, Tensor, value_unchecked, slice_data, word, element, address}
use ella.Tensor.Iter.{
  TensorIter, flat, shaped, next_value, next_element, iter_tensor, count_elements, take_items,
  items,
}

-- A number below `d` and a multiple of `d` are determined by their sum.
digits_lem : (d i j p q : ℕ) → i < d → j < d → i + d * p ≡ j + d * q → (i ≡ j) × (p ≡ q)
digits_lem d i j zero zero h k e = (omega (arith, e), refl)
digits_lem d i j zero (suc q) h k e = absurd (omega (arith, e, h, mul-zero d, mul-suc d q))
digits_lem d i j (suc p) zero h k e = absurd (omega (arith, e, k, mul-zero d, mul-suc d p))
digits_lem d i j (suc p) (suc q) h k e =
    let rest = digits_lem d i j p q h k (omega (arith, e, mul-suc d p, mul-suc d q)) in
    (rest.0, ap suc rest.1)

position_injective :
    (ds is js : List ℕ) → Below ds is → Below ds js → position ds is ≡ position ds js → is ≡ js
position_injective [] [] [] h k e = refl
position_injective [] [] (j ∷ js) h k e = absurd k
position_injective [] (i ∷ is) js h k e = absurd h
position_injective (d ∷ ds) [] js h k e = absurd h
position_injective (d ∷ ds) (i ∷ is) [] h k e = absurd k
position_injective (d ∷ ds) (i ∷ is) (j ∷ js) h k e =
    let (a, b) = digits_lem d i j (position ds is) (position ds js) h.0 k.0 e in
    rw (a, position_injective ds is js h.1 k.1 b) refl

-- Row-major order gives each index a place of its own.
pub default-injective :
    (shape i j : List ℕ)
    → Below shape i
    → Below shape j
    → stride_offset i (default_strides shape) ≡ stride_offset j (default_strides shape)
    → i ≡ j
default-injective shape i j h k e =
    let n = Below-no_zero shape i h in
    let same =
      position_injective (reverse shape) (reverse i) (reverse j) (Below-reverse shape i h)
        (Below-reverse shape j k)
        (sym (offset-position shape i n h) ∙ e ∙ offset-position shape j n k) in
    sym (reverse-reverse i) ∙ ap reverse same ∙ reverse-reverse j

pub default-lt :
    (shape i : List ℕ) → Below shape i → stride_offset i (default_strides shape) < size shape
default-lt shape i h = omega (
  arith,
  offset-position shape i (Below-no_zero shape i h) h,
  position-lt (reverse shape) (reverse i) (Below-reverse shape i h),
  size-reverse shape,
)

after-advance : (k : ℕ) (it : ShapeIndexIter) → after k (advance it) ≡ after (suc k) it
after-advance zero it = refl
after-advance (suc k) it = ap advance (after-advance k it)

after-done : (k : ℕ) (it : ShapeIndexIter) → Shape.next it ≡ none → after k it ≡ it
after-done zero it h = refl
after-done (suc k) it h = ap advance (after-done k it h) ∙ rw (advance, h) refl

new_iter-len : (shape : List ℕ) → Shape.len (new_iter shape) ≡ size shape
new_iter-len shape = elim (Bool-cases (ltb 0 (size shape))) [
  | inl h ↦
      let (i, n, b, o, l) = (indices-row_major shape 0).0 (ground (arith, h)) in l ∙ omega arith
  | inr h ↦
      let empty : 0 ≡ size shape = ground (arith, h) in
      ((indices-row_major shape 0).1 empty).1 ∙ empty
]

module _ {A : Type 0} where
  take_items-some :
      (fuel : ℕ) (it : TensorIter A) (r : Option A × TensorIter A)
      → next_element it ≡ some r
      → take_items (suc fuel) it ≡ r.0 ∷ take_items fuel r.1
  unfolding take_items
  take_items-some fuel it r h = rw (take_items, h) refl

  next_element-flat :
      (d : TensorData A) (index : ℕ)
      → index < d.len
      → next_element (flat (record { inner = d; index = index }))
        ≡ some (value_unchecked d index, flat (record { inner = d; index = suc index }))
  unfolding next_element next_value
  next_element-flat d index h =
      let more : ltb index d.len ≡ true = ground (arith, h) in
      rw (next_element, next_value, more) refl

  flat-item :
      (fuel j index : ℕ) (d : TensorData A)
      → j < fuel
      → index + j < d.len
      → get_elem? (take_items fuel (flat (record { inner = d; index = index }))) j
        ≡ some (value_unchecked d (index + j))
  flat-item zero j index d h k = absurd (omega (arith, h))
  flat-item (suc fuel) zero index d h k =
      let same : index + 0 ≡ index = omega arith in
      rw (take_items-some fuel _ _ (next_element-flat d index (omega (arith, k))), same) refl
  flat-item (suc fuel) (suc j) index d h k =
      let same : suc index + j ≡ index + suc j = omega arith in
      rw (take_items-some fuel _ _ (next_element-flat d index (omega (arith, k))), sym same)
        (flat-item fuel j (suc index) d (omega (arith, h)) (omega (arith, k)))

  next_element-shaped :
      (d : TensorData A) (it : ShapeIndexIter) (ss : List ℕ) (r : List ℕ × ShapeIndexIter)
      → Shape.next it ≡ some r
      → next_element (shaped d it ss)
        ≡ some (value_unchecked d (word (stride_offset r.0 ss)), shaped d r.1 ss)
  unfolding next_element
  next_element-shaped d it ss r h = rw (next_element, h) refl

  shaped-item :
      (fuel j : ℕ) (d : TensorData A) (it : ShapeIndexIter) (ss : List ℕ)
      (r : List ℕ × ShapeIndexIter)
      → j < fuel
      → Shape.next (after j it) ≡ some r
      → get_elem? (take_items fuel (shaped d it ss)) j
        ≡ some (value_unchecked d (word (stride_offset r.0 ss)))
  shaped-item zero j d it ss r h e = absurd (omega (arith, h))
  shaped-item (suc fuel) zero d it ss r h e =
      rw (take_items-some fuel _ _ (next_element-shaped d it ss r e)) refl
  shaped-item (suc fuel) (suc j) d it ss r h e = elim (Option-cases (Shape.next it)) [
    | inl n ↦ cc (sym (rw (after-done (suc j) it n) at e) ∙ n)
    | inr (q, n) ↦
        let step : advance it ≡ q.1 = rw (advance, n) refl in
        rw (take_items-some fuel _ _ (next_element-shaped d it ss q n)) (
          shaped-item fuel j d q.1 ss r (omega (arith, h))
            (ap (λ i. Shape.next (after j i)) (sym step) ∙ ap Shape.next (after-advance j it) ∙ e))
  ]

  length-take_items : (fuel : ℕ) (it : TensorIter A) → length (take_items fuel it) ≤ fuel
  unfolding take_items
  length-take_items zero it = omega arith
  length-take_items (suc fuel) it = elim (Option-cases (next_element it)) [
    | inl n ↦ rw (take_items, n) (omega arith)
    | inr (r, n) ↦ rw (take_items-some fuel it r n) (omega (arith, length-take_items fuel r.1))
  ]

  iter_tensor-flat :
      (t : Tensor A)
      → is_standard_layout t.shape t.strides ≡ true
      → iter_tensor t ≡ flat (record { inner = slice_data 0 (size t.shape) t.values; index = 0 })
  unfolding iter_tensor
  iter_tensor-flat t h = rw (iter_tensor, h) refl

  iter_tensor-shaped :
      (t : Tensor A)
      → is_standard_layout t.shape t.strides ≡ false
      → iter_tensor t ≡ shaped t.values (new_iter t.shape) t.strides
  unfolding iter_tensor
  iter_tensor-shaped t h = rw (iter_tensor, h) refl

  pub count_elements-size : (t : Tensor A) → count_elements (iter_tensor t) ≡ size t.shape
  unfolding count_elements slice_data
  count_elements-size t = elim (Bool-cases (is_standard_layout t.shape t.strides)) [
    | inl s ↦ rw (iter_tensor-flat t s) (omega arith)
    | inr s ↦ rw (iter_tensor-shaped t s) (new_iter-len t.shape)
  ]

  -- The item at the row-major position of an index is the element at the index.
  pub items-element :
      (t : Tensor A) (i : List ℕ)
      → length t.strides ≡ length t.shape
      → Below t.shape i
      → get_elem? (items t) (stride_offset i (default_strides t.shape)) ≡ some (element t i)
  unfolding items value_unchecked slice_data
  items-element t i e b =
      let k = stride_offset i (default_strides t.shape) in
      let lt = default-lt t.shape i b in
      elim (Bool-cases (is_standard_layout t.shape t.strides)) [
        | inl s ↦
            let same = is_standard_layout-offset t.shape t.strides i e s b in
            let place : word (0 + k + word (t.values.offset + 0)) ≡ address t i =
              omega (arith, same) in
            rw (items, count_elements-size t, iter_tensor-flat t s)
              (flat-item (size t.shape) k 0 (slice_data 0 (size t.shape) t.values) lt
                  (omega (arith, lt))
                ∙ ap (λ n. some (get_elem? t.values.values n)) place)
        | inr s ↦
            let (j, n, c, o, l) = (indices-row_major t.shape k).0 lt in
            let same : j ≡ i = default-injective t.shape j i c b o in
            let place : word (word (stride_offset j t.strides) + t.values.offset) ≡ address t i =
              omega (arith, ap (λ i. stride_offset i t.strides) same) in
            rw (items, count_elements-size t, iter_tensor-shaped t s)
              (shaped-item (size t.shape) k t.values (new_iter t.shape) t.strides _ lt n
                ∙ ap (λ n. some (get_elem? t.values.values n)) place)
      ]

  -- There are no other items.
  pub items-index :
      (t : Tensor A) (k : ℕ)
      → k < length (items t)
      → (i : List ℕ) × Below t.shape i × (stride_offset i (default_strides t.shape) ≡ k)
  unfolding items
  items-index t k h =
      let below : k < size t.shape = omega (
        arith,
        h,
        length-take_items (count_elements (iter_tensor t)) (iter_tensor t),
        count_elements-size t,
      ) in
      let (i, n, b, o, l) = (indices-row_major t.shape k).0 below in (i, b, o)
