-- ===== src/Tensor/View/Axes.antt =====
-- Views that change the axes of a tensor (`swap_axes`, `unsqueeze`, `collapse_axis`, `index_axis` of
-- ella-tensor/src/ops/shape.rs, ops/slice.rs and ops/index.rs): which element each index leads to.
use mathlib.Core.Option.{some-injective}
use mathlib.Core.Path.{subst}
use ella.Prelude.{
  true, ℕ, suc, ◌+◌, ◌*◌, ◌≤◌, ◌<◌, ◌≡◌, refl, sym, ap, ◌∙◌, arith, List, length, Option, some, inl,
  inr, Option-cases, Bool-cases, ltb,
}
use ella.Shape.{stride_offset}
use ella.Shape.Axis.{
  Axis, pos, abs_index, insert_axis, insert_index, insert_axis_cases, inserted, remove_axis,
}
use ella.Shape.Strides.{Below}
use ella.Tensor.View.{
  Tensor, IsView, with_axis, swap, swap_axes, unsqueeze, index_axis, collapse_axis, squeeze,
  offset_data, slice_data, nth, set, word,
}
use ella.Tensor.View.Words.{word-moved}
use ella.Tensor.View.Offsets.{
  length-swap, nth-swap, swap-swap, stride_offset-swap, Below-nth, nth-Below, without, insert,
  insert-without, without-set, length-without, length-insert, Below-without, Below-insert,
  length-set, stride_offset-insert, Below-length,
}

remove_axis-without :
    (axis : Axis) (xs : List ℕ) (a : ℕ)
    → abs_index axis (length xs) ≡ some a
    → a < length xs
    → remove_axis xs axis ≡ some (without a xs)
unfolding remove_axis
remove_axis-without axis xs a e h =
    let l : ltb a (length xs) ≡ true = ground (arith, h) in rw (remove_axis, e, l) refl

module _ {A : Type 0} where
  -- The axis that a method works on, where it does not panic.
  pub with_axis_cases {ℓ} :
      {B : Type ℓ} (axis : Axis) (t : Tensor A) (f : ℕ → Option B) (u : B)
      → with_axis axis t f ≡ some u
      → (a : ℕ) × (a < length t.shape) × (abs_index axis (length t.shape) ≡ some a) × (f a ≡ some u)
  unfolding with_axis
  with_axis_cases axis t f u h = elim (Option-cases (abs_index axis (length t.shape))) [
    | inl e ↦ cc (rw (with_axis, e) at h)
    | inr (a, e) ↦ elim (Bool-cases (ltb a (length t.shape))) [
      | inl l ↦ (a, ground arith, e, rw (with_axis, e, l) at h)
      | inr l ↦ cc (rw (with_axis, e, l) at h)
    ]
  ]

  swapped-IsView :
      (a b : ℕ) (t : Tensor A)
      → a < length t.shape
      → b < length t.shape
      → length t.strides ≡ length t.shape
      → IsView (swap a b) t (record t { shape = swap a b t.shape; strides = swap a b t.strides })
  swapped-IsView a b t h k e = record {
    ranked = length-swap a b t.strides ∙ e ∙ sym (length-swap a b t.shape);
    same_array = refl;
    below = λ i bi.
        let len : length i ≡ length t.shape =
          Below-length (swap a b t.shape) i bi ∙ length-swap a b t.shape in
        nth-Below t.shape (swap a b i) (length-swap a b i ∙ len) (λ n l.
          let at = λ (m : ℕ) (l : m < length t.shape).
            Below-nth (swap a b t.shape) i m bi (omega (arith, l, length-swap a b t.shape)) in
          ground (
            arith,
            at n l,
            at a h,
            at b k,
            nth-swap n a b i (omega (arith, h, len)) (omega (arith, k, len)),
            nth-swap n a b t.shape h k,
            nth-swap a a b t.shape h k,
            nth-swap b a b t.shape h k,
          ));
    place = λ i bi.
        let len : length i ≡ length t.shape =
          Below-length (swap a b t.shape) i bi ∙ length-swap a b t.shape in
        let back = swap-swap a b i (omega (arith, h, len)) (omega (arith, k, len)) in
        let moved =
          stride_offset-swap a b (swap a b i) t.strides (omega (arith, h, len, length-swap a b i))
            (omega (arith, k, len, length-swap a b i)) (length-swap a b i ∙ len ∙ sym e) in
        ap (λ n. word (n + t.values.offset)) (rw back at moved);
  }

  -- Where swapping two axes does not panic, the element at an index of the result is that of the
  -- tensor at the index with the two entries swapped.
  pub swap_axes-IsView :
      (ax bx : Axis) (t u : Tensor A)
      → length t.strides ≡ length t.shape
      → swap_axes ax bx t ≡ some u
      → (a b : ℕ) × (abs_index ax (length t.shape) ≡ some a)
        × (abs_index bx (length t.shape) ≡ some b)
        × IsView (swap a b) t u
  unfolding swap_axes
  swap_axes-IsView ax bx t u e h =
      let (a, l, f, g) = with_axis_cases ax t _ u h in
      let (b, k, f', g') = with_axis_cases bx t _ u g in
      (
        a,
        b,
        f,
        f',
        subst (IsView (swap a b) t) (some-injective _ u g') (swapped-IsView a b t l k e),
      )

  unsqueezed-IsView :
      (a : ℕ) (t : Tensor A)
      → a ≤ length t.shape
      → length t.strides ≡ length t.shape
      → IsView
          (without a)
          t
          (record t { shape = insert a 1 t.shape; strides = insert a 1 t.strides })
  unsqueezed-IsView a t h e = record {
    ranked = length-insert a 1 t.strides ∙ ap suc e ∙ sym (length-insert a 1 t.shape);
    same_array = refl;
    below = λ i b. (Below-without t.shape i a 1 h b).0;
    place = λ i b.
        let (rest, first) = Below-without t.shape i a 1 h b in
        let len : length i ≡ suc (length t.shape) =
          Below-length (insert a 1 t.shape) i b ∙ length-insert a 1 t.shape in
        let l : a < length i = omega (arith, h, len) in
        let whole = insert-without a i l in
        let split =
          stride_offset-insert a (nth a i) 1 (without a i) t.strides
            (omega (arith, h, len, length-without a i l)) (omega (arith, h, e)) in
        ap (λ n. word (n + t.values.offset)) (rw whole at split ∙ omega (arith, first));
  }

  -- Where adding an axis does not panic, the element at an index of the result is that of the tensor
  -- at the index without the entry of the new axis.
  pub unsqueeze-IsView :
      (axis : Axis) (t u : Tensor A)
      → length t.strides ≡ length t.shape
      → unsqueeze axis t ≡ some u
      → (a : ℕ) × (insert_index axis (length t.shape) ≡ some a) × IsView (without a) t u
  unfolding unsqueeze inserted
  unsqueeze-IsView axis t u e h = elim (Option-cases (insert_axis t.shape axis)) [
    | inl n ↦ cc (rw (unsqueeze, n) at h)
    | inr (shape, n) ↦ elim (Option-cases (insert_axis t.strides axis)) [
      | inl m ↦ cc (rw (unsqueeze, n, m) at h)
      | inr (strides, m) ↦
          let (a, l, p, q) = insert_axis_cases t.shape axis shape n in
          let (b, k, p', q') = insert_axis_cases t.strides axis strides m in
          let same : b ≡ a = some-injective b a (sym (rw e at p') ∙ p) in
          (
            a,
            p,
            subst (IsView (without a) t)
                (rw (q, rw same at q') refl ∙ some-injective _ u (rw (unsqueeze, n, m) at h))
                (unsqueezed-IsView a t l e),
          )
    ]
  ]

  indexed-IsView :
      (a k : ℕ) (t : Tensor A)
      → a < length t.shape
      → length t.strides ≡ length t.shape
      → k < nth a t.shape
      → IsView (insert a k) t (record {
        shape = without a (set a 1 t.shape);
        strides = without a t.strides;
        values = offset_data (word (k * nth a t.strides)) t.values;
      })
  unfolding offset_data slice_data
  indexed-IsView a k t h e l = record {
    ranked = omega (
      arith,
      length-without a t.strides (omega (arith, h, e)),
      length-without a (set a 1 t.shape) (omega (arith, h, length-set a 1 t.shape)),
      length-set a 1 t.shape,
      e,
    );
    same_array = refl;
    below = λ i b.
        let rest : Below (without a t.shape) i = rw (without-set a 1 t.shape) at b in
        rw (insert-without a t.shape h) at (
          Below-insert (without a t.shape) i a (nth a t.shape) k
            (omega (arith, h, length-without a t.shape h)) rest l);
    place = λ i b.
        let rest : Below (without a t.shape) i = rw (without-set a 1 t.shape) at b in
        let len = Below-length (without a t.shape) i rest in
        let h' : a < length t.strides = omega (arith, h, e) in
        let split = rw (insert-without a t.strides h') at (
          stride_offset-insert a k (nth a t.strides) i (without a t.strides)
            (omega (arith, h, len, length-without a t.shape h))
            (omega (arith, h', length-without a t.strides h'))) in
        word-moved (stride_offset i (without a t.strides)) t.values.offset (k * nth a t.strides)
        ∙ ap (λ n. word (n + t.values.offset)) (sym split);
  }

  pub squeeze-without :
      (axis : Axis) (t : Tensor A) (a : ℕ)
      → abs_index axis (length t.shape) ≡ some a
      → a < length t.shape
      → length t.strides ≡ length t.shape
      → squeeze axis t
        ≡ some (record t { shape = without a t.shape; strides = without a t.strides })
  unfolding squeeze
  squeeze-without axis t a p h e =
      let first = remove_axis-without axis t.shape a p h in
      let second =
        remove_axis-without axis t.strides a (ap (abs_index axis) e ∙ p) (omega (arith, h, e)) in
      rw (squeeze, first, second) refl

  -- Where taking the part of a tensor at a position of an axis, counted from the front, does not panic
  -- and the position is one of the axis, the element at an index of the result is that of the tensor
  -- at the index with the position inserted.
  pub index_axis-IsView :
      (axis : Axis) (k : ℕ) (t u : Tensor A)
      → length t.strides ≡ length t.shape
      → index_axis axis (pos k) t ≡ some u
      → (a : ℕ) × (abs_index axis (length t.shape) ≡ some a)
        × (k < nth a t.shape → IsView (insert a k) t u)
  unfolding index_axis collapse_axis abs_index squeeze
  index_axis-IsView axis k t u e h = elim (Option-cases (collapse_axis axis (pos k) t)) [
    | inl n ↦ cc (rw (index_axis, n) at h)
    | inr (v, n) ↦
        let (a, l, p, q) = with_axis_cases axis t _ v n in
        let len = length-set a 1 t.shape in
        let collapsed : Tensor A = record t {
          shape = set a 1 t.shape;
          values = offset_data (word (k * nth a t.strides)) t.values;
        } in
        let squeezed =
          squeeze-without axis collapsed a (ap (abs_index axis) len ∙ p) (omega (arith, l, len))
            (e ∙ sym len) in
        let same = some-injective _ u (
          sym squeezed
          ∙ ap (squeeze axis) (some-injective collapsed v q)
          ∙ (rw (index_axis, n) at h)) in
        (a, p, λ below. subst (IsView (insert a k) t) same (indexed-IsView a k t l e below))
  ]
