-- ===== src/Tensor/View/Steps.antt =====
-- Views that change the steps along an axis (`slice_axis` of ella-tensor/src/ops/slice.rs and
-- `invert_axis` of ella-tensor/src/ops/shape.rs), with steps of either sign.
use native.Mathlib.Nat.{add-mul, mul-add, zero-mul, mul-zero}
use mathlib.Core.Option.{some-injective}
use mathlib.Core.Path.{subst}
use ella.Prelude.{
  ℕ, zero, suc, ◌+◌, ◌-◌, ◌*◌, ◌<◌, ◌≡◌, refl, sym, ap, ◌∙◌, arith, List, length, some, inl, inr,
  Option-cases, Bool-cases, leb, if◌then◌else◌, ◌==◌, false,
}
use ella.Shape.{stride_offset}
use ella.Shape.Axis.{Axis, pos, negsuc, abs_index}
use ella.Shape.Strides.{Below}
use ella.Tensor.Slice.{Slice, to_abs_slice, do_slice, sliced_len, unsigned_abs, wrapped, first}
use ella.Tensor.Slice.Elements.{index, do_slice-index, spread}
use ella.Tensor.View.{
  Tensor, IsView, slice_axis, invert_axis, offset_data, slice_data, nth, set, word, minus,
}
use ella.Tensor.View.Words.{IsSame, IsSame-word, word-IsSame, mul-IsSame, minus-IsSame, word-moved}
use ella.Tensor.View.Offsets.{
  length-set, nth-set, set-nth, stride_offset-set, Below-nth, Below-set, Below-length,
}
use ella.Tensor.View.Axes.{with_axis_cases}

-- Going `j` steps of a new stride from a new offset reaches the same place as the entry `x` under the
-- old stride.
module _ (a x stride offset : ℕ) (i ss : List ℕ) (h : a < length i) (k : a < length ss) where
  stepped-IsSame :
      (o : ℕ)
      → IsSame (nth a i * stride + offset) (x * nth a ss)
      → word (stride_offset i (set a stride ss) + word (o + word offset))
        ≡ word (stride_offset (set a x i) ss + o)
  stepped-IsSame o r =
      let new = rw (set-nth a i) at (stride_offset-set a (nth a i) stride i ss h k) in
      let old = rw (set-nth a ss) at (stride_offset-set a x (nth a ss) i ss h k) in
      word-moved (stride_offset i (set a stride ss)) o offset
      ∙ IsSame-word (stride_offset i (set a stride ss) + offset + o)
          (stride_offset (set a x i) ss + o)
          (record { left = r.left; right = r.right; same = omega (arith, new, old, r.same) })

-- A negated stride and the stride cancel, any number of times.
negated-IsSame : (j t : ℕ) → IsSame (j * minus 0 t + j * t) 0
negated-IsSame j t =
    let r = mul-IsSame j (minus 0 t + t) 0 (minus-IsSame 0 t) in
    record {
      left = r.left;
      right = r.right;
      same = omega (arith, r.same, mul-add j (minus 0 t) t, mul-zero j);
    }

the_sum : (n j : ℕ) → j < n → n - 1 ≡ n - 1 - j + j
the_sum n j h = omega (arith, h)

mirrored-IsSame : (n j s : ℕ) → j < n → IsSame (j * minus 0 s + (n - 1) * s) ((n - 1 - j) * s)
mirrored-IsSame n j s h =
    let r = negated-IsSame j s in
    let whole = ap (λ t. t * s) (the_sum n j h) ∙ add-mul (n - 1 - j) j s in
    record { left = r.left; right = r.right; same = omega (arith, r.same, whole) }

module _ {A : Type 0} where
  inverted-IsView :
      (a : ℕ) (t : Tensor A)
      → a < length t.shape
      → length t.strides ≡ length t.shape
      → IsView
          (λ i. set a (nth a t.shape - 1 - nth a i) i)
          t
          (record t {
            strides = set a (minus 0 (nth a t.strides)) t.strides;
            values =
                if nth a t.shape == 0
                then t.values
                else offset_data (word ((nth a t.shape - 1) * nth a t.strides)) t.values;
          })
  unfolding offset_data slice_data
  inverted-IsView a t h e = elim (Bool-cases (nth a t.shape == 0)) [
    | inl z ↦
        let none_below : (i : List ℕ) → Below t.shape i → ⊥ =
          λ i b. ground (arith, z, Below-nth t.shape i a b h) in
        rw z (record {
          ranked = length-set a _ t.strides ∙ e;
          same_array = refl;
          below = λ i b. absurd (none_below i b);
          place = λ i b. absurd (none_below i b);
        })
    | inr z ↦ rw z (record {
      ranked = length-set a _ t.strides ∙ e;
      same_array = refl;
      below = λ i b.
          Below-set t.shape i a (nth a t.shape) (nth a t.shape - 1 - nth a i)
            (rw (set-nth a t.shape) b) (omega (arith, Below-nth t.shape i a b h));
      place = λ i b.
          let len = Below-length t.shape i b in
          stepped-IsSame a (nth a t.shape - 1 - nth a i) (minus 0 (nth a t.strides))
            ((nth a t.shape - 1) * nth a t.strides) i t.strides (omega (arith, h, len))
            (omega (arith, h, e)) t.values.offset
            (mirrored-IsSame (nth a t.shape) (nth a i) (nth a t.strides)
              (Below-nth t.shape i a b h));
    })
  ]

  -- Where inverting an axis does not panic, the element at an index of the result is that of the
  -- tensor at the index with the entry of the axis counted from the other end.
  pub invert_axis-IsView :
      (axis : Axis) (t u : Tensor A)
      → length t.strides ≡ length t.shape
      → invert_axis axis t ≡ some u
      → (a : ℕ) × (abs_index axis (length t.shape) ≡ some a)
        × IsView (λ i. set a (nth a t.shape - 1 - nth a i) i) t u
  unfolding invert_axis
  invert_axis-IsView axis t u e h =
      let (a, l, p, q) = with_axis_cases axis t _ u h in
      (a, p, subst (IsView _ t) (some-injective _ u q) (inverted-IsView a t l e))

-- What `do_slice` gives, in terms of the range that it resolves to.
do_slice-parts :
    (n s a b len stride offset : ℕ) (step : Axis) (slice : Slice)
    → do_slice n s slice ≡ some (offset, len, stride)
    → to_abs_slice n slice ≡ some (a, b, step)
    → ((if b - a == 0 then 0 else first a b step * s) ≡ offset)
      × (sliced_len (b - a) (unsigned_abs step) ≡ len)
      × ((if leb len 1 then 0 else wrapped s step) ≡ stride)
unfolding do_slice
do_slice-parts n s a b len stride offset step slice e h =
    let same = some-injective _ (offset, len, stride) (rw (do_slice, h) at e) in
    let new_len : sliced_len (b - a) (unsigned_abs step) ≡ len = ap (λ (t : ℕ × ℕ × ℕ). t.1) same in
    (ap (λ (t : ℕ × ℕ × ℕ). t.0) same, new_len, rw new_len at (ap (λ (t : ℕ × ℕ × ℕ). t.2) same))

equal-IsSame : (x y : ℕ) → x ≡ y → IsSame x y
equal-IsSame x y h = record { left = 0; right = 0; same = omega (arith, h) }

-- One step: the stride of the slice, or none where the slice has one element.
step-IsSame :
    (s a b len j : ℕ) (step : Axis)
    → j < len
    → j * unsigned_abs step < b - a
    → IsSame
        (j * (if leb len 1 then 0 else wrapped s step) + first a b step * s)
        (index a b step j * s)
unfolding first
step-IsSame s a b len zero (pos k) l h =
    let stride = if leb len 1 then 0 else wrapped s (pos k) in
    equal-IsSame (0 * stride + a * s) ((a + 0 * k) * s)
      (omega (arith, zero-mul stride, spread a 0 k s, zero-mul (s * k)))
step-IsSame s a b len (suc j) (pos k) l h =
    let many : leb len 1 ≡ false = ground (arith, l) in
    let r = mul-IsSame (suc j) (word (s * k)) (s * k) (word-IsSame (s * k)) in
    rw many (record {
      left = r.left;
      right = r.right;
      same = omega (arith, r.same, spread a (suc j) k s);
    })
step-IsSame s a b len zero (negsuc k) l h =
    let stride = if leb len 1 then 0 else wrapped s (negsuc k) in
    let at_end : b - 1 - 0 * suc k ≡ b - 1 = omega (arith, zero-mul (suc k)) in
    equal-IsSame (0 * stride + (b - 1) * s) ((b - 1 - 0 * suc k) * s)
      (omega (arith, zero-mul stride, ap (λ t. t * s) at_end))
step-IsSame s a b len (suc j) (negsuc k) l h =
    let many : leb len 1 ≡ false = ground (arith, l) in
    let r = negated-IsSame (suc j) (s * suc k) in
    let same : minus 0 (s * suc k) ≡ wrapped s (negsuc k) = omega arith in
    let gone = rw same at r.same in
    let back : b - 1 ≡ b - 1 - suc j * suc k + suc j * suc k = omega (arith, h) in
    let whole = ap (λ t. t * s) back ∙ spread (b - 1 - suc j * suc k) (suc j) (suc k) s in
    rw many (record { left = r.left; right = r.right; same = omega (arith, gone, whole) })

-- From the offset and the stride that `do_slice` gives, `j` steps lead to the place of the element.
sliced-IsSame :
    (n s a b len stride offset : ℕ) (step : Axis) (slice : Slice) (j : ℕ)
    → do_slice n s slice ≡ some (offset, len, stride)
    → to_abs_slice n slice ≡ some (a, b, step)
    → j < len
    → j * unsigned_abs step < b - a
    → IsSame (j * stride + offset) (index a b step j * s)
sliced-IsSame n s a b len stride offset step slice j e h l k =
    let (o, m, t) = do_slice-parts n s a b len stride offset step slice e h in
    let not_empty : (b - a == 0) ≡ false = ground (arith, k) in
    rw (sym (rw not_empty at o), sym t) (step-IsSame s a b len j step l k)

module _ {A : Type 0} where
  sliced-IsView :
      (a : ℕ) (p : ℕ × ℕ × Axis) (offset len stride : ℕ) (t : Tensor A) (slice : Slice)
      → a < length t.shape
      → length t.strides ≡ length t.shape
      → do_slice (nth a t.shape) (nth a t.strides) slice ≡ some (offset, len, stride)
      → to_abs_slice (nth a t.shape) slice ≡ some p
      → ((j : ℕ) → j < len → j * unsigned_abs p.2 < p.1 - p.0)
      → ((j : ℕ) → j < len → index p.0 p.1 p.2 j < nth a t.shape)
      → IsView
          (λ i. set a (index p.0 p.1 p.2 (nth a i)) i)
          t
          (record {
            shape = set a len t.shape;
            strides = set a stride t.strides;
            values = offset_data (word offset) t.values;
          })
  unfolding offset_data slice_data
  sliced-IsView a p offset len stride t slice h e d r inside below = record {
    ranked = length-set a stride t.strides ∙ e ∙ sym (length-set a len t.shape);
    same_array = refl;
    below = λ i b. Below-set t.shape i a len (index p.0 p.1 p.2 (nth a i)) b (
        below (nth a i) (
          rw (nth-set a len t.shape h) at
            (Below-nth (set a len t.shape) i a b (omega (arith, h, length-set a len t.shape)))));
    place = λ i b.
        let len_i = Below-length (set a len t.shape) i b ∙ length-set a len t.shape in
        let l =
          rw (nth-set a len t.shape h) at
            (Below-nth (set a len t.shape) i a b (omega (arith, h, length-set a len t.shape))) in
        stepped-IsSame a (index p.0 p.1 p.2 (nth a i)) stride offset i t.strides
          (omega (arith, h, len_i)) (omega (arith, h, e)) t.values.offset
          (sliced-IsSame (nth a t.shape) (nth a t.strides) p.0 p.1 len stride offset p.2 slice
            (nth a i) d r l (inside (nth a i) l));
  }

  -- Where slicing an axis does not panic, the axis of the result has the length of the slice, and the
  -- element at an index is that of the tensor at the index with the entry of the axis replaced by the
  -- position that the slice has there, whatever the sign of the step and of the strides.
  pub slice_axis-IsView :
      (axis : Axis) (slice : Slice) (t u : Tensor A)
      → length t.strides ≡ length t.shape
      → slice_axis axis slice t ≡ some u
      → (a : ℕ) × (p : ℕ × ℕ × Axis) × (abs_index axis (length t.shape) ≡ some a)
        × (to_abs_slice (nth a t.shape) slice ≡ some p)
        × (u.shape ≡ set a (sliced_len (p.1 - p.0) (unsigned_abs p.2)) t.shape)
        × IsView (λ i. set a (index p.0 p.1 p.2 (nth a i)) i) t u
  unfolding slice_axis
  slice_axis-IsView axis slice t u e h =
      let (a, l, ax, q) = with_axis_cases axis t _ u h in
      let n = nth a t.shape in
      let s = nth a t.strides in
      elim (Option-cases (do_slice n s slice)) [
        | inl d ↦ cc (rw d at q)
        | inr ((offset, len, stride), d) ↦
            let (p, r, abs, at) = do_slice-index n s slice offset len stride d in
            let (o, m, st) = do_slice-parts n s p.0 p.1 len stride offset p.2 slice d r in
            let same = some-injective _ u (rw d at q) in
            (
              a,
              p,
              ax,
              r,
              sym (ap (λ (v : Tensor A). v.shape) same) ∙ ap (λ k. set a k t.shape) (sym m),
              subst (IsView _ t) same (
                  sliced-IsView a p offset len stride t slice l e d r (λ j k. (at j).0.0 k)
                    (λ j k. omega (arith, ((at j).1 k).1, abs.1))),
            )
      ]
