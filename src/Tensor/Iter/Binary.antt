-- ===== src/Tensor/Iter/Binary.antt =====
-- Element-wise operations on two tensors (`broadcast_with` of ella-tensor/src/ops/shape.rs and
-- `binary_op` of ella-tensor/src/ops.rs).
use mathlib.Core.Option.{some-injective}
use ella.Prelude.{
  ℕ, zero, suc, ◌^◌, ◌<◌, ◌≡◌, refl, sym, ap, ◌∙◌, arith, Bool-cases, Option, none, some, List, [],
  ◌∷◌, length, reverse, reverse-reverse, get_elem?, inl, inr, true, false, ◌==◌, ==_iff,
  if◌then◌else◌, ◌-◌, ltb,
}
use ella.Shape.{size, default_strides, stride_offset, broadcast, broadcast_onto, broadcast_axes}
use ella.Shape.Strides.{Below, Below-reverse}
use ella.Tensor.View.{Tensor, element, address, IsInside, IsView, broadcast_to}
use ella.Tensor.View.Broadcast.{clamp, clamped_index, broadcast_to-IsView}
use ella.Tensor.Iter.{from_items, zip_items, zip_op, binary_op, broadcast_with, eq_shape}
use ella.Tensor.Iter.Elements.{items-read, items-position, from_items-element}
use ella.Tensor.Iter.Fits.{IsFit, broadcast-IsFit, broadcast_to-some}

-- The operation on two elements that are there.
abbrev pub both : {A B C : Type 0} → (A → B → C) → Option A → Option B → Option C
both f none o = none
both f (some a) none = none
both f (some a) (some b) = some (f a b)

both-none : {A B C : Type 0} (f : A → B → C) (o : Option A) → both f o none ≡ none
both-none f none = refl
both-none f (some a) = refl

get_elem?-zip_items :
    {A B C : Type 0} (f : A → B → C) (xs : List A) (ys : List B) (k : ℕ)
    → get_elem? (zip_items f xs ys) k ≡ both f (get_elem? xs k) (get_elem? ys k)
unfolding zip_items
get_elem?-zip_items f [] ys k = refl
get_elem?-zip_items f (x ∷ xs) [] zero = refl
get_elem?-zip_items f (x ∷ xs) [] (suc k) = sym (both-none f (get_elem? xs k))
get_elem?-zip_items f (x ∷ xs) (y ∷ ys) zero = refl
get_elem?-zip_items f (x ∷ xs) (y ∷ ys) (suc k) = get_elem?-zip_items f xs ys k

eq_shape-eq : (ds es : List ℕ) → eq_shape ds es ≡ true → ds ≡ es
unfolding eq_shape
eq_shape-eq [] [] h = refl
eq_shape-eq [] (e ∷ es) h = cc
eq_shape-eq (d ∷ ds) [] h = cc
eq_shape-eq (d ∷ ds) (e ∷ es) h = elim (Bool-cases (d == e)) [
  | inl q ↦ rw ((==_iff d e).0 q, eq_shape-eq ds es (rw q at h)) refl
  | inr q ↦ cc (rw q at h)
]

clamp-same : (ds is : List ℕ) → Below ds is → clamp ds is ≡ is
unfolding clamp
clamp-same [] [] h = refl
clamp-same [] (i ∷ is) h = absurd h
clamp-same (d ∷ ds) [] h = absurd h
clamp-same (d ∷ ds) (i ∷ is) h =
    let same : (if d == 1 then 0 else i) ≡ i = ground (arith, h.0) in
    rw (same, clamp-same ds is h.1) refl

clamped_index-same : (shape i : List ℕ) → Below shape i → clamped_index shape i ≡ i
clamped_index-same shape i b =
    ap reverse (clamp-same (reverse shape) (reverse i) (Below-reverse shape i b))
    ∙ reverse-reverse i

broadcast_axes_refl : (ds : List ℕ) → broadcast_axes ds ds ≡ some ds
unfolding broadcast_axes
broadcast_axes_refl [] = refl
broadcast_axes_refl (d ∷ ds) =
    let same : (d == d) ≡ true = ground arith in rw (same, broadcast_axes_refl ds) refl

pub broadcast_refl : (ds : List ℕ) → broadcast ds ds ≡ some ds
unfolding broadcast broadcast_onto
broadcast_refl ds =
    let level : length ds - length ds ≡ 0 = omega arith in
    let not_less : ltb (length ds) (length ds) ≡ false = ground arith in
    rw (not_less, level, broadcast_axes_refl ds) refl

module _ {A : Type 0} where
  pub IsView-IsInside :
      (f : List ℕ → List ℕ) (t u : Tensor A) → IsView f t u → IsInside t → IsInside u
  IsView-IsInside f t u v h i b = rw (v.place i b, v.same_array) (h (f i) (v.below i b))

  pub IsView-element :
      (f : List ℕ → List ℕ) (t u : Tensor A) (i : List ℕ)
      → IsView f t u
      → Below u.shape i
      → element u i ≡ element t (f i)
  IsView-element f t u i v b = rw (v.place i b, v.same_array) refl

  -- One side of `broadcast_with`: the tensor itself where it has the shape, or the broadcast one.
  side :
      (shape : List ℕ) (t : Tensor A)
      → length t.strides ≡ length t.shape
      → IsFit t.shape shape
      → (u : Tensor A) × ((if eq_shape shape t.shape then some t else broadcast_to shape t)
          ≡ some u)
        × (u.shape ≡ shape)
        × IsView (clamped_index t.shape) t u
  side shape t e h = elim (Bool-cases (eq_shape shape t.shape)) [
    | inl q ↦ (
      t,
      rw q refl,
      sym (eq_shape-eq shape t.shape q),
      record {
        ranked = e;
        same_array = refl;
        below = λ i b. rw (clamped_index-same t.shape i b) b;
        place = λ i b. ap (address t) (sym (clamped_index-same t.shape i b));
      },
    )
    | inr q ↦
        let (u, r) = broadcast_to-some shape t e h in
        let v = broadcast_to-IsView shape t u e r in (u, rw q r, v.0, v.1)
  ]

module _ {A B C : Type 0} (f : A → B → C) where
  zip_op-element :
      (t : Tensor A) (s : Tensor B)
      → length t.strides ≡ length t.shape
      → length s.strides ≡ length s.shape
      → s.shape ≡ t.shape
      → size t.shape < 2 ^ 64
      → IsInside t
      → IsInside s
      → (u : Tensor C) × (zip_op f t s ≡ some u)
        × (u.shape ≡ t.shape)
        × ((i : List ℕ) → Below t.shape i → element u i ≡ both f (element t i) (element s i))
  unfolding zip_op
  zip_op-element t s e e' same z h h' =
      let (xs, r) = items-read t e h in
      let (ys, r') = items-read s e' h' in
      (
        from_items t.shape (zip_items f xs ys),
        rw (zip_op, r, r') refl,
        unfold from_items in refl,
        λ i b.
            from_items-element t.shape (zip_items f xs ys) i z b
            ∙ get_elem?-zip_items f xs ys _
            ∙ ap (λ o. both f o (get_elem? ys (stride_offset i (default_strides t.shape))))
                (items-position t xs i e r b)
            ∙ ap (both f (element t i)) (rw same at (items-position s ys i e' r' (rw same b))),
      )

  -- An element-wise operation on two tensors whose elements lie in their arrays, and whose shapes
  -- broadcast to one with fewer than 2 ^ 64 elements, succeeds; the result has that shape, and at each
  -- index the operation's value on the elements at the index of either tensor that broadcasting gives.
  pub binary_op-element :
      (t : Tensor A) (s : Tensor B) (shape : List ℕ)
      → length t.strides ≡ length t.shape
      → length s.strides ≡ length s.shape
      → broadcast t.shape s.shape ≡ some shape
      → size shape < 2 ^ 64
      → IsInside t
      → IsInside s
      → (u : Tensor C) × (binary_op f t s ≡ some u)
        × (u.shape ≡ shape)
        × ((i : List ℕ)
            → Below shape i
            → element u i
              ≡ both f (element t (clamped_index t.shape i)) (element s (clamped_index s.shape i)))
  unfolding binary_op broadcast_with
  binary_op-element t s shape e e' b z h h' = elim (Bool-cases (eq_shape t.shape s.shape)) [
    | inl q ↦
        let same : t.shape ≡ s.shape = eq_shape-eq t.shape s.shape q in
        let whole : t.shape ≡ shape =
          some-injective t.shape shape
            (sym (broadcast_refl t.shape) ∙ ap (broadcast t.shape) same ∙ b) in
        let (u, r, k, at) = zip_op-element t s e e' (sym same) (rw (sym whole) at z) h h' in
        (
          u,
          rw (binary_op, q) r,
          k ∙ whole,
          λ i bi.
              let bt : Below t.shape i = rw whole bi in
              let bs : Below s.shape i = rw (sym same) bt in
              rw (clamped_index-same t.shape i bt, clamped_index-same s.shape i bs) (at i bt),
        )
    | inr q ↦
        let (ft, fs) = broadcast-IsFit t.shape s.shape shape b in
        let (u, r, k, v) = side shape t e ft in
        let (w, r', k', v') = side shape s e' fs in
        let (x, o, l, at) =
          zip_op-element u w v.ranked v'.ranked (k' ∙ sym k) (rw (sym k) at z)
            (IsView-IsInside (clamped_index t.shape) t u v h)
            (IsView-IsInside (clamped_index s.shape) s w v' h') in
        (
          x,
          rw (binary_op, q, broadcast_with, b, r, r') o,
          l ∙ k,
          λ i bi.
              let bu : Below u.shape i = rw k bi in
              let bw : Below w.shape i = rw k' bi in
              at i bu
              ∙ ap (λ o. both f o (element w i)) (IsView-element (clamped_index t.shape) t u i v bu)
              ∙ ap (both f (element t (clamped_index t.shape i)))
                  (IsView-element (clamped_index s.shape) s w i v' bw),
        )
  ]
