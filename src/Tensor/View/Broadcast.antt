-- ===== src/Tensor/View/Broadcast.antt =====
-- Broadcasting a tensor to a shape (`broadcast_to` of ella-tensor/src/ops/shape.rs): which element each
-- index leads to.
use native.Mathlib.Nat.{zero-mul, mul-zero}
use mathlib.Core.Option.{some-injective}
use mathlib.Core.Path.{subst}
use ella.Prelude.{
  ℕ, zero, suc, ◌+◌, ◌*◌, ◌≤◌, ◌≡◌, refl, sym, ap, ◌∙◌, arith, List, [], ◌∷◌, length, reverse,
  reverse-reverse, length-reverse, some, inl, inr, Option-cases, Bool-cases, ==_iff, ltb,
  if◌then◌else◌, ◌==◌,
}
use ella.Shape.{stride_offset, zeros}
use ella.Shape.Strides.{Below, Below-reverse}
use ella.Tensor.View.{Tensor, IsView, broadcast_strides, broadcast_to, word}
use ella.Tensor.View.Offsets.{stride_offset-reverse, Below-length}

-- The index of the tensor for one of the broadcast shape, the last axis first: an axis of length one
-- has one position, and the axes that were added have none.
unfoldable pub clamp : List ℕ → List ℕ → List ℕ
clamp [] is = []
clamp (e ∷ es) [] = []
clamp (e ∷ es) (i ∷ is) = (if e == 1 then 0 else i) ∷ clamp es is

abbrev pub clamped_index : List ℕ → List ℕ → List ℕ
clamped_index shape i = reverse (clamp (reverse shape) (reverse i))

zeros-stride_offset : (n : ℕ) (i : List ℕ) → stride_offset i (zeros n) ≡ 0
unfolding zeros stride_offset
zeros-stride_offset zero [] = refl
zeros-stride_offset zero (j ∷ i) = refl
zeros-stride_offset (suc n) [] = refl
zeros-stride_offset (suc n) (j ∷ i) = rw (zeros-stride_offset n i, mul-zero j) refl

length-zeros : (n : ℕ) → length (zeros n) ≡ n
unfolding zeros
length-zeros zero = refl
length-zeros (suc n) = ap suc (length-zeros n)

-- What the strides of the loop do.
abbrev IsBroadcast : List ℕ → List ℕ → List ℕ → List ℕ → Type 0
IsBroadcast es ss ds rs =
    (length rs ≡ length ds)
    × ((is : List ℕ)
        → Below ds is
        → Below es (clamp es is) × (stride_offset is rs ≡ stride_offset (clamp es is) ss))

added-IsBroadcast : (ss ds : List ℕ) → IsBroadcast [] ss ds (zeros (length ds))
unfolding clamp stride_offset
added-IsBroadcast ss ds =
    (length-zeros (length ds), λ is b. (tt, zeros-stride_offset (length ds) is))

kept_at :
    (e s : ℕ) (es ss ds rs : List ℕ)
    → IsBroadcast es ss ds rs
    → (is : List ℕ) → Below (e ∷ ds) is
    → Below (e ∷ es) (clamp (e ∷ es) is)
      × (stride_offset is (s ∷ rs) ≡ stride_offset (clamp (e ∷ es) is) (s ∷ ss))
unfolding clamp stride_offset
kept_at e s es ss ds rs h [] b = absurd b
kept_at e s es ss ds rs h (i ∷ is) b =
    let same : (if e == 1 then 0 else i) ≡ i = ground (arith, b.0) in
    let rest = h.1 is b.1 in rw same ((b.0, rest.0), ap (λ n. i * s + n) rest.1)

single_at :
    (s d : ℕ) (es ss ds rs : List ℕ)
    → IsBroadcast es ss ds rs
    → (is : List ℕ) → Below (d ∷ ds) is
    → Below (1 ∷ es) (clamp (1 ∷ es) is)
      × (stride_offset is (0 ∷ rs) ≡ stride_offset (clamp (1 ∷ es) is) (s ∷ ss))
unfolding clamp stride_offset
single_at s d es ss ds rs h [] b = absurd b
single_at s d es ss ds rs h (i ∷ is) b =
    let rest = h.1 is b.1 in
    ((omega arith, rest.0), rw (mul-zero i, zero-mul s) (ap (λ n. 0 + n) rest.1))

kept-IsBroadcast :
    (e s : ℕ) (es ss ds rs : List ℕ)
    → IsBroadcast es ss ds rs
    → IsBroadcast (e ∷ es) (s ∷ ss) (e ∷ ds) (s ∷ rs)
unfolding clamp stride_offset
kept-IsBroadcast e s es ss ds rs h = (ap suc h.0, kept_at e s es ss ds rs h)

single-IsBroadcast :
    (s d : ℕ) (es ss ds rs : List ℕ)
    → IsBroadcast es ss ds rs
    → IsBroadcast (1 ∷ es) (s ∷ ss) (d ∷ ds) (0 ∷ rs)
unfolding clamp stride_offset
single-IsBroadcast s d es ss ds rs h = (ap suc h.0, single_at s d es ss ds rs h)

broadcast_strides-IsBroadcast :
    (es ss ds rs : List ℕ)
    → length ss ≡ length es
    → length es ≤ length ds
    → broadcast_strides es ss ds ≡ some rs
    → IsBroadcast es ss ds rs
unfolding broadcast_strides
broadcast_strides-IsBroadcast [] ss ds rs e l h =
    subst (IsBroadcast [] ss ds) (some-injective _ rs h) (added-IsBroadcast ss ds)
broadcast_strides-IsBroadcast (e' ∷ es) [] ds rs e l h = absurd (omega (arith, e))
broadcast_strides-IsBroadcast (e' ∷ es) (s ∷ ss) [] rs e l h = absurd (omega (arith, l))
broadcast_strides-IsBroadcast (e' ∷ es) (s ∷ ss) (d ∷ ds) rs e l h =
    let rest_of = broadcast_strides-IsBroadcast es ss ds in
    elim (Bool-cases (d == e')) [
      | inl q ↦ elim (Option-cases (broadcast_strides es ss ds)) [
        | inl n ↦ cc (rw (q, n) at h)
        | inr (r, n) ↦
            subst (λ d. IsBroadcast (e' ∷ es) (s ∷ ss) (d ∷ ds) rs) (sym ((==_iff d e').0 q))
              (subst (IsBroadcast (e' ∷ es) (s ∷ ss) (e' ∷ ds))
                (some-injective _ rs (rw (q, n) at h))
                (kept-IsBroadcast e' s es ss ds r
                  (rest_of r (omega (arith, e)) (omega (arith, l)) n)))
      ]
      | inr q ↦ elim (Bool-cases (e' == 1)) [
        | inl w ↦ elim (Option-cases (broadcast_strides es ss ds)) [
          | inl n ↦ cc (rw (q, w, n) at h)
          | inr (r, n) ↦
              subst (λ e. IsBroadcast (e ∷ es) (s ∷ ss) (d ∷ ds) rs) (sym ((==_iff e' 1).0 w))
                (subst (IsBroadcast (1 ∷ es) (s ∷ ss) (d ∷ ds))
                  (some-injective _ rs (rw (q, w, n) at h))
                  (single-IsBroadcast s d es ss ds r
                    (rest_of r (omega (arith, e)) (omega (arith, l)) n)))
        ]
        | inr w ↦ cc (rw (q, w) at h)
      ]
    ]

module _ {A : Type 0} where
  broadcasted-IsView :
      (to rs : List ℕ) (t : Tensor A)
      → length t.strides ≡ length t.shape
      → IsBroadcast (reverse t.shape) (reverse t.strides) (reverse to) rs
      → IsView (clamped_index t.shape) t (record t { shape = to; strides = reverse rs })
  broadcasted-IsView to rs t e h = record {
    ranked = length-reverse rs ∙ h.0 ∙ length-reverse to;
    same_array = refl;
    below = λ i b. rw (reverse-reverse t.shape) at (
        Below-reverse (reverse t.shape) (clamp (reverse t.shape) (reverse i))
          (h.1 (reverse i) (Below-reverse to i b)).0);
    place = λ i b.
        let rest = h.1 (reverse i) (Below-reverse to i b) in
        let c = clamp (reverse t.shape) (reverse i) in
        let len : length (reverse i) ≡ length rs =
          Below-length (reverse to) (reverse i) (Below-reverse to i b) ∙ sym h.0 in
        let len' : length c ≡ length t.strides =
          Below-length (reverse t.shape) c rest.0 ∙ length-reverse t.shape ∙ sym e in
        let front = rw (reverse-reverse i) at (stride_offset-reverse (reverse i) rs len) in
        let back =
          rw (reverse-reverse c) at
            (stride_offset-reverse (reverse c) t.strides (length-reverse c ∙ len')) in
        ap (λ n. word (n + t.values.offset)) (front ∙ rest.1 ∙ back);
  }

  -- Where broadcasting a tensor to a shape succeeds, the element at an index of the result is that of
  -- the tensor at the index without the entries of the axes that were added, and with zero for the
  -- entry of each axis of length one.
  pub broadcast_to-IsView :
      (to : List ℕ) (t u : Tensor A)
      → length t.strides ≡ length t.shape
      → broadcast_to to t ≡ some u
      → (u.shape ≡ to) × IsView (clamped_index t.shape) t u
  unfolding broadcast_to
  broadcast_to-IsView to t u e h = elim (Bool-cases (ltb (length to) (length t.shape))) [
    | inl q ↦ cc (rw (broadcast_to, q) at h)
    | inr q ↦
        let rs' = broadcast_strides (reverse t.shape) (reverse t.strides) (reverse to) in
        elim (Option-cases rs') [
          | inl n ↦ cc (rw (broadcast_to, q, n) at h)
          | inr (rs, n) ↦
              let same = some-injective _ u (rw (broadcast_to, q, n) at h) in
              let fits =
                broadcast_strides-IsBroadcast (reverse t.shape) (reverse t.strides) (reverse to) rs
                  (length-reverse t.strides ∙ e ∙ sym (length-reverse t.shape))
                  (ground (arith, length-reverse t.shape, length-reverse to)) n in
              (
                sym (ap (λ (v : Tensor A). v.shape) same),
                subst (IsView (clamped_index t.shape) t) same (broadcasted-IsView to rs t e fits),
              )
        ]
  ]
