-- ===== src/Shape/Iter.antt =====
-- The iteration over the indices of a shape (ella-common/src/shape/iter.rs).
use ella.Prelude.{
  ℕ, zero, suc, ◌-◌, ◌<◌, ◌≤◌, ◌≡◌, refl, sym, ◌∙◌, ap, true, false, Option, none, some, List, [],
  ◌∷◌, arith, length, reverse, reverse-reverse, inl, inr, Bool-cases, map_option, ◌==◌, ==_iff,
}
use mathlib.Core.Path.{subst}
use native.Mathlib.Nat.{mul-suc, zero-mul, mul-zero, mul-pos}
use ella.Shape.{
  size, zeros, default_strides, no_zero, stride_offset, next_from, shape_next, first_index,
  ShapeIndexIter, new_iter, next, len,
}
use ella.Shape.Strides.{
  position, Below, Below-reverse, stride_offset-position, default_strides-row_major, size-reverse,
  position-lt,
}

-- What the loop of `shape_next` gives, from the last axis on.
data Next (ds is : List ℕ) : Option (List ℕ) → Type 0 where
  last : suc (position ds is) ≡ size ds → Next ds is none
  later : (js : List ℕ) → Below ds js → position ds js ≡ suc (position ds is) → Next ds is (some js)

carried :
    (d i : ℕ) (ds is : List ℕ) (o : Option (List ℕ))
    → suc i ≡ d
    → Next ds is o
    → Next (d ∷ ds) (i ∷ is) (map_option (λ js. 0 ∷ js) o)
unfolding size
carried d i ds is none e (last h) = last (rw (sym h, mul-suc d (position ds is)) (omega arith))
carried d i ds is (some _) e (later js b h) =
    later (0 ∷ js) (omega arith, b) (rw (h, mul-suc d (position ds is)) (omega arith))

next_from-Next : (ds is : List ℕ) → Below ds is → Next ds is (next_from ds is)
unfolding next_from size
next_from-Next [] [] h = last refl
next_from-Next [] (j ∷ js) h = absurd h
next_from-Next (x ∷ xs) [] h = absurd h
next_from-Next (d ∷ ds) (i ∷ is) h = elim (Bool-cases (suc i == d)) [
  | inl e ↦
      rw e (carried d i ds is (next_from ds is) ((==_iff (suc i) d).0 e) (next_from-Next ds is h.1))
  | inr e ↦ rw e (later (suc i ∷ is) (ground arith, h.1) (omega arith))
]

-- The iterator's state after an element at each position before `k`.
abbrev pub At : List ℕ → ℕ → Option (List ℕ) → Type 0
At shape k none = k ≡ size shape
At shape k (some i) = Below shape i × (stride_offset i (default_strides shape) ≡ k)

pub offset-position :
    (shape i : List ℕ)
    → no_zero shape ≡ true
    → Below shape i
    → stride_offset i (default_strides shape) ≡ position (reverse shape) (reverse i)
offset-position shape i n b =
    rw (default_strides-row_major shape n) (stride_offset-position shape i b)

stepped :
    (shape is : List ℕ) (o : Option (List ℕ))
    → no_zero shape ≡ true
    → Next (reverse shape) is o
    → At shape (suc (position (reverse shape) is)) (map_option reverse o)
stepped shape is none n (last h) = h ∙ size-reverse shape
stepped shape is (some _) n (later js b e) =
    let back : Below shape (reverse js) =
      rw (reverse-reverse shape) at (Below-reverse (reverse shape) js b) in
    (
      back,
      offset-position shape (reverse js) n back
          ∙ ap (position (reverse shape)) (reverse-reverse js)
          ∙ e,
    )

shape_next-At :
    (shape i : List ℕ) (k : ℕ)
    → no_zero shape ≡ true
    → At shape k (some i)
    → At shape (suc k) (shape_next shape i)
unfolding shape_next
shape_next-At shape i k n (b, e) =
    let p : k ≡ position (reverse shape) (reverse i) = sym e ∙ offset-position shape i n b in
    rw p (
      stepped shape (reverse i) _ n
        (next_from-Next (reverse shape) (reverse i) (Below-reverse shape i b)))

size-positive : (shape : List ℕ) → no_zero shape ≡ true → 0 < size shape
unfolding size
size-positive [] h = omega arith
size-positive (d ∷ ds) h = ground (arith, mul-pos {m = d} {n = size ds}, size-positive ds)

size-no_zero : (shape : List ℕ) → no_zero shape ≡ true → (size shape == 0) ≡ false
size-no_zero shape h = ground (arith, size-positive shape h)

no_zero-size : (shape : List ℕ) → no_zero shape ≡ false → size shape ≡ 0
unfolding size
no_zero-size [] h = cc
no_zero-size (d ∷ ds) h = ground (arith, no_zero-size ds, zero-mul (size ds), mul-zero d)

zeros-Below : (ds : List ℕ) → no_zero ds ≡ true → Below ds (zeros (length ds))
unfolding zeros
zeros-Below [] h = tt
zeros-Below (d ∷ ds) h = ground (arith, zeros-Below ds)

zeros-offset : (n : ℕ) (ss : List ℕ) → stride_offset (zeros n) ss ≡ 0
unfolding zeros stride_offset
zeros-offset zero ss = refl
zeros-offset (suc n) [] = refl
zeros-offset (suc n) (s ∷ ss) = rw (zeros-offset n ss, zero-mul s) refl

first_index-At : (shape : List ℕ) → At shape 0 (first_index shape)
unfolding first_index
first_index-At shape = elim (Bool-cases (no_zero shape)) [
  | inl n ↦
      rw (size-no_zero shape n)
        (zeros-Below shape n, zeros-offset (length shape) (default_strides shape))
  | inr n ↦ rw (no_zero-size shape n) (sym (no_zero-size shape n))
]

-- The iterator after `k` calls of `next`.
abbrev pub advance : ShapeIndexIter → ShapeIndexIter
advance it = elim (next it) [ none ↦ it | some p ↦ p.1 ]

abbrev pub after : ℕ → ShapeIndexIter → ShapeIndexIter
after zero it = it
after (suc k) it = advance (after k it)

-- A position below the size is that of an index.
At-index :
    (shape : List ℕ) (k : ℕ) (o : Option (List ℕ))
    → At shape k o
    → k < size shape
    → (i : List ℕ) × (o ≡ some i) × Below shape i × (stride_offset i (default_strides shape) ≡ k)
At-index shape k none a h = absurd (omega (arith, a))
At-index shape k (some i) a h = (i, refl, a.0, a.1)

pub Below-no_zero : (ds is : List ℕ) → Below ds is → no_zero ds ≡ true
Below-no_zero [] [] h = refl
Below-no_zero [] (j ∷ js) h = absurd h
Below-no_zero (x ∷ xs) [] h = absurd h
Below-no_zero (x ∷ xs) (j ∷ js) h = ground (arith, Below-no_zero xs js h.1)

At-end : (shape : List ℕ) (k : ℕ) (o : Option (List ℕ)) → k ≡ size shape → At shape k o → o ≡ none
At-end shape k none h a = refl
At-end shape k (some i) h (b, e) = absurd (
    ground (
      arith,
      sym (offset-position shape i (Below-no_zero shape i b) b) ∙ e,
      position-lt (reverse shape) (reverse i) (Below-reverse shape i b),
      size-reverse shape,
    ))

next-some :
    (it : ShapeIndexIter) (i : List ℕ)
    → it.index ≡ some i
    → next it ≡ some (i, record it { index = shape_next it.shape i })
unfolding next
next-some it i q = rw q refl

next-none : (it : ShapeIndexIter) → it.index ≡ none → next it ≡ none
unfolding next
next-none it q = rw q refl

len-some :
    (it : ShapeIndexIter) (i : List ℕ)
    → it.index ≡ some i
    → len it ≡ size it.shape - stride_offset i (default_strides it.shape)
unfolding len
len-some it i q = rw q refl

len-none : (it : ShapeIndexIter) → it.index ≡ none → len it ≡ 0
unfolding len
len-none it q = rw q refl

advance-some :
    (it : ShapeIndexIter) (i : List ℕ)
    → it.index ≡ some i
    → advance it ≡ record it { index = shape_next it.shape i }
advance-some it i q = rw (next-some it i q, advance) refl

after-At :
    (shape : List ℕ) (k : ℕ)
    → k ≤ size shape
    → ((after k (new_iter shape)).shape ≡ shape) × At shape k (after k (new_iter shape)).index
unfolding new_iter
after-At shape zero h = (refl, first_index-At shape)
after-At shape (suc k) h =
    let it = after k (new_iter shape) in
    let (e, a) = after-At shape k (omega (arith, h)) in
    let (i, q, b, o) = At-index shape k it.index a (omega (arith, h)) in
    subst (λ it. (it.shape ≡ shape) × At shape (suc k) it.index) (sym (advance-some it i q))
      (e, rw e (shape_next-At shape i k (Below-no_zero shape i b) (b, o)))

-- The iteration over the indices of a shape visits every element once, in row-major order: after `k`
-- calls of `next`, with `k` below the size, the next one gives an index within the shape whose offset
-- under the default strides is `k`, and `len` is what is left of the size; after as many calls as the
-- size, `next` gives nothing and `len` is zero.
pub indices-row_major :
    (shape : List ℕ) (k : ℕ)
    → (k < size shape
        → (i : List ℕ) × (next (after k (new_iter shape))
            ≡ some (i, record { shape = shape; index = shape_next shape i }))
          × Below shape i
          × (stride_offset i (default_strides shape) ≡ k)
          × (len (after k (new_iter shape)) ≡ size shape - k))
      × (k ≡ size shape
          → (next (after k (new_iter shape)) ≡ none) × (len (after k (new_iter shape)) ≡ 0))
indices-row_major shape k = (
  λ h.
      let it = after k (new_iter shape) in
      let (e, a) = after-At shape k (omega (arith, h)) in
      let (i, q, b, o) = At-index shape k it.index a h in
      (i, rw (next-some it i q, e) refl, b, o, rw (len-some it i q, e, o) refl),
  λ h.
      let it = after k (new_iter shape) in
      let (e, a) = after-At shape k (omega (arith, h)) in
      let q = At-end shape k it.index h a in (next-none it q, len-none it q),
)
