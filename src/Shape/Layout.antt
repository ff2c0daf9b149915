-- ===== src/Shape/Layout.antt =====
-- Offsets (`stride_offset_checked`, `is_standard_layout` of ella-common/src/shape.rs).
use ella.Prelude.{
  ℕ, zero, suc, ◌+◌, ◌*◌, ◌<◌, ◌≡◌, refl, sym, ◌∙◌, ap, true, Option, none, some, List, [], ◌∷◌,
  ◌++◌, arith, length, reverse, reverse-reverse, length-reverse, inl, inr, ◌↔◌, Bool-cases,
  map_option, ◌==◌, leb, ==_iff,
}
use native.Mathlib.Nat.{zero-mul, mul-zero, mul_assoc, mul_comm, mul-add}
use ella.Shape.{
  running_products, zeros, size, default_strides, no_zero, stride_offset, stride_offset_checked,
  standard_from, is_standard_layout,
}
use ella.Shape.Strides.{
  mul_one, reverse-running_products, position, row_major, Below, Below-reverse, size-reverse,
  position-lt,
}
use ella.Shape.Iter.{offset-position, Below-no_zero}

map_option-some :
    (a o : ℕ) (r : Option ℕ)
    → map_option (λ x. a + x) r ≡ some o
    → (x : ℕ) × (r ≡ some x) × (a + x ≡ o)
map_option-some a o none h = cc
map_option-some a o (some x) h = (x, refl, ground arith)

checked_iff :
    (shape index strides : List ℕ)
    → length index ≡ length shape
    → length strides ≡ length shape
    → (o : ℕ)
    → (stride_offset_checked shape index strides ≡ some o)
      ↔ (Below shape index × (stride_offset index strides ≡ o))
unfolding stride_offset_checked stride_offset
checked_iff [] [] [] h k o = ground arith
checked_iff [] [] (s ∷ ss) h k o = absurd (omega (arith, k))
checked_iff [] (i ∷ is) ss h k o = absurd (omega (arith, h))
checked_iff (d ∷ ds) [] ss h k o = absurd (omega (arith, h))
checked_iff (d ∷ ds) (i ∷ is) [] h k o = absurd (omega (arith, k))
checked_iff (d ∷ ds) (i ∷ is) (s ∷ ss) h k o = elim (Bool-cases (leb d i)) [
  | inl e ↦ rw e (λ n. cc, λ b. absurd (ground (arith, b.0)))
  | inr e ↦ rw e (
    λ m.
        let (o', q, r) = map_option-some (i * s) o (stride_offset_checked ds is ss) m in
        let (b, f) = (checked_iff ds is ss (omega (arith, h)) (omega (arith, k)) o').0 q in
        ((ground arith, b), rw f r),
    λ b.
        rw
          (
            (checked_iff ds is ss (omega (arith, h)) (omega (arith, k)) (stride_offset is ss)).1
                (b.0.1, refl),
            b.1,
          )
          refl,
  )
]

row_major-length : (shape : List ℕ) → length (row_major shape) ≡ length shape
row_major-length [] = refl
row_major-length (d ∷ ds) = ap suc (row_major-length ds)

single_axis : (c d i s p o : ℕ) → i < d → d ≡ 1 → o ≡ c * p → i * s + o ≡ c * (i + d * p)
single_axis c d i s p o h e k =
    let z : i ≡ 0 = omega (arith, h, e) in
    let (f, g) : (0 + 1 * p ≡ p) × (0 + c * p ≡ c * p) = (omega arith, omega arith) in
    rw (z, e, k, zero-mul s, f, g) refl

standard_from-offset :
    (c : ℕ) (ds is ss : List ℕ)
    → length ss ≡ length ds
    → Below ds is
    → standard_from c ds ss ≡ true
    → stride_offset is ss ≡ c * position ds is
unfolding standard_from stride_offset
standard_from-offset c [] [] ss h b e = omega (arith, mul-zero c)
standard_from-offset c [] (j ∷ js) ss h b e = absurd b
standard_from-offset c (d ∷ ds) [] ss h b e = absurd b
standard_from-offset c (d ∷ ds) (i ∷ is) [] h b e = absurd (omega (arith, h))
standard_from-offset c (d ∷ ds) (i ∷ is) (s ∷ ss) h b e = elim (Bool-cases (d == 1)) [
  | inl one ↦
      let p = standard_from-offset c ds is ss (omega (arith, h)) b.1 (rw one at e) in
      single_axis c d i s (position ds is) (stride_offset is ss) b.0 (ground arith) p
  | inr many ↦ elim (Bool-cases (s == c)) [
    | inr other ↦ cc (rw (many, other) at e)
    | inl same ↦
        let p =
          standard_from-offset (c * d) ds is ss (omega (arith, h)) b.1 (rw (many, same) at e) in
        rw
          (
            p,
            mul-add c i (d * position ds is),
            mul_assoc c d (position ds is),
            mul_comm c i,
            (==_iff s c).0 same,
          )
          refl
  ]
]

offset-append :
    (is ss : List ℕ) (i s : ℕ)
    → length is ≡ length ss
    → stride_offset (is ++ i ∷ []) (ss ++ s ∷ []) ≡ stride_offset is ss + i * s
unfolding stride_offset
offset-append [] [] i s h = omega arith
offset-append [] (t ∷ ss) i s h = absurd (omega (arith, h))
offset-append (j ∷ is) [] i s h = absurd (omega (arith, h))
offset-append (j ∷ is) (t ∷ ss) i s h =
    rw (offset-append is ss i s (omega (arith, h))) (omega arith)

Below-length : (ds is : List ℕ) → Below ds is → length is ≡ length ds
Below-length [] [] b = refl
Below-length [] (j ∷ js) b = absurd b
Below-length (d ∷ ds) [] b = absurd b
Below-length (d ∷ ds) (j ∷ js) b = ap suc (Below-length ds js b.1)

reverse-offset :
    (is ss : List ℕ)
    → length is ≡ length ss
    → stride_offset (reverse is) (reverse ss) ≡ stride_offset is ss
unfolding stride_offset
reverse-offset [] ss h = refl
reverse-offset (i ∷ is) [] h = absurd (omega (arith, h))
reverse-offset (i ∷ is) (s ∷ ss) h =
    rw
      (
        offset-append (reverse is) (reverse ss) i s
            (length-reverse is ∙ omega (arith, h) ∙ sym (length-reverse ss)),
        reverse-offset is ss (omega (arith, h)),
      )
      (omega arith)

-- Under strides that are a standard layout of the shape, one for each axis, the offset of an index
-- within the shape is that under the default strides, whatever the strides of the axes of length
-- one are.
pub is_standard_layout-offset :
    (shape strides index : List ℕ)
    → length strides ≡ length shape
    → is_standard_layout shape strides ≡ true
    → Below shape index
    → stride_offset index strides ≡ stride_offset index (default_strides shape)
unfolding is_standard_layout
is_standard_layout-offset shape strides index h e b =
    let n = Below-no_zero shape index b in
    sym (reverse-offset index strides (Below-length shape index b ∙ sym h))
    ∙ standard_from-offset 1 (reverse shape) (reverse index) (reverse strides)
        (length-reverse strides ∙ h ∙ sym (length-reverse shape)) (Below-reverse shape index b)
        (rw n at e)
    ∙ omega arith
    ∙ sym (offset-position shape index n b)

zeros-length : (n : ℕ) → length (zeros n) ≡ n
unfolding zeros
zeros-length zero = refl
zeros-length (suc n) = ap suc (zeros-length n)

default_strides-length : (shape : List ℕ) → length (default_strides shape) ≡ length shape
unfolding default_strides
default_strides-length shape = elim (Bool-cases (no_zero shape)) [
  | inl e ↦ rw (e, reverse-running_products shape) (row_major-length shape)
  | inr e ↦ rw e (zeros-length (length shape))
]

Below-size :
    (shape index : List ℕ) (o : ℕ)
    → Below shape index
    → stride_offset index (default_strides shape) ≡ o
    → o < size shape
Below-size shape index o b p =
    rw
      (sym p, offset-position shape index (Below-no_zero shape index b) b, sym (size-reverse shape))
      (position-lt (reverse shape) (reverse index) (Below-reverse shape index b))

-- Under the default strides the checked offset of an index with an entry for each axis is o
-- exactly where the index is within the shape and the unchecked offset is o, which is then below
-- the size.
pub stride_offset_checked-default :
    (shape index : List ℕ)
    → length index ≡ length shape
    → (o : ℕ)
    → (stride_offset_checked shape index (default_strides shape) ≡ some o)
      ↔ (Below shape index × (stride_offset index (default_strides shape) ≡ o) × (o < size shape))
stride_offset_checked-default shape index h o =
    let f = checked_iff shape index (default_strides shape) h (default_strides-length shape) o in
    (λ e. let (b, p) = f.0 e in (b, p, Below-size shape index o b p), λ k. f.1 (k.0, k.1))

standard_from-running_products :
    (c : ℕ) (ds : List ℕ) → standard_from c ds (running_products c ds) ≡ true
unfolding standard_from running_products
standard_from-running_products c [] = refl
standard_from-running_products c (d ∷ ds) = elim (Bool-cases (d == 1)) [
  | inl e ↦ rw (e, (==_iff d 1).0 e, mul_one c) (standard_from-running_products c ds)
  | inr e ↦ rw (e, (==_iff c c).1 refl) (standard_from-running_products (c * d) ds)
]

-- The default strides of a shape are a standard layout of it.
pub default_strides-standard :
    (shape : List ℕ) → is_standard_layout shape (default_strides shape) ≡ true
unfolding is_standard_layout default_strides
default_strides-standard shape = elim (Bool-cases (no_zero shape)) [
  | inl e ↦
      rw (e, reverse-reverse (running_products 1 (reverse shape)))
        (standard_from-running_products 1 (reverse shape))
  | inr e ↦ rw e refl
]
