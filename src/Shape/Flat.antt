-- ===== src/Shape/Flat.antt =====
-- Flat indices (`Flat` of ella-common/src/shape/index.rs).
use ella.Prelude.{
  ℕ, suc, ◌+◌, ◌-◌, ◌*◌, ◌/◌, ◌<◌, ◌≡◌, refl, true, false, Option, none, some, List, [], ◌∷◌, arith,
  length, reverse, ltb, ◌==◌, if◌then◌else◌, lt→ltb, ◌++◌,
}
use ella.Shape.{size, running_products, is_standard_layout, stride_offset, default_strides}
use ella.Shape.Strides.{Below}
use ella.Shape.Iter.{indices-row_major}
use ella.Shape.Layout.{is_standard_layout-offset}

-- The loop of `index_unchecked` over the counts and strides.
unfoldable pub flat_loop : List ℕ → List ℕ → ℕ → ℕ → ℕ
flat_loop [] ss remaining idx = idx
flat_loop (c ∷ cs) [] remaining idx = idx
flat_loop (c ∷ cs) (s ∷ ss) remaining idx =
    let take = remaining / c in
    let rest = flat_loop cs ss (remaining - take) (idx + take * s) in
    if remaining - take == 0 then idx + take * s else rest

unfoldable pub flat_unchecked : ℕ → List ℕ → List ℕ → ℕ
unfolding flat_loop running_products
flat_unchecked n shape strides =
    if is_standard_layout shape strides
    then n
    else flat_loop (running_products 1 (reverse shape)) strides n 0

unfoldable pub flat_checked : ℕ → List ℕ → List ℕ → Option ℕ
unfolding flat_unchecked size
flat_checked n shape strides =
    if ltb n (size shape) then some (flat_unchecked n shape strides) else none

-- Under strides that are a standard layout of the shape, one for each axis, the flat index n,
-- below the size, has the offset of the n-th index of the shape in row-major order; from the size
-- on it is refused.
pub flat_checked-standard :
    (shape strides : List ℕ) (n : ℕ)
    → length strides ≡ length shape
    → is_standard_layout shape strides ≡ true
    → (n < size shape
        → (i : List ℕ) × Below shape i
          × (stride_offset i (default_strides shape) ≡ n)
          × (flat_checked n shape strides ≡ some (stride_offset i strides)))
      × (size shape < suc n → flat_checked n shape strides ≡ none)
unfolding flat_checked flat_unchecked
flat_checked-standard shape strides n h e = (
  λ k.
      let (i, q, b, o, l) = (indices-row_major shape n).0 k in
      (
        i,
        b,
        o,
        rw (e, is_standard_layout-offset shape strides i h e b, o, lt→ltb n (size shape) k) refl,
      ),
  λ k. ground (arith, k),
)

products-head :
    (xs : List ℕ) (y : ℕ) → (rest : List ℕ) × (running_products 1 (xs ++ y ∷ []) ≡ 1 ∷ rest)
unfolding running_products
products-head [] y = ([], refl)
products-head (x ∷ xs) y = (_, refl)

-- Under strides that are not a standard layout of a shape with at least one axis, the flat index n
-- has the offset n times the stride of the first axis, whatever the lengths and the other strides
-- are.
pub flat_unchecked-other :
    (d s n : ℕ) (ds ss : List ℕ)
    → is_standard_layout (d ∷ ds) (s ∷ ss) ≡ false
    → flat_unchecked n (d ∷ ds) (s ∷ ss) ≡ n * s
unfolding flat_unchecked
flat_unchecked-other d s n ds ss h =
    let (rest, e) = products-head (reverse ds) d in
    let (f, g) : (n / 1 ≡ n) × (n - n ≡ 0) = (omega arith, omega arith) in
    rw (h, e, flat_loop, f, g) (omega arith)
