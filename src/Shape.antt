-- ===== src/Shape.antt =====
-- ella-common/src/shape.rs and shape/iter.rs: shapes, indices and strides as lists of numbers (the
-- slice of a `Const` or `Dyn`). The numbers have no bound: an array in memory has fewer than 2 ^ 63
-- elements.
pub mod Strides
pub mod Iter
pub mod Axis
pub mod Flat
pub mod Broadcast
pub mod Layout
use ella.Prelude.{
  map_option, ℕ, zero, suc, ◌+◌, ◌-◌, ◌*◌, Bool, true, false, Option, none, some, List, [], ◌∷◌,
  ◌++◌, ltb, leb, ◌==◌, if◌then◌else◌, length, take, drop, reverse,
}

unfoldable pub size : List ℕ → ℕ
size [] = 1
size (d ∷ ds) = d * size ds

unfoldable pub zeros : ℕ → List ℕ
zeros zero = []
zeros (suc n) = 0 ∷ zeros n

-- The second loop of `broadcast`, over the axes that both shapes have; `none` is the error.
unfoldable pub broadcast_axes : List ℕ → List ℕ → Option (List ℕ)
broadcast_axes [] ss = some []
broadcast_axes (o ∷ os) [] = some (o ∷ os)
broadcast_axes (o ∷ os) (s ∷ ss) =
    let rest = broadcast_axes os ss in
    let keep = map_option (λ ds. o ∷ ds) rest in
    if o == s
    then keep
    else if o == 1
    then map_option (λ ds. s ∷ ds) rest
    else if s == 1
    then keep
    else none

-- `broadcast` where the first shape has no fewer axes.
unfoldable pub broadcast_onto : List ℕ → List ℕ → Option (List ℕ)
unfolding broadcast_axes
broadcast_onto a b =
    let k = length a - length b in map_option (λ ds. take k a ++ ds) (broadcast_axes (drop k a) b)

unfoldable pub broadcast : List ℕ → List ℕ → Option (List ℕ)
unfolding broadcast_onto
broadcast a b = if ltb (length a) (length b) then broadcast_onto b a else broadcast_onto a b

abbrev pub no_zero : List ℕ → Bool
no_zero [] = true
no_zero (d ∷ ds) = let rest = no_zero ds in if d == 0 then false else rest

-- The loop of `default_strides`, from the last axis on.
unfoldable pub running_products : ℕ → List ℕ → List ℕ
running_products prod [] = []
running_products prod (d ∷ ds) = prod ∷ running_products (prod * d) ds

unfoldable pub default_strides : List ℕ → List ℕ
unfolding running_products zeros
default_strides shape =
    if no_zero shape then reverse (running_products 1 (reverse shape)) else zeros (length shape)

unfoldable pub stride_offset : List ℕ → List ℕ → ℕ
stride_offset [] strides = 0
stride_offset (i ∷ is) [] = 0
stride_offset (i ∷ is) (s ∷ ss) = i * s + stride_offset is ss

unfoldable pub stride_offset_checked : List ℕ → List ℕ → List ℕ → Option ℕ
stride_offset_checked [] index strides = some 0
stride_offset_checked (d ∷ ds) [] strides = some 0
stride_offset_checked (d ∷ ds) (i ∷ is) [] = some 0
stride_offset_checked (d ∷ ds) (i ∷ is) (s ∷ ss) =
    let rest = stride_offset_checked ds is ss in
    if leb d i then none else map_option (λ o. i * s + o) rest

-- The loop of `is_standard_layout`, from the last axis on.
unfoldable pub standard_from : ℕ → List ℕ → List ℕ → Bool
standard_from c [] ss = true
standard_from c (d ∷ ds) [] = true
standard_from c (d ∷ ds) (s ∷ ss) =
    let rest = standard_from c ds ss in
    let next = standard_from (c * d) ds ss in
    if d == 1 then rest else if s == c then next else false

-- `is_standard_layout` of a `Dyn` or of a `Const` with other than one axis
unfoldable pub is_standard_layout : List ℕ → List ℕ → Bool
unfolding standard_from
is_standard_layout shape strides =
    if no_zero shape then standard_from 1 (reverse shape) (reverse strides) else true

unfoldable pub first_index : List ℕ → Option (List ℕ)
unfolding size zeros
first_index shape = if size shape == 0 then none else some (zeros (length shape))

-- The loop of `shape_next`, from the last axis on.
unfoldable pub next_from : List ℕ → List ℕ → Option (List ℕ)
next_from [] is = none
next_from (d ∷ ds) [] = none
next_from (d ∷ ds) (i ∷ is) =
    let carry = map_option (λ js. 0 ∷ js) (next_from ds is) in
    if suc i == d then carry else some (suc i ∷ is)

unfoldable pub shape_next : List ℕ → List ℕ → Option (List ℕ)
unfolding next_from
shape_next shape index = map_option reverse (next_from (reverse shape) (reverse index))

pub record ShapeIndexIter : Type 0 where
  pub shape : List ℕ
  pub index : Option (List ℕ)

unfoldable pub new_iter : List ℕ → ShapeIndexIter
unfolding first_index
new_iter shape = record { shape = shape; index = first_index shape }

-- `Iterator::next`
unfoldable pub next : ShapeIndexIter → Option (List ℕ × ShapeIndexIter)
unfolding shape_next
next it = elim it.index [
  | none ↦ none
  | some i ↦ some (i, record it { index = shape_next it.shape i })
]

-- `ExactSizeIterator::len`
unfoldable pub len : ShapeIndexIter → ℕ
unfolding size stride_offset default_strides
len it = elim it.index [
  | none ↦ 0
  | some i ↦ size it.shape - stride_offset i (default_strides it.shape)
]
