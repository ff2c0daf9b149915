-- ===== src/Shape/Axis.antt =====
-- Axes of a shape (`Axis`, `insert_axis`, `remove_axis` of ella-common/src/shape.rs, `abs_index` of
-- ella-common/src/shape/index.rs). A failed `debug_assert!`, a subtraction below zero and a position
-- out of range are `none`.
use ella.Prelude.{
  ℕ, zero, suc, ◌+◌, ◌-◌, ◌*◌, ◌≤◌, ◌≡◌, refl, ap, Option, none, some, List, [], ◌∷◌, ◌++◌, arith,
  length, take, drop, ltb, leb, if◌then◌else◌, map_option, inl, inr, Bool-cases, Option-cases,
}
use mathlib.Core.Option.{some-injective}
use mathlib.Core.Path.{subst}
use ella.Shape.{size}

-- An `isize`: `negsuc n` is -(n + 1).
pub data Axis : Type 0 where
  pos : ℕ → Axis
  negsuc : ℕ → Axis

-- `IndexValue::abs_index` of the signed types
unfoldable pub abs_index : Axis → ℕ → Option ℕ
abs_index (pos n) count = some n
abs_index (negsuc n) count = if leb (suc n) count then some (count - suc n) else none

unfoldable pub insert_index : Axis → ℕ → Option ℕ
unfolding abs_index
insert_index (pos n) count = abs_index (pos n) count
insert_index (negsuc n) count = map_option (λ i. i + 1) (abs_index (negsuc n) count)

abbrev insert_at : List ℕ → Option ℕ → Option (List ℕ)
insert_at shape none = none
insert_at shape (some i) =
    if leb i (length shape) then some (take i shape ++ 1 ∷ drop i shape) else none

unfoldable pub insert_axis : List ℕ → Axis → Option (List ℕ)
unfolding insert_index
insert_axis shape axis = insert_at shape (insert_index axis (length shape))

abbrev pub remove_at : List ℕ → Option ℕ → Option (List ℕ)
remove_at shape none = none
remove_at shape (some i) =
    if ltb i (length shape) then some (take i shape ++ drop (suc i) shape) else none

unfoldable pub remove_axis : List ℕ → Axis → Option (List ℕ)
unfolding abs_index
remove_axis shape axis = remove_at shape (abs_index axis (length shape))

unfoldable pub inserted : (i : ℕ) (shape : List ℕ) → List ℕ
inserted i shape = take i shape ++ 1 ∷ drop i shape

inserted_lem :
    (i : ℕ) (shape : List ℕ)
    → i ≤ length shape
    → (length (inserted i shape) ≡ suc (length shape))
      × (take i (inserted i shape) ++ drop (suc i) (inserted i shape) ≡ shape)
      × (size (inserted i shape) ≡ size shape)
unfolding inserted size
inserted_lem zero shape h = (refl, refl, omega arith)
inserted_lem (suc i) [] h = absurd (omega (arith, h))
inserted_lem (suc i) (d ∷ ds) h =
    let (e, f, g) = inserted_lem i ds (omega (arith, h)) in
    (ap suc e, ap (λ xs. d ∷ xs) f, ap (λ n. d * n) g)

pub insert_axis_cases :
    (shape : List ℕ) (axis : Axis) (s : List ℕ)
    → insert_axis shape axis ≡ some s
    → (i : ℕ) × (i ≤ length shape)
      × (insert_index axis (length shape) ≡ some i)
      × (inserted i shape ≡ s)
unfolding insert_axis inserted
insert_axis_cases shape axis s h = elim (Option-cases (insert_index axis (length shape))) [
  | inl e ↦ cc (rw e at h)
  | inr (i, e) ↦ elim (Bool-cases (leb i (length shape))) [
    | inl k ↦ (i, ground arith, e, some-injective _ s (rw (e, k) at h))
    | inr k ↦ cc (rw (e, k) at h)
  ]
]

same_index :
    (axis : Axis) (count i : ℕ)
    → insert_index axis count ≡ some i
    → abs_index axis (suc count) ≡ some i
unfolding insert_index abs_index
same_index (pos n) count i h = h
same_index (negsuc n) count i h = ground arith

-- Where inserting an axis, counted from either end, gives a shape, that shape has as many
-- elements, and removing the same axis from it gives the first shape back.
pub remove_axis-insert_axis :
    (shape : List ℕ) (axis : Axis) (s : List ℕ)
    → insert_axis shape axis ≡ some s
    → (size s ≡ size shape) × (remove_axis s axis ≡ some shape)
unfolding remove_axis
remove_axis-insert_axis shape axis s h =
    let (i, k, e, f) = insert_axis_cases shape axis s h in
    let (l, t, z) = inserted_lem i shape k in
    subst (λ s. (size s ≡ size shape) × (remove_axis s axis ≡ some shape)) f
      (z, rw (l, same_index axis (length shape) i e, l, t) (ground (arith, k)))
