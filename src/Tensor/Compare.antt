-- ===== src/Tensor/Compare.antt =====
-- Comparisons of tensors (`TensorCompare` and the methods of `Tensor` of ella-tensor/src/ops/cmp.rs).
use ella.Prelude.{ℕ, ◌^◌, ◌<◌, ◌≡◌, ap, ◌∙◌, Bool, true, false, Option, some, List, length}
use ella.Shape.{size, broadcast}
use ella.Shape.Strides.{Below}
use ella.Tensor.View.{Tensor, element, IsInside}
use ella.Tensor.View.Broadcast.{clamped_index}
use ella.Tensor.Iter.{binary_op}
use ella.Tensor.Iter.Binary.{binary_op-element, both}

-- `PartialOrd` of the elements.
pub record PartialOrd (A : Type 0) : Type 0 where
  pub eq : A → A → Bool
  pub ne : A → A → Bool
  pub lt : A → A → Bool
  pub gt : A → A → Bool
  pub lte : A → A → Bool
  pub gte : A → A → Bool

module _ {A : Type 0} (O : PartialOrd A) where
  -- The methods of `TensorCompare` for two tensors: the first one is `self`.
  abbrev compare_with : (A → A → Bool) → Tensor A → Tensor A → Option (Tensor Bool)
  compare_with kernel a b = binary_op kernel a b

  -- The methods of `Tensor`, which call those of the argument.
  unfoldable pub eq_tensor : Tensor A → Tensor A → Option (Tensor Bool)
  eq_tensor t other = compare_with O.eq other t

  unfoldable pub ne_tensor : Tensor A → Tensor A → Option (Tensor Bool)
  ne_tensor t other = compare_with O.ne other t

  unfoldable pub lt_tensor : Tensor A → Tensor A → Option (Tensor Bool)
  lt_tensor t other = compare_with O.gte other t

  unfoldable pub gt_tensor : Tensor A → Tensor A → Option (Tensor Bool)
  gt_tensor t other = compare_with O.lte other t

  unfoldable pub lte_tensor : Tensor A → Tensor A → Option (Tensor Bool)
  lte_tensor t other = compare_with O.gt other t

  unfoldable pub gte_tensor : Tensor A → Tensor A → Option (Tensor Bool)
  gte_tensor t other = compare_with O.lt other t

  -- What a kernel gives at an index where both tensors have the same element.
  kernel-equal :
      (kernel : A → A → Bool) (s t : Tensor A) (shape i : List ℕ) (a : A)
      → length s.strides ≡ length s.shape
      → length t.strides ≡ length t.shape
      → broadcast s.shape t.shape ≡ some shape
      → size shape < 2 ^ 64
      → IsInside s
      → IsInside t
      → Below shape i
      → element s (clamped_index s.shape i) ≡ some a
      → element t (clamped_index t.shape i) ≡ some a
      → (u : Tensor Bool) × (binary_op kernel s t ≡ some u) × (element u i ≡ some (kernel a a))
  kernel-equal kernel s t shape i a e e' b z h h' bi x y =
      let (u, r, k, at) = binary_op-element kernel s t shape e e' b z h h' in
      (
        u,
        r,
        at i bi
            ∙ ap (λ o. both kernel o (element t (clamped_index t.shape i))) x
            ∙ ap (both kernel (some a)) y,
      )

  -- Two tensors whose elements lie in their arrays, and whose shapes broadcast to one with fewer than
  -- 2 ^ 64 elements: at an index where both have the same element, which the order compares as equal,
  -- `lt` and `gt` give true, and `lte` and `gte` give false.
  pub compare-equal :
      (s t : Tensor A) (shape i : List ℕ) (a : A)
      → length s.strides ≡ length s.shape
      → length t.strides ≡ length t.shape
      → broadcast s.shape t.shape ≡ some shape
      → size shape < 2 ^ 64
      → IsInside s
      → IsInside t
      → Below shape i
      → element s (clamped_index s.shape i) ≡ some a
      → element t (clamped_index t.shape i) ≡ some a
      → (O.lt a a ≡ false) × (O.gt a a ≡ false) × (O.lte a a ≡ true) × (O.gte a a ≡ true)
      → ((u : Tensor Bool) × (lt_tensor t s ≡ some u) × (element u i ≡ some true))
        × ((u : Tensor Bool) × (gt_tensor t s ≡ some u) × (element u i ≡ some true))
        × ((u : Tensor Bool) × (lte_tensor t s ≡ some u) × (element u i ≡ some false))
        × ((u : Tensor Bool) × (gte_tensor t s ≡ some u) × (element u i ≡ some false))
  unfolding lt_tensor gt_tensor lte_tensor gte_tensor
  compare-equal s t shape i a e e' b z h h' bi x y (p, q, v, w) =
      let at = λ (kernel : A → A → Bool). kernel-equal kernel s t shape i a e e' b z h h' bi x y in
      let (u0, r0, l0) = at O.gte in
      let (u1, r1, l1) = at O.lte in
      let (u2, r2, l2) = at O.gt in
      let (u3, r3, l3) = at O.lt in
      (
        (u0, r0, l0 ∙ ap some w),
        (u1, r1, l1 ∙ ap some v),
        (u2, r2, l2 ∙ ap some q),
        (u3, r3, l3 ∙ ap some p),
      )
