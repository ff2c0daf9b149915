-- ===== src/Tensor/Iter/Elements.antt =====
-- The elements of the tensors that are made of another tensor's items: `map` and `unary_op`,
-- `reshape` and `to_standard_layout` (ella-tensor/src/ops.rs, ops/shape.rs, tensor.rs).
use ella.Prelude.{
  ℕ, zero, suc, ◌+◌, ◌^◌, ◌<◌, ◌≡◌, refl, sym, ap, ◌∙◌, arith, Bool-cases, Option, none, some, List,
  [], ◌∷◌, length, get_elem?, get_elem?-length, inl, inr, Option-cases, true, false, map_option,
  ◌==◌,
}
use mathlib.Core.Option.{some-injective}
use mathlib.Core.Path.{subst}
use ella.Shape.{size, default_strides, is_standard_layout, stride_offset}
use ella.Shape.Strides.{Below}
use ella.Shape.Layout.{is_standard_layout-offset}
use ella.Tensor.View.{Tensor, word, element, address, IsInside}
use ella.Tensor.Iter.{
  items, all_read, from_items, of_array, unary_op, map_items, reshape, to_standard_layout,
}
use ella.Tensor.Iter.Items.{default-lt, items-element, items-index}

some-ne-none : {A : Type 0} (a : A) → none ≡ some a → ⊥
some-ne-none a h = cc

read_cons :
    {A : Type 0} (x : A) (os : List (Option A)) (ys : List A)
    → ((k : ℕ) (o : Option A) → get_elem? os k ≡ some o → get_elem? ys k ≡ o)
    → (k : ℕ) (o : Option A) → get_elem? (some x ∷ os) k ≡ some o
    → get_elem? (x ∷ ys) k ≡ o
read_cons x os ys h zero o e = some-injective (some x) o e
read_cons x os ys h (suc k) o e = h k o e

-- Reading all items keeps their places.
pub all_read-item :
    {A : Type 0} (os : List (Option A)) (xs : List A)
    → all_read os ≡ some xs
    → (k : ℕ) (o : Option A) → get_elem? os k ≡ some o
    → get_elem? xs k ≡ o
unfolding all_read
all_read-item [] xs h k o e = cc
all_read-item (none ∷ os) xs h k o e = cc
all_read-item (some x ∷ os) xs h k o e = elim (Option-cases (all_read os)) [
  | inl n ↦ cc (rw n at h)
  | inr (ys, n) ↦
      subst (λ xs. get_elem? xs k ≡ o) (some-injective (x ∷ ys) xs (rw n at h))
        (read_cons x os ys (all_read-item os ys n) k o e)
]

-- Where every item can be read, all can.
pub all_read-some :
    {A : Type 0} (os : List (Option A))
    → ((k : ℕ) → k < length os → (a : A) × (get_elem? os k ≡ some (some a)))
    → (xs : List A) × (all_read os ≡ some xs)
unfolding all_read
all_read-some [] h = ([], refl)
all_read-some (none ∷ os) h = absurd (some-ne-none _ (some-injective none _ (h 0 (omega arith)).1))
all_read-some (some x ∷ os) h =
    let (xs, e) = all_read-some os (λ k l. h (suc k) (omega (arith, l))) in (x ∷ xs, rw e refl)

get_elem?-map_items :
    {A B : Type 0} (f : A → B) (xs : List A) (k : ℕ)
    → get_elem? (map_items f xs) k ≡ map_option f (get_elem? xs k)
unfolding map_items
get_elem?-map_items f [] k = refl
get_elem?-map_items f (x ∷ xs) zero = refl
get_elem?-map_items f (x ∷ xs) (suc k) = get_elem?-map_items f xs k

module _ {A : Type 0} where
  -- The elements of a tensor can be read together where each can.
  pub items-read :
      (t : Tensor A)
      → length t.strides ≡ length t.shape
      → IsInside t
      → (xs : List A) × (all_read (items t) ≡ some xs)
  items-read t e h = all_read-some (items t) (λ k l.
      let (i, b, o) = items-index t k l in
      let (a, r) = get_elem?-length t.values.values (address t i) (h i b) in
      (a, rw o at (items-element t i e b) ∙ ap some r))

  pub items-position :
      (t : Tensor A) (xs : List A) (i : List ℕ)
      → length t.strides ≡ length t.shape
      → all_read (items t) ≡ some xs
      → Below t.shape i
      → get_elem? xs (stride_offset i (default_strides t.shape)) ≡ element t i
  items-position t xs i e h b = all_read-item (items t) xs h _ _ (items-element t i e b)

  -- The element of a tensor made of items is the item at the row-major position.
  pub from_items-element :
      (shape : List ℕ) (xs : List A) (i : List ℕ)
      → size shape < 2 ^ 64
      → Below shape i
      → element (from_items shape xs) i ≡ get_elem? xs (stride_offset i (default_strides shape))
  unfolding from_items of_array
  from_items-element shape xs i h b = ap (get_elem? xs) (omega (arith, default-lt shape i b, h))

module _ {A B : Type 0} where
  -- An element-wise operation on a tensor whose elements lie in its array, with fewer than 2 ^ 64 of
  -- them, succeeds, keeps the shape, and gives the operation's value at each index.
  pub unary_op-element :
      (f : A → B) (t : Tensor A)
      → length t.strides ≡ length t.shape
      → size t.shape < 2 ^ 64
      → IsInside t
      → (u : Tensor B) × (unary_op f t ≡ some u)
        × (u.shape ≡ t.shape)
        × ((i : List ℕ) → Below t.shape i → element u i ≡ map_option f (element t i))
  unfolding unary_op
  unary_op-element f t e z h =
      let (xs, r) = items-read t e h in
      (
        from_items t.shape (map_items f xs),
        rw (unary_op, r) refl,
        unfold from_items in refl,
        λ i b.
            from_items-element t.shape (map_items f xs) i z b
            ∙ get_elem?-map_items f xs _
            ∙ ap (map_option f) (items-position t xs i e r b),
      )

module _ {A : Type 0} where
  -- Reshaping to a shape of as many elements, fewer than 2 ^ 64, a tensor whose elements lie in its
  -- array succeeds and keeps the elements in row-major order: the element at an index of the result is
  -- that of the tensor at the index with the same row-major position.
  pub reshape-element :
      (shape : List ℕ) (t : Tensor A)
      → length t.strides ≡ length t.shape
      → size t.shape ≡ size shape
      → size shape < 2 ^ 64
      → IsInside t
      → (u : Tensor A) × (reshape shape t ≡ some u)
        × (u.shape ≡ shape)
        × ((i j : List ℕ)
            → Below shape i
            → Below t.shape j
            → stride_offset i (default_strides shape) ≡ stride_offset j (default_strides t.shape)
            → element u i ≡ element t j)
  unfolding reshape to_standard_layout of_array
  reshape-element shape t e s z h =
      let same : (size t.shape == size shape) ≡ true = ground (arith, s) in
      elim (Bool-cases (is_standard_layout t.shape t.strides)) [
        | inl d ↦ (
          record { shape = shape; strides = default_strides shape; values = t.values },
          rw (reshape, same, to_standard_layout, d) refl,
          refl,
          λ i j b c o.
              ap (λ n. get_elem? t.values.values (word (n + t.values.offset)))
                (o ∙ sym (is_standard_layout-offset t.shape t.strides j e d c)),
        )
        | inr d ↦
            let (xs, r) = items-read t e h in
            (
              from_items shape xs,
              unfold from_items of_array in rw (reshape, same, to_standard_layout, d, r) refl,
              unfold from_items in refl,
              λ i j b c o.
                  from_items-element shape xs i z b
                  ∙ ap (get_elem? xs) o
                  ∙ items-position t xs j e r c,
            )
      ]

  -- Bringing a tensor whose layout is not standard to the standard layout keeps its shape and its
  -- strides, so that the layout of the result is not standard either: the element at an index is that
  -- of the tensor at the index whose row-major position is the index's offset under the old strides.
  pub to_standard_layout-element :
      (t u : Tensor A)
      → length t.strides ≡ length t.shape
      → size t.shape < 2 ^ 64
      → is_standard_layout t.shape t.strides ≡ false
      → to_standard_layout t ≡ some u
      → (u.shape ≡ t.shape)
        × (u.strides ≡ t.strides)
        × (is_standard_layout u.shape u.strides ≡ false)
        × ((i j : List ℕ)
            → Below t.shape j
            → stride_offset i t.strides ≡ stride_offset j (default_strides t.shape)
            → element u i ≡ element t j)
  unfolding to_standard_layout of_array
  to_standard_layout-element t u e z d h = elim (Option-cases (all_read (items t))) [
    | inl n ↦ cc (rw (to_standard_layout, d, n) at h)
    | inr (xs, n) ↦
        let same = some-injective _ u (rw (to_standard_layout, d, n) at h) in
        subst
          (λ (u : Tensor A).
            (u.shape ≡ t.shape)
            × (u.strides ≡ t.strides)
            × (is_standard_layout u.shape u.strides ≡ false)
            × ((i j : List ℕ)
                → Below t.shape j
                → stride_offset i t.strides ≡ stride_offset j (default_strides t.shape)
                → element u i ≡ element t j))
          same
          (
            refl,
            refl,
            d,
            λ i j b o.
                ap (get_elem? xs) (omega (arith, o, default-lt t.shape j b, z))
                ∙ items-position t xs j e n b,
          )
  ]
