-- ===== src/Examples/Views.antt =====
-- Views of tensors and element-wise operations on them, at concrete inputs.
use ella.Prelude.{
  get_elem?, take, ℕ, ◌+◌, ◌≡◌, refl, Bool, true, false, some, List, [], ◌∷◌, arith, ltb, leb, ◌==◌,
  if◌then◌else◌, ◌<◌,
}
use ella.Shape.{size, new_iter, next, is_standard_layout, stride_offset, default_strides, broadcast}
use ella.Shape.Strides.{Below}
use ella.Tensor.View.{Tensor, element, IsInside}
use ella.Tensor.View.Broadcast.{clamp, clamped_index}
use ella.Tensor.Iter.{all_read, items, of_array, binary_op, to_standard_layout}
use ella.Tensor.Iter.Elements.{to_standard_layout-element}
use ella.Tensor.Iter.Binary.{both, binary_op-element}
use ella.Tensor.Combine.{map_axis, scan_sizes, total}
use ella.Tensor.Combine.Parts.{map_axis-part}
use ella.Tensor.Compare.{PartialOrd, lt_tensor, gt_tensor, lte_tensor, gte_tensor, compare-equal}

-- Two rows of three numbers, and the tensor with its axes swapped.
abbrev rows : Tensor ℕ
rows = record {
  shape = 2 ∷ 3 ∷ [];
  strides = 3 ∷ 1 ∷ [];
  values = record { values = 1 ∷ 2 ∷ 3 ∷ 4 ∷ 5 ∷ 6 ∷ []; offset = 0; len = 6 };
}

abbrev columns : Tensor ℕ
columns = record rows { shape = 3 ∷ 2 ∷ []; strides = 1 ∷ 3 ∷ [] }

-- One row.
abbrev row : Tensor ℕ
row = record {
  shape = 3 ∷ [];
  strides = 1 ∷ [];
  values = record { values = 1 ∷ 5 ∷ 9 ∷ []; offset = 0; len = 3 };
}

rows-IsInside : IsInside rows
unfolding stride_offset
rows-IsInside [] b = absurd b
rows-IsInside (i ∷ []) b = absurd b.1
rows-IsInside (i ∷ j ∷ []) b = omega (arith, b.0, b.1.0)
rows-IsInside (i ∷ j ∷ k ∷ ks) b = absurd b.1.1

row-IsInside : IsInside row
unfolding stride_offset
row-IsInside [] b = absurd b
row-IsInside (i ∷ []) b = omega (arith, b.0)
row-IsInside (i ∷ j ∷ ks) b = absurd b.1

broadcasts : broadcast (2 ∷ 3 ∷ []) (3 ∷ []) ≡ some (2 ∷ 3 ∷ [])
unfolding broadcast
broadcasts = refl

binary_op-element_example :
    (u : Tensor ℕ) × (binary_op (λ x y. x + y) rows row ≡ some u)
    × (u.shape ≡ 2 ∷ 3 ∷ [])
    × ((i : List ℕ)
        → Below (2 ∷ 3 ∷ []) i
        → element u i
          ≡ both
              (λ x y. x + y)
              (element rows (clamped_index (2 ∷ 3 ∷ []) i))
              (element row (clamped_index (3 ∷ []) i)))
binary_op-element_example =
    binary_op-element (λ x y. x + y) rows row (2 ∷ 3 ∷ []) refl refl broadcasts
      (unfold size in omega arith) rows-IsInside row-IsInside

abbrev rewritten : Tensor ℕ
rewritten = record columns {
  values = record { values = 1 ∷ 4 ∷ 2 ∷ 5 ∷ 3 ∷ 6 ∷ []; offset = 0; len = 6 };
}

rewriting : to_standard_layout columns ≡ some rewritten
unfolding to_standard_layout is_standard_layout all_read items new_iter next of_array
rewriting = refl

not_standard : is_standard_layout (3 ∷ 2 ∷ []) (1 ∷ 3 ∷ []) ≡ false
unfolding is_standard_layout
not_standard = refl

to_standard_layout-element_example :
    (rewritten.shape ≡ 3 ∷ 2 ∷ [])
    × (rewritten.strides ≡ 1 ∷ 3 ∷ [])
    × (is_standard_layout (3 ∷ 2 ∷ []) (1 ∷ 3 ∷ []) ≡ false)
    × ((i j : List ℕ)
        → Below (3 ∷ 2 ∷ []) j
        → stride_offset i (1 ∷ 3 ∷ []) ≡ stride_offset j (default_strides (3 ∷ 2 ∷ []))
        → element rewritten i ≡ element columns j)
to_standard_layout-element_example =
    to_standard_layout-element columns rewritten refl (unfold size in omega arith) not_standard
      rewriting

abbrev numbers : PartialOrd ℕ
numbers = record {
  eq = λ a b. a == b;
  ne = λ a b. if a == b then false else true;
  lt = ltb;
  gt = λ a b. ltb b a;
  lte = leb;
  gte = λ a b. leb b a;
}

row_alone : broadcast (3 ∷ []) (3 ∷ []) ≡ some (3 ∷ [])
unfolding broadcast
row_alone = refl

fives : element row (clamped_index (3 ∷ []) (1 ∷ [])) ≡ some 5
unfolding stride_offset clamp
fives = refl

compare-equal_example :
    ((u : Tensor Bool) × (lt_tensor numbers row row ≡ some u) × (element u (1 ∷ []) ≡ some true))
    × ((u : Tensor Bool) × (gt_tensor numbers row row ≡ some u) × (element u (1 ∷ []) ≡ some true))
    × ((u : Tensor Bool) × (lte_tensor numbers row row ≡ some u)
        × (element u (1 ∷ []) ≡ some false))
    × ((u : Tensor Bool) × (gte_tensor numbers row row ≡ some u)
        × (element u (1 ∷ []) ≡ some false))
compare-equal_example =
    compare-equal numbers row row (3 ∷ []) (1 ∷ []) 5 refl refl row_alone
      (unfold size in omega arith) row-IsInside row-IsInside (omega arith, tt) fives fives
      (refl, refl, refl, refl)

map_axis-part_example :
    (n : ℕ) × (get_elem? (2 ∷ 3 ∷ []) (map_axis (scan_sizes 0 (2 ∷ 3 ∷ [])) 2).0 ≡ some n)
    × ((map_axis (scan_sizes 0 (2 ∷ 3 ∷ [])) 2).1 < n)
    × (total (take (map_axis (scan_sizes 0 (2 ∷ 3 ∷ [])) 2).0 (2 ∷ 3 ∷ []))
          + (map_axis (scan_sizes 0 (2 ∷ 3 ∷ [])) 2).1
        ≡ 2)
map_axis-part_example = map_axis-part (2 ∷ 3 ∷ []) 2 (omega arith, (omega arith, tt)) (omega arith)
