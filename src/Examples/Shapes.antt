-- ===== src/Examples/Shapes.antt =====
-- Shapes with two axes.
use ella.Prelude.{ℕ, ◌-◌, ◌<◌, ◌≡◌, refl, true, false, none, some, List, [], ◌∷◌}
use ella.Shape.{
  size, default_strides, is_standard_layout, stride_offset, new_iter, next, len, shape_next,
}
use ella.Shape.Strides.{Below}
use ella.Shape.Iter.{after, indices-row_major}
use ella.Shape.Axis.{negsuc, insert_axis}

indices-row_major_example :
    (4 < size (2 ∷ 3 ∷ [])
      → (i : List ℕ) × (next (after 4 (new_iter (2 ∷ 3 ∷ [])))
          ≡ some (i, record { shape = 2 ∷ 3 ∷ []; index = shape_next (2 ∷ 3 ∷ []) i }))
        × Below (2 ∷ 3 ∷ []) i
        × (stride_offset i (default_strides (2 ∷ 3 ∷ [])) ≡ 4)
        × (len (after 4 (new_iter (2 ∷ 3 ∷ []))) ≡ size (2 ∷ 3 ∷ []) - 4))
    × (4 ≡ size (2 ∷ 3 ∷ [])
        → (next (after 4 (new_iter (2 ∷ 3 ∷ []))) ≡ none)
          × (len (after 4 (new_iter (2 ∷ 3 ∷ []))) ≡ 0))
indices-row_major_example = indices-row_major (2 ∷ 3 ∷ []) 4

standard : is_standard_layout (1 ∷ 3 ∷ []) (9 ∷ 1 ∷ []) ≡ true
unfolding is_standard_layout
standard = refl

appended : insert_axis (2 ∷ 3 ∷ []) (negsuc 0) ≡ some (2 ∷ 3 ∷ 1 ∷ [])
unfolding insert_axis
appended = refl

transposed : is_standard_layout (2 ∷ 3 ∷ []) (1 ∷ 2 ∷ []) ≡ false
unfolding is_standard_layout
transposed = refl
