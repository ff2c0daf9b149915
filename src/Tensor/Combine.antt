-- ===== src/Tensor/Combine.antt =====
-- `Tensor::concat` and `Tensor::stack` (ella-tensor/src/ops/combine.rs). A panic, and an element read
-- outside its array, is `panics`.
pub mod Parts
use ella.Prelude.{
  ℕ, zero, suc, ◌+◌, ◌-◌, ◌==◌, Bool, true, false, Option, none, some, List, [], ◌∷◌, ◌++◌, map,
  length, ltb, get_elem?, if◌then◌else◌,
}
use ella.Shape.{ShapeIndexIter, new_iter, len, stride_offset}
use ella.Shape
use ella.Shape.Axis.{Axis, pos, abs_index, remove_axis, insert_axis, insert_index}
use ella.Tensor.View.{Tensor, value_unchecked, index_tensor, nth, set}
use ella.Tensor.Iter.{items, all_read, from_items, eq_shape}

-- The error variants that the two return.
pub data CombineError : Type 0 where
  empty_list : CombineError
  axis_out_of_bounds : Axis → ℕ → CombineError
  incompatible : List ℕ → CombineError

pub data Combined (A : Type 0) : Type 0 where
  combined : Tensor A → Combined A
  refused : CombineError → Combined A
  panics : Combined A

-- What `binary_search` answers.
pub data Found : Type 0 where
  found missing : ℕ → Found

abbrev pub moved_on : Found → Found
moved_on (found k) = found (suc k)
moved_on (missing k) = missing (suc k)

-- `binary_search`, whose answer on a list that rises strictly is that of a search from the front.
unfoldable pub search : List ℕ → ℕ → Found
search [] x = missing 0
search (s ∷ ss) x =
    let rest = search ss x in
    if ltb s x then moved_on rest else if s == x then found 0 else missing 0

-- The sums that `CombineConcat::new` scans, from a start on.
unfoldable pub scan_sizes : ℕ → List ℕ → List ℕ
scan_sizes n [] = []
scan_sizes n (l ∷ ls) = (n + l) ∷ scan_sizes (n + l) ls

abbrev pub place_of : Found → ℕ
place_of (found k) = k + 1
place_of (missing k) = k

-- What `map_axis` subtracts.
abbrev pub start_of : List ℕ → ℕ → ℕ
start_of sizes zero = 0
start_of sizes (suc k) = nth k sizes

-- `CombineConcat::map_axis`: the tensor, and the index that is left
unfoldable pub map_axis : List ℕ → ℕ → ℕ × ℕ
unfolding search nth
map_axis sizes idx = let tidx = place_of (search sizes idx) in (tidx, idx - start_of sizes tidx)

-- The length of the axis of a concatenation.
abbrev pub total : List ℕ → ℕ
total [] = 0
total (l ∷ ls) = l + total ls

module _ {A : Type 0} where
  -- The tensors' lengths on an axis.
  abbrev pub axis_lengths : ℕ → List (Tensor A) → List ℕ
  axis_lengths ax = map (λ t. nth ax t.shape)

  -- `CombineConcat::next` at an index
  unfoldable pub concat_at : List (Tensor A) → List ℕ → ℕ → List ℕ → Option A
  unfolding map_axis nth set index_tensor
  concat_at tensors sizes ax idx =
      let p = map_axis sizes (nth ax idx) in
      elim (get_elem? tensors p.0) [ none ↦ none | some t ↦ index_tensor t (set ax p.1 idx) ]

  -- `CombineStack::next` at an index
  unfoldable pub stack_at : List (Tensor A) → ℕ → List ℕ → Option A
  unfolding nth remove_axis stride_offset value_unchecked
  stack_at tensors ax idx = elim (get_elem? tensors (nth ax idx)) [
    | none ↦ none
    | some t ↦ elim (remove_axis idx (pos ax)) [
      | none ↦ none
      | some i ↦ value_unchecked t.values (stride_offset i t.strides)
    ]
  ]

  -- The items of an iterator over the indices.
  unfoldable pub take_combined : ℕ → (List ℕ → Option A) → ShapeIndexIter → List (Option A)
  unfolding Shape.next
  take_combined zero at it = []
  take_combined (suc n) at it = elim (Shape.next it) [
    | none ↦ []
    | some r ↦ at r.0 ∷ take_combined n at r.1
  ]

  abbrev pub flat_items : List (Tensor A) → List (Option A)
  flat_items [] = []
  flat_items (t ∷ ts) = items t ++ flat_items ts

  unfoldable pub combine_items :
      ℕ → List ℕ → (List ℕ → Option A) → List (Tensor A) → List (Option A)
  unfolding take_combined new_iter len items
  combine_items zero shape at tensors = flat_items tensors
  combine_items (suc ax) shape at tensors = take_combined (len (new_iter shape)) at (new_iter shape)

  abbrev pub finish : List ℕ → Option (List A) → Combined A
  finish shape none = panics
  finish shape (some xs) = combined (from_items shape xs)

  -- `any` over the tensors, with the panics of `remove_axis`
  unfoldable pub differs : Axis → List ℕ → List (Tensor A) → Option Bool
  unfolding remove_axis eq_shape
  differs axis common [] = some false
  differs axis common (t ∷ ts) =
      let rest = differs axis common ts in
      elim (remove_axis t.shape axis) [
        | none ↦ none
        | some s ↦ if eq_shape s common then rest else some true
      ]

  unfoldable pub concat_on : Axis → ℕ → List ℕ → List (Tensor A) → Combined A
  unfolding differs remove_axis combine_items concat_at scan_sizes set all_read from_items
  concat_on axis ax first tensors = elim (remove_axis first axis) [
    | none ↦ panics
    | some common ↦ elim (differs axis common tensors) [
      | none ↦ panics
      | some b ↦ elim b [
        | true ↦ refused (incompatible common)
        | false ↦
            let lengths = axis_lengths ax tensors in
            let shape = set ax (total lengths) first in
            finish shape (
              all_read
                (combine_items ax shape (concat_at tensors (scan_sizes 0 lengths) ax) tensors))
      ]
    ]
  ]

  -- `Tensor::concat`
  unfoldable pub concat : Axis → List (Tensor A) → Combined A
  unfolding concat_on abs_index
  concat axis [] = refused empty_list
  concat axis (t ∷ ts) = elim (abs_index axis (length t.shape)) [
    | none ↦ panics
    | some ax ↦
        if ltb ax (length t.shape)
        then concat_on axis ax t.shape (t ∷ ts)
        else refused (axis_out_of_bounds axis (length t.shape))
  ]

  unfoldable pub any_other : List ℕ → List (Tensor A) → Bool
  unfolding eq_shape
  any_other common [] = false
  any_other common (t ∷ ts) =
      let rest = any_other common ts in if eq_shape t.shape common then rest else true

  unfoldable pub stack_on : ℕ → List ℕ → List ℕ → List (Tensor A) → Combined A
  unfolding any_other combine_items stack_at set all_read from_items
  stack_on ax common inserted tensors =
      if any_other common tensors
      then refused (incompatible common)
      else let shape = set ax (length tensors) inserted in
        finish shape (all_read (combine_items ax shape (stack_at tensors ax) tensors))

  -- `Tensor::stack`
  unfoldable pub stack : Axis → List (Tensor A) → Combined A
  unfolding stack_on insert_index insert_axis
  stack axis [] = refused empty_list
  stack axis (t ∷ ts) = elim (insert_index axis (length t.shape)) [
    | none ↦ panics
    | some ax ↦
        if ltb (length t.shape) ax
        then refused (axis_out_of_bounds axis (length t.shape))
        else elim (insert_axis t.shape axis) [
          | none ↦ panics
          | some inserted ↦ stack_on ax t.shape inserted (t ∷ ts)
        ]
  ]
