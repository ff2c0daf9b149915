-- ===== src/Examples/Tensors.antt =====
-- Masks over a buffer of bits in memory, and slices of one axis, at concrete inputs.
use ella.Prelude.{ℕ, zero, suc, ◌+◌, ◌*◌, ◌≡◌, refl, Bool, true, false, some, arith}
use ella.Shape.Axis.{pos, negsuc}
use ella.Tensor.Mask.{NullBuffers, MaskData, count, slice}
use ella.Tensor.Mask.Window.{IsWindow, slice-count}
use ella.Tensor.Mask.Iter.{collect, iter, bits, collect-iter}
use ella.Tensor.Slice.{Slice, do_slice, to_abs_slice}

-- A buffer: its bits as a function, and how many it has.
abbrev buffers : NullBuffers
buffers = record {
  Buffer = (ℕ → Bool) × ℕ;
  len = λ b. b.1;
  is_valid = λ b. b.0;
  null_count = λ b. count b.0 0 b.1;
  slice = λ b o n. ((λ i. b.0 (o + i)), n);
  null_count-count = λ b. refl;
  len-slice = λ b o n h. refl;
  is_valid-slice = λ b o n i h k. refl;
}

abbrev even_bits : ℕ → Bool
even_bits zero = true
even_bits (suc zero) = false
even_bits (suc (suc n)) = even_bits n

abbrev buffer : (ℕ → Bool) × ℕ
buffer = (even_bits, 6)

abbrev mask : MaskData buffers
mask = record { values = some buffer; offset = 1; len = 4; num_masked = 2 }

mask-IsWindow : IsWindow buffers mask
unfolding count
mask-IsWindow = (omega arith, refl)

slice-count_example :
    slice buffers mask (pos 1) 2
    ≡ some (record {
      values = some buffer;
      offset = 2;
      len = 2;
      num_masked = count even_bits 2 2 + 2 * count even_bits 4 1;
    })
slice-count_example =
    slice-count buffers buffer 1 4 2 2 2 (pos 1) mask-IsWindow refl (omega arith) (omega arith)

collect-iter_example : collect buffers 5 (iter buffers mask) ≡ bits buffers mask 0 4
collect-iter_example = collect-iter buffers mask 5 mask-IsWindow (omega arith)

-- `1..-1` with step 2, of six elements that are three places apart
abbrev every_second : Slice
every_second = record { start = pos 1; end = some (negsuc 0); step = pos 2 }

sliced : do_slice 6 3 every_second ≡ some (3, 2, 6)
unfolding do_slice
sliced = refl

resolved : to_abs_slice 6 every_second ≡ some (1, 5, pos 2)
unfolding to_abs_slice
resolved = refl
