-- ===== src/Tensor/Mask/Window.antt =====
-- The number of masked places that a window of a validity buffer keeps (ella-tensor/src/mask/data.rs),
-- against a scan of the window.
use mathlib.Core.Option.{some-injective}
use ella.Prelude.{
  ℕ, zero, suc, ◌+◌, ◌-◌, ◌*◌, ◌≤◌, ◌<◌, ◌≡◌, refl, ap, ◌∙◌, true, Option, none, some, arith, ltb,
  leb, ltb→lt, inl, inr, Bool-cases,
}
use ella.Shape.Axis.{Axis, pos, negsuc}
use ella.Tensor.Mask.{
  count, NullBuffers, MaskData, moved, new, is_valid, slice, slice_exact, recount_start,
  recount_end, offset_by, unmasked,
}
use ella.Tensor.Mask.Count.{count-split, count_masked-count}

module _ (N : NullBuffers) where
  abbrev IsCounted : Option N.Buffer → ℕ → ℕ → ℕ → Type 0
  IsCounted none offset len n = n ≡ 0
  IsCounted (some b) offset len n = (offset + len ≤ N.len b) × (n ≡ count (N.is_valid b) offset len)

  -- The window lies in its buffer, and its number of masked places is what a scan counts.
  abbrev pub IsWindow : MaskData N → Type 0
  IsWindow m = IsCounted m.values m.offset m.len m.num_masked

  abbrev Fits : Option N.Buffer → ℕ → Type 0
  Fits none end = Unit
  Fits (some b) end = end ≤ N.len b

  -- A window that lies in its buffer is counted right when it is made.
  pub new-IsWindow :
      (values : Option N.Buffer) (offset len : ℕ)
      → Fits values (offset + len)
      → IsWindow (new N values offset len)
  unfolding new
  new-IsWindow none offset len h = refl
  new-IsWindow (some b) offset len h =
      let e : (offset + len) - offset ≡ len = omega arith in
      (
        h,
        count_masked-count N b offset (offset + len) (omega arith) h
            ∙ ap (λ n. count (N.is_valid b) offset n) e,
      )

  module _ (b : N.Buffer) (offset len : ℕ) (h : offset + len ≤ N.len b) where
    whole : count (N.is_valid b) offset len ≡ count (N.is_valid b) offset (offset + len - offset)
    whole =
        let e : len ≡ offset + len - offset = omega arith in
        ap (λ n. count (N.is_valid b) offset n) e

    backward : (j n : ℕ) → moved offset (negsuc j) ≡ some n → n ≤ offset
    backward j n e = ground arith

    -- The first match leaves the count from the new start to the old end.
    recount_start_lem :
        (o : Axis) (n : ℕ)
        → moved offset o ≡ some n
        → n ≤ offset + len
        → recount_start N b offset o n (count (N.is_valid b) offset len)
          ≡ count (N.is_valid b) n (offset + len - n)
    unfolding recount_start
    recount_start_lem (pos zero) n e k =
        let q : offset ≡ n = omega (arith, some-injective (offset + 0) n e) in
        whole ∙ ap (λ s. count (N.is_valid b) s (offset + len - s)) q
    recount_start_lem (pos (suc j)) n e k =
        let q : offset + suc j ≡ n = some-injective (offset + suc j) n e in
        omega (
          arith,
          q,
          whole,
          count_masked-count N b offset n (omega (arith, q)) (omega (arith, h, k)),
          count-split (N.is_valid b) offset n (offset + len) (omega (arith, q)) k,
        )
    recount_start_lem (negsuc j) n e k = omega (
      arith,
      whole,
      count_masked-count N b n offset (backward j n e) (omega (arith, h)),
      count-split (N.is_valid b) n offset (offset + len) (backward j n e) (omega arith),
    )

    module _ (n length : ℕ) (k : n ≤ offset + len) (l : n + length ≤ N.len b) where
      new_whole : count (N.is_valid b) n (n + length - n) ≡ count (N.is_valid b) n length
      new_whole =
          let e : n + length - n ≡ length = omega arith in ap (λ i. count (N.is_valid b) n i) e

      -- What the window gives up behind it.
      abbrev lost : ℕ
      lost = count (N.is_valid b) (n + length) (offset + len - (n + length))

      lost_none : offset + len ≤ n + length → lost ≡ 0
      unfolding count
      lost_none g =
          let e : offset + len - (n + length) ≡ 0 = omega (arith, g) in
          ap (λ i. count (N.is_valid b) (n + length) i) e

      -- The second match is right where the window does not end before the old one; where it does, it
      -- counts the masked places that are given up twice too often.
      recount_end_lem :
          recount_end N b (offset + len) (n + length) (count (N.is_valid b) n (offset + len - n))
          ≡ count (N.is_valid b) n length + 2 * lost
      unfolding recount_end
      recount_end_lem = elim (Bool-cases (ltb (offset + len) (n + length))) [
        | inl e ↦
            let g = ltb→lt (offset + len) (n + length) e in
            rw e (
              omega (
                arith,
                new_whole,
                lost_none (omega (arith, g)),
                count_masked-count N b (offset + len) (n + length) (omega (arith, g)) l,
                count-split (N.is_valid b) n (offset + len) (n + length) k (omega (arith, g)),
              ))
        | inr e ↦ elim (Bool-cases (ltb (n + length) (offset + len))) [
          | inl f ↦
              let g = ltb→lt (n + length) (offset + len) f in
              rw (e, f)
                (omega (
                  arith,
                  new_whole,
                  count_masked-count N b (n + length) (offset + len) (omega (arith, g)) h,
                  count-split (N.is_valid b) n (n + length) (offset + len) (omega arith)
                      (omega (arith, g)),
                ))
          | inr f ↦
              let same : offset + len ≡ n + length = ground arith in
              rw (e, f)
                (omega (
                  arith,
                  new_whole,
                  lost_none (omega (arith, same)),
                  ap (λ i. count (N.is_valid b) n (i - n)) same,
                ))
        ]
      ]

  abbrev window : N.Buffer → ℕ → ℕ → ℕ → MaskData N
  window b offset len num_masked = record {
    values = some b;
    offset = offset;
    len = len;
    num_masked = num_masked;
  }

  -- A slice of a window that is counted right, which begins no later than the window ends and lies in
  -- the buffer, does not panic; its number of masked places is that of a scan, and where it ends before
  -- the window does, twice the number of masked places between the two ends on top.
  pub slice-count :
      (b : N.Buffer) (offset len num_masked n length : ℕ) (o : Axis)
      → IsWindow (window b offset len num_masked)
      → moved offset o ≡ some n
      → n ≤ offset + len
      → n + length ≤ N.len b
      → slice N (window b offset len num_masked) o length
        ≡ some (
            window b n length (
              count (N.is_valid b) n length
              + 2 * count (N.is_valid b) (n + length) (offset + len - (n + length))))
  unfolding slice
  slice-count b offset len num_masked n length o w f k l =
      let fits : leb (length + n) (N.len b) ≡ true = ground (arith, l) in
      rw (f, slice, fits)
        (ap (λ c. some (window b n length c))
          (ap (λ c. recount_end N b (offset + len) (n + length) (recount_start N b offset o n c))
              w.1
            ∙ ap (λ c. recount_end N b (offset + len) (n + length) c)
                (recount_start_lem b offset len w.0 o n f k)
            ∙ recount_end_lem b offset len w.0 n length k l))

  offset-IsWindow :
      (values : Option N.Buffer) (offset len num_masked k : ℕ)
      → IsCounted values offset len num_masked
      → k ≤ len
      → let m : MaskData N = record {
        values = values;
        offset = offset;
        len = len;
        num_masked = num_masked;
      } in
        (r : MaskData N) × (offset_by N m k ≡ some r) × IsWindow r
  unfolding offset_by slice unmasked
  offset-IsWindow none offset len num_masked k w h = (unmasked N (len - k), refl, refl)
  offset-IsWindow (some b) offset len num_masked k w h =
      let fits : (offset + k) + (len - k) ≤ N.len b = omega (arith, h, w.0) in
      let ends : offset + len ≤ (offset + k) + (len - k) = omega (arith, h) in
      let none_lost =
        lost_none b offset len w.0 (offset + k) (len - k) (omega (arith, h)) fits ends in
      (
        _,
        slice-count b offset len num_masked (offset + k) (len - k) (pos k) w refl (omega (arith, h))
            fits,
        (fits, omega (arith, none_lost)),
      )

  -- Moving the start of a window that is counted right forward, by no more places than it has, does not
  -- panic and gives a window that lies in the buffer and is counted right.
  pub offset_by-IsWindow :
      (m : MaskData N) (k : ℕ)
      → IsWindow m
      → k ≤ m.len
      → (r : MaskData N) × (offset_by N m k ≡ some r) × IsWindow r
  offset_by-IsWindow m k w h = offset-IsWindow m.values m.offset m.len m.num_masked k w h

  -- An exact slice that lies in the buffer does not panic; its bit at a place that, moved by the slice's
  -- offset, is still below the slice's length is that of the buffer at the place moved by the offset
  -- twice.
  pub slice_exact-is_valid :
      (b : N.Buffer) (offset len num_masked n length i : ℕ) (o : Axis)
      → moved offset o ≡ some n
      → n + length ≤ N.len b
      → i + n < length
      → (r : MaskData N) × (slice_exact N (window b offset len num_masked) o length ≡ some r)
        × (is_valid N r i ≡ N.is_valid b (n + (i + n)))
  unfolding slice_exact is_valid
  slice_exact-is_valid b offset len num_masked n length i o f l h =
      let fits : leb (length + n) (N.len b) ≡ true = ground (arith, l) in
      (
        record {
          values = some (N.slice b n length);
          offset = n;
          len = length;
          num_masked = N.null_count (N.slice b n length);
        },
        rw (f, slice_exact, fits) refl,
        N.is_valid-slice b n length (i + n) l h,
      )
