-- ===== src/Tensor/Mask/Count.antt =====
-- Counting the masked places of a buffer (`count_masked` of ella-tensor/src/mask/data.rs) against one
-- scan.
use ella.Prelude.{ℕ, zero, suc, ◌+◌, ◌-◌, ◌≤◌, ◌≡◌, ap, ◌∙◌, Bool, arith}
use ella.Tensor.Mask.{count, NullBuffers, count_masked}

plus_zero : (s : ℕ) → s ≡ s + 0
plus_zero s = omega arith

zero_plus : (n : ℕ) → 0 + n ≡ n
zero_plus n = omega arith

suc_right : (s m : ℕ) → s + suc m ≡ suc s + m
suc_right s m = omega arith

-- Two adjacent ranges.
pub count-add : (v : ℕ → Bool) (s m n : ℕ) → count v s (m + n) ≡ count v s m + count v (s + m) n
unfolding count
count-add v s zero n =
    let e : count v s (0 + n) ≡ count v s n = ap (λ t. count v s t) (zero_plus n) in
    let f : count v s n ≡ count v (s + 0) n = ap (λ t. count v t n) (plus_zero s) in
    omega (arith, e, f)
count-add v s (suc m) n =
    let step : suc m + n ≡ suc (m + n) = omega arith in
    let e : count v s (suc m + n) ≡ count v s (suc (m + n)) = ap (λ t. count v s t) step in
    let f : count v (s + suc m) n ≡ count v (suc s + m) n = ap (λ t. count v t n) (suc_right s m) in
    ground (arith, e, f, count-add v (suc s) m n)

-- A range that is cut in two.
pub count-split :
    (v : ℕ → Bool) (s e t : ℕ)
    → s ≤ e
    → e ≤ t
    → count v s (t - s) ≡ count v s (e - s) + count v e (t - e)
count-split v s e t h k =
    let parts : t - s ≡ (e - s) + (t - e) = omega (arith, h, k) in
    let middle : s + (e - s) ≡ e = omega (arith, h) in
    ap (λ n. count v s n) parts
    ∙ count-add v s (e - s) (t - e)
    ∙ ap (λ n. count v s (e - s) + count v n (t - e)) middle

pub count-le : (v : ℕ → Bool) (s n : ℕ) → count v s n ≤ n
unfolding count
count-le v s zero = omega arith
count-le v s (suc n) = ground (arith, count-le v (suc s) n)

module _ (N : NullBuffers) (b : N.Buffer) (start end : ℕ) (h : start ≤ end)
    (k : end ≤ N.len b) where
  whole :
      count (N.is_valid b) 0 (N.len b)
      ≡ count (N.is_valid b) 0 start
        + (count (N.is_valid b) start (end - start) + count (N.is_valid b) end (N.len b - end))
  whole =
      let v = N.is_valid b in
      let e : N.len b - 0 ≡ N.len b = omega arith in
      let f : start - 0 ≡ start = omega arith in
      let first =
        rw (e, f) at (count-split v 0 start (N.len b) (omega arith) (omega (arith, h, k))) in
      omega (arith, first, count-split v start end (N.len b) h k)

  -- The shortcuts of `count_masked` give what the scan of the range gives.
  pub count_masked-count : count_masked N b start end ≡ count (N.is_valid b) start (end - start)
  unfolding count_masked
  count_masked-count = ground (
    arith,
    h,
    k,
    whole,
    N.null_count-count b,
    count-le (N.is_valid b) 0 start,
    count-le (N.is_valid b) start (end - start),
    count-le (N.is_valid b) end (N.len b - end),
  )
