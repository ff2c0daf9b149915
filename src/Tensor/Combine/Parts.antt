-- ===== src/Tensor/Combine/Parts.antt =====
-- Where a concatenation finds its elements (`CombineConcat` of ella-tensor/src/ops/combine.rs).
use ella.Prelude.{
  ℕ, zero, suc, ◌+◌, ◌==◌, ◌≤◌, ◌<◌, ◌≡◌, refl, sym, arith, ==_iff, ltb→lt, Bool-cases, inl, inr,
  some, List, [], ◌∷◌, All, get_elem?, take, ltb,
}
use ella.Tensor.View.{nth}
use ella.Tensor.Combine.{
  Found, found, missing, moved_on, search, scan_sizes, place_of, start_of, map_axis, total,
}

place-moved_on : (f : Found) → place_of (moved_on f) ≡ suc (place_of f)
place-moved_on (found k) = omega arith
place-moved_on (missing k) = refl

-- The part that an index falls in: its length, and the bounds of the index.
IsPart : ℕ → List ℕ → ℕ → ℕ → Type 0
IsPart from ls idx k =
    (n : ℕ) × (get_elem? ls k ≡ some n)
    × (from + total (take k ls) ≤ idx)
    × (idx < from + total (take k ls) + n)

next-IsPart :
    (from n idx : ℕ) (ns : List ℕ)
    → All (λ n. 0 < n) ns
    → idx ≡ from + n
    → idx < from + total (n ∷ ns)
    → IsPart from (n ∷ ns) idx 1
unfolding IsPart
next-IsPart from n idx [] h e r = absurd (omega (arith, e, r))
next-IsPart from n idx (m ∷ ms) h e r = (m, refl, omega (arith, e), omega (arith, e, h.0))

search-IsPart :
    (from : ℕ) (ls : List ℕ) (idx : ℕ)
    → All (λ n. 0 < n) ls
    → from ≤ idx
    → idx < from + total ls
    → IsPart from ls idx (place_of (search (scan_sizes from ls) idx))
unfolding search scan_sizes IsPart
search-IsPart from [] idx h l r = absurd (omega (arith, l, r))
search-IsPart from (n ∷ ns) idx h l r =
    let s = from + n in
    elim (Bool-cases (ltb s idx)) [
      | inl q ↦
          let (m, e, a, b) =
            search-IsPart s ns idx h.1 (omega (arith, ltb→lt s idx q)) (omega (arith, r)) in
          rw (q, place-moved_on (search (scan_sizes s ns) idx))
            (m, e, omega (arith, a), omega (arith, b))
      | inr q ↦ elim (Bool-cases (s == idx)) [
        | inl z ↦ rw (q, z) (next-IsPart from n idx ns h.1 (sym ((==_iff s idx).0 z)) r)
        | inr z ↦ rw (q, z) (n, refl, omega (arith, l), ground (arith, q, z))
      ]
    ]

nth-scan_sizes :
    (from : ℕ) (ls : List ℕ) (k n : ℕ)
    → get_elem? ls (suc k) ≡ some n
    → nth k (scan_sizes from ls) ≡ from + total (take (suc k) ls)
unfolding nth scan_sizes
nth-scan_sizes from [] k n e = cc
nth-scan_sizes from (l ∷ ls) zero n e = omega arith
nth-scan_sizes from (l ∷ ls) (suc k) n e = omega (arith, nth-scan_sizes (from + l) ls k n e)

start-scan_sizes :
    (ls : List ℕ) (k n : ℕ)
    → get_elem? ls k ≡ some n
    → start_of (scan_sizes 0 ls) k ≡ total (take k ls)
start-scan_sizes ls zero n e = refl
start-scan_sizes ls (suc k) n e = omega (arith, nth-scan_sizes 0 ls k n e)

-- Where every tensor has a positive length on the axis of a concatenation, an index below the sum of
-- the lengths is taken to the tensor whose part it falls in, and to the index less the lengths of the
-- tensors before, which is below the length of that tensor.
pub map_axis-part :
    (lengths : List ℕ) (idx : ℕ)
    → All (λ n. 0 < n) lengths
    → idx < total lengths
    → (n : ℕ) × (get_elem? lengths (map_axis (scan_sizes 0 lengths) idx).0 ≡ some n)
      × ((map_axis (scan_sizes 0 lengths) idx).1 < n)
      × (total (take (map_axis (scan_sizes 0 lengths) idx).0 lengths)
            + (map_axis (scan_sizes 0 lengths) idx).1
          ≡ idx)
unfolding map_axis IsPart
map_axis-part lengths idx h l =
    let k = place_of (search (scan_sizes 0 lengths) idx) in
    let (n, e, a, b) = search-IsPart 0 lengths idx h (omega arith) (omega (arith, l)) in
    let s = start-scan_sizes lengths k n e in (n, e, omega (arith, s, a, b), omega (arith, s, a, b))
