-- ===== src/Tensor/Mask/Iter.antt =====
-- `ValidityIter` of ella-tensor/src/mask/iter.rs: the bits of a window one by one.
use ella.Prelude.{
  ℕ, zero, suc, ◌+◌, ◌-◌, ◌≤◌, ◌≡◌, refl, ap, sym, ◌∙◌, Bool, true, false, Option, none, some, List,
  [], ◌∷◌, arith, ◌==◌, ltb, if◌then◌else◌, inl, inr, Bool-cases,
}
use ella.Tensor.Mask.{count, NullBuffers, MaskData, is_valid, num_valid}
use ella.Tensor.Mask.Count.{count-le}
use ella.Tensor.Mask.Window.{IsWindow}

pub data ValidityIter (N : NullBuffers) : Type 0 where
  constant : ℕ → Bool → ValidityIter N
  values : MaskData N → ℕ → ValidityIter N

module _ (N : NullBuffers) where
  -- `ValidityIter::new`, with `as_constant`
  unfoldable pub iter : MaskData N → ValidityIter N
  unfolding num_valid
  iter m =
      if m.num_masked == 0
      then constant m.len true
      else if num_valid N m == 0
      then constant m.len false
      else values m 0

  -- `next`: the bit and the iterator after it
  unfoldable pub next : ValidityIter N → Option (Bool × ValidityIter N)
  unfolding is_valid
  next (constant zero v) = none
  next (constant (suc n) v) = some (v, constant n v)
  next (values m i) = if ltb i m.len then some (is_valid N m i, values m (suc i)) else none

  -- `ExactSizeIterator::len`
  unfoldable pub remaining : ValidityIter N → ℕ
  remaining (constant n v) = n
  remaining (values m i) = m.len - i

  -- Calling `next` until it gives nothing, at most as often as the fuel says.
  unfoldable pub collect : ℕ → ValidityIter N → List Bool
  unfolding next
  collect zero it = []
  collect (suc fuel) it = elim (next it) [ none ↦ [] | some e ↦ e.0 ∷ collect fuel e.1 ]

  -- The bits of the window from a place on.
  abbrev pub bits : MaskData N → ℕ → ℕ → List Bool
  bits m i zero = []
  bits m i (suc n) = is_valid N m i ∷ bits m (suc i) n

abbrev repeat : ℕ → Bool → List Bool
repeat zero v = []
repeat (suc n) v = v ∷ repeat n v

module _ (N : NullBuffers) where
  collect-constant : (fuel n : ℕ) (v : Bool) → n ≤ fuel → collect N fuel (constant n v) ≡ repeat n v
  unfolding collect next
  collect-constant zero zero v h = refl
  collect-constant zero (suc n) v h = absurd (omega (arith, h))
  collect-constant (suc fuel) zero v h = refl
  collect-constant (suc fuel) (suc n) v h =
      ap (λ bs. v ∷ bs) (collect-constant fuel n v (omega (arith, h)))

  collect-values :
      (m : MaskData N) (fuel i n : ℕ)
      → i + n ≡ m.len
      → n ≤ fuel
      → collect N fuel (values m i) ≡ bits N m i n
  unfolding collect next
  collect-values m zero i zero e h = refl
  collect-values m zero i (suc n) e h = absurd (omega (arith, h))
  collect-values m (suc fuel) i zero e h =
      let over : ltb i m.len ≡ false = ground (arith, e) in rw (over, collect, next) refl
  collect-values m (suc fuel) i (suc n) e h =
      let inside : ltb i m.len ≡ true = ground (arith, e) in
      rw (inside, collect, next)
        (ap (λ bs. is_valid N m i ∷ bs)
          (collect-values m fuel (suc i) n (omega (arith, e)) (omega (arith, h))))

  shifted :
      (b : N.Buffer) (o i n : ℕ)
      → count (N.is_valid b) (suc i + o) n ≡ count (N.is_valid b) (suc (i + o)) n
  shifted b o i n =
      let e : suc i + o ≡ suc (i + o) = omega arith in ap (λ s. count (N.is_valid b) s n) e

  from_zero : (b : N.Buffer) (o n : ℕ) → count (N.is_valid b) (0 + o) n ≡ count (N.is_valid b) o n
  from_zero b o n = let e : 0 + o ≡ o = omega arith in ap (λ s. count (N.is_valid b) s n) e

  bits-true :
      (b : N.Buffer) (o l k i n : ℕ)
      → count (N.is_valid b) (i + o) n ≡ 0
      → bits N (record { values = some b; offset = o; len = l; num_masked = k }) i n ≡ repeat n true
  unfolding count is_valid
  bits-true b o l k i zero h = refl
  bits-true b o l k i (suc n) h = elim (Bool-cases (N.is_valid b (i + o))) [
    | inl e ↦
        rw e (ap (λ bs. true ∷ bs) (bits-true b o l k (suc i) n (shifted b o i n ∙ (rw e at h))))
    | inr e ↦ absurd (omega (arith, rw e at h))
  ]

  bits-false :
      (b : N.Buffer) (o l k i n : ℕ)
      → count (N.is_valid b) (i + o) n ≡ n
      → bits N (record { values = some b; offset = o; len = l; num_masked = k }) i n
        ≡ repeat n false
  unfolding count is_valid
  bits-false b o l k i zero h = refl
  bits-false b o l k i (suc n) h = elim (Bool-cases (N.is_valid b (i + o))) [
    | inl e ↦ absurd (omega (arith, rw e at h, count-le (N.is_valid b) (suc (i + o)) n))
    | inr e ↦
        let rest : count (N.is_valid b) (suc (i + o)) n ≡ n = omega (arith, rw e at h) in
        rw e (ap (λ bs. false ∷ bs) (bits-false b o l k (suc i) n (shifted b o i n ∙ rest)))
  ]

  bits-none :
      (o l k i n : ℕ)
      → bits N (record { values = none; offset = o; len = l; num_masked = k }) i n ≡ repeat n true
  unfolding is_valid
  bits-none o l k i zero = refl
  bits-none o l k i (suc n) = ap (λ bs. true ∷ bs) (bits-none o l k (suc i) n)

  module _ (fuel : ℕ) (o l k : ℕ) (h : l ≤ fuel) where
    collect-iter_cases :
        (v : Option N.Buffer)
        → let m : MaskData N = record { values = v; offset = o; len = l; num_masked = k } in
          IsWindow N m → collect N fuel (iter N m) ≡ bits N m 0 l
    unfolding iter num_valid
    collect-iter_cases none w =
        let all_valid : (k == 0) ≡ true = ground (arith, w) in
        rw (iter, all_valid) (collect-constant fuel l true h ∙ sym (bits-none o l k 0 l))
    collect-iter_cases (some b) w =
        let start : count (N.is_valid b) (0 + o) l ≡ k = from_zero b o l ∙ sym w.1 in
        elim (Bool-cases (k == 0)) [
          | inl e ↦
              rw (iter, e)
                (collect-constant fuel l true h
                  ∙ sym (bits-true b o l k 0 l (start ∙ ground (arith, e))))
          | inr e ↦ elim (Bool-cases (l - k == 0)) [
            | inl f ↦
                let full : k ≡ l = ground (arith, f, w.1, count-le (N.is_valid b) o l) in
                rw (iter, num_valid, e, f)
                  (collect-constant fuel l false h ∙ sym (bits-false b o l k 0 l (start ∙ full)))
            | inr f ↦ rw (iter, num_valid, e, f) (collect-values _ fuel 0 l (omega arith) h)
          ]
        ]

  -- The iterator of a window that is counted right ends: with fuel for as many calls as the window has
  -- places, or for more, it gives the window's bits in their order, each once, and then nothing.
  pub collect-iter :
      (m : MaskData N) (fuel : ℕ)
      → IsWindow N m
      → m.len ≤ fuel
      → collect N fuel (iter N m) ≡ bits N m 0 m.len
  collect-iter m fuel w h = collect-iter_cases fuel m.offset m.len m.num_masked h m.values w
