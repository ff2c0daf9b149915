-- ===== src/Tensor/Slice/Elements.antt =====
-- Which elements of an axis a slice of ella-tensor/src/slice.rs has.
use mathlib.Core.Option.{some-injective}
use mathlib.Core.Path.{subst}
use native.Mathlib.Nat.{
  mul-le-mul_right, mul-one, suc-mul, zero-mul, add-mul, mul_comm, mul_assoc, div-add-mod, mod-lt,
  add-mul,
}
use ella.Prelude.{
  ℕ, zero, suc, ◌+◌, ◌-◌, ◌*◌, ◌/◌, ◌%◌, ◌^◌, ◌≤◌, ◌<◌, ◌≡◌, ap, sym, ◌∙◌, ◌↔◌, inl, inr, arith,
  ltb, leb, ◌==◌, if◌then◌else◌, Bool-cases, false, Option, none, some, Option-cases, leb→le,
}
use ella.Shape.Axis.{Axis, pos, negsuc}
use ella.Tensor.Slice.{
  Slice, to_abs_slice, sliced_len, first, do_slice, unsigned_abs, wrapped, checked, clamped,
}

-- The division that rounds up counts the multiples below a number.
ceil_lem :
    (m k q r j : ℕ) → k * q + r ≡ m → r < k → (j < q + (if ltb 0 r then 1 else 0)) ↔ (j * k < m)
ceil_lem m k q r j e h =
    let below : suc j ≤ q → j * k + k ≤ k * q =
      λ l. omega (arith, mul-le-mul_right k l, suc-mul j k, mul_comm q k) in
    let above : suc q ≤ j → k * q + k ≤ j * k =
      λ l. omega (arith, mul-le-mul_right k l, suc-mul q k, mul_comm q k) in
    let at_end : j ≡ q → j * k ≡ k * q = λ l. ap (λ i. i * k) l ∙ mul_comm q k in
    ground (arith, e, h, below, above, at_end)

pub sliced_len_lem : (m k j : ℕ) → 0 < k → (j < sliced_len m k) ↔ (j * k < m)
unfolding sliced_len
sliced_len_lem m k j h = elim (Bool-cases (k == 1)) [
  | inl e ↦ rw e (
      let one : j * k ≡ j = ap (λ i. j * i) (ground arith) ∙ mul-one j in
      (λ l. omega (arith, one), λ l. omega (arith, one)))
  | inr e ↦ rw e (ceil_lem m k (m / k) (m % k) j (div-add-mod m k) (mod-lt m h))
]

-- The position among the elements of the axis of an element of the slice.
abbrev pub index : ℕ → ℕ → Axis → ℕ → ℕ
index start end (pos k) j = start + j * k
index start end (negsuc k) j = end - 1 - j * suc k

-- What the assertions leave: the range lies in the axis, and the step is not zero.
abbrev pub IsAbsolute : ℕ → ℕ × ℕ × Axis → Type 0
IsAbsolute n p = (p.0 ≤ p.1) × (p.1 ≤ n) × (0 < unsigned_abs p.2)

checked-IsAbsolute :
    (n start end : ℕ) (step : Axis) (p : ℕ × ℕ × Axis)
    → start ≤ end
    → checked n start end step ≡ some p
    → IsAbsolute n p
checked-IsAbsolute n start end step p h e = elim (Bool-cases (leb start n)) [
  | inr a ↦ cc (rw a at e)
  | inl a ↦ elim (Bool-cases (leb end n)) [
    | inr b ↦ cc (rw (a, b) at e)
    | inl b ↦ elim (Bool-cases (unsigned_abs step == 0)) [
      | inl c ↦ cc (rw (a, b, c) at e)
      | inr c ↦
          subst (IsAbsolute n) (some-injective (start, end, step) p (rw (a, b, c) at e))
            (h, leb→le end n b, ground (arith, c))
    ]
  ]
]

clamped-IsAbsolute :
    (n : ℕ) (start end : Option ℕ) (step : Axis) (p : ℕ × ℕ × Axis)
    → clamped n start end step ≡ some p
    → IsAbsolute n p
clamped-IsAbsolute n none end step p e = cc
clamped-IsAbsolute n (some a) none step p e = cc
clamped-IsAbsolute n (some a) (some b) step p e =
    checked-IsAbsolute n a (if ltb b a then a else b) step p (ground arith) e

-- The elements of a slice lie in the axis, whatever the sign of the step.
index_lem :
    (n start end : ℕ) (step : Axis) (j : ℕ)
    → IsAbsolute n (start, end, step)
    → j * unsigned_abs step < end - start
    → (start ≤ index start end step j) × (index start end step j < end)
index_lem n start end (pos k) j h l = (omega arith, omega (arith, l, h.0))
index_lem n start end (negsuc k) j h l = (omega (arith, l, h.0), omega (arith, l, h.0))

-- Where slicing an axis does not panic, the range that it resolves to lies in the axis; the new length
-- is the number of steps that stay in the range; and every one of these elements, counted from the
-- front or, for a negative step, from the back, lies in the range.
pub do_slice-index :
    (n s : ℕ) (slice : Slice) (offset len stride : ℕ)
    → do_slice n s slice ≡ some (offset, len, stride)
    → (p : ℕ × ℕ × Axis) × (to_abs_slice n slice ≡ some p)
      × IsAbsolute n p
      × ((j : ℕ)
          → ((j < len) ↔ (j * unsigned_abs p.2 < p.1 - p.0))
            × (j < len → (p.0 ≤ index p.0 p.1 p.2 j) × (index p.0 p.1 p.2 j < p.1)))
unfolding do_slice to_abs_slice
do_slice-index n s slice offset len stride e = elim (Option-cases (to_abs_slice n slice)) [
  | inl h ↦ cc (rw (do_slice, h) at e)
  | inr (p, h) ↦
      let abs : IsAbsolute n p = clamped-IsAbsolute n _ _ slice.step p h in
      let same : sliced_len (p.1 - p.0) (unsigned_abs p.2) ≡ len =
        ap (λ (t : ℕ × ℕ × ℕ). t.1)
          (some-injective _ (offset, len, stride) (rw (do_slice, h) at e)) in
      (
        p,
        h,
        abs,
        λ j.
            let count = rw same at (sliced_len_lem (p.1 - p.0) (unsigned_abs p.2) j abs.2) in
            (count, λ l. index_lem n p.0 p.1 p.2 j abs (count.0 l)),
      )
]

-- A stride that goes `j` elements on, in the arithmetic of addresses.
abbrev pub address : ℕ → ℕ → ℕ → ℕ
address offset stride j = (offset + j * stride) % 2 ^ 64

small : (x : ℕ) → x < 2 ^ 63 → x % 2 ^ 64 ≡ x
small x h = omega (arith, h)

pub spread : (a j k s : ℕ) → (a + j * k) * s ≡ a * s + j * (s * k)
spread a j k s =
    let e : j * k * s ≡ j * (s * k) = mul_assoc j k s ∙ ap (λ t. j * t) (mul_comm k s) in
    add-mul a (j * k) s ∙ ap (λ t. a * s + t) e

module _ (n s a b k : ℕ) (h : b ≤ n) (m : n * s < 2 ^ 63) where
  inside : (j : ℕ) → a + j * k < b → a * s + j * (s * k) < 2 ^ 63
  inside j l =
      let le : a + j * k ≤ n = omega (arith, h, l) in
      omega (arith, mul-le-mul_right s le, spread a j k s, m)

  product_small : (j : ℕ) → a + suc j * k < b → s * k < 2 ^ 63
  product_small j l = omega (arith, inside (suc j) l, suc-mul j (s * k))

  first_place : (t : ℕ) → a + 0 * k < b → address (a * s) t 0 ≡ (a + 0 * k) * s
  first_place t l =
      let whole : a * s < 2 ^ 63 = omega (arith, inside 0 l, zero-mul (s * k)) in
      ap (λ t. (a * s + t) % 2 ^ 64) (zero-mul t)
      ∙ small (a * s + 0) (omega (arith, whole))
      ∙ omega (arith, spread a 0 k s, zero-mul (s * k))

  -- The new offset and stride of a positive step lead to the places of the elements; with one element
  -- the stride does not count.
  forward :
      (len j : ℕ)
      → j < len
      → a + j * k < b
      → address (a * s) (if leb len 1 then 0 else wrapped s (pos k)) j ≡ (a + j * k) * s
  forward len zero i l = first_place _ l
  forward len (suc j) i l =
      let many : leb len 1 ≡ false = ground (arith, i) in
      rw many (
        ap (λ t. (a * s + suc j * t) % 2 ^ 64) (small (s * k) (product_small j l))
        ∙ small (a * s + suc j * (s * k)) (inside (suc j) l)
        ∙ sym (spread a (suc j) k s))

-- A slice with a positive step of an axis that spans less than `2 ^ 63` places: stepping from the new
-- offset by the new stride leads from each element of the slice to its place in the buffer.
pub do_slice-address :
    (n s a b k : ℕ) (slice : Slice) (offset len stride j : ℕ)
    → do_slice n s slice ≡ some (offset, len, stride)
    → to_abs_slice n slice ≡ some (a, b, pos k)
    → n * s < 2 ^ 63
    → j < len
    → address offset stride j ≡ (a + j * k) * s
unfolding do_slice first
do_slice-address n s a b k slice offset len stride j e h m l =
    let same = some-injective _ (offset, len, stride) (rw (do_slice, h) at e) in
    let abs : IsAbsolute n (a, b, pos k) = clamped-IsAbsolute n _ _ slice.step (a, b, pos k) h in
    let new_len : sliced_len (b - a) k ≡ len = ap (λ (t : ℕ × ℕ × ℕ). t.1) same in
    let inside : j * k < b - a = (rw new_len at (sliced_len_lem (b - a) k j abs.2)).0 l in
    let some_left : (b - a == 0) ≡ false = ground (arith, inside) in
    let new_offset : a * s ≡ offset = rw some_left at (ap (λ (t : ℕ × ℕ × ℕ). t.0) same) in
    let new_stride : (if leb len 1 then 0 else wrapped s (pos k)) ≡ stride =
      rw new_len at (ap (λ (t : ℕ × ℕ × ℕ). t.2) same) in
    ap (λ (t : ℕ × ℕ). address t.0 t.1 j) (λ i. (sym new_offset i, sym new_stride i))
    ∙ forward n s a b k abs.1 m len j l (omega (arith, inside, abs.0))
