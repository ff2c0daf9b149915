-- ===== src/Tensor/View/Words.antt =====
-- Sums and products of 64-bit words (the wrapping arithmetic of `isize` and of the casts to `usize`).
use native.Mathlib.Nat.{mul_assoc, mul-add}
use ella.Prelude.{ℕ, ◌+◌, ◌-◌, ◌*◌, ◌/◌, ◌%◌, ◌^◌, ◌≡◌, refl, sym, ap, ◌∙◌, arith}
use ella.Tensor.View.{word, minus}

-- The two numbers are the same word.
pub record IsSame (a b : ℕ) : Type 0 where
  pub left : ℕ
  pub right : ℕ
  pub same : a + left * 2 ^ 64 ≡ b + right * 2 ^ 64

pub IsSame-word : (a b : ℕ) → IsSame a b → word a ≡ word b
IsSame-word a b h = omega (arith, h.same)

pub IsSame-refl : (a : ℕ) → IsSame a a
IsSame-refl a = record { left = 0; right = 0; same = refl }

pub IsSame-sym : (a b : ℕ) → IsSame a b → IsSame b a
IsSame-sym a b h = record { left = h.right; right = h.left; same = sym h.same }

pub IsSame-trans : (a b c : ℕ) → IsSame a b → IsSame b c → IsSame a c
IsSame-trans a b c h k = record {
  left = h.left + k.left;
  right = h.right + k.right;
  same = omega (arith, h.same, k.same);
}

pub word-IsSame : (a : ℕ) → IsSame (word a) a
word-IsSame a = record { left = a / 2 ^ 64; right = 0; same = omega arith }

pub add-IsSame : (a b c d : ℕ) → IsSame a b → IsSame c d → IsSame (a + c) (b + d)
add-IsSame a b c d h k = record {
  left = h.left + k.left;
  right = h.right + k.right;
  same = omega (arith, h.same, k.same);
}

pub mul-IsSame : (n a b : ℕ) → IsSame a b → IsSame (n * a) (n * b)
mul-IsSame n a b h = record {
  left = n * h.left;
  right = n * h.right;
  same =
      ap (λ t. n * a + t) (mul_assoc n h.left (2 ^ 64))
      ∙ sym (mul-add n a (h.left * 2 ^ 64))
      ∙ ap (λ t. n * t) h.same
      ∙ mul-add n b (h.right * 2 ^ 64)
      ∙ ap (λ t. n * b + t) (sym (mul_assoc n h.right (2 ^ 64)));
}

-- The difference: what is added to it gives the first number back.
pub minus-IsSame : (a b : ℕ) → IsSame (minus a b + b) a
minus-IsSame a b = record {
  left = (a + (2 ^ 64 - b % 2 ^ 64)) / 2 ^ 64;
  right = b / 2 ^ 64 + 1;
  same = omega arith;
}

pub cancel-IsSame : (a b c : ℕ) → IsSame (a + c) (b + c) → IsSame a b
cancel-IsSame a b c h = record { left = h.left; right = h.right; same = omega (arith, h.same) }

-- The address behind an offset that was moved.
pub word-moved : (x o y : ℕ) → word (x + word (o + word y)) ≡ word (x + y + o)
word-moved x o y = omega arith
