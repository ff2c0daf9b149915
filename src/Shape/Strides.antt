-- ===== src/Shape/Strides.antt =====
-- The default strides of a shape (`default_strides` of ella-common/src/shape.rs) and row-major order.
use ella.Prelude.{
  ℕ, suc, ◌+◌, ◌*◌, ◌<◌, ◌≤◌, ◌≡◌, refl, sym, true, List, [], ◌∷◌, ◌++◌, arith, reverse,
  reverse-append,
}
use native.Mathlib.Nat.{mul_assoc, mul_comm, mul-add, mul-suc, mul-le-mul_left}
use ella.Shape.{size, default_strides, running_products, no_zero, stride_offset}

-- The stride of an axis is the size of what is behind it.
abbrev pub row_major : List ℕ → List ℕ
row_major [] = []
row_major (d ∷ ds) = size ds ∷ row_major ds

-- The position of an index, the last axis first.
abbrev pub position : List ℕ → List ℕ → ℕ
position [] is = 0
position (d ∷ ds) [] = 0
position (d ∷ ds) (i ∷ is) = i + d * position ds is

running_products-append :
    (p : ℕ) (xs : List ℕ) (y : ℕ)
    → running_products p (xs ++ y ∷ []) ≡ running_products p xs ++ (p * size xs) ∷ []
unfolding running_products size
running_products-append p [] y = let e : p * 1 ≡ p = omega arith in rw e refl
running_products-append p (x ∷ xs) y =
    rw (running_products-append (p * x) xs y, mul_assoc p x (size xs)) refl

pub mul_one : (x : ℕ) → x * 1 ≡ x
mul_one x = omega arith

size-append : (xs ys : List ℕ) → size (xs ++ ys) ≡ size xs * size ys
unfolding size
size-append [] ys = omega arith
size-append (x ∷ xs) ys = rw (size-append xs ys) (sym (mul_assoc x (size xs) (size ys)))

pub size-reverse : (xs : List ℕ) → size (reverse xs) ≡ size xs
unfolding size
size-reverse [] = refl
size-reverse (x ∷ xs) =
    rw (size-append (reverse xs) (x ∷ []), size-reverse xs, mul_one x) (mul_comm (size xs) x)

pub reverse-running_products :
    (ds : List ℕ) → reverse (running_products 1 (reverse ds)) ≡ row_major ds
unfolding running_products size
reverse-running_products [] = refl
reverse-running_products (d ∷ ds) =
    rw
      (
        running_products-append 1 (reverse ds) d,
        reverse-append (running_products 1 (reverse ds)) ((1 * size (reverse ds)) ∷ []),
        reverse-running_products ds,
        size-reverse ds,
      )
      (let e : 1 * size ds ≡ size ds = omega arith in rw e refl)

-- The default strides of a shape without empty axes are those of row-major order: the stride of an
-- axis is the number of elements in the axes behind it.
pub default_strides-row_major :
    (shape : List ℕ) → no_zero shape ≡ true → default_strides shape ≡ row_major shape
unfolding default_strides
default_strides-row_major shape h = rw h (reverse-running_products shape)

-- The index has an entry below each axis's length.
abbrev pub Below : List ℕ → List ℕ → Type 0
Below [] [] = Unit
Below [] (i ∷ is) = ⊥
Below (d ∷ ds) [] = ⊥
Below (d ∷ ds) (i ∷ is) = (i < d) × Below ds is

Below-append :
    (ds is : List ℕ) (d i : ℕ) → Below ds is → i < d → Below (ds ++ d ∷ []) (is ++ i ∷ [])
Below-append [] [] d i h k = (k, tt)
Below-append [] (j ∷ js) d i h k = absurd h
Below-append (x ∷ xs) [] d i h k = absurd h
Below-append (x ∷ xs) (j ∷ js) d i h k = (h.0, Below-append xs js d i h.1 k)

pub Below-reverse : (ds is : List ℕ) → Below ds is → Below (reverse ds) (reverse is)
Below-reverse [] [] h = tt
Below-reverse [] (j ∷ js) h = absurd h
Below-reverse (x ∷ xs) [] h = absurd h
Below-reverse (x ∷ xs) (j ∷ js) h =
    Below-append (reverse xs) (reverse js) x j (Below-reverse xs js h.1) h.0

position-append :
    (ds is : List ℕ) (d i : ℕ)
    → Below ds is
    → position (ds ++ d ∷ []) (is ++ i ∷ []) ≡ position ds is + size ds * i
unfolding size
position-append [] [] d i h = omega arith
position-append [] (j ∷ js) d i h = absurd h
position-append (x ∷ xs) [] d i h = absurd h
position-append (x ∷ xs) (j ∷ js) d i h =
    rw
      (
        position-append xs js d i h.1,
        mul-add x (position xs js) (size xs * i),
        mul_assoc x (size xs) i,
      )
      (omega arith)

-- The offset of an index is its position in row-major order.
pub stride_offset-position :
    (ds is : List ℕ)
    → Below ds is
    → stride_offset is (row_major ds) ≡ position (reverse ds) (reverse is)
unfolding stride_offset
stride_offset-position [] [] h = refl
stride_offset-position [] (j ∷ js) h = absurd h
stride_offset-position (x ∷ xs) [] h = absurd h
stride_offset-position (x ∷ xs) (j ∷ js) h =
    rw
      (
        position-append (reverse xs) (reverse js) x j (Below-reverse xs js h.1),
        stride_offset-position xs js h.1,
        size-reverse xs,
        mul_comm (size xs) j,
      )
      (omega arith)

lt→suc_le : (a b : ℕ) → a < b → suc a ≤ b
lt→suc_le a b h = omega arith

pub position-lt : (ds is : List ℕ) → Below ds is → position ds is < size ds
unfolding size
position-lt [] [] h = omega arith
position-lt [] (j ∷ js) h = absurd h
position-lt (x ∷ xs) [] h = absurd h
position-lt (x ∷ xs) (j ∷ js) h = omega (
  arith,
  mul-suc x (position xs js),
  mul-le-mul_left x (lt→suc_le (position xs js) (size xs) (position-lt xs js h.1)),
)
