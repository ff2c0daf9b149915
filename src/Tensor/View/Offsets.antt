-- ===== src/Tensor/View/Offsets.antt =====
-- The offset of an index (`stride_offset` of ella-common/src/shape.rs) when an entry of the index and
-- of the strides is set, inserted, swapped, or the axes are taken in reverse.
use ella.Prelude.{
  if◌then◌else◌, ◌==◌, ℕ, zero, suc, ◌+◌, ◌*◌, ◌≤◌, ◌<◌, ◌≡◌, refl, sym, ap, ◌∙◌, arith, List, [],
  ◌∷◌, ◌++◌, length, take, drop, reverse, length-reverse,
}
use ella.Shape.{stride_offset}
use ella.Shape.Strides.{Below}
use ella.Tensor.View.{nth, set, swap}

pub length-set : (a x : ℕ) (xs : List ℕ) → length (set a x xs) ≡ length xs
unfolding set
length-set a x [] = refl
length-set zero x (y ∷ ys) = refl
length-set (suc a) x (y ∷ ys) = ap suc (length-set a x ys)

pub nth-set : (a x : ℕ) (xs : List ℕ) → a < length xs → nth a (set a x xs) ≡ x
unfolding set nth
nth-set a x [] h = absurd (omega (arith, h))
nth-set zero x (y ∷ ys) h = refl
nth-set (suc a) x (y ∷ ys) h = nth-set a x ys (omega (arith, h))

-- Setting an entry of the index and of the strides trades one product for another.
pub stride_offset-set :
    (a x s : ℕ) (i ss : List ℕ)
    → a < length i
    → a < length ss
    → stride_offset (set a x i) (set a s ss) + nth a i * nth a ss ≡ stride_offset i ss + x * s
unfolding stride_offset set nth
stride_offset-set a x s [] ss h k = absurd (omega (arith, h))
stride_offset-set a x s (j ∷ i) [] h k = absurd (omega (arith, k))
stride_offset-set zero x s (j ∷ i) (t ∷ ss) h k = omega arith
stride_offset-set (suc a) x s (j ∷ i) (t ∷ ss) h k =
    omega (arith, stride_offset-set a x s i ss (omega (arith, h)) (omega (arith, k)))

-- Only the index's entry is set.
pub set-nth : (a : ℕ) (xs : List ℕ) → set a (nth a xs) xs ≡ xs
unfolding set nth
set-nth a [] = refl
set-nth zero (x ∷ xs) = refl
set-nth (suc a) (x ∷ xs) = ap (λ ys. x ∷ ys) (set-nth a xs)

nth-set_other : (a b : ℕ) (xs : List ℕ) → a < length xs → nth a (set b (nth a xs) xs) ≡ nth a xs
unfolding set nth
nth-set_other a b [] h = absurd (omega (arith, h))
nth-set_other zero zero (y ∷ ys) h = refl
nth-set_other zero (suc b) (y ∷ ys) h = refl
nth-set_other (suc a) zero (y ∷ ys) h = refl
nth-set_other (suc a) (suc b) (y ∷ ys) h = nth-set_other a b ys (omega (arith, h))

pub stride_offset-swap :
    (a b : ℕ) (i ss : List ℕ)
    → a < length i
    → b < length i
    → length i ≡ length ss
    → stride_offset (swap a b i) (swap a b ss) ≡ stride_offset i ss
unfolding swap
stride_offset-swap a b i ss h k e =
    let h' : a < length ss = omega (arith, h, e) in
    let k' : b < length ss = omega (arith, k, e) in
    let i' : List ℕ = set b (nth a i) i in
    let ss' : List ℕ = set b (nth a ss) ss in
    let first = stride_offset-set b (nth a i) (nth a ss) i ss k k' in
    let second =
      rw (nth-set_other a b i h, nth-set_other a b ss h') at
        (stride_offset-set a (nth b i) (nth b ss) i' ss'
          (omega (arith, h, length-set b (nth a i) i))
          (omega (arith, h', length-set b (nth a ss) ss))) in
    omega (arith, first, second)

-- An entry put before position `a`.
abbrev pub insert : ℕ → ℕ → List ℕ → List ℕ
insert a x xs = take a xs ++ x ∷ drop a xs

pub stride_offset-insert :
    (a x s : ℕ) (i ss : List ℕ)
    → a ≤ length i
    → a ≤ length ss
    → stride_offset (insert a x i) (insert a s ss) ≡ stride_offset i ss + x * s
unfolding stride_offset
stride_offset-insert zero x s i ss h k = omega arith
stride_offset-insert (suc a) x s [] ss h k = absurd (omega (arith, h))
stride_offset-insert (suc a) x s (j ∷ i) [] h k = absurd (omega (arith, k))
stride_offset-insert (suc a) x s (j ∷ i) (t ∷ ss) h k =
    omega (arith, stride_offset-insert a x s i ss (omega (arith, h)) (omega (arith, k)))

pub Below-length : (ds i : List ℕ) → Below ds i → length i ≡ length ds
Below-length [] [] h = refl
Below-length [] (j ∷ i) h = absurd h
Below-length (d ∷ ds) [] h = absurd h
Below-length (d ∷ ds) (j ∷ i) h = ap suc (Below-length ds i h.1)

stride_offset-append :
    (i ss : List ℕ) (x s : ℕ)
    → length i ≡ length ss
    → stride_offset (i ++ x ∷ []) (ss ++ s ∷ []) ≡ stride_offset i ss + x * s
unfolding stride_offset
stride_offset-append [] [] x s h = omega arith
stride_offset-append [] (t ∷ ss) x s h = absurd (omega (arith, h))
stride_offset-append (j ∷ i) [] x s h = absurd (omega (arith, h))
stride_offset-append (j ∷ i) (t ∷ ss) x s h =
    omega (arith, stride_offset-append i ss x s (omega (arith, h)))

pub stride_offset-reverse :
    (i ss : List ℕ)
    → length i ≡ length ss
    → stride_offset (reverse i) (reverse ss) ≡ stride_offset i ss
unfolding stride_offset
stride_offset-reverse [] [] h = refl
stride_offset-reverse [] (t ∷ ss) h = absurd (omega (arith, h))
stride_offset-reverse (j ∷ i) [] h = absurd (omega (arith, h))
stride_offset-reverse (j ∷ i) (t ∷ ss) h = omega (
  arith,
  stride_offset-append (reverse i) (reverse ss) j t
      (length-reverse i ∙ omega (arith, h) ∙ sym (length-reverse ss)),
  stride_offset-reverse i ss (omega (arith, h)),
)

pub nth-set_any :
    (k a x : ℕ) (xs : List ℕ)
    → a < length xs
    → nth k (set a x xs) ≡ (if k == a then x else nth k xs)
unfolding set nth
nth-set_any k a x [] h = absurd (omega (arith, h))
nth-set_any zero zero x (y ∷ ys) h = refl
nth-set_any (suc k) zero x (y ∷ ys) h = ground arith
nth-set_any zero (suc a) x (y ∷ ys) h = ground arith
nth-set_any (suc k) (suc a) x (y ∷ ys) h = ground (arith, nth-set_any k a x ys)

pub length-swap : (a b : ℕ) (xs : List ℕ) → length (swap a b xs) ≡ length xs
unfolding swap
length-swap a b xs = length-set a _ _ ∙ length-set b _ xs

pub nth-swap :
    (k a b : ℕ) (xs : List ℕ)
    → a < length xs
    → b < length xs
    → nth k (swap a b xs) ≡ (if k == a then nth b xs else if k == b then nth a xs else nth k xs)
unfolding swap
nth-swap k a b xs h l =
    let inner = nth-set_any k b (nth a xs) xs l in
    let outer =
      nth-set_any k a (nth b xs) (set b (nth a xs) xs)
        (omega (arith, h, length-set b (nth a xs) xs)) in
    rw inner at outer

pub nth_ext :
    (xs ys : List ℕ)
    → length xs ≡ length ys
    → ((k : ℕ) → k < length xs → nth k xs ≡ nth k ys)
    → xs ≡ ys
unfolding nth
nth_ext [] [] e h = refl
nth_ext [] (y ∷ ys) e h = absurd (omega (arith, e))
nth_ext (x ∷ xs) [] e h = absurd (omega (arith, e))
nth_ext (x ∷ xs) (y ∷ ys) e h =
    let first : x ≡ y = h 0 (omega arith) in
    rw (first, nth_ext xs ys (omega (arith, e)) (λ k l. h (suc k) (omega (arith, l)))) refl

pub swap-swap :
    (a b : ℕ) (xs : List ℕ) → a < length xs → b < length xs → swap a b (swap a b xs) ≡ xs
swap-swap a b xs h k =
    let len = length-swap a b xs in
    nth_ext (swap a b (swap a b xs)) xs (length-swap a b (swap a b xs) ∙ len) (λ n l. ground (
      arith,
      nth-swap n a b (swap a b xs) (omega (arith, h, len)) (omega (arith, k, len)),
      nth-swap a a b xs h k,
      nth-swap b a b xs h k,
      nth-swap n a b xs h k,
    ))

pub Below-nth : (ds i : List ℕ) (k : ℕ) → Below ds i → k < length ds → nth k i < nth k ds
unfolding nth
Below-nth [] i k b h = absurd (omega (arith, h))
Below-nth (d ∷ ds) [] k b h = absurd b
Below-nth (d ∷ ds) (j ∷ i) zero b h = b.0
Below-nth (d ∷ ds) (j ∷ i) (suc k) b h = Below-nth ds i k b.1 (omega (arith, h))

pub nth-Below :
    (ds i : List ℕ)
    → length i ≡ length ds
    → ((k : ℕ) → k < length ds → nth k i < nth k ds)
    → Below ds i
unfolding nth
nth-Below [] [] e h = tt
nth-Below [] (j ∷ i) e h = absurd (omega (arith, e))
nth-Below (d ∷ ds) [] e h = absurd (omega (arith, e))
nth-Below (d ∷ ds) (j ∷ i) e h =
    (h 0 (omega arith), nth-Below ds i (omega (arith, e)) (λ k l. h (suc k) (omega (arith, l))))

pub Below-set :
    (ds i : List ℕ) (a d x : ℕ) → Below (set a d ds) i → x < nth a ds → Below ds (set a x i)
unfolding set nth
Below-set [] [] a d x b h = b
Below-set [] (j ∷ i) a d x b h = absurd b
Below-set (e ∷ ds) [] zero d x b h = absurd b
Below-set (e ∷ ds) [] (suc a) d x b h = absurd b
Below-set (e ∷ ds) (j ∷ i) zero d x b h = (h, b.1)
Below-set (e ∷ ds) (j ∷ i) (suc a) d x b h = (b.0, Below-set ds i a d x b.1 h)

pub Below-insert :
    (ds i : List ℕ) (a d x : ℕ)
    → a ≤ length ds
    → Below ds i
    → x < d
    → Below (insert a d ds) (insert a x i)
Below-insert ds i zero d x l b h = (h, b)
Below-insert [] [] (suc a) d x l b h = absurd (omega (arith, l))
Below-insert [] (j ∷ i) (suc a) d x l b h = absurd b
Below-insert (e ∷ ds) [] (suc a) d x l b h = absurd b
Below-insert (e ∷ ds) (j ∷ i) (suc a) d x l b h =
    (b.0, Below-insert ds i a d x (omega (arith, l)) b.1 h)

-- An index without its entry at position `a`.
abbrev pub without : ℕ → List ℕ → List ℕ
without a xs = take a xs ++ drop (suc a) xs

pub insert-without : (a : ℕ) (xs : List ℕ) → a < length xs → insert a (nth a xs) (without a xs) ≡ xs
unfolding nth
insert-without a [] h = absurd (omega (arith, h))
insert-without zero (x ∷ xs) h = refl
insert-without (suc a) (x ∷ xs) h = ap (λ ys. x ∷ ys) (insert-without a xs (omega (arith, h)))

pub without-set : (a x : ℕ) (xs : List ℕ) → without a (set a x xs) ≡ without a xs
unfolding set
without-set zero x [] = refl
without-set (suc a) x [] = refl
without-set zero x (y ∷ ys) = refl
without-set (suc a) x (y ∷ ys) = ap (λ zs. y ∷ zs) (without-set a x ys)

pub length-without : (a : ℕ) (xs : List ℕ) → a < length xs → suc (length (without a xs)) ≡ length xs
length-without a [] h = absurd (omega (arith, h))
length-without zero (x ∷ xs) h = refl
length-without (suc a) (x ∷ xs) h = ap suc (length-without a xs (omega (arith, h)))

pub Below-without :
    (ds i : List ℕ) (a d : ℕ)
    → a ≤ length ds
    → Below (insert a d ds) i
    → Below ds (without a i) × (nth a i < d)
unfolding nth
Below-without ds [] zero d h b = absurd b
Below-without ds (j ∷ i) zero d h b = (b.1, b.0)
Below-without [] i (suc a) d h b = absurd (omega (arith, h))
Below-without (e ∷ ds) [] (suc a) d h b = absurd b
Below-without (e ∷ ds) (j ∷ i) (suc a) d h b =
    let rest = Below-without ds i a d (omega (arith, h)) b.1 in ((b.0, rest.0), rest.1)

pub length-insert : (a x : ℕ) (xs : List ℕ) → length (insert a x xs) ≡ suc (length xs)
length-insert zero x xs = refl
length-insert (suc a) x [] = refl
length-insert (suc a) x (y ∷ ys) = ap suc (length-insert a x ys)
