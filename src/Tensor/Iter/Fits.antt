-- ===== src/Tensor/Iter/Fits.antt =====
-- The shape that two shapes broadcast to (`broadcast` of ella-common/src/shape.rs) is one that tensors
-- of both shapes can be broadcast to (`broadcast_to` of ella-tensor/src/ops/shape.rs).
use mathlib.Core.Option.{some-injective}
use mathlib.Core.Path.{subst}
use ella.Prelude.{
  ℕ, zero, suc, ◌-◌, ◌≤◌, ◌≡◌, refl, sym, ap, ◌∙◌, arith, Bool-cases, Option, none, some, List, [],
  ◌∷◌, ◌++◌, length, length-append, length-reverse, reverse, reverse-append, take, drop, inl, inr,
  ◌⊎◌, Option-cases, true, false, map_option, ◌==◌, ltb,
}
use ella.Shape.{broadcast, broadcast_onto, broadcast_axes, zeros}
use ella.Tensor.View.{Tensor, broadcast_strides, broadcast_to}

-- Every axis has the length of the other shape's, or one.
abbrev pub Fits : List ℕ → List ℕ → Type 0
Fits [] [] = Unit
Fits [] (d ∷ ds) = ⊥
Fits (e ∷ es) [] = ⊥
Fits (e ∷ es) (d ∷ ds) = ((e ≡ d) ⊎ (e ≡ 1)) × Fits es ds

-- The axes fit the last ones of the other shape.
pub record IsFit (a c : List ℕ) : Type 0 where
  pub front : List ℕ
  pub back : List ℕ
  pub whole : c ≡ front ++ back
  pub fits : Fits a back

Fits-length : (es ds : List ℕ) → Fits es ds → length es ≡ length ds
Fits-length [] [] h = refl
Fits-length [] (d ∷ ds) h = absurd h
Fits-length (e ∷ es) [] h = absurd h
Fits-length (e ∷ es) (d ∷ ds) h = ap suc (Fits-length es ds h.1)

Fits-refl : (ds : List ℕ) → Fits ds ds
Fits-refl [] = tt
Fits-refl (d ∷ ds) = (inl refl, Fits-refl ds)

Fits-append : (es ds es' ds' : List ℕ) → Fits es ds → Fits es' ds' → Fits (es ++ es') (ds ++ ds')
Fits-append [] [] es' ds' h k = k
Fits-append [] (d ∷ ds) es' ds' h k = absurd h
Fits-append (e ∷ es) [] es' ds' h k = absurd h
Fits-append (e ∷ es) (d ∷ ds) es' ds' h k = (h.0, Fits-append es ds es' ds' h.1 k)

Fits-reverse : (es ds : List ℕ) → Fits es ds → Fits (reverse es) (reverse ds)
Fits-reverse [] [] h = tt
Fits-reverse [] (d ∷ ds) h = absurd h
Fits-reverse (e ∷ es) [] h = absurd h
Fits-reverse (e ∷ es) (d ∷ ds) h =
    Fits-append (reverse es) (reverse ds) (e ∷ []) (d ∷ []) (Fits-reverse es ds h.1) (h.0, tt)

broadcast_strides-some :
    (es ss ds zs : List ℕ)
    → length ss ≡ length es
    → Fits es ds
    → (rs : List ℕ) × (broadcast_strides es ss (ds ++ zs) ≡ some rs)
unfolding broadcast_strides
broadcast_strides-some [] ss ds zs l h = (zeros (length (ds ++ zs)), refl)
broadcast_strides-some (e ∷ es) [] ds zs l h = absurd (omega (arith, l))
broadcast_strides-some (e ∷ es) (s ∷ ss) [] zs l h = absurd h
broadcast_strides-some (e ∷ es) (s ∷ ss) (d ∷ ds) zs l h =
    let (rs, r) = broadcast_strides-some es ss ds zs (omega (arith, l)) h.1 in
    elim (Bool-cases (d == e)) [
      | inl q ↦ (s ∷ rs, rw (q, r) refl)
      | inr q ↦
          let single : (e == 1) ≡ true = elim h.0 [
            | inl x ↦ ground (arith, x, q)
            | inr x ↦ ground (arith, x)
          ] in
          (0 ∷ rs, rw (q, single, r) refl)
    ]

-- An axis in front of the others.
consed :
    (x : ℕ) (o : Option (List ℕ)) (ds : List ℕ)
    → map_option (λ rs. x ∷ rs) o ≡ some ds
    → (rs : List ℕ) × (o ≡ some rs) × (x ∷ rs ≡ ds)
consed x none ds h = cc
consed x (some rs) ds h = (rs, refl, some-injective (x ∷ rs) ds h)

Fits-both :
    (o s d : ℕ) (os ss rs ds : List ℕ)
    → d ∷ rs ≡ ds
    → (o ≡ d) ⊎ (o ≡ 1)
    → (s ≡ d) ⊎ (s ≡ 1)
    → Fits os rs × Fits ss rs
    → Fits (o ∷ os) ds × Fits (s ∷ ss) ds
Fits-both o s d os ss rs ds w x y h =
    subst (λ ds. Fits (o ∷ os) ds × Fits (s ∷ ss) ds) w ((x, h.0), (y, h.1))

broadcast_axes-Fits :
    (os ss ds : List ℕ)
    → length os ≡ length ss
    → broadcast_axes os ss ≡ some ds
    → Fits os ds × Fits ss ds
unfolding broadcast_axes
broadcast_axes-Fits [] [] ds l h =
    subst (λ ds. Fits [] ds × Fits [] ds) (some-injective [] ds h) (tt, tt)
broadcast_axes-Fits [] (s ∷ ss) ds l h = absurd (omega (arith, l))
broadcast_axes-Fits (o ∷ os) [] ds l h = absurd (omega (arith, l))
broadcast_axes-Fits (o ∷ os) (s ∷ ss) ds l h =
    let ih = λ (rs : List ℕ). broadcast_axes-Fits os ss rs (omega (arith, l)) in
    elim (Bool-cases (o == s)) [
      | inl q ↦
          let (rs, n, w) = consed o (broadcast_axes os ss) ds (rw q at h) in
          Fits-both o s o os ss rs ds w (inl refl) (inl (ground (arith, q))) (ih rs n)
      | inr q ↦ elim (Bool-cases (o == 1)) [
        | inl p ↦
            let (rs, n, w) = consed s (broadcast_axes os ss) ds (rw (q, p) at h) in
            Fits-both o s s os ss rs ds w (inr (ground (arith, p))) (inl refl) (ih rs n)
        | inr p ↦ elim (Bool-cases (s == 1)) [
          | inl r ↦
              let (rs, n, w) = consed o (broadcast_axes os ss) ds (rw (q, p, r) at h) in
              Fits-both o s o os ss rs ds w (inl refl) (inr (ground (arith, r))) (ih rs n)
          | inr r ↦ cc (rw (q, p, r) at h)
        ]
      ]
    ]

take-drop : (k : ℕ) (xs : List ℕ) → take k xs ++ drop k xs ≡ xs
take-drop zero xs = refl
take-drop (suc k) [] = refl
take-drop (suc k) (x ∷ xs) = ap (λ ys. x ∷ ys) (take-drop k xs)

length-drop : (k : ℕ) (xs : List ℕ) → length (drop k xs) ≡ length xs - k
length-drop zero xs = omega arith
length-drop (suc k) [] = omega arith
length-drop (suc k) (x ∷ xs) = length-drop k xs ∙ omega arith

broadcast_onto-IsFit :
    (a b c : List ℕ) → length b ≤ length a → broadcast_onto a b ≡ some c → IsFit a c × IsFit b c
unfolding broadcast_onto
broadcast_onto-IsFit a b c l h =
    let k = length a - length b in
    elim (Option-cases (broadcast_axes (drop k a) b)) [
      | inl n ↦ cc (rw n at h)
      | inr (ds, n) ↦
          let (f, g) = broadcast_axes-Fits (drop k a) b ds (length-drop k a ∙ omega (arith, l)) n in
          let whole : c ≡ take k a ++ ds = sym (some-injective (take k a ++ ds) c (rw n at h)) in
          (
            record {
              front = [];
              back = c;
              whole = refl;
              fits =
                  rw (take-drop k a, sym whole) at
                    (Fits-append (take k a) (take k a) (drop k a) ds (Fits-refl (take k a)) f);
            },
            record { front = take k a; back = ds; whole = whole; fits = g },
          )
    ]

pub broadcast-IsFit : (a b c : List ℕ) → broadcast a b ≡ some c → IsFit a c × IsFit b c
unfolding broadcast
broadcast-IsFit a b c h = elim (Bool-cases (ltb (length a) (length b))) [
  | inl q ↦ let r = broadcast_onto-IsFit b a c (ground arith) (rw (broadcast, q) at h) in (r.1, r.0)
  | inr q ↦ broadcast_onto-IsFit a b c (ground arith) (rw (broadcast, q) at h)
]

module _ {A : Type 0} where
  -- A tensor can be broadcast to every shape that its own fits.
  pub broadcast_to-some :
      (to : List ℕ) (t : Tensor A)
      → length t.strides ≡ length t.shape
      → IsFit t.shape to
      → (u : Tensor A) × (broadcast_to to t ≡ some u)
  unfolding broadcast_to
  broadcast_to-some to t e h =
      let long : ltb (length to) (length t.shape) ≡ false = ground (
        arith,
        Fits-length t.shape h.back h.fits,
        ap length h.whole,
        length-append h.front h.back,
      ) in
      let (rs, r) =
        broadcast_strides-some (reverse t.shape) (reverse t.strides) (reverse h.back)
          (reverse h.front) (length-reverse t.strides ∙ e ∙ sym (length-reverse t.shape))
          (Fits-reverse t.shape h.back h.fits) in
      let turned : reverse to ≡ reverse h.back ++ reverse h.front =
        ap reverse h.whole ∙ reverse-append h.front h.back in
      (record t { shape = to; strides = reverse rs }, rw (broadcast_to, long, turned, r) refl)
