-- ===== src/Shape/Broadcast.antt =====
-- Broadcasting of shapes (`broadcast` of ella-common/src/shape.rs).
use ella.Prelude.{
  ℕ, ◌-◌, ◌≡◌, refl, ap, false, List, [], ◌∷◌, arith, length, inl, inr, Bool-cases, map_option, ltb,
}
use ella.Shape.{broadcast, broadcast_onto, broadcast_axes}

broadcast_axes_comm : (a b : List ℕ) → length a ≡ length b → broadcast_axes a b ≡ broadcast_axes b a
unfolding broadcast_axes
broadcast_axes_comm [] [] h = refl
broadcast_axes_comm [] (y ∷ ys) h = absurd (omega (arith, h))
broadcast_axes_comm (x ∷ xs) [] h = absurd (omega (arith, h))
broadcast_axes_comm (x ∷ xs) (y ∷ ys) h = ground (arith, broadcast_axes_comm xs ys)

-- Broadcasting does not depend on the order of the shapes.
pub broadcast_comm : (a b : List ℕ) → broadcast a b ≡ broadcast b a
unfolding broadcast broadcast_onto
broadcast_comm a b = elim (Bool-cases (ltb (length a) (length b))) [
  | inl e ↦ let f : ltb (length b) (length a) ≡ false = ground (arith, e) in rw (e, f) refl
  | inr e ↦ elim (Bool-cases (ltb (length b) (length a))) [
    | inl f ↦ rw (e, f) refl
    | inr f ↦
        let z : (length a - length b ≡ 0) × (length b - length a ≡ 0) =
          (ground (arith, e), ground (arith, f)) in
        rw (e, f, z.0, z.1)
          (ap (map_option (λ ds. ds)) (broadcast_axes_comm a b (ground (arith, e, f))))
  ]
]
