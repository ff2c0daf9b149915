-- ===== src/Registry/Split.antt =====
-- `str::rsplit('.')`, on which the parsers of ella-engine/src/registry/id.rs rest, and its inverse.
use mathlib.Core.List.{reverse}
use ella.Prelude.{Text, List, [], ◌∷◌, ◌++◌, ◌==◌, if◌then◌else◌, ◌≡◌, ◌≢◌, refl, All, arith, ℕ}

abbrev pub dot : ℕ
dot = b'.'

abbrev pub cons_head : ℕ → List Text → List Text
cons_head c [] = (c ∷ []) ∷ []
cons_head c (p ∷ ps) = (c ∷ p) ∷ ps

-- The parts between separators, left to right; there is always one.
unfoldable pub split : Text → List Text
split [] = [] ∷ []
split (c ∷ cs) = let rest = split cs in if c == dot then [] ∷ rest else cons_head c rest

unfoldable pub rsplit : Text → List Text
unfolding split
rsplit t = reverse (split t)

abbrev pub NoDot : Text → Type 0
NoDot = All (λ c. c ≢ dot)

pub split-NoDot : (t : Text) → NoDot t → split t ≡ t ∷ []
unfolding split
split-NoDot [] h = refl
split-NoDot (c ∷ cs) h = ground (arith, split-NoDot cs h.1)

pub split-append_dot : (t u : Text) → NoDot t → split (t ++ dot ∷ u) ≡ t ∷ split u
unfolding split
split-append_dot [] u h = refl
split-append_dot (c ∷ cs) u h = ground (arith, split-append_dot cs u h.1)
