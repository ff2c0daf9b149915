-- ===== src/Engine/Outcome.antt =====
-- How a method of the engine ends: `crate::Result` with the variants of `Error`
-- (ella-common/src/error.rs) that the engine's tree returns, a panic, or waiting forever on a lock.
use ella.Prelude.{Text, ◌≡◌, refl}
use ella.Prelude.Result.{EngineError, Result, ok, err}

pub data Error : Type 0 where
  engine : EngineError → Error
  -- `DataFusionError::Execution`
  execution : Text → Error

pub data Outcome {ℓ} (A : Type ℓ) : Type ℓ where
  done : A → Outcome A
  failed : Error → Outcome A
  panicked blocked : Outcome A

abbrev pub of_result {ℓ} : {A : Type ℓ} → Result A → Outcome A
of_result (ok a) = done a
of_result (err e) = failed (engine e)

-- The `?` operator of a method that changes state: what follows a success runs on the new state; every
-- other end keeps the state that was reached.
module _ {ℓ κ} {S : Type 0} {A : Type ℓ} {B : Type κ} where
  unfoldable pub and_then : S × Outcome A → (A → S → S × Outcome B) → S × Outcome B
  and_then (s, done a) rest = rest a s
  and_then (s, failed e) rest = (s, failed e)
  and_then (s, panicked) rest = (s, panicked)
  and_then (s, blocked) rest = (s, blocked)

-- A last step that keeps the state.
pub and_then_kept {ℓ κ} :
    {S : Type 0} {A : Type ℓ} {B : Type κ} (r : S × Outcome A) (g : A → Outcome B)
    → (and_then r (λ a s. (s, g a))).0 ≡ r.0
unfolding and_then
and_then_kept (s, done a) g = refl
and_then_kept (s, failed e) g = refl
and_then_kept (s, panicked) g = refl
and_then_kept (s, blocked) g = refl

unfoldable pub map_outcome {ℓ κ} : {A : Type ℓ} {B : Type κ} → (A → B) → Outcome A → Outcome B
map_outcome f (done a) = done (f a)
map_outcome f (failed e) = failed e
map_outcome f panicked = panicked
map_outcome f blocked = blocked

-- The `?` operator of a function without state.
unfoldable pub bind {ℓ κ} : {A : Type ℓ} {B : Type κ} → Outcome A → (A → Outcome B) → Outcome B
bind (done a) rest = rest a
bind (failed e) rest = failed e
bind panicked rest = panicked
bind blocked rest = blocked
