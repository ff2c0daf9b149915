-- ===== src/Prelude/Result.antt =====
-- `crate::Result` with the `EngineError` variants of ella-common/src/error.rs. A variant that
-- formats a UUID (a shard's id) holds the UUID itself.
use Prim.Native.Nat.{ℕ}
use mathlib.Core.Path.{◌≡◌, refl}
use mathlib.Core.Logic.{◌⊎◌, inl, inr}
use ella.Prelude.Texts.{Text}

pub data EngineError : Type 0 where
  invalid_datastore datastore_exists unexpected_directory invalid_filename : Text → EngineError
  table_closed table_queue_full : EngineError
  worker invalid_sql table_kind : Text → Text → EngineError
  catalog_not_found schema_not_found table_not_found : Text → EngineError
  schema_exists catalog_exists table_exists invalid_index : Text → EngineError
  shard_not_found shard_exists : ℕ → EngineError

pub data Result {ℓ} (A : Type ℓ) : Type ℓ where
  ok : A → Result A
  err : EngineError → Result A

pub Result-cases {ℓ} :
    {A : Type ℓ} (r : Result A) → ((a : A) × (r ≡ ok a)) ⊎ ((e : EngineError) × (r ≡ err e))
Result-cases (ok a) = inl (a, refl)
Result-cases (err e) = inr (e, refl)

-- The `?` operator: what follows runs on a success, and an error is returned as it is.
module _ {ℓ κ} {Before : Type ℓ} {After : Type κ} where
  infixl 5 ◌>>=◌
  abbrev pub ◌>>=◌ : Result Before → (Before → Result After) → Result After
  ok value >>= rest = rest value
  err failure >>= rest = err failure
