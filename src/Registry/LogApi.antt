-- ===== src/Registry/LogApi.antt =====
-- What the writers of a datastore rely on of the transaction log
-- (ella-engine/src/registry/transaction_log.rs): `commit`, and the transactions that the next load
-- replays.
use ella.Prelude.{ℕ, ◌<◌, ◌≡◌, List, [], ◌∷◌, ◌++◌, All}
use ella.Prelude.Result.{EngineError, Result, ok, err}
use ella.External.{External}
use ella.Registry.Transaction.{Transaction, uuid}

-- The id is newer than those of the transactions.
abbrev pub IsNewest : {X : External} → ℕ → List (Transaction X) → Type 0
IsNewest {X} u = All (λ (t : Transaction X). uuid t < u)

pub record LogApi (X : External) : Type 1 where
  pub Log : Type 0
  pub commit : Transaction X → Log → Log × Result (Unit {0})
  pub replayed : Log → List (Transaction X)
  -- A transaction that is newer than the others is replayed after them; one that could not be
  -- written is not replayed.
  pub replayed-commit :
      (t : Transaction X) (l : Log)
      → (commit t l).1 ≡ ok tt
      → IsNewest (uuid t) (replayed l)
      → replayed (commit t l).0 ≡ replayed l ++ t ∷ []
  pub replayed-commit_err :
      (t : Transaction X) (l : Log) (e : EngineError)
      → (commit t l).1 ≡ err e
      → replayed (commit t l).0 ≡ replayed l
