-- ===== src/Registry/TransactionLog.antt =====
-- `commit` and `load_transactions` of ella-engine/src/registry/transaction_log.rs, over the object
-- store that holds one file for each transaction, named by its id. The names of files sort as the ids
-- do. The encoding as JSON belongs to serde_json, and is part of the store here.
pub mod Snapshots
use ella.Prelude.{ℕ, inl, inr, ◌≡◌, refl, ap, List, [], ◌∷◌, ◌++◌, All, arith}
use ella.Prelude.BTreeMap
use ella.Prelude.Result.{EngineError, Result, ok, err, Result-cases}
use ella.External.{External}
use ella.Registry.Transaction.{Transaction, uuid}
use ella.Registry.LogApi.{LogApi, IsNewest}

-- `sort_unstable_by` on the names of the listed files.
unfoldable pub sort_files {ℓ} : {V : Type ℓ} → List (ℕ × V) → List (ℕ × V)
unfolding BTreeMap.insert
sort_files [] = []
sort_files ((k, v) ∷ files) = BTreeMap.insert k v (sort_files files)

-- The files of the `transactions` directory: `list`, with the content that `get` gives for each, in
-- any order. A file that was put is there, the others are as before; a put that fails changes none.
pub record TransactionStore (X : External) : Type 1 where
  pub Store : Type 0
  pub put : ℕ → Transaction X → Store → Store × Result (Unit {0})
  pub files : Store → List (ℕ × Transaction X)
  pub files-put :
      (k : ℕ) (t : Transaction X) (s : Store)
      → (put k t s).1 ≡ ok tt
      → sort_files (files (put k t s).0) ≡ BTreeMap.insert k t (sort_files (files s))
  pub files-put_err :
      (k : ℕ) (t : Transaction X) (s : Store) (e : EngineError)
      → (put k t s).1 ≡ err e
      → sort_files (files (put k t s).0) ≡ sort_files (files s)

module _ {X : External} (O : TransactionStore X) where
  unfoldable pub put_transaction : Transaction X → O.Store → O.Store × Result (Unit {0})
  put_transaction t s = O.put (uuid t) t s

  unfoldable pub load_transactions : O.Store → List (Transaction X)
  unfolding sort_files
  load_transactions s = BTreeMap.values (sort_files (O.files s))

  -- Every file is named by the id of the transaction in it.
  abbrev pub IsNamed : List (ℕ × Transaction X) → Type 0
  IsNamed = All (λ (e : ℕ × Transaction X). e.0 ≡ uuid e.1)

  insert-IsNamed :
      (t : Transaction X) (m : List (ℕ × Transaction X))
      → IsNamed m
      → IsNamed (BTreeMap.insert (uuid t) t m)
  unfolding BTreeMap.insert
  insert-IsNamed t [] h = (refl, tt)
  insert-IsNamed t ((k, x) ∷ m) h = ground (arith, insert-IsNamed t m h.1)

  -- A newer transaction comes last.
  insert-newest :
      (t : Transaction X) (m : List (ℕ × Transaction X))
      → IsNamed m
      → IsNewest (uuid t) (BTreeMap.values m)
      → BTreeMap.values (BTreeMap.insert (uuid t) t m) ≡ BTreeMap.values m ++ t ∷ []
  unfolding BTreeMap.insert BTreeMap.values
  insert-newest t [] h n = refl
  insert-newest t ((k, x) ∷ m) h n = ground (arith, h.0, n.0, insert-newest t m h.1 n.1)

  -- In a store whose files are named by their transactions, a commit that succeeds puts a
  -- transaction that is newer than the others at the end of what the next load replays; one that
  -- fails leaves what the next load replays; and either keeps the files named by their
  -- transactions.
  pub put_transaction-replayed :
      (t : Transaction X) (s : O.Store)
      → IsNamed (sort_files (O.files s))
      → IsNamed (sort_files (O.files (put_transaction t s).0))
        × ((put_transaction t s).1 ≡ ok tt
            → IsNewest (uuid t) (load_transactions s)
            → load_transactions (put_transaction t s).0 ≡ load_transactions s ++ t ∷ [])
        × ((e : EngineError)
            → (put_transaction t s).1 ≡ err e
            → load_transactions (put_transaction t s).0 ≡ load_transactions s)
  unfolding put_transaction load_transactions
  put_transaction-replayed t s h = (
    elim (Result-cases (O.put (uuid t) t s).1) [
      | inl (_, e) ↦ rw (O.files-put (uuid t) t s e) (insert-IsNamed t (sort_files (O.files s)) h)
      | inr (x, e) ↦ rw (O.files-put_err (uuid t) t s x e) h
    ],
    λ k n. rw (O.files-put (uuid t) t s k) (insert-newest t (sort_files (O.files s)) h n),
    λ e k. ap BTreeMap.values (O.files-put_err (uuid t) t s e k),
  )

  -- The transaction log on such a store fills the interface of the writers.
  abbrev pub transaction_log : LogApi X
  transaction_log = record {
    Log = (s : O.Store) × IsNamed (sort_files (O.files s));
    commit = λ t l. (
      ((put_transaction t l.0).0, (put_transaction-replayed t l.0 l.1).0),
      (put_transaction t l.0).1,
    );
    replayed = λ l. load_transactions l.0;
    replayed-commit = λ t l k n. (put_transaction-replayed t l.0 l.1).1 k n;
    replayed-commit_err = λ t l e k. (put_transaction-replayed t l.0 l.1).2 e k;
  }
