-- ===== src/Registry/TransactionLog/Snapshots.antt =====
-- The files of snapshots of ella-engine/src/registry/transaction_log.rs: creating a datastore's first
-- snapshot, replaying the log on the newest one, and folding the log into a new one.
pub mod Fold
use ella.Prelude.{
  ℕ, ◌<◌, ◌≡◌, refl, ◌∙◌, sym, ap, Option, none, some, List, [], ◌∷◌, All, arith, inl, inr, Text,
}
use ella.Prelude.BTreeMap
use ella.Prelude.Result.{EngineError, Result, ok, err, ◌>>=◌, Result-cases, invalid_datastore}
use ella.External.{External}
use ella.Config.{EllaConfig}
use ella.Registry.Transaction.{Transaction, uuid}
use ella.Registry.Snapshot.{Snapshot, empty, commit_all, commit_many, refresh}
use ella.Registry.TransactionLog.{TransactionStore, sort_files, load_transactions, IsNamed}

-- The files of the `snapshots` directory, and the deletion of a transaction's file. A file of one
-- directory is no file of the other.
pub record SnapshotStore {X : External} (O : TransactionStore X) : Type 0 where
  pub path : Text
  pub put_snapshot : ℕ → Snapshot X → O.Store → O.Store × Result (Unit {0})
  pub snapshots : O.Store → List (ℕ × Snapshot X)
  pub delete : ℕ → O.Store → O.Store × Result (Unit {0})
  pub snapshots-put_snapshot :
      (k : ℕ) (n : Snapshot X) (s : O.Store)
      → (put_snapshot k n s).1 ≡ ok tt
      → sort_files (snapshots (put_snapshot k n s).0)
        ≡ BTreeMap.insert k n (sort_files (snapshots s))
  pub snapshots-put_snapshot_err :
      (k : ℕ) (n : Snapshot X) (s : O.Store) (e : EngineError)
      → (put_snapshot k n s).1 ≡ err e
      → sort_files (snapshots (put_snapshot k n s).0) ≡ sort_files (snapshots s)
  pub files-put_snapshot :
      (k : ℕ) (n : Snapshot X) (s : O.Store)
      → sort_files (O.files (put_snapshot k n s).0) ≡ sort_files (O.files s)
  pub files-delete :
      (k : ℕ) (s : O.Store)
      → (delete k s).1 ≡ ok tt
      → sort_files (O.files (delete k s).0) ≡ BTreeMap.remove k (sort_files (O.files s))
  pub snapshots-delete :
      (k : ℕ) (s : O.Store) → sort_files (snapshots (delete k s).0) ≡ sort_files (snapshots s)

-- The `?` of a call that changes the store.
abbrev pub then_on :
    {S : Type 0} → S × Result (Unit {0}) → (S → S × Result (Unit {0})) → S × Result (Unit {0})
then_on (s, ok _) rest = rest s
then_on (s, err e) rest = (s, err e)

-- The file whose name is the greatest.
unfoldable pub newest : {V : Type 0} → List (ℕ × V) → Option V
newest [] = none
newest ((k, v) ∷ m) = elim (newest m) [ none ↦ some v | some w ↦ some w ]

module _ {X : External} {O : TransactionStore X} (D : SnapshotStore O) where
  unfoldable pub write_snapshot : Snapshot X → O.Store → O.Store × Result (Unit {0})
  write_snapshot n s = D.put_snapshot n.uuid n s

  -- `TransactionLog::create`, with the fresh snapshot id
  unfoldable pub create : ℕ → EllaConfig X → O.Store → O.Store × Result (Unit {0})
  unfolding write_snapshot empty
  create u config s = write_snapshot (empty u config) s

  unfoldable pub load_newest_snapshot : O.Store → Option (Snapshot X)
  unfolding newest
  load_newest_snapshot s = newest (sort_files (D.snapshots s))

  abbrev pub loaded : Snapshot X × Result (Unit {0}) → Result (Snapshot X)
  loaded (n, ok _) = ok n
  loaded (n, err e) = err e

  -- `TransactionLog::load_snapshot`, with the fresh snapshot id that `commit_many` draws
  unfoldable pub load_snapshot : ℕ → O.Store → Result (Snapshot X)
  load_snapshot u s = elim (load_newest_snapshot s) [
    | none ↦ err (invalid_datastore D.path)
    | some n ↦ loaded (commit_many u (load_transactions O s) n)
  ]

  unfoldable pub load_config : ℕ → O.Store → Result (EllaConfig X)
  unfolding load_snapshot
  load_config u s = load_snapshot u s >>= λ n. ok n.config

  unfoldable pub clear_transactions : List (Transaction X) → O.Store → O.Store × Result (Unit {0})
  clear_transactions [] s = (s, ok tt)
  clear_transactions (t ∷ ts) s = then_on (D.delete (uuid t) s) (clear_transactions ts)

  -- What `create_snapshot` does once the transactions are committed to the newest snapshot.
  unfoldable pub replace_log :
      List (Transaction X) → Snapshot X × Result (Unit {0}) → O.Store → O.Store × Result (Unit {0})
  unfolding write_snapshot clear_transactions
  replace_log ts (n, ok _) s = then_on (write_snapshot n s) (clear_transactions ts)
  replace_log ts (n, err e) s = (s, err e)

  unfoldable pub fold_log :
      ℕ → List (Transaction X) → Option (Snapshot X) → O.Store → O.Store × Result (Unit {0})
  unfolding replace_log
  fold_log u [] n s = (s, ok tt)
  fold_log u (t ∷ ts) none s = (s, err (invalid_datastore D.path))
  fold_log u (t ∷ ts) (some n) s = replace_log (t ∷ ts) (commit_many u (t ∷ ts) n) s

  -- `TransactionLog::create_snapshot`, with the fresh snapshot id that `commit_many` draws
  unfoldable pub create_snapshot : ℕ → O.Store → O.Store × Result (Unit {0})
  unfolding fold_log
  create_snapshot u s = fold_log u (load_transactions O s) (load_newest_snapshot s) s
