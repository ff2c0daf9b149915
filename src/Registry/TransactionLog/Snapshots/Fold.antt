-- ===== src/Registry/TransactionLog/Snapshots/Fold.antt =====
-- What is loaded from a log and its snapshots (ella-engine/src/registry/transaction_log.rs) after a
-- datastore is created, and after its log is folded into a new snapshot.
use ella.Prelude.{
  ℕ, ◌<◌, ◌≡◌, refl, ◌∙◌, sym, ap, Option, none, some, List, [], ◌∷◌, All, arith, inl, inr,
}
use ella.Prelude.BTreeMap
use ella.Prelude.Result.{EngineError, Result, ok, err, ◌>>=◌, Result-cases}
use ella.External.{External}
use ella.Config.{EllaConfig}
use ella.Registry.Transaction.{Transaction, uuid}
use ella.Registry.Snapshot.{Snapshot, empty, commit_all, commit_many, refresh}
use ella.Registry.TransactionLog.{TransactionStore, sort_files, load_transactions, IsNamed}
use ella.Registry.TransactionLog.Snapshots.{
  SnapshotStore, then_on, newest, write_snapshot, create, load_newest_snapshot, loaded,
  load_snapshot, load_config, clear_transactions, replace_log, fold_log, create_snapshot,
}

module _ {X : External} {O : TransactionStore X} (D : SnapshotStore O) where
  -- A `?` that goes on.
  then_on-ok :
      (r : O.Store × Result (Unit {0})) (k : O.Store → O.Store × Result (Unit {0}))
      → (then_on r k).1 ≡ ok tt
      → (r.1 ≡ ok tt) × (then_on r k ≡ k r.0)
  then_on-ok (s, ok u) k h = (refl, refl)
  then_on-ok (s, err e) k h = cc

  newest-insert :
      (u : ℕ) (n : Snapshot X) (m : List (ℕ × Snapshot X))
      → All (λ (e : ℕ × Snapshot X). e.0 < u) m
      → newest (BTreeMap.insert u n m) ≡ some n
  unfolding newest BTreeMap.insert
  newest-insert u n [] h = refl
  newest-insert u n ((k, v) ∷ m) h = ground (arith, h.0, newest-insert u n m h.1)

  remove-head :
      (t : Transaction X) (j : ℕ) (m : List (ℕ × Transaction X))
      → j ≡ uuid t
      → BTreeMap.remove (uuid t) ((j, t) ∷ m) ≡ m
  unfolding BTreeMap.remove
  remove-head t j m h = ground (arith, h)

  -- Clearing the transactions that were replayed leaves no transaction, and every snapshot.
  clear-files :
      (m : List (ℕ × Transaction X)) (s : O.Store)
      → IsNamed O m
      → sort_files (O.files s) ≡ m
      → (clear_transactions D (BTreeMap.values m) s).1 ≡ ok tt
      → (sort_files (O.files (clear_transactions D (BTreeMap.values m) s).0) ≡ [])
        × (sort_files (D.snapshots (clear_transactions D (BTreeMap.values m) s).0)
            ≡ sort_files (D.snapshots s))
  unfolding clear_transactions BTreeMap.values
  clear-files [] s h e k = (e, refl)
  clear-files ((j, t) ∷ m) s h e k =
      let go = then_on-ok (D.delete (uuid t) s) (clear_transactions D (BTreeMap.values m)) k in
      let rest =
        clear-files m (D.delete (uuid t) s).0 h.1
          (D.files-delete (uuid t) s go.0 ∙ ap (BTreeMap.remove (uuid t)) e ∙ remove-head t j m h.0)
          (sym (ap (λ r. r.1) go.1) ∙ k) in
      rw go.1 (rest.0, rest.1 ∙ D.snapshots-delete (uuid t) s)

  refresh-ok :
      (u : ℕ) (r : Snapshot X × Result (Unit {0}))
      → r.1 ≡ ok tt
      → refresh u r ≡ (record r.0 { uuid = u }, ok tt)
  refresh-ok u (n, ok x) h = refl
  refresh-ok u (n, err e) h = cc

  refresh-err :
      (u : ℕ) (r : Snapshot X × Result (Unit {0})) (e : EngineError)
      → r.1 ≡ err e
      → refresh u r ≡ (r.0, err e)
  refresh-err u (n, ok x) e h = cc
  refresh-err u (n, err x) e h = ap (λ r. (n, r)) h

  refused :
      (ts : List (Transaction X)) (s : O.Store) (n : Snapshot X) (e : EngineError) {C : Type 0}
      → (replace_log D ts (n, err e) s).1 ≡ ok tt
      → C
  unfolding replace_log
  refused ts s n e h = cc

  commit_many-ok :
      (u : ℕ) (ts : List (Transaction X)) (n : Snapshot X)
      → (commit_all ts n).1 ≡ ok tt
      → commit_many u ts n ≡ (record (commit_all ts n).0 { uuid = u }, ok tt)
  unfolding commit_many
  commit_many-ok u ts n h = refresh-ok u (commit_all ts n) h

  load_snapshot-newest :
      (u : ℕ) (s : O.Store) (n : Snapshot X) (ts : List (Transaction X))
      → load_newest_snapshot D s ≡ some n
      → load_transactions O s ≡ ts
      → load_snapshot D u s ≡ loaded D (commit_many u ts n)
  unfolding load_snapshot
  load_snapshot-newest u s n ts h k = rw (load_snapshot, h, k) refl

  -- The snapshot that is loaded where the log is empty and the newest snapshot is the one written.
  load_snapshot-written :
      (u v : ℕ) (n : Snapshot X) (s : O.Store)
      → newest (sort_files (D.snapshots s)) ≡ some (record n { uuid = u })
      → sort_files (O.files s) ≡ []
      → load_snapshot D v s ≡ ok (record n { uuid = v })
  unfolding load_newest_snapshot load_transactions commit_many commit_all BTreeMap.values
  load_snapshot-written u v n s h e =
      load_snapshot-newest v s (record n { uuid = u }) [] h (ap BTreeMap.values e)

  replace_log-load :
      (u v : ℕ) (n : Snapshot X) (s : O.Store) (m : List (ℕ × Transaction X))
      → IsNamed O m
      → sort_files (O.files s) ≡ m
      → All (λ (e : ℕ × Snapshot X). e.0 < u) (sort_files (D.snapshots s))
      → load_newest_snapshot D s ≡ some n
      → (commit_all (BTreeMap.values m) n).1 ≡ ok tt
      → (replace_log D
          (BTreeMap.values m)
          (record (commit_all (BTreeMap.values m) n).0 { uuid = u }, ok tt)
          s).1
        ≡ ok tt
      → load_snapshot D v
          (replace_log D
            (BTreeMap.values m)
            (record (commit_all (BTreeMap.values m) n).0 { uuid = u }, ok tt)
            s).0
        ≡ load_snapshot D v s
  unfolding replace_log write_snapshot load_transactions
  replace_log-load u v n s m h e f g c k =
      let ts : List (Transaction X) = BTreeMap.values m in
      let n' : Snapshot X = record (commit_all ts n).0 { uuid = u } in
      let go = then_on-ok (write_snapshot D n' s) (clear_transactions D ts) k in
      let cleared =
        clear-files m (write_snapshot D n' s).0 h (D.files-put_snapshot u n' s ∙ e)
          (sym (ap (λ r. r.1) go.1) ∙ k) in
      rw go.1 (
        load_snapshot-written u v (commit_all ts n).0
          (clear_transactions D ts (write_snapshot D n' s).0).0
          (ap newest (cleared.1 ∙ D.snapshots-put_snapshot u n' s go.0)
            ∙ newest-insert u n' (sort_files (D.snapshots s)) f)
          cleared.0
        ∙ sym (
            load_snapshot-newest v s n ts g (ap BTreeMap.values e)
            ∙ ap (loaded D) (commit_many-ok v ts n c)))

  commit_many-err :
      (u : ℕ) (ts : List (Transaction X)) (n : Snapshot X) (e : EngineError)
      → (commit_all ts n).1 ≡ err e
      → commit_many u ts n ≡ ((commit_all ts n).0, err e)
  unfolding commit_many
  commit_many-err u ts n e h = refresh-err u (commit_all ts n) e h

  fold_log-load :
      (u v : ℕ) (s : O.Store) (m : List (ℕ × Transaction X)) (first : Option (Snapshot X))
      → IsNamed O m
      → sort_files (O.files s) ≡ m
      → All (λ (e : ℕ × Snapshot X). e.0 < u) (sort_files (D.snapshots s))
      → load_newest_snapshot D s ≡ first
      → (fold_log D u (BTreeMap.values m) first s).1 ≡ ok tt
      → load_snapshot D v (fold_log D u (BTreeMap.values m) first s).0 ≡ load_snapshot D v s
  unfolding fold_log BTreeMap.values
  fold_log-load u v s [] first h e f g k = refl
  fold_log-load u v s ((j, t) ∷ m) none h e f g k = cc
  fold_log-load u v s ((j, t) ∷ m) (some n) h e f g k =
      let ts : List (Transaction X) = t ∷ BTreeMap.values m in
      elim (Result-cases (commit_all ts n).1) [
        | inl (_, c) ↦
            rw (commit_many-ok u ts n c)
              (replace_log-load u v n s ((j, t) ∷ m) h e f g c (rw (commit_many-ok u ts n c) at k))
        | inr (x, c) ↦ refused ts s (commit_all ts n).0 x (rw (commit_many-err u ts n x c) at k)
      ]

  -- Folding a log whose files are named by their transactions into a snapshot newer than those in the
  -- store, where every step succeeds, leaves what the next load gives as it was: the newest snapshot
  -- with the log replayed on it.
  pub create_snapshot-load_snapshot :
      (u v : ℕ) (s : O.Store)
      → IsNamed O (sort_files (O.files s))
      → All (λ (e : ℕ × Snapshot X). e.0 < u) (sort_files (D.snapshots s))
      → (create_snapshot D u s).1 ≡ ok tt
      → load_snapshot D v (create_snapshot D u s).0 ≡ load_snapshot D v s
  unfolding create_snapshot BTreeMap.values load_transactions
  create_snapshot-load_snapshot u v s h f k = fold_log-load u v s _ _ h refl f refl k

  -- Creating a datastore in a store without transactions and with no snapshot under a later id, where
  -- the file can be written, gives one that loads as empty, with the settings that it was created with.
  pub create-load_config :
      (u v : ℕ) (config : EllaConfig X) (s : O.Store)
      → sort_files (O.files s) ≡ []
      → All (λ (e : ℕ × Snapshot X). e.0 < u) (sort_files (D.snapshots s))
      → (create D u config s).1 ≡ ok tt
      → (load_snapshot D v (create D u config s).0 ≡ ok (empty v config))
        × (load_config D v (create D u config s).0 ≡ ok config)
  unfolding create write_snapshot empty load_config
  create-load_config u v config s h f k =
      let loads =
        load_snapshot-written u v (empty u config) (create D u config s).0
          (ap newest (D.snapshots-put_snapshot u (empty u config) s k)
            ∙ newest-insert u (empty u config) (sort_files (D.snapshots s)) f)
          (D.files-put_snapshot u (empty u config) s ∙ h) in
      (loads, ap (λ r. r >>= λ n. ok n.config) loads)
