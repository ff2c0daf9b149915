-- ===== src/Examples/Stores.antt =====
-- A datastore in a store that has room for one transaction, created and folded into a new snapshot.
use ella.Prelude.{eq_text, ℕ, ◌≡◌, refl, ◌==◌, if◌then◌else◌, List, [], ◌∷◌, arith, codes, All, ◌<◌}
use ella.Prelude.BTreeMap
use ella.Prelude.Result.{EngineError, Result, ok, err, table_closed}
use ella.Registry.Info.{insert_shard}
use ella.Registry.Transaction.{uuid, Transaction, create_shard}
use ella.Registry.Snapshot.{commit_many, commit, apply, modify_first, Snapshot}
use ella.Registry.TransactionLog.{TransactionStore, sort_files, IsNamed, load_transactions}
use ella.Registry.TransactionLog.Snapshots.{
  SnapshotStore, create, create_snapshot, load_snapshot, load_newest_snapshot,
}
use ella.Registry.TransactionLog.Snapshots.Fold.{create_snapshot-load_snapshot}
use ella.Examples.Data.{externals, snapshot, create_12, config, sort_files-cons}

abbrev Files : Type 0
Files = List (ℕ × Transaction externals) × List (ℕ × Snapshot externals)

put_one : ℕ → Transaction externals → Files → Files × Result (Unit {0})
put_one k t ([], ns) = (((k, t) ∷ [], ns), ok tt)
put_one k t (f ∷ fs, ns) = ((f ∷ fs, ns), err table_closed)

delete_one : ℕ → Files → Files × Result (Unit {0})
delete_one k ([], ns) = (([], ns), err table_closed)
delete_one k ((j, t) ∷ [], ns) =
    if k == j then (([], ns), ok tt) else (((j, t) ∷ [], ns), err table_closed)
delete_one k (f ∷ g ∷ fs, ns) = ((f ∷ g ∷ fs, ns), err table_closed)

files-put_one :
    (k : ℕ) (t : Transaction externals) (s : Files)
    → (put_one k t s).1 ≡ ok tt
    → sort_files (put_one k t s).0.0 ≡ BTreeMap.insert k t (sort_files s.0)
unfolding put_one sort_files
files-put_one k t ([], ns) h = refl
files-put_one k t (f ∷ fs, ns) h = cc

files-put_one_err :
    (k : ℕ) (t : Transaction externals) (s : Files) (e : EngineError)
    → (put_one k t s).1 ≡ err e
    → sort_files (put_one k t s).0.0 ≡ sort_files s.0
unfolding put_one
files-put_one_err k t ([], ns) e h = cc
files-put_one_err k t (f ∷ fs, ns) e h = refl

files-delete_one :
    (k : ℕ) (s : Files)
    → (delete_one k s).1 ≡ ok tt
    → sort_files (delete_one k s).0.0 ≡ BTreeMap.remove k (sort_files s.0)
unfolding delete_one sort_files BTreeMap.remove BTreeMap.insert
files-delete_one k ([], ns) h = cc
files-delete_one k ((j, t) ∷ [], ns) h = ground (arith, h)
files-delete_one k (f ∷ g ∷ fs, ns) h = cc

snapshots-delete_one : (k : ℕ) (s : Files) → sort_files (delete_one k s).0.1 ≡ sort_files s.1
unfolding delete_one
snapshots-delete_one k ([], ns) = refl
snapshots-delete_one k ((j, t) ∷ [], ns) = ground arith
snapshots-delete_one k (f ∷ g ∷ fs, ns) = refl

abbrev one_store : TransactionStore externals
one_store = record {
  Store = Files;
  put = put_one;
  files = λ s. s.0;
  files-put = files-put_one;
  files-put_err = files-put_one_err;
}

ok-ne-err : (e : EngineError) → ok (tt {0}) ≡ err e → ⊥
ok-ne-err e h = cc

abbrev snapshot_store : SnapshotStore one_store
snapshot_store = record {
  path = codes "root";
  put_snapshot = λ k n s. ((s.0, (k, n) ∷ s.1), ok tt);
  snapshots = λ s. s.1;
  delete = delete_one;
  snapshots-put_snapshot = λ k n s h. sort_files-cons k n s.1;
  snapshots-put_snapshot_err = λ k n s e h. absurd (ok-ne-err e h);
  files-put_snapshot = λ k n s. refl;
  files-delete = files-delete_one;
  snapshots-delete = snapshots-delete_one;
}

abbrev one_file : Files
one_file = ((7, create_shard create_12) ∷ [], (1, snapshot) ∷ [])

named : IsNamed one_store (sort_files one_file.0)
unfolding sort_files BTreeMap.insert uuid
named = (refl, tt)

older : All (λ (e : ℕ × Snapshot externals). e.0 < 8) (sort_files one_file.1)
unfolding sort_files BTreeMap.insert
older = (omega arith, tt)

folds : (create_snapshot snapshot_store 8 one_file).1 ≡ ok tt
unfolding create_snapshot load_transactions BTreeMap.values load_newest_snapshot commit_many commit
    uuid apply modify_first eq_text insert_shard delete_one
folds = refl

create_snapshot-load_snapshot_example :
    load_snapshot snapshot_store 9 (create_snapshot snapshot_store 8 one_file).0
    ≡ load_snapshot snapshot_store 9 one_file
create_snapshot-load_snapshot_example =
    create_snapshot-load_snapshot snapshot_store 8 9 one_file named older folds

none_sorted : sort_files {V = Transaction externals} [] ≡ []
unfolding sort_files
none_sorted = refl

none_older : All (λ (e : ℕ × Snapshot externals). e.0 < 8) (sort_files [])
unfolding sort_files
none_older = tt

creates : (create snapshot_store 8 config ([], [])).1 ≡ ok tt
unfolding create
creates = refl
