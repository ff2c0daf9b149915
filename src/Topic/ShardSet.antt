-- ===== src/Topic/ShardSet.antt =====
-- `ShardSet` of ella-engine/src/table/topic/shard.rs: the shards of one topic in memory, each change
-- of which is first committed to the transaction log. The write lock that every method holds from
-- start to end makes each method one step; fresh ids and file names enter as arguments.
pub mod Entries
pub mod Refinement
pub mod Compaction
pub mod Restart
use ella.Prelude.{
  ℕ, zero, suc, ◌+◌, Text, Option, none, some, List, [], ◌∷◌, retain, Bool, true, false,
}
use ella.Prelude.BTreeMap
use ella.Prelude.Result.{Result, ok, err}
use ella.External.{External}
use ella.Registry.Id.{TableId}
use ella.Registry.Info.{ShardInfo, close}
use ella.Registry.Transaction.{
  Transaction, create_shard, close_shard, delete_shard, compact_shards, new_create_shard,
  new_compact_shards, shard_of_create, shard_of_compact,
}
use ella.Registry.LogApi.{LogApi}

pub record ShardSet {X : External} (L : LogApi X) : Type 0 where
  pub table : TableId
  pub path : X.UrlPath
  pub shards : List (ℕ × ShardInfo X)
  pub log : L.Log

-- The loop of `ShardSet::new`.
unfoldable pub load :
    {X : External} → List (ShardInfo X) → List (ℕ × ShardInfo X) → List (ℕ × ShardInfo X)
load [] m = m
load (s ∷ ss) m = load ss (BTreeMap.insert s.id s m)

abbrev pub is_closed : {X : External} → ShardInfo X → Bool
is_closed s = elim s.rows [ none ↦ false | some n ↦ true ]

module _ {X : External} {L : LogApi X} where
  -- `ShardSet::new`, of a table's id, path and shards
  unfoldable pub new : TableId → X.UrlPath → List (ShardInfo X) → L.Log → ShardSet L
  unfolding load
  new table path shards log = record {
    table = table;
    path = path;
    shards = load shards [];
    log = log;
  }

  -- `self.log.commit(tsn).await?`, then the rest of the method on the set with the log's new state.
  unfoldable pub committing {ℓ} :
      {A : Type ℓ}
      → Transaction X
      → (ShardSet L → ShardSet L × Result A)
      → ShardSet L
      → ShardSet L × Result A
  committing t rest s = elim (L.commit t s.log).1 [
    | ok _ ↦ rest (record s { log = (L.commit t s.log).0 })
    | err e ↦ (record s { log = (L.commit t s.log).0 }, err e)
  ]

  unfoldable pub create : ℕ → ℕ → Text → X.Schema → ShardSet L → ShardSet L × Result (ShardInfo X)
  unfolding committing new_create_shard shard_of_create
  create u i file schema s =
      let t = new_create_shard u i file s.table schema s.path in
      let shard = shard_of_create t in
      committing (create_shard t)
        (λ s. (record s { shards = BTreeMap.insert shard.id shard s.shards }, ok shard)) s

  -- A missing shard is only warned about, after the transaction has been committed.
  unfoldable pub close_one : ℕ → ℕ → ℕ → ShardSet L → ShardSet L × Result (Unit {0})
  unfolding committing close
  close_one u i rows s =
      committing (close_shard (record { uuid = u; table = s.table; shard = i; rows = rows }))
        (λ s. (record s { shards = BTreeMap.modify i (λ x. close x rows) s.shards }, ok tt)) s

  unfoldable pub delete : ℕ → ℕ → ShardSet L → ShardSet L × Result (Unit {0})
  unfolding committing
  delete u i s =
      committing (delete_shard (record { uuid = u; table = s.table; shard = i }))
        (λ s. (record s { shards = BTreeMap.remove i s.shards }, ok tt)) s

  unfoldable pub readable_shards : ShardSet L → List (ShardInfo X)
  readable_shards s = retain is_closed (BTreeMap.values s.shards)

  unfoldable pub all_shards : ShardSet L → List (ShardInfo X)
  all_shards s = BTreeMap.values s.shards

  -- `none` is the panic of `CompactShards::new` on an empty list of sources.
  unfoldable pub start_compact :
      ℕ → ℕ → Text → List ℕ → X.Schema → ShardSet L → Option (ShardSet L × Result (ShardInfo X))
  unfolding committing new_compact_shards shard_of_compact
  start_compact u d file src schema s =
      elim (new_compact_shards u d file s.table src schema s.path) [
        | none ↦ none
        | some t ↦
            let shard = shard_of_compact t in
            some (
              committing (compact_shards t)
                (λ s. (record s { shards = BTreeMap.insert shard.id shard s.shards }, ok shard)) s)
      ]

  -- The loop over the sources of `finish_compact`; `fresh k` is the k-th transaction id.
  unfoldable pub delete_sources : (ℕ → ℕ) → ℕ → List ℕ → ShardSet L → ShardSet L × Result (Unit {0})
  unfolding committing
  delete_sources fresh k [] s = (s, ok tt)
  delete_sources fresh k (i ∷ src) s =
      committing (delete_shard (record { uuid = fresh k; table = s.table; shard = i }))
        (λ s. delete_sources fresh (suc k) src (record s { shards = BTreeMap.remove i s.shards })) s

  unfoldable pub finish_compact :
      (ℕ → ℕ) → List ℕ → ℕ → ℕ → ShardSet L → ShardSet L × Result (Unit {0})
  unfolding committing close delete_sources
  finish_compact fresh src dst rows s =
      committing
        (close_shard (record { uuid = fresh 0; table = s.table; shard = dst; rows = rows }))
        (λ s.
          delete_sources fresh 1 src
            (record s { shards = BTreeMap.modify dst (λ x. close x rows) s.shards }))
        s

  -- The loop of `ShardManager::delete_all`, over the ids that `all_shards` listed.
  unfoldable pub delete_each :
      (ℕ → ℕ) → ℕ → List (ShardInfo X) → ShardSet L → ShardSet L × Result (Unit {0})
  unfolding delete
  delete_each fresh k [] s = (s, ok tt)
  delete_each fresh k (x ∷ xs) s = elim (delete (fresh k) x.id s).1 [
    | ok _ ↦ delete_each fresh (suc k) xs (delete (fresh k) x.id s).0
    | err e ↦ ((delete (fresh k) x.id s).0, err e)
  ]

  unfoldable pub delete_all : (ℕ → ℕ) → ShardSet L → ShardSet L × Result (Unit {0})
  unfolding delete_each all_shards
  delete_all fresh s = delete_each fresh 0 (all_shards s) s
