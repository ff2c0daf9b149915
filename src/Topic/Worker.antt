-- ===== src/Topic/Worker.antt =====
-- `compact_shards` of ella-engine/src/table/topic/shard/compact.rs: the compaction of a list of shards
-- into a new one, with the steps that read and write Parquet files as parameters. The shard set is
-- locked by each of its methods; here nothing else changes it between them.
pub mod Agrees
use ella.Prelude.{
  ℕ, suc, Bool, true, false, Text, Option, none, some, List, [], ◌∷◌, map, if◌then◌else◌,
}
use ella.Prelude.Result.{Result, ok, err, ◌>>=◌}
use ella.External.{External}
use ella.Registry.Info.{ShardInfo}
use ella.Registry.LogApi.{LogApi}
use ella.Topic.ShardSet.{ShardSet, start_compact, finish_compact, delete}

-- The calls of the object store and of parquet: the schema in a source's file, the test whether it is
-- the table's, the opening of the target's file, the copy of the rows, whether or not the schema
-- changed, with the number of rows it wrote, and the removal of files.
pub record ShardFiles (X : External) : Type 0 where
  pub file_schema : ShardInfo X → Result X.Schema
  pub same_schema : X.Schema → X.Schema → Bool
  pub open_target : ShardInfo X → Result (Unit {0})
  pub compact_rows : Bool → List (ShardInfo X) → ShardInfo X → Result ℕ
  pub delete_files : List (ShardInfo X) → Result (Unit {0})
  pub abort_target : ShardInfo X → Result (Unit {0})

module _ {X : External} (F : ShardFiles X) where
  -- The loop over the sources, which ends at the first schema that is not the table's.
  unfoldable pub schema_changed : X.Schema → List (ShardInfo X) → Result Bool
  schema_changed schema [] = ok false
  schema_changed schema (s ∷ ss) =
      let rest = schema_changed schema ss in
      F.file_schema s >>= λ found. if F.same_schema found schema then rest else ok true

  module _ {L : LogApi X} where
    -- The `match` on the result of the copy.
    unfoldable pub after_copy :
        (ℕ → ℕ)
        → List (ShardInfo X)
        → ShardInfo X
        → Result ℕ
        → ShardSet L
        → ShardSet L × Result (Unit {0})
    after_copy fresh sources dst (ok rows) s =
        let r = finish_compact (λ k. fresh (suc k)) (map (λ x. x.id) sources) dst.id rows s in
        (r.0, r.1 >>= λ _. F.delete_files sources)
    after_copy fresh sources dst (err e) s =
        let r = delete (fresh 1) dst.id s in (r.0, r.1 >>= λ _. F.abort_target dst >>= λ _. err e)

    -- The `?` of the steps before the copy return with the target in place.
    unfoldable pub after_start :
        (ℕ → ℕ)
        → List (ShardInfo X)
        → X.Schema
        → ShardSet L × Result (ShardInfo X)
        → ShardSet L × Result (Unit {0})
    unfolding schema_changed after_copy
    after_start fresh sources schema (s, err e) = (s, err e)
    after_start fresh sources schema (s, ok dst) =
        elim (schema_changed schema sources >>= λ c. F.open_target dst >>= λ _. ok c) [
          | err e ↦ (s, err e)
          | ok c ↦ after_copy fresh sources dst (F.compact_rows c sources dst) s
        ]

    -- `compact_shards`, with the fresh shard id and file name of the target; `fresh k` is the k-th
    -- transaction id. `none` is the panic of `CompactShards::new` on an empty list of sources.
    unfoldable pub compact_all :
        (ℕ → ℕ)
        → ℕ
        → Text
        → List (ShardInfo X)
        → X.Schema
        → ShardSet L
        → Option (ShardSet L × Result (Unit {0}))
    unfolding after_start
    compact_all fresh d file sources schema s =
        elim (start_compact (fresh 0) d file (map (λ x. x.id) sources) schema s) [
          | none ↦ none
          | some r ↦ some (after_start fresh sources schema r)
        ]
