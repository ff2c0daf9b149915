-- ===== src/Topic/ShardSet/Compaction.antt =====
-- Compaction (`start_compact`, `finish_compact` of ella-engine/src/table/topic/shard.rs) and the loops
-- over shards, against the transaction log.
use ella.Prelude.{
  ℕ, suc, ◌<◌, ◌≡◌, refl, ◌≢◌, Text, Option, none, some, List, [], ◌∷◌, All-append, arith, ap,
  false,
}
use ella.Prelude.BTreeMap
use ella.Prelude.Result.{Result, ok, err, shard_not_found}
use ella.External.{External}
use ella.Registry.Id.{TableId}
use ella.Registry.Info.{ShardInfo, TopicInfo, close, shard_mut}
use ella.Registry.Info.Shards.{shard_mut_lem}
use ella.Registry.Transaction.{
  Transaction, close_shard, delete_shard, compact_shards, new_compact_shards, shard_of_compact,
  uuid, CompactShards,
}
use ella.Registry.LogApi.{LogApi, IsNewest}
use ella.Registry.Snapshot.{Snapshot, apply, commit_all, outdated, CatalogState, in_topic}
use ella.Registry.Snapshot.Write.{in_topic-err}
use ella.Registry.Snapshot.Lookup.{Leads}
use ella.Registry.Snapshot.Replay.{commit-err, commit_all-append}
use ella.Topic.ShardSet.{
  ShardSet, committing, close_one, start_compact, finish_compact, delete_sources,
}
use ella.Topic.ShardSet.Entries.{entries, modify-eq-none}
use mathlib.Core.Path.{subst}
use mathlib.Core.Option.{some-injective}
use ella.Topic.ShardSet.Refinement.{
  Agrees, IsFresh, not_outdated, committing_cases, refused-Agrees, inserting-Agrees, closing-Agrees,
  deleting-Agrees,
}

IsNewest-mono :
    {X : External} (u v : ℕ) (ts : List (Transaction X)) → u < v → IsNewest u ts → IsNewest v ts
IsNewest-mono u v [] h n = tt
IsNewest-mono u v (t ∷ ts) h n = (omega arith, IsNewest-mono u v ts h n.1)

outdated_mono : (u v : ℕ) (o : Option ℕ) → u < v → outdated u o ≡ false → outdated v o ≡ false
outdated_mono u v none h e = refl
outdated_mono u v (some l) h e = ground arith

module _ {X : External} where
  missing_err :
      (table : TableId) (i rows : ℕ) (t : TopicInfo X) (cs : List (CatalogState X))
      → Leads table t cs
      → BTreeMap.get i (entries t.shards) ≡ none
      → in_topic table (shard_mut i (λ x. close x rows)) cs ≡ err (shard_not_found i)
  missing_err table i rows t cs l absent =
      in_topic-err table t cs l (shard_mut i (λ x. close x rows)) (shard_not_found i) (
        rw
          (
            shard_mut_lem i (λ x. close x rows) t,
            modify-eq-none i (λ x. close x rows) t.shards absent,
          )
          refl)

-- `CompactShards::new` on a list that starts with `k`.
abbrev pub compacting :
    {X : External} → ℕ → ℕ → Text → TableId → ℕ → List ℕ → X.Schema → X.UrlPath → CompactShards X
compacting {X} u d file table k src schema root = record {
  uuid = u;
  table = table;
  src = k ∷ src;
  dst = d;
  file_schema = schema;
  path = X.join root file;
}

module _ {X : External} {L : LogApi X} where
  pub started-eq :
      (u d : ℕ) (file : Text) (k : ℕ) (src : List ℕ) (schema : X.Schema) (s : ShardSet L)
      (r : ShardSet L × Result (ShardInfo X))
      → start_compact u d file (k ∷ src) schema s ≡ some r
      → committing
          (compact_shards (compacting u d file s.table k src schema s.path))
          (let shard = shard_of_compact (compacting u d file s.table k src schema s.path) in
            λ s. (record s { shards = BTreeMap.insert shard.id shard s.shards }, ok shard))
          s
        ≡ r
  unfolding start_compact new_compact_shards
  started-eq u d file k src schema s r e = some-injective _ r e

module _ {X : External} {L : LogApi X} (base : Snapshot X) where
  -- After a transaction was accepted, a later id is fresh.
  pub IsFresh-next :
      (s : ShardSet L) (t : Transaction X) (v : ℕ) (m : List (ℕ × ShardInfo X))
      → IsFresh base s (uuid t)
      → uuid t < v
      → (L.commit t s.log).1 ≡ ok tt
      → IsFresh base (record s { shards = m; log = (L.commit t s.log).0 }) v
  IsFresh-next s t v m f h k = record {
    after_base = outdated_mono (uuid t) v base.last_transaction h f.after_base;
    newest =
        rw (L.replayed-commit t s.log k f.newest)
          (All-append _ (L.replayed s.log) _ (IsNewest-mono (uuid t) v _ h f.newest) (h, tt));
  }

  module _ (fresh : ℕ → ℕ) (rising : (k : ℕ) → fresh k < fresh (suc k)) where
    -- Deleting the sources keeps memory and log in agreement, wherever the loop ends.
    pub delete_sources-Agrees :
        (k : ℕ) (src : List ℕ) (s : ShardSet L)
        → Agrees base s
        → IsFresh base s (fresh k)
        → Agrees base (delete_sources fresh k src s).0
    unfolding delete_sources uuid
    delete_sources-Agrees k [] s a f = a
    delete_sources-Agrees k (i ∷ src) s a f =
        let t = delete_shard (record { uuid = fresh k; table = s.table; shard = i }) in
        committing_cases (Agrees base) t
          (λ s. delete_sources fresh (suc k) src (record s { shards = BTreeMap.remove i s.shards }))
          s
          (λ e.
            delete_sources-Agrees (suc k) src _ (deleting-Agrees base s a (fresh k) i f e)
              (IsFresh-next s t (fresh (suc k)) _ f (rising k) e))
          (refused-Agrees base s a t)

    -- Where memory and log agree, finishing a compaction whose target memory has, under rising
    -- transaction ids of which the first is newer than the log, keeps them in agreement, also when
    -- the log refuses one of the transactions.
    pub finish_compact-Agrees :
        (src : List ℕ) (dst rows : ℕ) (s : ShardSet L)
        → Agrees base s
        → IsFresh base s (fresh 0)
        → BTreeMap.get dst s.shards ≢ none
        → Agrees base (finish_compact fresh src dst rows s).0
    unfolding finish_compact uuid
    finish_compact-Agrees src dst rows s a f there =
        let t =
          close_shard (record { uuid = fresh 0; table = s.table; shard = dst; rows = rows }) in
        committing_cases (Agrees base) t
          (λ s.
            delete_sources fresh 1 src
              (record s { shards = BTreeMap.modify dst (λ x. close x rows) s.shards }))
          s
          (λ e.
            delete_sources-Agrees 1 src _
              (closing-Agrees base s a t f dst rows (λ cs. unfold apply in refl) there e)
              (IsFresh-next s t (fresh 1) _ f (rising 0) e))
          (refused-Agrees base s a t)

  -- Where memory and log agree, starting a compaction that does not panic, under a transaction id
  -- newer than the log and onto a shard id that memory does not have, keeps them in agreement,
  -- whether or not the log accepts the transaction.
  pub start_compact-Agrees :
      (u d : ℕ) (file : Text) (src : List ℕ) (schema : X.Schema) (s : ShardSet L)
      (r : ShardSet L × Result (ShardInfo X))
      → Agrees base s
      → IsFresh base s u
      → BTreeMap.get d s.shards ≡ none
      → start_compact u d file src schema s ≡ some r
      → Agrees base r.0
  unfolding start_compact uuid new_compact_shards
  start_compact-Agrees u d file [] schema s r a f absent e = cc
  start_compact-Agrees u d file (k ∷ src) schema s r a f absent e =
      let t = compacting u d file s.table k src schema s.path in
      let shard = shard_of_compact t in
      subst (λ r. Agrees base r.0) (started-eq u d file k src schema s r e)
        (committing_cases (Agrees base) (compact_shards t)
          (λ s. (record s { shards = BTreeMap.insert shard.id shard s.shards }, ok shard)) s
          (inserting-Agrees base s a (compact_shards t) f shard refl (λ cs. unfold apply in refl)
            absent)
          (refused-Agrees base s a (compact_shards t)))

  -- Where memory and log agree, closing a shard that memory does not have, under a transaction id
  -- newer than the log and which the log accepts, succeeds, but leaves a log whose replay fails
  -- with `ShardNotFound`.
  pub close_one_missing :
      (s : ShardSet L) (u i rows : ℕ)
      → Agrees base s
      → IsFresh base s u
      → BTreeMap.get i s.shards ≡ none
      → (L.commit
          (close_shard (record { uuid = u; table = s.table; shard = i; rows = rows }))
          s.log).1
        ≡ ok tt
      → ((close_one u i rows s).1 ≡ ok tt)
        × ((commit_all (L.replayed (close_one u i rows s).0.log) base).1 ≡ err (shard_not_found i))
  unfolding close_one committing uuid
  close_one_missing s u i rows a f absent k =
      let t = close_shard (record { uuid = u; table = s.table; shard = i; rows = rows }) in
      rw (k, close_one, committing)
        (
          refl,
          rw (L.replayed-commit t s.log k f.newest) (
              ap (λ r. r.1)
                (commit_all-append (L.replayed s.log) t base a.snapshot _ a.replays (
                  commit-err t a.snapshot (shard_not_found i)
                    (not_outdated base s a t f (shard_mut i (λ x. close x rows))
                      (λ cs. unfold apply in refl))
                    (unfold apply in
                      missing_err s.table i rows a.info a.snapshot.catalogs a.leads
                        (rw a.same at absent))))),
        )
