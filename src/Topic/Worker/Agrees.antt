-- ===== src/Topic/Worker/Agrees.antt =====
-- A compaction (`compact_shards` of ella-engine/src/table/topic/shard/compact.rs) against the
-- transaction log, however its steps end.
use ella.Prelude.{
  ℕ, suc, ◌<◌, ◌≡◌, refl, ◌≢◌, sym, ◌∙◌, Text, none, some, List, [], ◌∷◌, map, arith, inl, inr,
  Option-cases,
}
use ella.Prelude.BTreeMap
use ella.Prelude.Result.{EngineError, Result, ok, err, ◌>>=◌, Result-cases}
use ella.External.{External}
use ella.Registry.Info.{new_shard, ShardInfo}
use ella.Registry.Transaction.{
  Transaction, new_compact_shards, compact_shards, shard_of_compact, uuid,
}
use ella.Registry.LogApi.{LogApi}
use ella.Registry.Snapshot.{Snapshot}
use ella.Topic.ShardSet.{ShardSet, start_compact, committing}
use ella.Topic.ShardSet.Refinement.{Agrees, IsFresh, delete-Agrees}
use ella.Topic.ShardSet.Compaction.{
  compacting, started-eq, IsFresh-next, start_compact-Agrees, finish_compact-Agrees,
}
use ella.Topic.Worker.{ShardFiles, schema_changed, after_copy, after_start, compact_all}
use mathlib.Core.Path.{subst}
use mathlib.Core.Option.{some-injective}

get-insert_there :
    {V : Type 0} (d : ℕ) (x : V) (m : List (ℕ × V))
    → BTreeMap.get d (BTreeMap.insert d x m) ≡ some x
unfolding BTreeMap.get BTreeMap.insert
get-insert_there d x [] = ground arith
get-insert_there d x ((j, y) ∷ m) = ground (arith, get-insert_there d x m)

err-ne-ok : {V : Type 0} (e : EngineError) (v : V) → err e ≡ ok v → ⊥
err-ne-ok e v h = cc

target-there :
    {X : External} (x dst : ShardInfo X) (m : List (ℕ × ShardInfo X))
    → ok x ≡ ok dst
    → BTreeMap.get dst.id (BTreeMap.insert x.id x m) ≢ none
target-there x dst m h g = let there = get-insert_there x.id x m in cc

module _ {X : External} {L : LogApi X} {A : Type 0} (t : Transaction X)
    (rest : ShardSet L → ShardSet L × Result A) (s : ShardSet L) where
  committing-ok :
      (L.commit t s.log).1 ≡ ok tt
      → committing t rest s ≡ rest (record s { log = (L.commit t s.log).0 })
  unfolding committing
  committing-ok h = rw (committing, h) refl

  committing-err :
      (e : EngineError)
      → (L.commit t s.log).1 ≡ err e
      → committing t rest s ≡ (record s { log = (L.commit t s.log).0 }, err e)
  unfolding committing
  committing-err e h = rw (committing, h) refl

module _ {X : External} {L : LogApi X} (base : Snapshot X) (F : ShardFiles X) (fresh : ℕ → ℕ)
    (rising : (k : ℕ) → fresh k < fresh (suc k)) where
  -- What the start of a compaction gives the later steps: a target in memory, and a fresh next id.
  pub record IsStarted (r : ShardSet L × Result (ShardInfo X)) : Type 0 where
    pub agrees : Agrees base r.0
    pub next : (dst : ShardInfo X) → r.1 ≡ ok dst → IsFresh base r.0 (fresh 1)
    pub there : (dst : ShardInfo X) → r.1 ≡ ok dst → BTreeMap.get dst.id r.0.shards ≢ none

  after_copy-Agrees :
      (sources : List (ShardInfo X)) (dst : ShardInfo X) (rows : Result ℕ) (s : ShardSet L)
      → Agrees base s
      → IsFresh base s (fresh 1)
      → BTreeMap.get dst.id s.shards ≢ none
      → Agrees base (after_copy F fresh sources dst rows s).0
  unfolding after_copy
  after_copy-Agrees sources dst (ok n) s a f there =
      finish_compact-Agrees base (λ k. fresh (suc k)) (λ k. rising (suc k))
        (map (λ x. x.id) sources) dst.id n s a f there
  after_copy-Agrees sources dst (err e) s a f there = delete-Agrees base s a (fresh 1) dst.id f

  after_start-Agrees :
      (sources : List (ShardInfo X)) (schema : X.Schema) (r : ShardSet L × Result (ShardInfo X))
      → IsStarted r
      → Agrees base (after_start F fresh sources schema r).0
  unfolding after_start
  after_start-Agrees sources schema (s, err e) h = h.agrees
  after_start-Agrees sources schema (s, ok dst) h =
      elim (Result-cases
        (schema_changed F schema sources >>= λ c. F.open_target dst >>= λ _. ok c)) [
          | inl (c, e) ↦
              rw (after_start, e)
                (after_copy-Agrees sources dst (F.compact_rows c sources dst) s h.agrees
                  (h.next dst refl) (h.there dst refl))
          | inr (x, e) ↦ rw (after_start, e) h.agrees
        ]

  start_compact-IsStarted :
      (d : ℕ) (file : Text) (src : List ℕ) (schema : X.Schema) (s : ShardSet L)
      (r : ShardSet L × Result (ShardInfo X))
      → Agrees base s
      → IsFresh base s (fresh 0)
      → BTreeMap.get d s.shards ≡ none
      → start_compact (fresh 0) d file src schema s ≡ some r
      → IsStarted r
  unfolding start_compact new_compact_shards uuid shard_of_compact new_shard
  start_compact-IsStarted d file [] schema s r a f absent e = cc
  start_compact-IsStarted d file (k ∷ src) schema s r a f absent e =
      let t = compacting (fresh 0) d file s.table k src schema s.path in
      let shard = shard_of_compact t in
      let eq = started-eq (fresh 0) d file k src schema s r e in
      let ag : Agrees base r.0 =
        start_compact-Agrees base (fresh 0) d file (k ∷ src) schema s r a f absent e in
      let rest : ShardSet L → ShardSet L × Result (ShardInfo X) =
        λ s. (record s { shards = BTreeMap.insert shard.id shard s.shards }, ok shard) in
      elim (Result-cases (L.commit (compact_shards t) s.log).1) [
        | inl (_, c) ↦
            let q = sym (committing-ok (compact_shards t) rest s c) ∙ eq in
            subst IsStarted q (record {
              agrees = subst (λ x. Agrees base x.0) (sym q) ag;
              next = λ dst h. IsFresh-next base s (compact_shards t) (fresh 1) _ f (rising 0) c;
              there = λ dst h. target-there shard dst s.shards h;
            })
        | inr (x, c) ↦
            let q = sym (committing-err (compact_shards t) rest s x c) ∙ eq in
            subst IsStarted q (record {
              agrees = subst (λ x. Agrees base x.0) (sym q) ag;
              next = λ dst h. absurd (err-ne-ok x dst h);
              there = λ dst h. absurd (err-ne-ok x dst h);
            })
      ]

  -- Where memory and log agree, a compaction that does not panic, under rising transaction ids of
  -- which the first is newer than the log, and onto a shard id that memory does not have, keeps
  -- them in agreement: also when a step on the files fails, or the log refuses a transaction.
  pub compact_all-Agrees :
      (d : ℕ) (file : Text) (sources : List (ShardInfo X)) (schema : X.Schema) (s : ShardSet L)
      (r : ShardSet L × Result (Unit {0}))
      → Agrees base s
      → IsFresh base s (fresh 0)
      → BTreeMap.get d s.shards ≡ none
      → compact_all F fresh d file sources schema s ≡ some r
      → Agrees base r.0
  unfolding compact_all
  compact_all-Agrees d file sources schema s r a f absent e =
      let ids : List ℕ = map (λ x. x.id) sources in
      elim (Option-cases (start_compact (fresh 0) d file ids schema s)) [
        | inl e' ↦ cc (rw (compact_all, e') at e)
        | inr (q, e') ↦
            subst (λ x. Agrees base x.0) (some-injective _ r (rw (compact_all, e') at e))
              (after_start-Agrees sources schema q
                (start_compact-IsStarted d file ids schema s q a f absent e'))
      ]
