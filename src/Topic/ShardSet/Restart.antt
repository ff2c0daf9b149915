-- ===== src/Topic/ShardSet/Restart.antt =====
-- Loading the shards of a topic (`ShardSet::new` of ella-engine/src/table/topic/shard.rs).
use ella.Prelude.{
  ℕ, ◌<◌, ◌≡◌, refl, sym, ap, ◌∙◌, List, [], ◌∷◌, ◌++◌, All, All-append, append_assoc, append_nil,
  arith,
}
use ella.Prelude.BTreeMap
use ella.Prelude.Result.{ok}
use ella.External.{External}
use ella.Registry.Id.{TableId}
use ella.Registry.Info.{ShardInfo, TopicInfo}
use ella.Registry.Info.Ordered.{IsShardList, Above}
use ella.Registry.LogApi.{LogApi}
use ella.Registry.Snapshot.{Snapshot, commit_all}
use ella.Registry.Snapshot.Lookup.{Leads}
use ella.Topic.ShardSet.{load, new}
use ella.Topic.ShardSet.Entries.{entries}
use ella.Topic.ShardSet.Refinement.{Agrees}

-- Every key of the map is smaller than `k`.
abbrev AllBelow : {X : External} → ℕ → List (ℕ × ShardInfo X) → Type 0
AllBelow {X} k = All (λ (e : ℕ × ShardInfo X). e.0 < k)

module _ {X : External} where
  insert_last :
      (k : ℕ) (s : ShardInfo X) (m : List (ℕ × ShardInfo X))
      → AllBelow k m
      → BTreeMap.insert k s m ≡ m ++ (k, s) ∷ []
  unfolding BTreeMap.insert
  insert_last k s [] h = refl
  insert_last k s (e ∷ m) h = ground (arith, insert_last k s m h.1)

  extended :
      (s : ShardInfo X) (m : List (ℕ × ShardInfo X)) (ss : List (ShardInfo X))
      → Above s.id ss
      → All (λ (x : ShardInfo X). AllBelow x.id m) ss
      → All (λ (x : ShardInfo X). AllBelow x.id (m ++ (s.id, s) ∷ [])) ss
  extended s m [] a h = tt
  extended s m (x ∷ ss) a h =
      (All-append (λ (e : ℕ × ShardInfo X). e.0 < x.id) m _ h.0 (a.0, tt), extended s m ss a.1 h.1)

  -- Loading ordered shards after smaller ones puts their entries behind.
  load-entries :
      (i : TableId) (ss : List (ShardInfo X)) (m : List (ℕ × ShardInfo X))
      → IsShardList i ss
      → All (λ (s : ShardInfo X). AllBelow s.id m) ss
      → load ss m ≡ m ++ entries ss
  unfolding load
  load-entries i [] m o h = sym (append_nil m)
  load-entries i (s ∷ ss) m o h = rw (insert_last s.id s m h.0) (
      load-entries i ss (m ++ (s.id, s) ∷ []) o.2 (extended s m ss o.1 h.1)
      ∙ append_assoc m ((s.id, s) ∷ []) (entries ss))

  values-entries : (ss : List (ShardInfo X)) → BTreeMap.values (entries ss) ≡ ss
  unfolding BTreeMap.values
  values-entries [] = refl
  values-entries (s ∷ ss) = ap (λ rs. s ∷ rs) (values-entries ss)

  all_below : (ss : List (ShardInfo X)) → All (λ (s : ShardInfo X). AllBelow {X = X} s.id []) ss
  all_below [] = tt
  all_below (s ∷ ss) = (tt, all_below ss)

  -- Loading ordered shards and listing them gives them back.
  pub values-load :
      (i : TableId) (ss : List (ShardInfo X)) → IsShardList i ss → BTreeMap.values (load ss []) ≡ ss
  values-load i ss o = rw (load-entries i ss [] o (all_below ss)) (values-entries ss)

  -- Where replaying the log succeeds and leads to a topic whose shards are in order, the shard set
  -- that is loaded from that topic agrees with the log: this is the state of a topic after a
  -- restart.
  pub new-Agrees :
      (L : LogApi X) (base snapshot : Snapshot X) (table : TableId) (path : X.UrlPath)
      (info : TopicInfo X) (log : L.Log)
      → commit_all (L.replayed log) base ≡ (snapshot, ok tt)
      → Leads table info snapshot.catalogs
      → IsShardList table info.shards
      → Agrees base (new {L = L} table path info.shards log)
  unfolding new
  new-Agrees L base snapshot table path info log h l o = record {
    snapshot = snapshot;
    replays = h;
    info = info;
    leads = l;
    in_order = o;
    same = load-entries table info.shards [] o (all_below info.shards);
  }
