-- ===== src/Topic/ShardSet/Refinement.antt =====
-- The shards in memory (ella-engine/src/table/topic/shard.rs) against the shards that a restart would
-- load from the transaction log (ella-engine/src/registry/snapshot.rs).
use ella.Prelude.{
  ℕ, ◌≡◌, refl, ◌∙◌, ◌≢◌, Text, false, not, none, some, List, retain, ◌==◌, inl, inr, Option-cases,
}
use ella.Prelude.BTreeMap
use ella.Prelude.Result.{EngineError, Result, ok, err, Result-cases}
use ella.External.{External}
use ella.Registry.Info.{ShardInfo, TopicInfo, close, insert_shard, shard_mut}
use ella.Registry.Info.Shards.{insert, modify, insert_shard_lem, shard_mut_lem}
use ella.Registry.Info.Ordered.{
  IsShardList, insert-IsShardList, modify-IsShardList, retain-IsShardList,
}
use ella.Registry.Transaction.{
  Transaction, create_shard, close_shard, delete_shard, new_create_shard, shard_of_create, uuid,
}
use ella.Registry.LogApi.{LogApi, IsNewest}
use ella.Registry.Snapshot.{Snapshot, CatalogState, apply, commit_all, outdated, in_topic}
use ella.Registry.Snapshot.Lookup.{Leads, set_topic}
use ella.Registry.Snapshot.Write.{in_topic-ok, Leads-set_topic}
use ella.Registry.Snapshot.Replay.{commit-ok, commit_all-append, commit_all-not_outdated}
use ella.Topic.ShardSet.{ShardSet, committing, create, close_one, delete}
use ella.Topic.ShardSet.Entries.{
  entries, insert-entries, modify-entries, remove-entries, insert-ne-none, modify-ne-none,
}

module _ {X : External} {L : LogApi X} where
  -- Replaying the log from the base snapshot succeeds, and leads to a topic whose shards are the
  -- entries in memory.
  pub record Agrees (base : Snapshot X) (s : ShardSet L) : Type 0 where
    pub snapshot : Snapshot X
    pub replays : commit_all (L.replayed s.log) base ≡ (snapshot, ok tt)
    pub info : TopicInfo X
    pub leads : Leads s.table info snapshot.catalogs
    pub in_order : IsShardList s.table info.shards
    pub same : s.shards ≡ entries info.shards

  -- The id is newer than the base snapshot and than every transaction in the log.
  pub record IsFresh (base : Snapshot X) (s : ShardSet L) (u : ℕ) : Type 0 where
    pub after_base : outdated u base.last_transaction ≡ false
    pub newest : IsNewest u (L.replayed s.log)

  module _ (base : Snapshot X) (s : ShardSet L) (agrees : Agrees base s) (t : Transaction X)
      (fresh : IsFresh base s (uuid t)) (f : TopicInfo X → Result (TopicInfo X))
      (applies : (cs : List (CatalogState X)) → apply t cs ≡ in_topic s.table f cs) where
    pub not_outdated : outdated (uuid t) agrees.snapshot.last_transaction ≡ false
    not_outdated =
        rw agrees.replays at
          (commit_all-not_outdated (uuid t) (L.replayed s.log) base fresh.newest fresh.after_base)

    -- A transaction on the topic that the log accepted takes the replay to the topic's new value.
    accepted-Agrees :
        (v : TopicInfo X) (m : List (ℕ × ShardInfo X))
        → f agrees.info ≡ ok v
        → IsShardList s.table v.shards
        → m ≡ entries v.shards
        → (L.commit t s.log).1 ≡ ok tt
        → Agrees base (record s { shards = m; log = (L.commit t s.log).0 })
    accepted-Agrees v m e h same k = record {
      snapshot = record agrees.snapshot {
        last_transaction = some (uuid t);
        catalogs = set_topic s.table agrees.info v agrees.snapshot.catalogs agrees.leads;
      };
      replays = rw (L.replayed-commit t s.log k fresh.newest) (
          commit_all-append (L.replayed s.log) t base agrees.snapshot _ agrees.replays (
            commit-ok t agrees.snapshot _ not_outdated (
              applies agrees.snapshot.catalogs
              ∙ in_topic-ok s.table agrees.info agrees.snapshot.catalogs agrees.leads f v e)));
      info = v;
      leads = Leads-set_topic s.table agrees.info agrees.snapshot.catalogs agrees.leads v;
      in_order = h;
      same = same;
    }

  pub committing_cases :
      {A : Type 0} (P : ShardSet L → Type 0) (t : Transaction X)
      (rest : ShardSet L → ShardSet L × Result A) (s : ShardSet L)
      → ((L.commit t s.log).1 ≡ ok tt → P (rest (record s { log = (L.commit t s.log).0 })).0)
      → ((e : EngineError)
          → (L.commit t s.log).1 ≡ err e
          → P (record s { log = (L.commit t s.log).0 }))
      → P (committing t rest s).0
  unfolding committing
  committing_cases P t rest s h k = elim (Result-cases (L.commit t s.log).1) [
    | inl (_, e) ↦ rw (e, committing) (h e)
    | inr (x, e) ↦ rw (e, committing) (k x e)
  ]

  module _ (base : Snapshot X) (s : ShardSet L) (agrees : Agrees base s) where
    -- A transaction that the log refused changes neither side.
    pub refused-Agrees :
        (t : Transaction X) (e : EngineError)
        → (L.commit t s.log).1 ≡ err e
        → Agrees base (record s { log = (L.commit t s.log).0 })
    refused-Agrees t e k = record {
      snapshot = agrees.snapshot;
      replays = rw (L.replayed-commit_err t s.log e k) agrees.replays;
      info = agrees.info;
      leads = agrees.leads;
      in_order = agrees.in_order;
      same = agrees.same;
    }

    module _ (t : Transaction X) (fresh : IsFresh base s (uuid t)) (shard : ShardInfo X)
        (owned : shard.table ≡ s.table)
        (applies : (cs : List (CatalogState X))
          → apply t cs ≡ in_topic s.table (insert_shard shard) cs)
        (absent : BTreeMap.get shard.id s.shards ≡ none) where
      absent' : insert shard agrees.info.shards ≢ none
      absent' = insert-ne-none shard agrees.info.shards (rw agrees.same at absent)

      pub inserting-Agrees :
          (L.commit t s.log).1 ≡ ok tt
          → Agrees base (record s {
            shards = BTreeMap.insert shard.id shard s.shards;
            log = (L.commit t s.log).0;
          })
      inserting-Agrees k = elim (Option-cases (insert shard agrees.info.shards)) [
        | inl e ↦ absurd (absent' e)
        | inr (ss, e) ↦
            accepted-Agrees base s agrees t fresh (insert_shard shard) applies
              (record agrees.info { shards = ss }) _
              (rw (insert_shard_lem shard agrees.info, e) refl)
              (rw e at (insert-IsShardList s.table shard agrees.info.shards owned agrees.in_order))
              (rw agrees.same (insert-entries shard agrees.info.shards ss e)) k
      ]

    -- Where memory and log agree, creating a shard under a transaction id newer than the log and a
    -- shard id that memory does not have keeps them in agreement, whether or not the log accepts
    -- the transaction.
    pub create-Agrees :
        (u i : ℕ) (file : Text) (schema : X.Schema)
        → IsFresh base s u
        → BTreeMap.get i s.shards ≡ none
        → Agrees base (create u i file schema s).0
    unfolding create uuid
    create-Agrees u i file schema fresh absent =
        let t = new_create_shard u i file s.table schema s.path in
        let shard = shard_of_create t in
        committing_cases (Agrees base) (create_shard t)
          (λ s. (record s { shards = BTreeMap.insert shard.id shard s.shards }, ok shard)) s
          (inserting-Agrees (create_shard t) fresh shard refl (λ cs. unfold apply in refl) absent)
          (refused-Agrees (create_shard t))

    module _ (t : Transaction X) (fresh : IsFresh base s (uuid t)) (i n : ℕ)
        (applies : (cs : List (CatalogState X))
          → apply t cs ≡ in_topic s.table (shard_mut i (λ x. close x n)) cs) where
      pub closing-Agrees :
          BTreeMap.get i s.shards ≢ none
          → (L.commit t s.log).1 ≡ ok tt
          → Agrees base (record s {
            shards = BTreeMap.modify i (λ x. close x n) s.shards;
            log = (L.commit t s.log).0;
          })
      unfolding close
      closing-Agrees there k = elim (Option-cases (modify i (λ x. close x n) agrees.info.shards)) [
        | inl e ↦ absurd (
            modify-ne-none s.table i (λ x. close x n) agrees.info.shards agrees.in_order
              (rw agrees.same at there) e)
        | inr (ss, e) ↦
            accepted-Agrees base s agrees t fresh (shard_mut i (λ x. close x n)) applies
              (record agrees.info { shards = ss }) _
              (rw (shard_mut_lem i (λ x. close x n) agrees.info, e) refl)
              (rw e at (
                modify-IsShardList (λ x. close x n) (λ x. refl) (λ x. refl) s.table i
                  agrees.info.shards agrees.in_order))
              (rw agrees.same
                (modify-entries i (λ x. close x n) (λ x. refl) agrees.info.shards ss e))
              k
      ]

    -- Where memory and log agree, closing a shard that memory has, under a transaction id newer
    -- than the log, keeps them in agreement, whether or not the log accepts the transaction.
    pub close_one-Agrees :
        (u i rows : ℕ)
        → IsFresh base s u
        → BTreeMap.get i s.shards ≢ none
        → Agrees base (close_one u i rows s).0
    unfolding close_one uuid
    close_one-Agrees u i rows fresh there =
        let t = close_shard (record { uuid = u; table = s.table; shard = i; rows = rows }) in
        committing_cases (Agrees base) t
          (λ s. (record s { shards = BTreeMap.modify i (λ x. close x rows) s.shards }, ok tt)) s
          (closing-Agrees t fresh i rows (λ cs. unfold apply in refl) there) (refused-Agrees t)

    pub deleting-Agrees :
        (u i : ℕ)
        → IsFresh base s u
        → (L.commit (delete_shard (record { uuid = u; table = s.table; shard = i })) s.log).1
          ≡ ok tt
        → Agrees base (record s {
          shards = BTreeMap.remove i s.shards;
          log = (L.commit (delete_shard (record { uuid = u; table = s.table; shard = i })) s.log).0;
        })
    unfolding uuid
    deleting-Agrees u i fresh k =
        accepted-Agrees base s agrees
          (delete_shard (record { uuid = u; table = s.table; shard = i })) fresh
          (λ x. ok (record x { shards = retain (λ y. not (y.id == i)) x.shards }))
          (λ cs. unfold apply in refl)
          (record agrees.info { shards = retain (λ y. not (y.id == i)) agrees.info.shards }) _ refl
          (retain-IsShardList _ s.table agrees.info.shards agrees.in_order)
          (rw agrees.same (remove-entries s.table i agrees.info.shards agrees.in_order)) k

    -- Where memory and log agree, deleting a shard, there or not, under a transaction id newer
    -- than the log keeps them in agreement, whether or not the log accepts the transaction.
    pub delete-Agrees : (u i : ℕ) → IsFresh base s u → Agrees base (delete u i s).0
    unfolding delete
    delete-Agrees u i fresh =
        let t = delete_shard (record { uuid = u; table = s.table; shard = i }) in
        committing_cases (Agrees base) t
          (λ s. (record s { shards = BTreeMap.remove i s.shards }, ok tt)) s
          (deleting-Agrees u i fresh) (refused-Agrees t)
