-- ===== src/Examples/Snapshots.antt =====
-- The catalog tree of the small datastore.
use ella.Prelude.{
  All, ◌≡◌, refl, ◌≢◌, codes, true, none, some, List, [], ◌∷◌, if◌then◌else◌, eq_text,
}
use ella.Prelude.Result.{EngineError, ok, err}
use ella.Registry.Id.{Ident, TableId}
use ella.Registry.Info.{TopicInfo, insert_shard, search_shard}
use ella.Registry.Info.Builder.{TopicBuilder, new_topic}
use ella.Registry.Transaction.{create_shard, drop_catalog, DropCatalog, uuid}
use ella.Registry.Snapshot.{
  CatalogState, commit, commit_all, apply, in_topic, schema_mut, table_mut, topic_mut, modify_first,
}
use ella.Registry.Snapshot.Lookup.{Leads, catalog_at, table_at}
use ella.Registry.Snapshot.Write.{in_topic-writes}
use ella.Registry.Snapshot.Invariant.{IsTree, commit_all-IsTree}
use ella.Registry.Snapshot.Commit.{NotOlder, IsOneOf, commit_all-newest}
use ella.Registry.Snapshot.Repeat.{drop_catalog-keeps}
use ella.Examples.Data.{externals, table_id, snapshot, leads, is_tree, create_12, topic_info}

commit_all-IsTree_example : IsTree (commit_all (create_shard create_12 ∷ []) snapshot).0.catalogs
commit_all-IsTree_example =
    commit_all-IsTree (create_shard create_12 ∷ []) snapshot (tt, tt) is_tree

commit_all-newest_example :
    NotOlder (some 5) (commit_all (create_shard create_12 ∷ []) snapshot).0.last_transaction
    × IsOneOf
        (commit_all (create_shard create_12 ∷ []) snapshot).0.last_transaction
        (some 5)
        (create_shard create_12 ∷ [])
    × ((commit_all (create_shard create_12 ∷ []) snapshot).1 ≡ ok tt
        → All
            (λ t.
              NotOlder
                (some (uuid t))
                (commit_all (create_shard create_12 ∷ []) snapshot).0.last_transaction)
            (create_shard create_12 ∷ []))
commit_all-newest_example = commit_all-newest (create_shard create_12 ∷ []) snapshot

abbrev renamed : TopicInfo externals
renamed = record topic_info { temporary = true }

in_topic-writes_example :
    ((u : TopicInfo externals)
      → ok renamed ≡ ok u
      → (cs : List (CatalogState externals)) × (in_topic table_id
            (λ t. ok renamed)
            snapshot.catalogs
          ≡ ok cs)
        × Leads table_id u cs
        × ((j : TableId) → j ≢ table_id → table_at j cs ≡ table_at j snapshot.catalogs))
    × ((e : EngineError)
        → ok renamed ≡ err e
        → in_topic table_id (λ t. ok renamed) snapshot.catalogs ≡ err e)
in_topic-writes_example =
    in_topic-writes table_id topic_info snapshot.catalogs leads (λ t. ok renamed)

abbrev drop_c : DropCatalog
drop_c = record { uuid = 7; id = record { id = codes "c" } }

drop_catalog-keeps_example :
    ((commit (drop_catalog drop_c) snapshot).1 ≡ ok tt)
    × ((j : Ident)
        → catalog_at j (commit (drop_catalog drop_c) snapshot).0.catalogs
          ≡ (if eq_text j (codes "c") then catalog_at j snapshot.catalogs else none))
drop_catalog-keeps_example = drop_catalog-keeps drop_c snapshot refl

created :
    commit (create_shard create_12) snapshot ≡ ((commit (create_shard create_12) snapshot).0, ok tt)
unfolding commit uuid apply in_topic schema_mut table_mut topic_mut modify_first insert_shard
    search_shard eq_text
created = refl

abbrev timed : TopicBuilder
timed = record new_topic { time = some (codes "at") }
