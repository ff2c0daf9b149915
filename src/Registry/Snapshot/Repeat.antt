-- ===== src/Registry/Snapshot/Repeat.antt =====
-- What a commit of ella-engine/src/registry/snapshot.rs does where the id of a transaction is that of
-- the last one, and what `drop_catalog` keeps.
use ella.Prelude.{
  ◌≡◌, refl, sym, ◌∙◌, false, Option, none, some, List, [], ◌∷◌, if◌then◌else◌, arith, ltb, ◌==◌,
  retain, eq_text, eq_text_iff, inl, inr, Option-cases, ap, Bool-cases, eq_text_sound,
}
use mathlib.Core.Path.{subst}
use mathlib.Core.Option.{some-injective}
use ella.Prelude.Result.{Result, ok, err, shard_exists}
use ella.External.{External}
use ella.Registry.Id.{Ident}
use ella.Registry.Info.{ShardInfo, TopicInfo, insert_shard}
use ella.Registry.Info.Shards.{insert, push_front, insert_shard_lem}
use ella.Registry.Transaction.{
  CreateShard, create_shard, DropCatalog, drop_catalog, uuid, shard_of_create,
}
use ella.Registry.Snapshot.{Snapshot, CatalogState, apply, commit, outdated}
use ella.Registry.Snapshot.Lookup.{Leads, set_topic, catalog_at}
use ella.Registry.Snapshot.Write.{in_topic-ok, in_topic-err, Leads-set_topic}
use ella.Registry.Snapshot.Replay.{commit-ok, commit-err}

module _ {X : External} where
  find-retain_same :
      (i : Ident) (cs : List (CatalogState X))
      → catalog_at i (retain (λ c. eq_text c.id.id i) cs) ≡ catalog_at i cs
  find-retain_same i [] = refl
  find-retain_same i (c ∷ cs) = ground (arith, find-retain_same i cs)

  find-retain_other :
      (i j : Ident) (cs : List (CatalogState X))
      → eq_text j i ≡ false
      → catalog_at j (retain (λ c. eq_text c.id.id i) cs) ≡ none
  find-retain_other i j [] h = refl
  find-retain_other i j (c ∷ cs) h = ground (
    arith,
    find-retain_other i j cs h,
    eq_text_iff c.id.id i,
    eq_text_iff c.id.id j,
    eq_text_iff j i,
  )

  -- Committing the drop of a catalog that is not outdated succeeds, keeps the lookup of the
  -- catalog that it names, and loses every other.
  pub drop_catalog-keeps :
      (t : DropCatalog) (s : Snapshot X)
      → outdated t.uuid s.last_transaction ≡ false
      → ((commit (drop_catalog t) s).1 ≡ ok tt)
        × ((j : Ident)
            → catalog_at j (commit (drop_catalog t) s).0.catalogs
              ≡ (if eq_text j t.id.id then catalog_at j s.catalogs else none))
  unfolding commit apply uuid
  drop_catalog-keeps t s h = rw h (
    refl,
    λ j. elim (Bool-cases (eq_text j t.id.id)) [
      | inl e ↦ rw (e, eq_text_sound j t.id.id e) (find-retain_same t.id.id s.catalogs)
      | inr e ↦ rw e (find-retain_other t.id.id j s.catalogs e)
    ],
  )

  twice_later :
      (s x : ShardInfo X) (o : Option (List (ShardInfo X))) (rs : List (ShardInfo X))
      → push_front x o ≡ some rs
      → (s.id == x.id) ≡ false
      → ltb s.id x.id ≡ false
      → ((qs : List (ShardInfo X)) → o ≡ some qs → insert s qs ≡ none)
      → insert s rs ≡ none
  unfolding insert
  twice_later s x none rs h k j f = cc
  twice_later s x (some qs) [] h k j f = cc
  twice_later s x (some qs) (y ∷ ys) h k j f =
      let e = some-injective _ (y ∷ ys) h in
      subst (λ zs. insert s zs ≡ none) e (rw (k, j, f qs refl) refl)

  insert-twice :
      (s : ShardInfo X) (ss rs : List (ShardInfo X)) → insert s ss ≡ some rs → insert s rs ≡ none
  unfolding insert
  insert-twice s [] [] h = cc
  insert-twice s [] (y ∷ ys) h = ground arith
  insert-twice s (x ∷ xs) rs h = ground (arith, twice_later s x (insert s xs) rs, insert-twice s xs)

  -- A transaction that is not outdated, creates a shard of a topic of the tree and was committed
  -- with success, is not skipped when it is committed again on the snapshot that this gave: it
  -- fails with `ShardExists`.
  pub create_shard-twice :
      (t : CreateShard X) (info : TopicInfo X) (s s' : Snapshot X)
      → outdated t.uuid s.last_transaction ≡ false
      → Leads t.table info s.catalogs
      → commit (create_shard t) s ≡ (s', ok tt)
      → (commit (create_shard t) s').1 ≡ err (shard_exists t.shard)
  unfolding uuid
  create_shard-twice t info s s' h l e =
      let shard = shard_of_create t in
      let f : TopicInfo X → Result (TopicInfo X) = insert_shard shard in
      elim (Option-cases (insert shard info.shards)) [
        | inl k ↦
            let refused = commit-err (create_shard t) s (shard_exists t.shard) (unfold uuid in h) (
              unfold apply in
              in_topic-err t.table info s.catalogs l f (shard_exists t.shard)
                (rw (insert_shard_lem shard info, k) refl)) in
            cc
        | inr (ss, k) ↦
            let v : TopicInfo X = record info { shards = ss } in
            let first =
              commit-ok (create_shard t) s (set_topic t.table info v s.catalogs l)
                (unfold uuid in h)
                (unfold apply in
                  in_topic-ok t.table info s.catalogs l f v
                    (rw (insert_shard_lem shard info, k) refl)) in
            subst (λ q. (commit (create_shard t) q).1 ≡ err (shard_exists t.shard))
              (ap (λ q. q.0) (sym first ∙ e))
              (ap (λ q. q.1)
                (commit-err (create_shard t)
                  (record s {
                    last_transaction = some t.uuid;
                    catalogs = set_topic t.table info v s.catalogs l;
                  })
                  (shard_exists t.shard) (unfold uuid in ground arith)
                  (unfold apply in
                    in_topic-err t.table v (set_topic t.table info v s.catalogs l)
                      (Leads-set_topic t.table info s.catalogs l v) f (shard_exists t.shard)
                      (rw (insert_shard_lem shard v, insert-twice shard info.shards ss k) refl))))
      ]
