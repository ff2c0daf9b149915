-- ===== src/Engine/Agrees.antt =====
-- The tree in memory against what a restart would replay (ella-engine/src/cluster.rs, catalog.rs,
-- schema.rs and ella-engine/src/registry/snapshot.rs): one transaction on both sides.
pub mod Create
pub mod Tables
pub mod Statements
use ella.Prelude.{
  ℕ, suc, ◌<◌, ◌≡◌, refl, sym, ◌∙◌, Text, eq_text, Bool, false, Option, none, some, List, [], ◌∷◌,
  ◌++◌, All, All-map, arith, ap, All-append,
}
use ella.Prelude.DashMap
use ella.Prelude.DashMap.Laws.{
  IsUnique, modify-IsUnique, modify-All, modify-same, modify-modify, get-modify_same, get-All,
}
use ella.Prelude.Result.{EngineError, Result, ok, err}
use ella.External.{External}
use ella.Registry.Id.{Ident, CatalogId, SchemaId, TableId, schema_id}
use ella.Registry.Transaction.{Transaction, uuid}
use ella.Registry.LogApi.{LogApi, IsNewest}
use ella.Registry.Snapshot.{
  Snapshot, CatalogState, SchemaState, apply, commit_all, outdated, schema_mut,
}
use ella.Registry.Snapshot
use ella.Registry.Snapshot.Replay.{commit-ok, commit_all-append, commit_all-not_outdated}
use ella.Engine.Outcome.{Outcome, done, and_then}
use ella.Engine.World.{EllaSchema, EllaCatalog, World, Services, commit, and_then-commit}
use ella.Engine.Cluster.{EllaCluster}
use ella.Engine.Tree.{
  schema_view, catalog_view, tree, IsTables, IsSchema, IsCatalog, IsCatalogs, modify_first-map,
}

-- The ids that are drawn rise.
abbrev pub IsRising : (ℕ → ℕ) → Type 0
IsRising fresh = (n : ℕ) → fresh n < fresh (suc n)

outdated_mono : (u v : ℕ) (l : Option ℕ) → u < v → outdated u l ≡ false → outdated v l ≡ false
outdated_mono u v none h k = refl
outdated_mono u v (some l) h k = ground arith

IsNewest-mono :
    {X : External} (u v : ℕ) (ts : List (Transaction X)) → u < v → IsNewest u ts → IsNewest v ts
IsNewest-mono u v ts h n = All-map _ _ (λ t k. omega arith) ts n

module _ {X : External} (root : X.UrlPath) where
  pub schema_mut-view :
      (k i : Ident) (a : EllaCatalog X) (s s' : EllaSchema X)
      (f : SchemaState X → Result (SchemaState X))
      → IsCatalog (k, a)
      → DashMap.get i a.schemas ≡ some s
      → f (schema_view X root s) ≡ ok (schema_view X root s')
      → schema_mut i f (catalog_view X root a)
        ≡ ok (catalog_view X root (record a { schemas = DashMap.modify i (λ _. s') a.schemas }))
  unfolding schema_mut catalog_view
  schema_mut-view k i a s s' f h g e =
      rw
        (modify_first-map (schema_view X root) _ i _ f s s' a.schemas
          (All-map (IsSchema k) _ (λ x p. ap (λ j. eq_text j.schema i) p.0) a.schemas h.1) g e)
        refl

  pub in_catalog-tree :
      (i : Ident) (a b : EllaCatalog X) (m : List (Ident × EllaCatalog X))
      (f : CatalogState X → Result (CatalogState X))
      → IsCatalogs m
      → DashMap.get i m ≡ some a
      → f (catalog_view X root a) ≡ ok (catalog_view X root b)
      → Snapshot.in_catalog i f (tree X root m) ≡ ok (tree X root (DashMap.modify i (λ _. b) m))
  unfolding Snapshot.in_catalog tree
  in_catalog-tree i a b m f h g e =
      modify_first-map (catalog_view X root) _ i _ f a b m
        (All-map IsCatalog _ (λ x p. ap (λ j. eq_text j.id i) p.0) m h.0) g e

module _ {X : External} {L : LogApi X} (V : Services L) (base : Snapshot X) where
  -- Replaying the log from the base snapshot succeeds and gives the tree in memory, which is filed
  -- under its ids; the next id that is drawn is newer than the base and every logged transaction.
  pub record Agrees (c : EllaCluster L) : Type 0 where
    pub snapshot : Snapshot X
    pub replays : commit_all (L.replayed c.world.log) base ≡ (snapshot, ok tt)
    pub same : snapshot.catalogs ≡ tree X V.root c.catalogs
    pub filed : IsCatalogs c.catalogs
    pub after_base : outdated (V.fresh c.world.drawn) base.last_transaction ≡ false
    pub newest : IsNewest (V.fresh c.world.drawn) (L.replayed c.world.log)

module _ {X : External} {L : LogApi X} (V : Services L) (base : Snapshot X)
    (rising : IsRising V.fresh) (c : EllaCluster L) (agrees : Agrees V base c)
    (t : ℕ → Transaction X) (named : (u : ℕ) → uuid (t u) ≡ u) where
  abbrev next : Transaction X
  next = t (V.fresh c.world.drawn)

  next-IsNewest : IsNewest (uuid next) (L.replayed c.world.log)
  next-IsNewest = rw (named (V.fresh c.world.drawn)) agrees.newest

  not_outdated : outdated (uuid next) agrees.snapshot.last_transaction ≡ false
  not_outdated = rw agrees.replays at (
      commit_all-not_outdated (uuid next) (L.replayed c.world.log) base next-IsNewest
        (rw (named (V.fresh c.world.drawn)) agrees.after_base))

  later : outdated (V.fresh (suc c.world.drawn)) base.last_transaction ≡ false
  later = outdated_mono _ _ base.last_transaction (rising c.world.drawn) agrees.after_base

  newer : IsNewest (V.fresh (suc c.world.drawn)) (L.replayed c.world.log)
  newer = IsNewest-mono _ _ (L.replayed c.world.log) (rising c.world.drawn) agrees.newest

  abbrev pub after : World L
  after = (commit V t c.world).0

  -- A transaction that the log accepted, and that takes the replayed tree to the one in memory.
  pub accepted-Agrees :
      (m : List (Ident × EllaCatalog X))
      → (L.commit (t (V.fresh c.world.drawn)) c.world.log).1 ≡ ok tt
      → apply (t (V.fresh c.world.drawn)) (tree X V.root c.catalogs) ≡ ok (tree X V.root m)
      → IsCatalogs m
      → Agrees V base (record { catalogs = m; world = after })
  unfolding commit
  accepted-Agrees m k e h = record {
    snapshot = record agrees.snapshot {
      last_transaction = some (uuid next);
      catalogs = tree X V.root m;
    };
    replays = rw (L.replayed-commit next c.world.log k next-IsNewest) (
        commit_all-append (L.replayed c.world.log) next base agrees.snapshot _ agrees.replays
          (commit-ok next agrees.snapshot _ not_outdated (ap (apply next) agrees.same ∙ e)));
    same = refl;
    filed = h;
    after_base = later;
    newest = rw (L.replayed-commit next c.world.log k next-IsNewest) (
        All-append _ (L.replayed c.world.log) (next ∷ []) newer
          (omega (arith, named (V.fresh c.world.drawn), rising c.world.drawn), tt));
  }

  -- A transaction that the log refused changes neither side.
  pub refused-Agrees :
      (e : EngineError)
      → (L.commit (t (V.fresh c.world.drawn)) c.world.log).1 ≡ err e
      → Agrees V base (record { catalogs = c.catalogs; world = after })
  unfolding commit
  refused-Agrees e k = record {
    snapshot = agrees.snapshot;
    replays = rw (L.replayed-commit_err next c.world.log e k) agrees.replays;
    same = agrees.same;
    filed = agrees.filed;
    after_base = later;
    newest = rw (L.replayed-commit_err next c.world.log e k) newer;
  }

  -- A method that commits the transaction and then goes on with `rest`.
  pub committing-Agrees {ℓ} :
      {S : Type 0} {B : Type ℓ} (P : S → Type 0) (wrap : World L → S)
      (rest : Unit {0} → S → S × Outcome B) (m : List (Ident × EllaCatalog X))
      → apply (t (V.fresh c.world.drawn)) (tree X V.root c.catalogs) ≡ ok (tree X V.root m)
      → IsCatalogs m
      → (Agrees V base (record { catalogs = m; world = after }) → P (rest tt (wrap after)).0)
      → (Agrees V base (record { catalogs = c.catalogs; world = after }) → P (wrap after))
      → P (and_then (wrap after, (commit V t c.world).1) rest).0
  committing-Agrees P wrap rest m e h good bad =
      and_then-commit V P t c.world wrap rest (λ k. good (accepted-Agrees m k e h))
        (λ x k. bad (refused-Agrees x k))
