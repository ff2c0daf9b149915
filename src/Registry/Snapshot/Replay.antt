-- ===== src/Registry/Snapshot/Replay.antt =====
-- One more transaction at the end of a replay (`Snapshot::commit_many` of
-- ella-engine/src/registry/snapshot.rs).
use ella.Prelude.{ℕ, ◌<◌, ◌≡◌, refl, false, some, List, [], ◌∷◌, ◌++◌, arith, inl, inr, Bool-cases}
use ella.Prelude.Result.{EngineError, Result, ok, err, Result-cases}
use ella.External.{External}
use ella.Registry.Transaction.{Transaction, uuid}
use ella.Registry.LogApi.{IsNewest}
use ella.Registry.Snapshot.{Snapshot, CatalogState, apply, commit, commit_all, outdated}
use ella.Registry.Snapshot.Commit.{commit_cases}

module _ {X : External} where
  pub commit-ok :
      (t : Transaction X) (s : Snapshot X) (cs : List (CatalogState X))
      → outdated (uuid t) s.last_transaction ≡ false
      → apply t s.catalogs ≡ ok cs
      → commit t s ≡ (record s { last_transaction = some (uuid t); catalogs = cs }, ok tt)
  unfolding commit
  commit-ok t s cs h e = rw (h, e) refl

  pub commit-err :
      (t : Transaction X) (s : Snapshot X) (e : EngineError)
      → outdated (uuid t) s.last_transaction ≡ false
      → apply t s.catalogs ≡ err e
      → commit t s ≡ (record s { last_transaction = some (uuid t) }, err e)
  unfolding commit
  commit-err t s e h k = rw (h, k) refl

  pub commit_all-append :
      (ts : List (Transaction X)) (t : Transaction X) (s s' : Snapshot X)
      (r : Snapshot X × Result (Unit {0}))
      → commit_all ts s ≡ (s', ok tt)
      → commit t s' ≡ r
      → commit_all (ts ++ t ∷ []) s ≡ r
  unfolding commit_all
  commit_all-append [] t s s' (a, ok u) h k = ground arith
  commit_all-append [] t s s' (a, err e) h k = ground arith
  commit_all-append (x ∷ ts) t s s' r h k = elim (Result-cases (commit x s).1) [
    | inl (u, e) ↦
        rw (e, commit_all) (commit_all-append ts t (commit x s).0 s' r (rw (e, commit_all) at h) k)
    | inr (u, e) ↦ cc (rw (e, commit_all) at h)
  ]

  commit-not_outdated :
      (u : ℕ) (t : Transaction X) (s : Snapshot X)
      → uuid t < u
      → outdated u s.last_transaction ≡ false
      → outdated u (commit t s).0.last_transaction ≡ false
  commit-not_outdated u t s h k = elim (Bool-cases (outdated (uuid t) s.last_transaction)) [
    | inl o ↦ rw ((commit_cases t s).0 o) k
    | inr o ↦ rw ((commit_cases t s).1 o) (ground arith)
  ]

  -- An id that is newer than the snapshot and the replayed transactions is not outdated after them.
  pub commit_all-not_outdated :
      (u : ℕ) (ts : List (Transaction X)) (s : Snapshot X)
      → IsNewest u ts
      → outdated u s.last_transaction ≡ false
      → outdated u (commit_all ts s).0.last_transaction ≡ false
  unfolding commit_all
  commit_all-not_outdated u [] s h k = k
  commit_all-not_outdated u (t ∷ ts) s h k =
      let first = commit-not_outdated u t s h.0 k in
      elim (Result-cases (commit t s).1) [
        | inl (_, e) ↦ rw (e, commit_all) (commit_all-not_outdated u ts (commit t s).0 h.1 first)
        | inr (_, e) ↦ rw (e, commit_all) first
      ]
