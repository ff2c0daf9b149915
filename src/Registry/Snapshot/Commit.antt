-- ===== src/Registry/Snapshot/Commit.antt =====
-- What a commit does to the rest of the snapshot (ella-engine/src/registry/snapshot.rs): the order of
-- transactions, and errors.
use mathlib.Core.Path.{subst}
use ella.Prelude.{
  ℕ, ◌≤◌, ◌≡◌, refl, sym, ap, ◌∙◌, true, false, Option, none, some, List, [], ◌∷◌, All, ◌⊎◌, arith,
  inl, inr, Bool-cases,
}
use ella.Prelude.Result.{EngineError, Result, ok, err, Result-cases}
use ella.External.{External}
use ella.Registry.Transaction.{Transaction, uuid}
use ella.Registry.Snapshot.{Snapshot, CatalogState, apply, commit, commit_all, outdated, settle}

-- The last transaction of the second is not older than that of the first.
abbrev pub NotOlder : Option ℕ → Option ℕ → Type 0
NotOlder none b = Unit
NotOlder (some l) none = ⊥
NotOlder (some l) (some m) = l ≤ m

NotOlder-refl : (a : Option ℕ) → NotOlder a a
NotOlder-refl none = tt
NotOlder-refl (some l) = omega arith

NotOlder-trans : (a b c : Option ℕ) → NotOlder a b → NotOlder b c → NotOlder a c
NotOlder-trans none b c p q = tt
NotOlder-trans (some l) none c p q = absurd p
NotOlder-trans (some l) (some m) none p q = absurd q
NotOlder-trans (some l) (some m) (some n) p q = omega arith

NotOlder-skipped : (u : ℕ) (a : Option ℕ) → outdated u a ≡ true → NotOlder (some u) a
NotOlder-skipped u none h = cc
NotOlder-skipped u (some l) h = ground arith

NotOlder-outdated : (u : ℕ) (a : Option ℕ) → outdated u a ≡ false → NotOlder a (some u)
NotOlder-outdated u none h = tt
NotOlder-outdated u (some l) h = ground arith

module _ {X : External} where
  settle_lem :
      (s : Snapshot X) (r : Result (List (CatalogState X)))
      → (settle s r).0.last_transaction ≡ s.last_transaction
  settle_lem s (ok cs) = refl
  settle_lem s (err e) = refl

  -- An outdated transaction is skipped, and every other one is recorded.
  pub commit_cases :
      (t : Transaction X) (s : Snapshot X)
      → (outdated (uuid t) s.last_transaction ≡ true → commit t s ≡ (s, ok tt))
        × (outdated (uuid t) s.last_transaction ≡ false
            → (commit t s).0.last_transaction ≡ some (uuid t))
  unfolding commit
  commit_cases t s = (
    λ h. rw h,
    λ h. rw h (settle_lem (record s { last_transaction = some (uuid t) }) (apply t s.catalogs)),
  )

  commit-NotOlder :
      (t : Transaction X) (s : Snapshot X)
      → NotOlder s.last_transaction (commit t s).0.last_transaction
  commit-NotOlder t s = elim (Bool-cases (outdated (uuid t) s.last_transaction)) [
    | inl o ↦ rw ((commit_cases t s).0 o) (NotOlder-refl s.last_transaction)
    | inr o ↦ rw ((commit_cases t s).1 o) (NotOlder-outdated (uuid t) s.last_transaction o)
  ]

  -- Replaying any transactions, in any order, never moves the last transaction back, also when the
  -- replay fails.
  pub commit_all-NotOlder :
      (ts : List (Transaction X)) (s : Snapshot X)
      → NotOlder s.last_transaction (commit_all ts s).0.last_transaction
  unfolding commit_all
  commit_all-NotOlder [] s = NotOlder-refl s.last_transaction
  commit_all-NotOlder (t ∷ ts) s =
      let first = commit-NotOlder t s in
      elim (Result-cases (commit t s).1) [
        | inl (_, e) ↦
            rw (e, commit_all) (NotOlder-trans _ _ _ first (commit_all-NotOlder ts (commit t s).0))
        | inr (_, e) ↦ rw (e, commit_all) first
      ]

  -- The last transaction is that of the snapshot at the start, or one of the replayed ones.
  abbrev pub IsOneOf : Option ℕ → Option ℕ → List (Transaction X) → Type 0
  IsOneOf last old [] = last ≡ old
  IsOneOf last old (t ∷ ts) = (last ≡ some (uuid t)) ⊎ IsOneOf last old ts

  IsOneOf-refl : (last : Option ℕ) (ts : List (Transaction X)) → IsOneOf last last ts
  IsOneOf-refl last [] = refl
  IsOneOf-refl last (t ∷ ts) = inr (IsOneOf-refl last ts)

  IsOneOf-cons :
      (last old next : Option ℕ) (u : ℕ) (ts : List (Transaction X))
      → (next ≡ old) ⊎ (next ≡ some u)
      → IsOneOf last next ts
      → (last ≡ some u) ⊎ IsOneOf last old ts
  IsOneOf-cons last old next u [] (inl q) h = inr (h ∙ q)
  IsOneOf-cons last old next u [] (inr q) h = inl (h ∙ q)
  IsOneOf-cons last old next u (t ∷ ts) q (inl e) = inr (inl e)
  IsOneOf-cons last old next u (t ∷ ts) q (inr h) = elim (IsOneOf-cons last old next u ts q h) [
    | inl e ↦ inl e
    | inr k ↦ inr (inr k)
  ]

  commit_last :
      (t : Transaction X) (s : Snapshot X)
      → ((commit t s).0.last_transaction ≡ s.last_transaction)
        ⊎ ((commit t s).0.last_transaction ≡ some (uuid t))
  commit_last t s = elim (Bool-cases (outdated (uuid t) s.last_transaction)) [
    | inl o ↦ inl (ap (λ r. r.0.last_transaction) ((commit_cases t s).0 o))
    | inr o ↦ inr ((commit_cases t s).1 o)
  ]

  commit_all-next :
      (t : Transaction X) (ts : List (Transaction X)) (s : Snapshot X)
      → (commit t s).1 ≡ ok tt
      → commit_all (t ∷ ts) s ≡ commit_all ts (commit t s).0
  unfolding commit_all
  commit_all-next t ts s e = rw (e, commit_all) refl

  commit_all-stops :
      (t : Transaction X) (ts : List (Transaction X)) (s : Snapshot X) (x : EngineError)
      → (commit t s).1 ≡ err x
      → commit_all (t ∷ ts) s ≡ ((commit t s).0, err x)
  unfolding commit_all
  commit_all-stops t ts s x e = rw (e, commit_all) refl

  commit_all-IsOneOf :
      (ts : List (Transaction X)) (s : Snapshot X)
      → IsOneOf (commit_all ts s).0.last_transaction s.last_transaction ts
  unfolding commit_all
  commit_all-IsOneOf [] s = refl
  commit_all-IsOneOf (t ∷ ts) s =
      let P : Snapshot X × Result Unit → Type 0 = λ r.
        (r.0.last_transaction ≡ some (uuid t))
        ⊎ IsOneOf r.0.last_transaction s.last_transaction ts in
      let next = (commit t s).0 in
      let cons : (last : Option ℕ)
          → IsOneOf last next.last_transaction ts
          → (last ≡ some (uuid t)) ⊎ IsOneOf last s.last_transaction ts =
        λ last h.
          IsOneOf-cons last s.last_transaction next.last_transaction (uuid t) ts (commit_last t s)
            h in
      elim (Result-cases (commit t s).1) [
        | inl (_, e) ↦
            subst P (sym (commit_all-next t ts s e))
              (cons (commit_all ts next).0.last_transaction (commit_all-IsOneOf ts next))
        | inr (x, e) ↦
            subst P (sym (commit_all-stops t ts s x e))
              (cons next.last_transaction (IsOneOf-refl next.last_transaction ts))
      ]

  commit-newer :
      (t : Transaction X) (s : Snapshot X)
      → NotOlder (some (uuid t)) (commit t s).0.last_transaction
  commit-newer t s = elim (Bool-cases (outdated (uuid t) s.last_transaction)) [
    | inl o ↦ rw ((commit_cases t s).0 o) (NotOlder-skipped (uuid t) s.last_transaction o)
    | inr o ↦ rw ((commit_cases t s).1 o) (omega arith)
  ]

  commit_all-newer :
      (ts : List (Transaction X)) (s : Snapshot X)
      → (commit_all ts s).1 ≡ ok tt
      → All (λ t. NotOlder (some (uuid t)) (commit_all ts s).0.last_transaction) ts
  unfolding commit_all
  commit_all-newer [] s h = tt
  commit_all-newer (t ∷ ts) s h = elim (Result-cases (commit t s).1) [
    | inl (_, e) ↦
        let q = commit_all-next t ts s e in
        subst (λ r. All (λ t. NotOlder (some (uuid t)) r.0.last_transaction) (t ∷ ts)) (sym q)
          (
            NotOlder-trans (some (uuid t)) (commit t s).0.last_transaction
                (commit_all ts (commit t s).0).0.last_transaction (commit-newer t s)
                (commit_all-NotOlder ts (commit t s).0),
            commit_all-newer ts (commit t s).0 (ap (λ r. r.1) (sym q) ∙ h),
          )
    | inr (x, e) ↦ cc (ap (λ r. r.1) (sym (commit_all-stops t ts s x e)) ∙ h)
  ]

  -- A replay that succeeds, of transactions in any order, ends with the newest as the last one: the
  -- last transaction of the result is that of the snapshot at the start or one of those replayed,
  -- and none of these is newer. A replay that fails still never moves the last transaction back.
  pub commit_all-newest :
      (ts : List (Transaction X)) (s : Snapshot X)
      → NotOlder s.last_transaction (commit_all ts s).0.last_transaction
        × IsOneOf (commit_all ts s).0.last_transaction s.last_transaction ts
        × ((commit_all ts s).1 ≡ ok tt
            → All (λ t. NotOlder (some (uuid t)) (commit_all ts s).0.last_transaction) ts)
  commit_all-newest ts s =
      (commit_all-NotOlder ts s, commit_all-IsOneOf ts s, commit_all-newer ts s)
