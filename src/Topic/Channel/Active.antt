-- ===== src/Topic/Channel/Active.antt =====
-- The count of active publishers (ella-engine/src/table/topic/channel.rs).
use ella.Prelude.{
  ℕ, zero, suc, ◌+◌, ◌^◌, ◌%◌, ◌<◌, ◌≤◌, ◌≡◌, ◌≢◌, ==_iff, ◌↔◌, refl, ◌==◌, Bool, true, false,
  Bool-cases, inl, inr, some, List, [], ◌∷◌, ◌++◌, get_elem?, arith, Option-cases,
}
use ella.Topic.Channel.{
  Channel, clone_inner, clear, fetch_sub, deactivate, Step, cloned, cloned_weak, closed,
  IsReachable, created, stepped,
}

abbrev weight : Bool → ℕ
weight true = 1
weight false = 0

-- The publishers that are active.
unfoldable pub count_active : List Bool → ℕ
count_active [] = 0
count_active (b ∷ bs) = weight b + count_active bs

count_active-append :
    (bs : List Bool) (b : Bool) → count_active (bs ++ b ∷ []) ≡ count_active bs + weight b
unfolding count_active
count_active-append [] b = omega arith
count_active-append (x ∷ bs) b = omega (arith, count_active-append bs b)

count_active-clear :
    (i : ℕ) (bs : List Bool)
    → get_elem? bs i ≡ some true
    → count_active bs ≡ suc (count_active (clear i bs))
unfolding count_active clear
count_active-clear i [] h = cc
count_active-clear zero (true ∷ bs) h = omega arith
count_active-clear zero (false ∷ bs) h = cc
count_active-clear (suc i) (b ∷ bs) h = omega (arith, count_active-clear i bs h)

abbrev IsCounted : Channel → Type 0
IsCounted c = c.active ≡ count_active c.publishers % 2 ^ 64

deactivate-IsCounted : (i : ℕ) (c : Channel) → IsCounted c → IsCounted (deactivate i c)
unfolding deactivate
deactivate-IsCounted i c h = elim (Option-cases (get_elem? c.publishers i)) [
  | inl e ↦ rw (e, deactivate) h
  | inr (b, e) ↦ elim (Bool-cases b) [
    | inl q ↦
        rw (e, deactivate, q) (omega (arith, h, count_active-clear i c.publishers (rw q at e)))
    | inr q ↦ rw (e, deactivate, q) h
  ]
]

step-IsCounted : (c d : Channel) → Step c d → IsCounted c → IsCounted d
unfolding clone_inner
step-IsCounted c _ (cloned _) h = omega (arith, h, count_active-append c.publishers true)
step-IsCounted c _ (cloned_weak _) h = omega (arith, h, count_active-append c.publishers false)
step-IsCounted c _ (closed i _) h = deactivate-IsCounted i c h

-- In every channel that clones, weak clones, closes and drops of publishers lead to, the count is the
-- number of active publishers, modulo the size of a word.
pub reachable-IsCounted :
    (c : Channel) → IsReachable c → c.active ≡ count_active c.publishers % 2 ^ 64
unfolding count_active
reachable-IsCounted _ created = refl
reachable-IsCounted d (stepped {c} r step) = step-IsCounted c d step (reachable-IsCounted c r)

-- In a channel that the publishers' steps lead to, with fewer than 2^64 of them active, closing a
-- publisher calls `notify_one` exactly when that publisher was active and no other was; it never calls
-- it more than once.
pub deactivate-notified :
    (i : ℕ) (c : Channel)
    → IsReachable c
    → count_active c.publishers < 2 ^ 64
    → ((deactivate i c).notified ≢ c.notified
        ↔ ((get_elem? c.publishers i ≡ some true) × (count_active c.publishers ≡ 1)))
      × ((deactivate i c).notified ≤ c.notified + 1)
unfolding deactivate
deactivate-notified i c r small = elim (Option-cases (get_elem? c.publishers i)) [
  | inl e ↦ rw (e, deactivate) ((λ h. absurd (h refl), λ h. cc h.0), omega arith)
  | inr (b, e) ↦ elim (Bool-cases b) [
    | inr q ↦ rw (e, deactivate, q) ((λ h. absurd (h refl), λ h. cc h.0), omega arith)
    | inl q ↦
        let h = reachable-IsCounted c r in
        elim (Bool-cases (fetch_sub c.active == 0)) [
          | inl z ↦
              let one : count_active c.publishers ≡ 1 = omega (
                arith,
                h,
                small,
                (==_iff (fetch_sub c.active) 0).0 z,
                count_active-clear i c.publishers (rw q at e),
              ) in
              rw (e, deactivate, q, z) ((λ _. (refl, one), λ _ k. omega (arith, k)), omega arith)
          | inr z ↦
              rw (e, deactivate, q, z)
                (
                  (
                    λ h. absurd (h refl),
                    λ k. absurd (cc (z, (==_iff (fetch_sub c.active) 0).1 (omega (arith, h, k.1)))),
                  ),
                  omega arith,
                )
        ]
  ]
]
