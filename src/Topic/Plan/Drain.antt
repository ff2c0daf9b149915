-- ===== src/Topic/Plan/Drain.antt =====
-- What the plan of a topic delivers (`TopicStream` of ella-engine/src/table/topic.rs).
use ella.Prelude.{
  ℕ, zero, suc, ◌<◌, ◌≡◌, refl, ap, ◌∙◌, arith, Option, none, some, List, [], ◌∷◌, ◌++◌, Bool, true,
  length,
}
use ella.Topic.Plan.{
  TopicStream, Poll, pending, ready, ended, poll_channel, poll_rw, poll_next, poll_of, drain,
}

module _ {A : Type 0} where
  -- The items of a child's stream.
  abbrev pub items_of : List (Option A) → List A
  items_of [] = []
  items_of (none ∷ xs) = items_of xs
  items_of (some a ∷ xs) = a ∷ items_of xs

  -- The polls that a child answers before its end.
  abbrev pub polls_of : Option (List (Option A)) → List (Option A)
  polls_of none = []
  polls_of (some q) = q

  abbrev pub all_polls : TopicStream A → List (Option A)
  all_polls s = polls_of s.shards ++ (polls_of s.rw ++ polls_of s.channel)

  -- A poll takes the first of the polls left, or ends the stream when there is none.
  unfoldable Steps : List (Option A) → List (Option A) → Poll A → Type 0
  Steps ps qs pending = ps ≡ none ∷ qs
  Steps ps qs (ready a) = ps ≡ some a ∷ qs
  Steps ps qs ended = ps ≡ []

  poll_of-Steps : (x : Option A) (ps : List (Option A)) → Steps (x ∷ ps) ps (poll_of x)
  unfolding Steps
  poll_of-Steps none ps = refl
  poll_of-Steps (some a) ps = refl

  abbrev stream :
      Option (List (Option A)) → Option (List (Option A)) → Option (List (Option A)) → TopicStream A
  stream shards rw channel = record { shards = shards; rw = rw; channel = channel }

  channel-Steps :
      (ch : Option (List (Option A)))
      → Steps
          (all_polls (stream none none ch))
          (all_polls (poll_channel (stream none none ch)).0)
          (poll_channel (stream none none ch)).1
  unfolding Steps poll_channel
  channel-Steps none = refl
  channel-Steps (some []) = refl
  channel-Steps (some (x ∷ xs)) = poll_of-Steps x xs

  rw-Steps :
      (r ch : Option (List (Option A)))
      → Steps
          (all_polls (stream none r ch))
          (all_polls (poll_rw (stream none r ch)).0)
          (poll_rw (stream none r ch)).1
  unfolding poll_rw
  rw-Steps none ch = channel-Steps ch
  rw-Steps (some []) ch = channel-Steps ch
  rw-Steps (some (x ∷ xs)) ch = poll_of-Steps x (xs ++ polls_of ch)

  next-Steps :
      (sh r ch : Option (List (Option A)))
      → Steps
          (all_polls (stream sh r ch))
          (all_polls (poll_next (stream sh r ch)).0)
          (poll_next (stream sh r ch)).1
  unfolding poll_next
  next-Steps none r ch = rw-Steps r ch
  next-Steps (some []) r ch = rw-Steps r ch
  next-Steps (some (x ∷ xs)) r ch = poll_of-Steps x (xs ++ (polls_of r ++ polls_of ch))

  after_poll :
      (n : ℕ) (ps qs : List (Option A)) (p : Poll A) (rest : List A × Bool)
      → Steps ps qs p
      → length ps < suc n
      → (length qs < n → rest ≡ (items_of qs, true))
      → elim p as (λ _. List A × Bool) [
        | pending ↦ rest
        | ready a ↦ (a ∷ rest.0, rest.1)
        | ended ↦ ([], true)
      ]
        ≡ (items_of ps, true)
  unfolding Steps
  after_poll n ps qs pending rest st h k = rw st (k (omega (arith, ap length st, h)))
  after_poll n ps qs (ready a) rest st h k = rw (st, k (omega (arith, ap length st, h))) refl
  after_poll n ps qs ended rest st h k = rw st refl

  drain_lem :
      (n : ℕ) (s : TopicStream A)
      → length (all_polls s) < n
      → drain n s ≡ (items_of (all_polls s), true)
  unfolding drain
  drain_lem zero s h = absurd (omega (arith, h))
  drain_lem (suc n) s h =
      after_poll n (all_polls s) (all_polls (poll_next s).0) (poll_next s).1
        (drain n (poll_next s).0) (next-Steps s.shards s.rw s.channel) h
        (drain_lem n (poll_next s).0)

  items_of-append : (ps qs : List (Option A)) → items_of (ps ++ qs) ≡ items_of ps ++ items_of qs
  items_of-append [] qs = refl
  items_of-append (none ∷ ps) qs = items_of-append ps qs
  items_of-append (some a ∷ ps) qs = ap (a ∷◌) (items_of-append ps qs)

  -- Polled more often than its children have polls before their ends, the stream of a topic comes to
  -- its end, and gives all items of the shards, then all of the buffer, then all of the channel,
  -- whatever polls are not ready in between.
  pub drain-items :
      (n : ℕ) (s : TopicStream A)
      → length (all_polls s) < n
      → drain n s ≡ (
        items_of (polls_of s.shards) ++ (items_of (polls_of s.rw) ++ items_of (polls_of s.channel)),
        true,
      )
  drain-items n s h =
      drain_lem n s h
      ∙ ap (λ xs. (xs, true))
          (items_of-append (polls_of s.shards) (polls_of s.rw ++ polls_of s.channel)
            ∙ ap (items_of (polls_of s.shards) ++◌)
                (items_of-append (polls_of s.rw) (polls_of s.channel)))
