-- ===== src/Topic/Plan.antt =====
-- The plan that reads a topic (`TopicExec` and `TopicStream` of ella-engine/src/table/topic.rs): the
-- shards, the buffer and the channel, one after the other. Plans of datafusion are values that the
-- model passes on; a stream of a child is the list of what its polls give.
pub mod Drain
pub mod Children
use ella.Prelude.{
  ℕ, zero, suc, ◌+◌, Option, none, some, List, [], ◌∷◌, ◌++◌, Bool, true, false, ◌==◌, length,
  if◌then◌else◌,
}

-- `TopicExec`, without the table's id
pub record TopicExec (P : Type 0) : Type 0 where
  pub shards : Option P
  pub rw : Option P
  pub channel : P

-- What `with_new_children` gives.
pub data Rebuilt (P : Type 0) : Type 0 where
  rebuilt : TopicExec P → Rebuilt P
  wrong_number : ℕ → ℕ → Rebuilt P
  unwrap_of_none : Rebuilt P

module _ {P : Type 0} where
  abbrev pub present : Option P → List P
  present none = []
  present (some p) = p ∷ []

  unfoldable pub children : TopicExec P → List P
  children e = present e.shards ++ (present e.rw ++ e.channel ∷ [])

  -- `self.shards.is_some().then(|| iter.next().unwrap())`: the outer `none` is the panic.
  abbrev pub next_if : Option P → List P → Option (Option P × List P)
  next_if none ps = some (none, ps)
  next_if (some old) [] = none
  next_if (some old) (p ∷ ps) = some (some p, ps)

  -- The new plan from the children, once their number is right.
  unfoldable pub rebuild : TopicExec P → List P → Option (TopicExec P)
  rebuild e ps = elim (next_if e.shards ps) [
    | none ↦ none
    | some (shards, ps') ↦ elim (next_if e.rw ps') [
      | none ↦ none
      | some (rw, ps'') ↦ elim ps'' [
        | [] ↦ none
        | channel ∷ rest ↦ some (record { shards = shards; rw = rw; channel = channel })
      ]
    ]
  ]

  unfoldable pub with_new_children : TopicExec P → List P → Rebuilt P
  unfolding children rebuild
  with_new_children e ps =
      if length ps == length (children e)
      then elim (rebuild e ps) [ none ↦ unwrap_of_none | some e' ↦ rebuilt e' ]
      else wrong_number (length (children e)) (length ps)

-- What a poll gives: nothing yet, an item, or the end.
pub data Poll (A : Type 0) : Type 0 where
  pending : Poll A
  ready : A → Poll A
  ended : Poll A

-- The stream of a child: `none` is a poll that is not ready, and the stream ends behind the list.
pub record TopicStream (A : Type 0) : Type 0 where
  pub shards : Option (List (Option A))
  pub rw : Option (List (Option A))
  pub channel : Option (List (Option A))

module _ {A : Type 0} where
  abbrev pub poll_of : Option A → Poll A
  poll_of none = pending
  poll_of (some a) = ready a

  -- The last part of `TopicStream::poll_next`.
  unfoldable pub poll_channel : TopicStream A → TopicStream A × Poll A
  poll_channel s = elim s.channel [
    | none ↦ (s, ended)
    | some q ↦ elim q [
      | [] ↦ (record s { channel = none }, ended)
      | x ∷ xs ↦ (record s { channel = some xs }, poll_of x)
    ]
  ]

  unfoldable pub poll_rw : TopicStream A → TopicStream A × Poll A
  unfolding poll_channel
  poll_rw s = elim s.rw [
    | none ↦ poll_channel s
    | some q ↦ elim q [
      | [] ↦ poll_channel (record s { rw = none })
      | x ∷ xs ↦ (record s { rw = some xs }, poll_of x)
    ]
  ]

  -- `TopicStream::poll_next`
  unfoldable pub poll_next : TopicStream A → TopicStream A × Poll A
  unfolding poll_rw poll_channel
  poll_next s = elim s.shards [
    | none ↦ poll_rw s
    | some q ↦ elim q [
      | [] ↦ poll_rw (record s { shards = none })
      | x ∷ xs ↦ (record s { shards = some xs }, poll_of x)
    ]
  ]

  -- The items that polling until the end gives, and whether the end was reached, in so many polls.
  unfoldable pub drain : ℕ → TopicStream A → List A × Bool
  unfolding poll_next
  drain zero s = ([], false)
  drain (suc n) s =
      let rest = drain n (poll_next s).0 in
      elim (poll_next s).1 [ pending ↦ rest | ready a ↦ (a ∷ rest.0, rest.1) | ended ↦ ([], true) ]
