-- ===== src/Topic/Channel.antt =====
-- The channel of a topic (ella-engine/src/table/topic/channel.rs): its publishers, which count those
-- that are active; its subscribers; and the stream that a query reads. The broadcast channel and
-- `Notify` belong to tokio: what a receive gives is an argument, and the calls of `notify_one` are
-- counted.
pub mod Active
pub mod Limit
use ella.Prelude.{
  ℕ, zero, suc, ◌+◌, ◌^◌, ◌%◌, ◌-◌, ◌==◌, Bool, true, false, ◌&&◌, Text, Option, none, some, List,
  [], ◌∷◌, ◌++◌, get_elem?, if◌then◌else◌,
}
use ella.Prelude.Result.{Result, ok, err, ◌>>=◌}

-- `publishers` has `is_active` of every `PublisherInner` that was made; `notified` counts the calls of
-- `notify_one`.
pub record Channel : Type 0 where
  pub active : ℕ
  pub publishers : List Bool
  pub notified : ℕ

-- `TopicChannel::new`
abbrev pub new_channel : Channel
new_channel = record { active = 0; publishers = false ∷ []; notified = 0 }

-- `PublisherInner::clone_inner`
unfoldable pub clone_inner : Bool → Channel → Channel
clone_inner is_active c = record {
  active = if is_active then (c.active + 1) % 2 ^ 64 else c.active;
  publishers = c.publishers ++ is_active ∷ [];
  notified = c.notified;
}

unfoldable pub clear : ℕ → List Bool → List Bool
clear i [] = []
clear zero (b ∷ bs) = false ∷ bs
clear (suc i) (b ∷ bs) = b ∷ clear i bs

-- The count after `fetch_sub`.
abbrev pub fetch_sub : ℕ → ℕ
fetch_sub n = (n + (2 ^ 64 - 1)) % 2 ^ 64

-- `PublisherInner::deactivate`, of the i-th publisher
unfoldable pub deactivate : ℕ → Channel → Channel
unfolding clear
deactivate i c = elim (get_elem? c.publishers i) [
  | none ↦ c
  | some false ↦ c
  | some true ↦ record {
    active = fetch_sub c.active;
    publishers = clear i c.publishers;
    notified = if fetch_sub c.active == 0 then c.notified + 1 else c.notified;
  }
]

-- What happens to the publishers of a channel: `Publisher::clone`, `clone_weak`, and `poll_close` or
-- `drop`.
pub data Step : Channel → Channel → Type 0 where
  cloned : (c : Channel) → Step c (clone_inner true c)
  cloned_weak : (c : Channel) → Step c (clone_inner false c)
  closed : (i : ℕ) (c : Channel) → Step c (deactivate i c)

pub data IsReachable : Channel → Type 0 where
  created : IsReachable new_channel
  stepped : {c d : Channel} → IsReachable c → Step c d → IsReachable d

-- What a receive from the broadcast channel gives.
pub data Received (B : Type 0) : Type 0 where
  item : B → Received B
  sender_closed : Received B
  lagged : ℕ → Received B

-- What an iteration of the loop in `SubscriberInner::next` sees: the count of active publishers, what
-- is received, if anything, and the count after a wake-up by `stop`.
pub record Round (B : Type 0) : Type 0 where
  pub before : ℕ
  pub received : Option (Received B)
  pub after : ℕ

module _ {B : Type 0} (execution : ℕ → Result B) where
  abbrev pub to_item : Received B → Option (Result B)
  to_item (item b) = some (ok b)
  to_item sender_closed = none
  to_item (lagged n) = some (execution n)

  -- `SubscriberInner::next`; `none` where it still waits after the iterations.
  unfoldable pub next : Bool → List (Round B) → Option (Option (Result B))
  next stop_on_inactive [] = none
  next stop_on_inactive (r ∷ rs) =
      let rest = next stop_on_inactive rs in
      if stop_on_inactive && r.before == 0
      then some (elim r.received [ none ↦ none | some x ↦ to_item x ])
      else elim r.received [
        | some x ↦ some (to_item x)
        | none ↦ if stop_on_inactive && r.after == 0 then some none else rest
      ]

-- `ChannelStream`
pub record ChannelStream : Type 0 where
  pub limit : Option ℕ
  pub rows : ℕ
  pub projection : Option (List ℕ)

-- `self.limit == Some(self.rows)`
abbrev pub is_at : Option ℕ → ℕ → Bool
is_at none rows = false
is_at (some l) rows = l == rows

module _ {B : Type 0} (num_rows : B → ℕ) (project : List ℕ → B → Result B) where
  -- The answer to an item of the subscriber.
  unfoldable pub deliver : Result B → ChannelStream → ChannelStream × Result B
  deliver (ok b) s = (
    record s { rows = s.rows + num_rows b },
    elim s.projection [ none ↦ ok b | some p ↦ project p b ],
  )
  deliver (err e) s = (s, err e)

  -- `ChannelStream::poll_next`, until the stream ends: the results for the items of the subscriber.
  unfoldable pub collect : ChannelStream → List (Result B) → List (Result B)
  unfolding deliver
  collect s [] = []
  collect s (r ∷ rs) =
      let rest = collect (deliver r s).0 rs in
      if is_at s.limit s.rows then [] else (deliver r s).1 ∷ rest
