-- ===== src/Topic/Channel/Limit.antt =====
-- The limit of the stream over a topic's channel (`ChannelStream` of
-- ella-engine/src/table/topic/channel.rs).
use ella.Prelude.{
  ℕ, ◌+◌, ◌==◌, ◌≡◌, ◌≢◌, refl, sym, ap, arith, ==_iff, false, Option, none, some, List, [], ◌∷◌,
  ◌++◌, map, ◌∙◌, append_nil,
}
use ella.Prelude.Result.{Result, ok}
use ella.Topic.Channel.{ChannelStream, deliver, collect}

test_false : (a b : ℕ) → a ≢ b → (a == b) ≡ false
test_false a b h = ground (arith, h)

module _ {B : Type 0} (num_rows : B → ℕ) (project : List ℕ → B → Result B) where
  unfoldable pub total_rows : List B → ℕ
  total_rows [] = 0
  total_rows (b ∷ bs) = num_rows b + total_rows bs

  -- Before none of the batches are the rows so far, from `n` on, exactly the limit.
  unfoldable pub Misses : ℕ → ℕ → List B → Type 0
  Misses l n [] = Unit
  Misses l n (b ∷ bs) = (l ≢ n) × Misses l (n + num_rows b) bs

  abbrev pub projected : Option (List ℕ) → B → Result B
  projected none b = ok b
  projected (some p) b = project p b

  abbrev stream : ℕ → ℕ → Option (List ℕ) → ChannelStream
  stream l n p = record { limit = some l; rows = n; projection = p }

  collect-cons :
      (l n : ℕ) (p : Option (List ℕ)) (b : B) (rs : List (Result B))
      → l ≢ n
      → collect num_rows project (stream l n p) (ok b ∷ rs)
        ≡ projected p b ∷ collect num_rows project (stream l (n + num_rows b) p) rs
  unfolding collect deliver
  collect-cons l n none b rs h = rw (test_false l n h) refl
  collect-cons l n (some p) b rs h = rw (test_false l n h) refl

  collect-append :
      (l n : ℕ) (p : Option (List ℕ)) (bs : List B) (rs : List (Result B))
      → Misses l n bs
      → collect num_rows project (stream l n p) (map (λ b. ok b) bs ++ rs)
        ≡ map (projected p) bs ++ collect num_rows project (stream l (n + total_rows bs) p) rs
  unfolding Misses total_rows
  collect-append l n p [] rs m =
      let e : n ≡ n + 0 = omega arith in ap (λ k. collect num_rows project (stream l k p) rs) e
  collect-append l n p (b ∷ bs) rs m =
      let e : (n + num_rows b) + total_rows bs ≡ n + (num_rows b + total_rows bs) = omega arith in
      collect-cons l n p b (map (λ b. ok b) bs ++ rs) m.0
      ∙ ap (λ xs. projected p b ∷ xs)
          (collect-append l (n + num_rows b) p bs rs m.1
            ∙ ap (λ k. map (projected p) bs ++ collect num_rows project (stream l k p) rs) e)

  collect-at :
      (l : ℕ) (p : Option (List ℕ)) (rs : List (Result B))
      → collect num_rows project (stream l l p) rs ≡ []
  unfolding collect
  collect-at l p [] = refl
  collect-at l p (r ∷ rs) = rw ((==_iff l l).1 refl) refl

  -- A stream with a limit delivers all of the batches of its subscriber, projected, as long as the
  -- limit is not the exact number of rows delivered before one of them; where it becomes that number,
  -- nothing that follows is delivered.
  pub collect-limit :
      (l n : ℕ) (p : Option (List ℕ)) (bs : List B)
      → Misses l n bs
      → (collect num_rows project
            (record { limit = some l; rows = n; projection = p })
            (map (λ b. ok b) bs)
          ≡ map (projected p) bs)
        × (n + total_rows bs ≡ l
            → (rs : List (Result B))
            → collect num_rows project
                (record { limit = some l; rows = n; projection = p })
                (map (λ b. ok b) bs ++ rs)
              ≡ map (projected p) bs)
  unfolding collect
  collect-limit l n p bs m = (
    ap (collect num_rows project (stream l n p)) (sym (append_nil (map (λ b. ok b) bs)))
        ∙ collect-append l n p bs [] m
        ∙ append_nil (map (projected p) bs),
    λ e rs.
        collect-append l n p bs rs m
        ∙ ap (λ k. map (projected p) bs ++ collect num_rows project (stream l k p) rs) e
        ∙ ap (map (projected p) bs ++◌) (collect-at l p rs)
        ∙ append_nil (map (projected p) bs),
  )
