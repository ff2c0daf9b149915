-- ===== src/Topic/Plan/Children.antt =====
-- The children of the plan of a topic (`TopicExec` of ella-engine/src/table/topic.rs).
use ella.Prelude.{◌≡◌, refl, ==_iff, Option, none, some, List, [], ◌∷◌, length, arith}
use ella.Topic.Plan.{TopicExec, children, rebuild, rebuilt, with_new_children}

module _ {P : Type 0} where
  abbrev exec : Option P → Option P → P → TopicExec P
  exec shards r channel = record { shards = shards; rw = r; channel = channel }

  rebuild-children :
      (sh r : Option P) (ch : P) (ps : List P)
      → length ps ≡ length (children (exec sh r ch))
      → (e : TopicExec P) × (rebuild (exec sh r ch) ps ≡ some e) × (children e ≡ ps)
  unfolding rebuild children
  rebuild-children none none ch [] h = absurd (omega (arith, h))
  rebuild-children none none ch (a ∷ []) h = (exec none none a, refl, refl)
  rebuild-children none none ch (a ∷ b ∷ ps) h = absurd (omega (arith, h))
  rebuild-children (some x) none ch [] h = absurd (omega (arith, h))
  rebuild-children (some x) none ch (a ∷ []) h = absurd (omega (arith, h))
  rebuild-children (some x) none ch (a ∷ b ∷ []) h = (exec (some a) none b, refl, refl)
  rebuild-children (some x) none ch (a ∷ b ∷ c ∷ ps) h = absurd (omega (arith, h))
  rebuild-children none (some x) ch [] h = absurd (omega (arith, h))
  rebuild-children none (some x) ch (a ∷ []) h = absurd (omega (arith, h))
  rebuild-children none (some x) ch (a ∷ b ∷ []) h = (exec none (some a) b, refl, refl)
  rebuild-children none (some x) ch (a ∷ b ∷ c ∷ ps) h = absurd (omega (arith, h))
  rebuild-children (some x) (some y) ch [] h = absurd (omega (arith, h))
  rebuild-children (some x) (some y) ch (a ∷ []) h = absurd (omega (arith, h))
  rebuild-children (some x) (some y) ch (a ∷ b ∷ []) h = absurd (omega (arith, h))
  rebuild-children (some x) (some y) ch (a ∷ b ∷ c ∷ []) h = (exec (some a) (some b) c, refl, refl)
  rebuild-children (some x) (some y) ch (a ∷ b ∷ c ∷ d ∷ ps) h = absurd (omega (arith, h))

  -- Given as many children as the plan has, `with_new_children` gives a plan with exactly those
  -- children, and never unwraps a missing one.
  pub with_new_children-children :
      (e : TopicExec P) (ps : List P)
      → length ps ≡ length (children e)
      → (e' : TopicExec P) × (with_new_children e ps ≡ rebuilt e') × (children e' ≡ ps)
  unfolding with_new_children
  with_new_children-children e ps h =
      let (e', q, k) = rebuild-children e.shards e.rw e.channel ps h in
      (e', rw ((==_iff (length ps) (length (children e))).1 h, with_new_children, q) refl, k)
