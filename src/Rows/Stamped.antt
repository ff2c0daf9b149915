-- ===== src/Rows/Stamped.antt =====
-- Rows with a time keep the contract of their parts (ella-common/src/row.rs).
use ella.Prelude.{
  ℕ, zero, suc, ◌+◌, ◌≡◌, refl, sym, ap, ◌∙◌, arith, ==_iff, ◌==◌, ◌⊎◌, Bool-cases, inl, inr, some,
  List, [], ◌∷◌, ◌++◌, map, map-append, length, length-append, get_elem?,
}
use ella.Rows.{Arrow, RowFormat, RowLaws, Row, row_of, row_format}

length-map : {A B : Type 0} (f : A → B) (xs : List A) → length (map f xs) ≡ length xs
length-map f [] = refl
length-map f (x ∷ xs) = ap suc (length-map f xs)

first_of :
    {A : Type 0} (xs : List A) (n : ℕ)
    → length xs ≡ n + 1
    → (x : A) × (ys : List A) × (xs ≡ x ∷ ys) × (length ys ≡ n)
first_of [] n h = absurd (omega (arith, h))
first_of (x ∷ xs) n h = (x, xs, refl, omega (arith, h))

either_cases : {A B : Type 0} (s : A ⊎ B) → ((a : A) × (s ≡ inl a)) ⊎ ((b : B) × (s ≡ inr b))
either_cases (inl a) = inl (a, refl)
either_cases (inr b) = inr (b, refl)

module _ {T R : Type 0} where
  times : List (Row T R) → List T
  times = map (λ r. r.time)

  values_of : List (Row T R) → List R
  values_of = map (λ r. r.values)

  row_of-get_elem? :
      (rs : List (Row T R)) (i : ℕ)
      → row_of (get_elem? (times rs) i) (get_elem? (values_of rs) i) ≡ get_elem? rs i
  unfolding times values_of
  row_of-get_elem? [] i = refl
  row_of-get_elem? (r ∷ rs) zero = refl
  row_of-get_elem? (r ∷ rs) (suc i) = row_of-get_elem? rs i

-- The fields that both formats take: one for the time, and as many others as there are columns.
abbrev pub BothAccept : {F : Type 0} → ℕ → (List F → Type 0) → (List F → Type 0) → List F → Type 0
BothAccept {F} columns A B fs =
    (f : F) × (gs : List F) × (fs ≡ f ∷ gs) × (length gs ≡ columns) × A (f ∷ []) × B gs

-- A time and values that both formats keep.
abbrev pub BothKeep : {T R : Type 0} → (T → Type 0) → (R → Type 0) → Row T R → Type 0
BothKeep P Q r = P r.time × Q r.values

module _ {X : Arrow} {T R : Type 0} where
  module _ (F : RowFormat X T) (G : RowFormat X R) (A B : List X.Field → Type 0) (P : T → Type 0)
      (Q : R → Type 0) (K : RowLaws F A P) (L : RowLaws G B Q) (one : F.columns ≡ 1) where
    BothHold : F.Builder × G.Builder → List (Row T R) → Type 0
    BothHold b rs = K.Holds b.0 (times rs) × L.Holds b.1 (values_of rs)

    builds_both :
        (fs : List X.Field)
        → BothAccept G.columns A B fs
        → (b : F.Builder × G.Builder) × ((row_format F G).builder fs ≡ inr b) × BothHold b []
    unfolding BothHold times values_of
    builds_both fs (f, gs, e, n, a, c) =
        let (t, et, p) = K.builds (f ∷ []) a in
        let (v, ev, q) = L.builds gs c in
        (
          (t, v),
          ap (row_format F G).builder e
              ∙ rw ((==_iff (suc (length gs)) (G.columns + 1)).1 (omega (arith, n)), et, ev) refl,
          (p, q),
        )

    accepts_both :
        (fs : List X.Field) (b : F.Builder × G.Builder)
        → (row_format F G).builder fs ≡ inr b
        → BothAccept G.columns A B fs × (length fs ≡ G.columns + 1)
    accepts_both [] b e = elim (Bool-cases (0 == G.columns + 1)) [
      | inl h ↦ absurd (omega (arith, (==_iff 0 (G.columns + 1)).0 h))
      | inr h ↦ absurd (cc (rw h at e))
    ]
    accepts_both (f ∷ gs) b e = elim (Bool-cases (suc (length gs) == G.columns + 1)) [
      | inr h ↦ absurd (cc (rw h at e))
      | inl h ↦ elim (either_cases (F.builder (f ∷ []))) [
        | inl (x, ex) ↦ absurd (cc (rw (h, ex) at e))
        | inr (t, et) ↦ elim (either_cases (G.builder gs)) [
          | inl (y, ey) ↦ absurd (cc (rw (h, et, ey) at e))
          | inr (v, ev) ↦
              let (c, n) = L.accepts gs v ev in
              ((f, gs, refl, n, (K.accepts (f ∷ []) t et).0, c), omega (arith, n))
        ]
      ]
    ]

    pushes_both :
        (b : F.Builder × G.Builder) (rs : List (Row T R)) (r : Row T R)
        → BothKeep P Q r
        → BothHold b rs
        → BothHold ((row_format F G).push r b) (rs ++ r ∷ [])
    unfolding BothHold times values_of
    pushes_both b rs r k h = (
      rw (map-append (λ (r : Row T R). r.time) rs r) (K.pushes b.0 (times rs) r.time k.0 h.0),
      rw (map-append (λ (r : Row T R). r.values) rs r)
          (L.pushes b.1 (values_of rs) r.values k.1 h.1),
    )

    views_both :
        (rs : List (Row T R)) (cs ds : List X.ArrayRef)
        → length cs ≡ 1
        → length ds ≡ G.columns
        → (f : X.Field) (gs : List X.Field)
        → ((v : F.View) × (F.view (length rs) (f ∷ []) cs ≡ some (inr v))
            × (F.count v ≡ length rs)
            × ((i : ℕ) → F.row v i ≡ get_elem? (times rs) i))
        → ((v : G.View) × (G.view (length rs) gs ds ≡ some (inr v))
            × (G.count v ≡ length rs)
            × ((i : ℕ) → G.row v i ≡ get_elem? (values_of rs) i))
        → (v : F.View × G.View) × ((row_format F G).view (length rs) (f ∷ gs) (cs ++ ds)
            ≡ some (inr v))
          × ((row_format F G).count v ≡ length rs)
          × ((i : ℕ) → (row_format F G).row v i ≡ get_elem? rs i)
    views_both rs [] ds l m f gs k k' = absurd (omega (arith, l))
    views_both rs (c ∷ d ∷ cs) ds l m f gs k k' = absurd (omega (arith, l))
    views_both rs (c ∷ []) ds l m f gs (v, e, n, at) (w, e', n', at') = (
      (v, w),
      rw
          (
            (==_iff (suc (length ds)) (G.columns + 1)).1 (omega (arith, m)),
            e,
            e',
            (==_iff (G.count w) (length rs)).1 n',
          )
          refl,
      n,
      λ i. rw (at i, at' i) (row_of-get_elem? rs i),
    )

    counts_both :
        (b : F.Builder × G.Builder) (rs : List (Row T R))
        → BothHold b rs
        → (row_format F G).len b ≡ length rs
    unfolding BothHold times
    counts_both b rs h = K.counts b.0 (times rs) h.0 ∙ length-map (λ (r : Row T R). r.time) rs

    gives_back_both :
        (b : F.Builder × G.Builder) (rs : List (Row T R))
        → BothHold b rs
        → (b' : F.Builder × G.Builder) × (cs : List X.ArrayRef) × ((row_format F G).build_columns b
            ≡ (b', inr cs))
          × BothHold b' []
          × (length cs ≡ G.columns + 1)
          × ((fs : List X.Field)
              → length fs ≡ G.columns + 1
              → (v : F.View × G.View) × ((row_format F G).view (length rs) fs cs ≡ some (inr v))
                × ((row_format F G).count v ≡ length rs)
                × ((i : ℕ) → (row_format F G).row v i ≡ get_elem? rs i))
    unfolding BothHold times values_of
    gives_back_both b rs h =
        let (b0, cs, e, p, l, k) = K.gives_back b.0 (times rs) h.0 in
        let (b1, ds, e', q, m, k') = L.gives_back b.1 (values_of rs) h.1 in
        let n : length (times rs) ≡ length rs = length-map (λ (r : Row T R). r.time) rs in
        let n' : length (values_of rs) ≡ length rs = length-map (λ (r : Row T R). r.values) rs in
        (
          (b0, b1),
          cs ++ ds,
          rw (e, e') refl,
          (p, q),
          length-append cs ds ∙ omega (arith, l, m, one),
          λ fs f.
              let (g, gs, q, t) = first_of fs G.columns f in
              rw q (
                views_both rs cs ds (l ∙ one) m g gs (rw n at (k (g ∷ []) (sym one)))
                  (rw n' at (k' gs t))),
        )

    -- If the format of the times and that of the values keep their contract, and the time is one
    -- column, then so does the format of rows with a time: it gives a builder for just the fields whose
    -- first one the format of the times takes and whose others, as many as it has columns, the format
    -- of the values takes; the columns built from rows whose times and values the two formats keep,
    -- read as a view with as many fields, panic nowhere and give back every row, and the builder is
    -- empty again.
    pub row_format-RowLaws : RowLaws (row_format F G) (BothAccept G.columns A B) (BothKeep P Q)
    row_format-RowLaws = record {
      Holds = BothHold;
      builds = builds_both;
      accepts = accepts_both;
      pushes = pushes_both;
      counts = counts_both;
      gives_back = gives_back_both;
    }
