-- ===== src/Rows/Scalar.antt =====
-- The format of rows of one value (ella-common/src/row/scalar.rs), over the trait `TensorValue` of
-- ella-common/src/tensor_value.rs, whose arrays are those of arrow.
use ella.Prelude.{
  ℕ, Bool, true, ◌+◌, ◌==◌, ◌≡◌, ◌⊎◌, refl, sym, ap, ◌∙◌, ==_iff, inl, inr, Option, none, some,
  List, [], ◌∷◌, ◌++◌, All, All-append, length, get_elem?, if◌then◌else◌, not, ◌&&◌, ◌||◌,
  Bool-cases,
}
use ella.Rows.{Arrow, RowFormat, RowLaws}

-- What a format uses of `TensorValue`: `contains` says whether the type of a field contains the arrow
-- type of `TENSOR_TYPE`, `to_ref` is `Arc::new`, and `value` is `none` where it panics.
pub record TensorValue (X : Arrow) (T : Type 0) : Type 1 where
  pub Array : Type 0
  pub nullable : Bool
  pub contains : X.Field → Bool
  pub cast_error : X.ArrayRef → X.Error
  pub from_vec : List T → Array
  pub to_ref : Array → X.ArrayRef
  pub downcast : X.ArrayRef → Option Array
  pub len : Array → ℕ
  pub value : Array → ℕ → Option T

-- What it promises: `Fits` says which values the elements of the array can be, such as a time in
-- whole nanoseconds of 64 bits.
pub record TensorValueLaws {X : Arrow} {T : Type 0} (V : TensorValue X T) (Fits : T → Type 0)
    : Type 1 where
  pub downcasts : (a : V.Array) → V.downcast (V.to_ref a) ≡ some a
  pub array_len-to_ref : (a : V.Array) → X.array_len (V.to_ref a) ≡ V.len a
  pub len-from_vec : (xs : List T) → V.len (V.from_vec xs) ≡ length xs
  pub value-from_vec :
      (xs : List T) (i : ℕ) → All Fits xs → V.value (V.from_vec xs) i ≡ get_elem? xs i

module _ {X : Arrow} {T : Type 0} where
  -- The test of `builder` on its one field.
  unfoldable pub is_compatible : TensorValue X T → X.Field → Bool
  is_compatible V f = not ((V.nullable && not (X.is_nullable f)) || not (V.contains f))

  unfoldable pub scalar_builder : TensorValue X T → List X.Field → X.Error ⊎ List T
  unfolding is_compatible
  scalar_builder V [] = inl (X.column_count 1 0)
  scalar_builder V (f ∷ []) = if is_compatible V f then inr [] else inl (X.incompatible_row f)
  scalar_builder V (f ∷ g ∷ fs) = inl (X.column_count 1 (length fs + 2))

  abbrev cast : (V : TensorValue X T) → X.ArrayRef → Option V.Array → X.Error ⊎ V.Array
  cast V c none = inl (V.cast_error c)
  cast V c (some a) = inr a

  unfoldable pub scalar_view :
      (V : TensorValue X T) → ℕ → List X.ArrayRef → Option (X.Error ⊎ V.Array)
  scalar_view V rows [] = some (inl (X.column_count 1 0))
  scalar_view V rows (c ∷ []) =
      if rows == X.array_len c then some (cast V c (V.downcast c)) else none
  scalar_view V rows (c ∷ d ∷ cs) = some (inl (X.column_count 1 (length cs + 2)))

  -- `RowFormat for T` with `ScalarBuilder` and `ScalarRowView`
  unfoldable pub scalar_format : TensorValue X T → RowFormat X T
  unfolding scalar_builder scalar_view
  scalar_format V = record {
    columns = 1;
    Builder = List T;
    View = V.Array;
    builder = scalar_builder V;
    len = length;
    push = λ r b. b ++ r ∷ [];
    build_columns = λ b. ([], inr (V.to_ref (V.from_vec b) ∷ []));
    view = λ rows fs cs. scalar_view V rows cs;
    count = V.len;
    row = V.value;
  }

  -- One field that passes the test.
  abbrev pub IsAccepted : TensorValue X T → List X.Field → Type 0
  IsAccepted V fs = (f : X.Field) × (fs ≡ f ∷ []) × (is_compatible V f ≡ true)

  module _ (V : TensorValue X T) (Fits : T → Type 0) (K : TensorValueLaws V Fits) where
    scalar-builds :
        (fs : List X.Field)
        → IsAccepted V fs
        → (b : List T) × (scalar_builder V fs ≡ inr b) × ((b ≡ []) × All Fits [])
    unfolding scalar_builder
    scalar-builds fs (f, e, h) = (
      [],
      ap (scalar_builder V) e ∙ ap (λ t. if t then inr [] else inl (X.incompatible_row f)) h,
      (refl, tt),
    )

    scalar-accepts :
        (fs : List X.Field) (b : List T)
        → scalar_builder V fs ≡ inr b
        → IsAccepted V fs × (length fs ≡ 1)
    unfolding scalar_builder
    scalar-accepts [] b e = absurd (cc e)
    scalar-accepts (f ∷ []) b e = elim (Bool-cases (is_compatible V f)) [
      | inl h ↦ ((f, refl, h), refl)
      | inr h ↦ absurd (cc (rw (h, scalar_builder) at e))
    ]
    scalar-accepts (f ∷ g ∷ fs) b e = absurd (cc e)

    scalar-view :
        (rs : List T)
        → All Fits rs
        → scalar_view V (length rs) (V.to_ref (V.from_vec rs) ∷ []) ≡ some (inr (V.from_vec rs))
    unfolding scalar_view
    scalar-view rs h =
        let a = V.from_vec rs in
        let e : (length rs == X.array_len (V.to_ref a)) ≡ true =
          (==_iff (length rs) (X.array_len (V.to_ref a))).1
            (sym (K.array_len-to_ref a ∙ K.len-from_vec rs)) in
        rw (e, K.downcasts a) refl

    -- The format of one value keeps the contract of formats: it takes just the one field that passes its
    -- test, and gives back every value that fits into an element.
    pub scalar_format-RowLaws : RowLaws (scalar_format V) (IsAccepted V) Fits
    unfolding scalar_format
    scalar_format-RowLaws = record {
      Holds = λ b rs. (b ≡ rs) × All Fits rs;
      builds = scalar-builds;
      accepts = scalar-accepts;
      pushes = λ b rs r k h. (ap (λ xs. xs ++ r ∷ []) h.0, All-append Fits rs (r ∷ []) h.1 (k, tt));
      counts = λ b rs h. ap length h.0;
      gives_back = λ b rs h. (
        [],
        V.to_ref (V.from_vec b) ∷ [],
        refl,
        (refl, tt),
        refl,
        λ fs l. (
          V.from_vec rs,
          ap (λ xs. scalar_view V (length rs) (V.to_ref (V.from_vec xs) ∷ [])) h.0
              ∙ scalar-view rs h.1,
          K.len-from_vec rs,
          λ i. K.value-from_vec rs i h.1,
        ),
      );
    }
