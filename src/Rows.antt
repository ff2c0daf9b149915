-- ===== src/Rows.antt =====
-- Rows and columns (ella-common/src/row.rs, row/format.rs and row/scalar.rs): how a format of rows
-- builds columns and reads them, the format of one value, and the format `Row` of rows with a time.
-- Fields and arrays are those of arrow; an error is `inl`.
pub mod Scalar
pub mod Stamped
pub mod Times
use ella.Prelude.{
  ℕ, Bool, ◌+◌, ◌==◌, ◌≡◌, ◌⊎◌, inl, inr, Option, none, some, List, [], ◌∷◌, ◌++◌, length, take,
  drop, get_elem?, if◌then◌else◌,
}

-- What is used of arrow, and the errors for a wrong number of columns and for a field.
pub record Arrow : Type 1 where
  pub Field : Type 0
  pub ArrayRef : Type 0
  pub Error : Type 0
  pub column_count : ℕ → ℕ → Error
  pub incompatible_row : Field → Error
  pub is_nullable : Field → Bool
  pub array_len : ArrayRef → ℕ

-- The traits `RowFormat`, `RowBatchBuilder` and `RowFormatView` for rows `R`; `view` and `row` are
-- `none` where they panic, a failed `debug_assert_eq!` included.
pub record RowFormat (X : Arrow) (R : Type 0) : Type 1 where
  pub columns : ℕ
  pub Builder : Type 0
  pub View : Type 0
  pub builder : List X.Field → X.Error ⊎ Builder
  pub len : Builder → ℕ
  pub push : R → Builder → Builder
  pub build_columns : Builder → Builder × (X.Error ⊎ List X.ArrayRef)
  pub view : ℕ → List X.Field → List X.ArrayRef → Option (X.Error ⊎ View)
  pub count : View → ℕ
  pub row : View → ℕ → Option R

-- The contract of a format: it gives a builder for just the fields that `Accepts` says, and its columns
-- can hold the rows that `Keeps` says; `Holds` says which rows a builder has. The columns that it
-- builds, read with as many fields, give back the rows.
pub record RowLaws {X : Arrow} {R : Type 0} (F : RowFormat X R) (Accepts : List X.Field → Type 0)
    (Keeps : R → Type 0) : Type 1 where
  pub Holds : F.Builder → List R → Type 0
  pub builds :
      (fs : List X.Field) → Accepts fs → (b : F.Builder) × (F.builder fs ≡ inr b) × Holds b []
  pub accepts :
      (fs : List X.Field) (b : F.Builder)
      → F.builder fs ≡ inr b
      → Accepts fs × (length fs ≡ F.columns)
  pub pushes :
      (b : F.Builder) (rs : List R) (r : R)
      → Keeps r
      → Holds b rs
      → Holds (F.push r b) (rs ++ r ∷ [])
  pub counts : (b : F.Builder) (rs : List R) → Holds b rs → F.len b ≡ length rs
  pub gives_back :
      (b : F.Builder) (rs : List R)
      → Holds b rs
      → (b' : F.Builder) × (cs : List X.ArrayRef) × (F.build_columns b ≡ (b', inr cs))
        × Holds b' []
        × (length cs ≡ F.columns)
        × ((fs : List X.Field)
            → length fs ≡ F.columns
            → (v : F.View) × (F.view (length rs) fs cs ≡ some (inr v))
              × (F.count v ≡ length rs)
              × ((i : ℕ) → F.row v i ≡ get_elem? rs i))

-- `Row`: a time and the values.
pub record Row (T R : Type 0) : Type 0 where
  pub time : T
  pub values : R

abbrev pub pair_up : {E A B C : Type 0} → (A → B → C) → E ⊎ A → E ⊎ B → E ⊎ C
pair_up f (inl e) o = inl e
pair_up f (inr a) (inl e) = inl e
pair_up f (inr a) (inr b) = inr (f a b)

-- The two views that `Row::view` takes in turn, and its assertion on the length of the second.
abbrev pub view_both :
    {E A B : Type 0} → (B → ℕ) → ℕ → Option (E ⊎ A) → Option (E ⊎ B) → Option (E ⊎ (A × B))
view_both count rows none o = none
view_both count rows (some (inl e)) o = some (inl e)
view_both count rows (some (inr a)) none = none
view_both count rows (some (inr a)) (some (inl e)) = some (inl e)
view_both count rows (some (inr a)) (some (inr b)) =
    if count b == rows then some (inr (a, b)) else none

abbrev pub row_of : {T R : Type 0} → Option T → Option R → Option (Row T R)
row_of none o = none
row_of (some t) none = none
row_of (some t) (some r) = some (record { time = t; values = r })

-- What `RowBuilder::build_columns` leaves and gives.
abbrev pub columns_of :
    {E A B C : Type 0} → A × (E ⊎ List C) → B → B × (E ⊎ List C) → (A × B) × (E ⊎ List C)
columns_of (a, inl e) b r = ((a, b), inl e)
columns_of (a, inr cs) b (b', inl e) = ((a, b'), inl e)
columns_of (a, inr cs) b (b', inr ds) = ((a, b'), inr (cs ++ ds))

-- `RowFormat for Row<R>` with `RowBuilder` and `RowView`; `T` is the format of the times.
abbrev pub row_format :
    {X : Arrow} {T R : Type 0} → RowFormat X T → RowFormat X R → RowFormat X (Row T R)
row_format {X} T R = record {
  columns = R.columns + 1;
  Builder = T.Builder × R.Builder;
  View = T.View × R.View;
  builder = λ fs.
      if length fs == R.columns + 1
      then pair_up (λ t v. (t, v)) (T.builder (take 1 fs)) (R.builder (drop 1 fs))
      else inl (X.column_count (R.columns + 1) (length fs));
  len = λ b. T.len b.0;
  push = λ r b. (T.push r.time b.0, R.push r.values b.1);
  build_columns = λ b. columns_of (T.build_columns b.0) b.1 (R.build_columns b.1);
  view = λ rows fs cs.
      if length cs == R.columns + 1
      then elim fs [
        | [] ↦ none
        | f ∷ gs ↦
            view_both R.count rows (T.view rows (f ∷ []) (take 1 cs)) (R.view rows gs (drop 1 cs))
      ]
      else some (inl (X.column_count (R.columns + 1) (length cs)));
  count = λ v. T.count v.0;
  row = λ v i. row_of (T.row v.0 i) (R.row v.1 i);
}
