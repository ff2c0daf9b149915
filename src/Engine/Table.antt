-- ===== src/Engine/Table.antt =====
-- `EllaTable` of ella-engine/src/table.rs, with the parts of `EllaTopic` (table/topic.rs) and `EllaView`
-- (table/view.rs) that the engine's tree keeps. The channel, the read-write buffer and the worker of a
-- topic are not part of the value.
use ella.Prelude.{
  ℕ, suc, ◌%◌, ◌^◌, Text, codes, eq_text, Bool, true, not, Option, none, some, List, [], ◌∷◌, ◌++◌,
  map, if◌then◌else◌,
}
use ella.Prelude.Result.{Result, ok, err, ◌>>=◌, invalid_index}
use ella.External.{External}
use ella.Registry.Id.{TableId}
use ella.Registry.Info.{ShardInfo, TableIndex, TopicInfo, ViewInfo}
use ella.Registry.Transaction.{CreateTable, new_topic, new_view}
use ella.Topic.ShardSet
use ella.Engine.Outcome.{Outcome, panicked, of_result, map_outcome}

-- The crate parquet's description of a sorted column.
pub record SortingColumn : Type 0 where
  pub column_idx : ℕ
  pub descending : Bool
  pub nulls_first : Bool

-- The map from names to positions: of columns with the same name, the last one counts.
unfoldable pub column_index : Text → ℕ → List Text → Option ℕ
column_index c k [] = none
column_index c k (n ∷ ns) =
    let rest = column_index c (suc k) ns in
    elim rest [ none ↦ if eq_text n c then some k else none | some i ↦ some i ]

abbrev nonexistent : Text → Text
nonexistent c = codes "cannot define table index for nonexistent column " ++ c

unfoldable pub sort_each : List TableIndex → List Text → Result (List SortingColumn)
unfolding column_index
sort_each [] names = ok []
sort_each (i ∷ is) names = elim (column_index i.column 0 names) [
  | none ↦ err (invalid_index (nonexistent i.column))
  | some k ↦ sort_each is names >>= λ cols.
      ok (
        record { column_idx = k % 2 ^ 32; descending = not i.ascending; nulls_first = true } ∷ cols)
]

unfoldable pub sorting_cols :
    Option (List TableIndex) → List Text → Result (Option (List SortingColumn))
unfolding sort_each
sorting_cols none names = ok none
sorting_cols (some is) names = sort_each is names >>= λ cols. ok (some cols)

module _ (X : External) where
  pub record EllaTopic : Type 0 where
    pub table : TableId
    pub info : TopicInfo X
    pub path : X.UrlPath
    pub sorting : Option (List SortingColumn)
    -- the shards of the manager, which a temporary topic does not have
    pub shards : Option (List (ℕ × ShardInfo X))

  pub record EllaView : Type 0 where
    pub table : TableId
    pub info : ViewInfo X
    pub sorting : Option (List SortingColumn)
    pub plan : Option X.LogicalPlan

pub data EllaTable (X : External) : Type 0 where
  topic_table : EllaTopic X → EllaTable X
  view_table : EllaView X → EllaTable X

unfoldable pub table_path : (X : External) → X.UrlPath → TableId → X.UrlPath
table_path X root i = X.join (X.join (X.join root i.catalog) i.schema) i.table

module _ {X : External} where
  -- `EllaTable::id`
  unfoldable pub id_of : EllaTable X → TableId
  id_of (topic_table t) = t.table
  id_of (view_table v) = v.table

  unfoldable pub as_topic : EllaTable X → Option (EllaTopic X)
  as_topic (topic_table t) = some t
  as_topic (view_table v) = none

  unfoldable pub as_view : EllaTable X → Option (EllaView X)
  as_view (topic_table t) = none
  as_view (view_table v) = some v

  -- `EllaTable::transaction`, with the fresh transaction id
  unfoldable pub transaction : ℕ → EllaTable X → CreateTable X
  unfolding new_topic new_view
  transaction u (topic_table t) = new_topic u t.table t.info
  transaction u (view_table v) = new_view u v.table v.info

  -- `EllaTopic::new`, on the columns' sorting that `TopicInfo::table_info` computes.
  unfoldable pub topic_new : X.UrlPath → TableId → TopicInfo X → Outcome (EllaTopic X)
  unfolding sorting_cols table_path ShardSet.load
  topic_new root i t =
      map_outcome
        (λ cols. record {
          table = i;
          info = t;
          path = table_path X root i;
          sorting = cols;
          shards = if t.temporary then none else some (ShardSet.load t.shards []);
        })
        (of_result (sorting_cols (some t.index) (map (λ c. c.name) t.columns)))

  -- `EllaView::resolve` with the plan that `Plan::resolve` gives: a plan that is set stays.
  unfoldable pub set_plan : X.LogicalPlan → EllaView X → EllaView X
  set_plan p v = record v { plan = elim v.plan [ none ↦ some p | some q ↦ some q ] }

  -- `EllaView::new` before its plan is resolved. The columns of the view's plan come from the query
  -- engine; a materialized view is a `todo!()`.
  unfoldable pub view_new : List Text → TableId → ViewInfo X → Outcome (EllaView X)
  unfolding sorting_cols
  view_new columns i v =
      if v.materialized
      then panicked
      else map_outcome (λ cols. record { table = i; info = v; sorting = cols; plan = none })
          (of_result (sorting_cols v.index columns))
