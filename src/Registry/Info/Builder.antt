-- ===== src/Registry/Info/Builder.antt =====
-- ella-engine/src/table/info.rs: the builders of topics and views.
use mathlib.Core.Option
use ella.Prelude.{
  Text, codes, Bool, true, false, Option, none, some, List, [], ◌∷◌, ◌++◌, if◌then◌else◌, ◌≡◌,
  arith,
}
use ella.Prelude.Result.{Result, ok, err, invalid_index}
use ella.External.{External}
use ella.Config.{TableConfig}
use ella.Registry.Info.{Column, TableIndex, TopicInfo, ViewInfo, timestamp}

pub record TopicBuilder : Type 0 where
  pub columns : List Column
  pub index : List TableIndex
  pub time : Option Text
  pub temporary : Bool
  pub config : Option TableConfig
  pub append_time : Bool

-- `TopicBuilder::default`
abbrev pub new_topic : TopicBuilder
new_topic = record {
  columns = [];
  index = [];
  time = none;
  temporary = false;
  config = none;
  append_time = true;
}

abbrev pub time_column : Text → Column
time_column name = record { name = name; data_type = timestamp; row_shape = none; required = true }

abbrev pub time_index : Text → TableIndex
time_index name = record { column = name; ascending = true }

unfoldable pub add_index : TopicBuilder → Text → Bool → TopicBuilder
add_index b col ascending = record b {
  index = b.index ++ (record { column = col; ascending = ascending }) ∷ [];
}

unfoldable pub add_column : TopicBuilder → Column → TopicBuilder
add_column b c = record b { columns = b.columns ++ c ∷ [] }

-- `TopicBuilder::build`
unfoldable pub build_topic : {X : External} → TopicBuilder → TopicInfo X
build_topic b =
    let time = Option.get_or b.time (codes "time") in
    record {
      columns = (if b.append_time then time_column time ∷ [] else []) ++ b.columns;
      index = (if b.append_time then time_index time ∷ [] else []) ++ b.index;
      temporary = b.temporary;
      shards = [];
      config = b.config;
    }

abbrev without_time :
    {X : External} → TopicInfo X → List Column → List TableIndex → Option TopicBuilder
without_time t (c ∷ cs) (i ∷ is) = some (record {
  columns = cs;
  index = is;
  time = some c.name;
  temporary = t.temporary;
  config = t.config;
  append_time = true;
})
without_time t _ _ = none

-- `TopicInfo::into_builder`; `none` is the panic of `Vec::remove(0)` on an empty vector. Its two
-- debug assertions are not modelled.
unfoldable pub into_builder : {X : External} → TopicInfo X → Option TopicBuilder
into_builder t = without_time t t.columns t.index

pub record ViewBuilder (X : External) : Type 0 where
  pub plan : X.Plan
  pub definition : Option Text
  pub materialized : Bool
  pub index : Option (List TableIndex)
  pub config : Option TableConfig

-- `ViewBuilder::new`
unfoldable pub new_view : {X : External} → X.Plan → ViewBuilder X
new_view p = record {
  plan = p;
  definition = none;
  materialized = false;
  index = none;
  config = none;
}

unfoldable pub materialize : {X : External} → ViewBuilder X → ViewBuilder X
materialize b = record b { materialized = true }

-- `ViewBuilder::index`
unfoldable pub index_view : {X : External} → ViewBuilder X → Text → Bool → Result (ViewBuilder X)
index_view b col ascending =
    if b.materialized
    then ok (record b {
      index =
          some (Option.get_or b.index [] ++ (record { column = col; ascending = ascending }) ∷ []);
    })
    else err (invalid_index (codes "cannot create index on non-materialized view"))

-- `ViewBuilder::build`
unfoldable pub build_view : {X : External} → ViewBuilder X → ViewInfo X
build_view b = record {
  plan = b.plan;
  definition = b.definition;
  materialized = b.materialized;
  index = b.index;
  config = b.config;
}

-- A topic built with its time column turns back into its builder, with the name of the time column
-- made explicit; one built without a time column and without other columns has no builder:
-- `into_builder` panics.
pub into_builder-build_topic :
    (X : External) (b : TopicBuilder)
    → (b.append_time ≡ true
        → into_builder (build_topic {X = X} b)
          ≡ some (record b { time = some (Option.get_or b.time (codes "time")) }))
      × (b.append_time ≡ false → b.columns ≡ [] → into_builder (build_topic {X = X} b) ≡ none)
unfolding into_builder build_topic
into_builder-build_topic X b = (λ h. ground arith, λ h e. ground arith)
