-- ===== src/Config.antt =====
-- ella-engine/src/config.rs and ella-engine/src/table/config.rs: the settings of a datastore and of
-- a table.
use ella.Prelude.{ℕ, ◌*◌, Option, codes}
use ella.External.{External}
use ella.Registry.Id.{Ident}

pub record TableConfig : Type 0 where
  pub write_batch_size : ℕ
  pub rw_buffer_capacity : ℕ
  pub target_shard_size : ℕ
  pub min_shard_size : ℕ
  pub subscriber_queue_size : ℕ
  pub rw_queue_size : ℕ
  pub shard_queue_size : ℕ

abbrev pub default_table_config : TableConfig
default_table_config = record {
  write_batch_size = 1024;
  rw_buffer_capacity = 1024 * 1024;
  target_shard_size = 32 * 1024 * 1024;
  min_shard_size = 1024 * 1024;
  subscriber_queue_size = 1024;
  rw_queue_size = 1024;
  shard_queue_size = 128;
}

pub record ChannelConfig : Type 0 where
  pub subscriber_queue_size : ℕ

pub record RwBufferConfig : Type 0 where
  pub capacity : ℕ
  pub queue_size : ℕ
  pub write_batch_size : ℕ

pub record ShardConfig : Type 0 where
  pub target_shard_size : ℕ
  pub min_shard_size : ℕ
  pub row_group_size : ℕ
  pub write_batch_size : ℕ
  pub queue_size : ℕ

unfoldable pub channel_config : TableConfig → ChannelConfig
channel_config c = record { subscriber_queue_size = c.subscriber_queue_size }

unfoldable pub rw_buffer_config : TableConfig → RwBufferConfig
rw_buffer_config c = record {
  capacity = c.rw_buffer_capacity;
  queue_size = c.rw_queue_size;
  write_batch_size = c.write_batch_size;
}

unfoldable pub shard_config : TableConfig → ShardConfig
shard_config c = record {
  target_shard_size = c.target_shard_size;
  min_shard_size = c.min_shard_size;
  row_group_size = c.min_shard_size;
  write_batch_size = c.write_batch_size;
  queue_size = c.shard_queue_size;
}

pub record EngineConfig (X : External) : Type 0 where
  pub serve_metrics : Option X.SocketAddr
  pub maintenance_interval : X.Duration

pub record EllaConfig (X : External) : Type 0 where
  pub engine_config : EngineConfig X
  pub table_config : TableConfig
  pub default_catalog : Ident
  pub default_schema : Ident

-- `Default for EllaConfig`, over the default of the engine's settings
unfoldable pub default_config : {X : External} → EngineConfig X → EllaConfig X
default_config e = record {
  engine_config = e;
  table_config = default_table_config;
  default_catalog = codes "ella";
  default_schema = codes "public";
}

-- The setters of `TableConfig`, of `EllaConfigBuilder` and of `EngineConfigBuilder`, whose `build` and
-- `into_builder` only wrap and unwrap.
unfoldable pub with_write_batch_size : TableConfig → ℕ → TableConfig
with_write_batch_size c n = record c { write_batch_size = n }

unfoldable pub with_min_shard_size : TableConfig → ℕ → TableConfig
with_min_shard_size c n = record c { min_shard_size = n }

unfoldable pub with_target_shard_size : TableConfig → ℕ → TableConfig
with_target_shard_size c n = record c { target_shard_size = n }

unfoldable pub with_rw_buffer_capacity : TableConfig → ℕ → TableConfig
with_rw_buffer_capacity c n = record c { rw_buffer_capacity = n }

unfoldable pub with_streaming_queue_size : TableConfig → ℕ → TableConfig
with_streaming_queue_size c n = record c { subscriber_queue_size = n }

unfoldable pub with_rw_queue_size : TableConfig → ℕ → TableConfig
with_rw_queue_size c n = record c { rw_queue_size = n }

unfoldable pub with_shard_queue_size : TableConfig → ℕ → TableConfig
with_shard_queue_size c n = record c { shard_queue_size = n }

module _ {X : External} where
  unfoldable pub with_table_config : EllaConfig X → TableConfig → EllaConfig X
  with_table_config c t = record c { table_config = t }

  unfoldable pub with_engine_config : EllaConfig X → EngineConfig X → EllaConfig X
  with_engine_config c e = record c { engine_config = e }

  unfoldable pub with_default_catalog : EllaConfig X → Ident → EllaConfig X
  with_default_catalog c i = record c { default_catalog = i }

  unfoldable pub with_default_schema : EllaConfig X → Ident → EllaConfig X
  with_default_schema c i = record c { default_schema = i }

  unfoldable pub with_maintenance_interval : EngineConfig X → X.Duration → EngineConfig X
  with_maintenance_interval c d = record c { maintenance_interval = d }
