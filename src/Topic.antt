-- ===== src/Topic.antt =====
-- ella-engine/src/table/topic: the shards of a topic.
pub mod ShardSet
pub mod Worker
pub mod Writer
pub mod Handles
pub mod Channel
pub mod Buffer
pub mod Plan
