-- ===== src/Engine.antt =====
-- The catalogs, schemas and tables of an open datastore (ella-engine/src/engine/state.rs,
-- ella-engine/src/cluster.rs, catalog.rs, schema.rs, table.rs). A method of an object that is shared by
-- `Arc` takes the object's value and returns the new one; its owner writes it back.
pub mod Outcome
pub mod Table
pub mod World
pub mod Schema
pub mod Catalog
pub mod Cluster
pub mod State
pub mod Load
pub mod Tree
pub mod Agrees
pub mod Lookup
pub mod Loaded
pub mod Drop
