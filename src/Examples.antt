-- ===== src/Examples.antt =====
-- Runs of the modelled code at concrete inputs, one module for each part.
pub mod Data
mod Engine
mod Tensors
mod Views
mod Columns
mod Topics
mod Buffers
pub mod Sets
pub mod Snapshots
mod Stores
pub mod Names
pub mod Queues
pub mod Shapes
