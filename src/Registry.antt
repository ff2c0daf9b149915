-- ===== src/Registry.antt =====
-- ella-engine/src/registry.rs: identifiers, the catalog snapshot and the transaction log.
pub mod Id
pub mod Split
pub mod SchemaRef
pub mod TableRef
pub mod Info
pub mod Uuid
pub mod Roundtrip
pub mod Transaction
pub mod LogApi
pub mod TransactionLog
pub mod Snapshot
