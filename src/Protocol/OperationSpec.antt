-- ===== src/Protocol/OperationSpec.antt =====
-- fs-protocol/src/operation_spec.rs and operation.rs: the operation table and the searches in it.
pub mod Types
pub mod PathRoles
pub mod NodeRows
pub mod AttributeRows
pub mod SyncRows
pub mod Table
