-- ===== src/Protocol.antt =====
-- fs-protocol: the paths, the operations and the envelopes of the common filesystem protocol.
pub mod Error
pub mod Path
pub mod Invalidation
pub mod Operation
pub mod OperationSpec
pub mod Messages
pub mod Validation
pub mod RequestPayload
pub mod ResponsePayload
pub mod Errno
pub mod RequestEnvelope
pub mod ResponseEnvelope
pub mod Codec
mod Tests
