-- ===== src/Fuse/Adapter.antt =====
-- fs-fuse/src/lib.rs, `FuseAdapter`: the calls of the kernel become requests of the protocol, by the
-- paths that the cache has. The latencies that it records are not modelled.
pub mod State
pub mod Calling
pub mod Payloads
pub mod Nodes
pub mod Handles
pub mod Keeping
pub mod Losing
pub mod Staying
pub mod Runs
pub mod Serving
pub mod Synced
