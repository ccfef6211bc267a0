-- ===== src/Fuse.antt =====
-- fs-fuse: the FUSE side of the common stack.
pub mod Paths
pub mod PathSet
pub mod Cache
pub mod Kernel
pub mod Covering
pub mod Adapter
mod Tests
