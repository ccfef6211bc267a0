-- ===== src/Server.antt =====
-- fabricfs-server: the parts of the server process that are modelled.
pub mod Locks
pub mod Flocks
pub mod Inodes
