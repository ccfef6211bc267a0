-- ===== src/Lib.antt =====
-- fabric-fs: a filesystem whose data plane runs over messages. A FUSE client (fs-fuse, fabricfs-fuse)
-- turns kernel calls into request envelopes of the common protocol (fs-protocol); a transport
-- (fabricfs-transport, or fs-transport-local inside one process) carries them to the server
-- (fabricfs-server), whose dispatcher (fs-core) checks each one, runs it on a service and answers. A
-- mutation is announced to all clients by invalidations, which carry a sequence number for each
-- namespace; a client caches the path of each inode, applies the invalidations in sequence, and stops
-- to answer from its cache when one is missing. The server keeps the byte-range and the whole-file
-- locks of all clients.
--
-- Prelude: Boolean tests on native numbers, equality as an instance, lists, error results with their
-- lemmas (Results), the integers of the wire (Int), dictionaries as association lists (Map) and sets
-- of names (Names).
-- Protocol (fs-protocol/src): Path is path.rs, Error is error.rs, Errno is errno.rs, Invalidation is
-- invalidation.rs with the message Invalidation of proto/fs.proto, Operation is the enum of
-- operation.rs, OperationSpec is operation_spec.rs with the searches of operation.rs, Messages are the
-- messages of proto/fs.proto as records, Validation is validation.rs, RequestPayload and
-- ResponsePayload are payload.rs, RequestEnvelope and ResponseEnvelope are envelope.rs, Codec is
-- codec.rs. Path texts are lists of bytes. The protobuf library is a parameter, `Prost P E`: how a
-- message becomes bytes and back, where P and E stand for the bytes of a payload and of an envelope;
-- `ProstLaws` says that a message is read back from its bytes. Codec/Example has such a library whose
-- bytes are the messages.
-- Core (fs-core/src/lib.rs): Service is the FileSystemService with its errors and metadata, Handling
-- are the checks before the handler and the call of the handler, Invalidating is
-- invalidations_for_success with the counters of the namespaces, Dispatcher is Dispatcher::dispatch with
-- the release of handles that cannot be delivered. A service is a record of functions on a state of its
-- own. The clock, the authorizer and the texts of errors are arguments. A counter is a u64 that wraps,
-- written out as `% 2 ^ 64`; the lock of the counters is poisoned or not, as in the source.
-- Fuse: Paths, PathSet, Cache, Kernel and Covering are fs-fuse/src/cache.rs: the free functions on
-- paths, the BTreeSet of the paths of an inode, PathCache, CacheKernel with apply_invalidation, and the
-- invalidation that a response must carry. The cache has two dictionaries, from paths to inodes and
-- back; IsConsistent says that they agree. Poison and the last sequence number are fields, as in the
-- source. Adapter is fs-fuse/src/lib.rs: a step is a function on AdapterState with an error result,
-- which keeps the state reached when it fails. Calling is call_with_cache_policy with the draining,
-- Nodes and Handles are the calls on inodes and on open handles, Runs are lists of such calls. The
-- adapter's client is the record RpcClient of Core; Transport/Local makes one of a dispatcher, and
-- Adapter/Synced puts both ends together.
-- Transport: Local is fs-transport-local/src/lib.rs, the others are fabricfs-transport/src/policy.rs:
-- Retry is the decision to send again, Replay is OwnInvalidationReplay, Authenticated is the replay cache
-- of authenticated requests, where each reading of a clock is an argument, Delivering is
-- deliver_prepared_response, whose callbacks are arguments and whose calls are returned as a list.
-- NamespaceLocks is the struct of that name, as steps of its threads.
-- Server (fabricfs-server/src): Locks and Flocks are LockTable and FlockTable of server/locks.rs. A method
-- that mutates the table returns the new table beside its result. `held` and `flock_held` are the
-- abstract views of a table: who holds which byte, or which file, in which mode. Inodes is
-- service/inode_map.rs, which gives numbers to paths; `run_calls` are its calls one after the other.
--
-- The order in which a HashMap is walked is that of the list, and no result depends on it but the
-- order of the moves of a rename, whose outcome is stated for every path. Calls run under the locks
-- of the mutexes, which are not modelled, nor is a poisoned mutex but that of the counters. Loops are
-- recursions on lists; the decimal text of a request id is written with 20 digits of fuel, and a u64 has
-- no more. u64 is ℕ with the bounds stated where they matter (saturating_add, u64_max in Locks, Cache
-- and Authenticated); the number after a cache's last one wraps around, as in a release build; inodes
-- are not bounded.
-- Not modelled: the coding of protobuf messages (generated), logging, spans and latencies, the texts
-- of protocol errors (an argument), LockTable::rename_path, FlockTable::rename_path and
-- lock_key_for_file, the overlay, the session storage, the watch, and everything that does I/O (FUSE,
-- NATS, sockets, files, threads).
pub mod Prelude
pub mod Protocol
pub mod Fuse
pub mod Core
pub mod Transport
pub mod Server
