-- ===== src/Core/Invalidating.antt =====
-- fs-core/src/lib.rs: the invalidations that a success carries, and their sequence numbers. A
-- namespace counts on its own from 1. A counter is a `u64` that wraps around.
pub mod Valid
pub mod Made
pub mod Counting
use fabric_fs.Prelude.{two_pow_64}
use fabric_fs.Prelude.{
  ℕ, ◌+◌, ◌/◌, ◌%◌, String, Bool, true, false, not, ◌==◌, if◌then◌else◌, Option, none, some, List,
  [], ◌∷◌, Result, ok, err, string_eq,
}
use fabric_fs.Prelude.Map
use fabric_fs.Prelude.Map.{Map}
use fabric_fs.Protocol.Invalidation.{Invalidation, InvalidationKind, wire_value}
use fabric_fs.Protocol.OperationSpec.Types.{
  OperationEffect, content_mutation, create_node, rename_node, delete_node, metadata_mutation,
  xattr_mutation,
}
use fabric_fs.Protocol.OperationSpec.Table.{effect_of}
use fabric_fs.Protocol.RequestPayload.{RequestPayload, operation, primary_path}
use fabric_fs.Protocol.ResponsePayload.{ResponsePayload, created_inode}
use fabric_fs.Protocol.RequestEnvelope.{RequestEnvelope}

-- `Mutex<HashMap<String, u64>>`: a panic of a holder of the lock poisons it.
pub record Sequences : Type 0 where
  pub next : Map String ℕ
  pub poisoned : Bool

abbrev pub no_sequences : Sequences
no_sequences = record { next = []; poisoned = false }

abbrev pub or_one : Option ℕ → ℕ
or_one none = 1
or_one (some n) = n

-- The number that the namespace comes to next.
unfoldable pub next_of : Sequences → String → ℕ
next_of sequences namespace = or_one (Map.get sequences.next namespace)

unfoldable pub next_invalidation_sequence : Sequences → String → Sequences × Result (Unit {0}) ℕ
next_invalidation_sequence sequences namespace =
    if sequences.poisoned then (no_sequences, err tt) else (
      record sequences {
        next = Map.insert sequences.next namespace ((next_of sequences namespace + 1) % two_pow_64);
      },
      ok (next_of sequences namespace),
    )

-- OPEN_FLAG_TRUNCATE
abbrev pub open_flag_truncate : ℕ
open_flag_truncate = 512

-- `flags & OPEN_FLAG_TRUNCATE != 0`
abbrev pub has_truncate : ℕ → Bool
has_truncate flags = not ((flags / open_flag_truncate) % 2 == 0)

unfoldable pub truncates : RequestPayload → Bool
truncates (RequestPayload.«open» value) = has_truncate value.flags
truncates _ = false

unfoldable pub kind_for_effect : OperationEffect → Option InvalidationKind
kind_for_effect content_mutation = some InvalidationKind.modify
kind_for_effect create_node = some InvalidationKind.create
kind_for_effect rename_node = some InvalidationKind.rename
kind_for_effect delete_node = some InvalidationKind.delete
kind_for_effect metadata_mutation = some InvalidationKind.metadata
kind_for_effect xattr_mutation = some InvalidationKind.xattr
kind_for_effect _ = none

abbrev pub kind_for_row : Option OperationEffect → Option InvalidationKind
kind_for_row none = none
kind_for_row (some effect) = kind_for_effect effect

unfoldable pub invalidation_kind_for_request : RequestPayload → Option InvalidationKind
invalidation_kind_for_request payload =
    if truncates payload
    then some InvalidationKind.modify
    else kind_for_row (effect_of (operation payload))

abbrev pub path_or_empty : Option (List ℕ) → List ℕ
path_or_empty none = []
path_or_empty (some path) = path

abbrev pub or_zero : Option ℕ → ℕ
or_zero none = 0
or_zero (some n) = n

unfoldable pub full_resync_invalidation_at : String → String → ℕ → Invalidation
full_resync_invalidation_at namespace request_id sequence = record {
  namespace = namespace;
  sequence = sequence;
  kind = wire_value InvalidationKind.full_resync;
  path = [];
  old_path = [];
  new_path = [];
  inode = 0;
  handle = 0;
  request_id = request_id;
}

abbrev pub or_zero_sequence : Result (Unit {0}) ℕ → ℕ
or_zero_sequence (ok sequence) = sequence
or_zero_sequence (err _) = 0

unfoldable pub full_resync_invalidation : Sequences → String → String → Sequences × Invalidation
full_resync_invalidation sequences namespace request_id =
    let (sequences', r) = next_invalidation_sequence sequences namespace in
    (sequences', full_resync_invalidation_at namespace request_id (or_zero_sequence r))

-- A rename says both of its paths in place of the primary one.
unfoldable pub with_rename_paths : RequestPayload → Invalidation → Invalidation
with_rename_paths (RequestPayload.rename value) v = record v {
  path = [];
  old_path = path_or_empty value.old_path;
  new_path = path_or_empty value.new_path;
}
with_rename_paths _ v = v

unfoldable pub invalidation_at :
    RequestEnvelope → ResponsePayload → InvalidationKind → ℕ → Invalidation
invalidation_at request payload kind sequence = with_rename_paths request.payload (record {
  namespace = request.namespace;
  sequence = sequence;
  kind = wire_value kind;
  path = path_or_empty (primary_path request.payload);
  old_path = [];
  new_path = [];
  inode = or_zero (created_inode payload);
  handle = 0;
  request_id = request.request_id;
})

abbrev pub invalidation_or_resync :
    RequestEnvelope
    → ResponsePayload
    → InvalidationKind
    → Sequences × Result (Unit {0}) ℕ
    → Sequences × List Invalidation
invalidation_or_resync request payload kind (sequences, err _) =
    (sequences, full_resync_invalidation_at request.namespace request.request_id 0 ∷ [])
invalidation_or_resync request payload kind (sequences, ok sequence) =
    (sequences, invalidation_at request payload kind sequence ∷ [])

unfoldable pub invalidations_for_kind :
    Sequences
    → RequestEnvelope
    → ResponsePayload
    → Option InvalidationKind
    → Sequences × List Invalidation
invalidations_for_kind sequences request payload none = (sequences, [])
invalidations_for_kind sequences request payload (some kind) =
    invalidation_or_resync request payload kind
      (next_invalidation_sequence sequences request.namespace)

unfoldable pub invalidations_for_success :
    Sequences → RequestEnvelope → ResponsePayload → Sequences × List Invalidation
invalidations_for_success sequences request payload =
    invalidations_for_kind sequences request payload (invalidation_kind_for_request request.payload)
