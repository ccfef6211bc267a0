-- ===== src/Transport/Retry.antt =====
-- fabricfs-transport/src/policy.rs: whether a request that may have been published is sent again. Of
-- the request only its operation counts.
use fabric_fs.Prelude.{List, [], ◌∷◌, any}
use fabric_fs.Protocol.Operation.{same_operation}
use fabric_fs.Prelude.{
  ℕ, ◌+◌, ◌≡◌, refl, Bool, true, false, ◌&&◌, not, Option, some, map_option, ltb, get_elem?,
}
use fabric_fs.Protocol.Operation.{Operation, discriminant}
use fabric_fs.Protocol.OperationSpec.Types.{OperationEffect, read_only}
use fabric_fs.Protocol.OperationSpec.NodeRows.{node_rows}
use fabric_fs.Protocol.OperationSpec.AttributeRows.{attribute_rows}
use fabric_fs.Protocol.OperationSpec.SyncRows.{sync_rows}
use fabric_fs.Protocol.OperationSpec.Table.{operation_specs, spec_for, effect_of}

abbrev is_release : Operation → Bool
is_release Operation.release = true
is_release _ = false

abbrev is_ambiguous : OperationEffect → Bool
is_ambiguous read_only = false
is_ambiguous _ = true

-- `none` where the operation has no row in the table, which would panic.
unfoldable pub request_has_ambiguous_post_publish_effects : Operation → Option Bool
request_has_ambiguous_post_publish_effects operation = elim (is_release operation) [
  | true ↦ some false
  | false ↦ map_option is_ambiguous (effect_of operation)
]

unfoldable pub can_retry_after_publish : Operation → Option Bool
can_retry_after_publish operation =
    map_option not (request_has_ambiguous_post_publish_effects operation)

unfoldable pub can_retry_after_publish_error : Operation → ℕ → ℕ → Option Bool
can_retry_after_publish_error operation attempt attempts =
    map_option (λ retry. retry && ltb (attempt + 1) attempts) (can_retry_after_publish operation)

-- Those that only read, and the release of a handle.
abbrev pub repeatable : List Operation
repeatable =
    Operation.lookup ∷ Operation.getattr ∷ Operation.readdir ∷ Operation.read ∷ Operation.statfs
    ∷ Operation.getxattr ∷ Operation.listxattr ∷ Operation.readlink ∷ Operation.getlk
    ∷ Operation.release ∷ []

-- A request that may have been published is sent again exactly if it is a lookup, a getattr, a readdir, a
-- read, a statfs, a getxattr, a listxattr, a readlink, a getlk or a release, and an attempt is left: for
-- all thirty operations the decision is made from their rows in the table.
pub retry-repeatable :
    (operation : Operation) (attempt attempts : ℕ)
    → can_retry_after_publish_error operation attempt attempts
      ≡ some (any (same_operation operation) repeatable && ltb (attempt + 1) attempts)
unfolding can_retry_after_publish_error can_retry_after_publish
    request_has_ambiguous_post_publish_effects effect_of spec_for operation_specs node_rows
    attribute_rows sync_rows discriminant get_elem? same_operation any
retry-repeatable Operation.lookup attempt attempts = refl
retry-repeatable _ attempt attempts = refl
