-- ===== src/Protocol/OperationSpec/Table.antt =====
-- fs-protocol/src/operation_spec.rs and operation.rs: the operation table and the searches in it. A
-- wire value is an `i32` of the message: a negative one is in no row, and ℕ stands for the others.
use fabric_fs.Prelude.{
  ℕ, ◌-◌, ◌≡◌, refl, sym, ap, ◌∙◌, Bool, true, false, Option, none, some, List, [], ◌∷◌, ◌++◌,
  String, ◌==◌, ◌===◌, string_eq, find, map_option, get_elem?, All, Result, ok, err, if◌then◌else◌,
  ==_iff, ===_eq, arith,
}
use mathlib.Core.Option
use fabric_fs.Protocol.Error.{ProtocolError, unknown_operation}
use fabric_fs.Protocol.Operation.{Operation, discriminant, same_operation}
use fabric_fs.Protocol.OperationSpec.Types.{OperationSpec, OperationEffect, PathRole, is_mutation}
use fabric_fs.Protocol.OperationSpec.NodeRows.{node_rows}
use fabric_fs.Protocol.OperationSpec.AttributeRows.{attribute_rows}
use fabric_fs.Protocol.OperationSpec.SyncRows.{sync_rows}

unfoldable pub operation_specs : List OperationSpec
operation_specs = node_rows ++ attribute_rows ++ sync_rows

-- An index out of range would panic: `none`.
unfoldable pub spec_for : Operation → Option OperationSpec
spec_for operation = get_elem? operation_specs (discriminant operation - 1)

unfoldable pub operation_for_wire_value : ℕ → Option Operation
operation_for_wire_value value =
    map_option (λ s. s.operation) (find (λ s. s.wire_value == value) operation_specs)

unfoldable pub operation_for_subject_token : String → Option Operation
operation_for_subject_token token =
    map_option (λ s. s.operation) (find (λ s. s.subject_token === token) operation_specs)

unfoldable pub wire_value_of : Operation → Option ℕ
wire_value_of operation = map_option (λ s. s.wire_value) (spec_for operation)

unfoldable pub as_str : Operation → Option String
as_str operation = map_option (λ s. s.subject_token) (spec_for operation)

unfoldable pub effect_of : Operation → Option OperationEffect
effect_of operation = map_option (λ s. s.effect) (spec_for operation)

unfoldable pub operation_is_mutation : Operation → Option Bool
operation_is_mutation operation = map_option is_mutation (effect_of operation)

unfoldable pub try_from_wire : ℕ → Result ProtocolError Operation
try_from_wire value = elim (operation_for_wire_value value) [
  | some operation ↦ ok operation
  | none ↦ err (unknown_operation value)
]

unfoldable pub primary_path_role : OperationSpec → Option PathRole
primary_path_role s = elim s.path_roles [ [] ↦ none | path ∷ _ ↦ some path.role ]

-- Every operation has the row of its number, and its wire value and its subject token lead back to it.
pub spec_for-round_trip :
    (operation : Operation)
    → (s : OperationSpec) × (spec_for operation ≡ some s)
      × (s.operation ≡ operation)
      × (s.wire_value ≡ discriminant operation)
      × (operation_for_wire_value s.wire_value ≡ some operation)
      × (operation_for_subject_token s.subject_token ≡ some operation)
unfolding spec_for operation_for_wire_value operation_for_subject_token operation_specs node_rows
    attribute_rows sync_rows discriminant find get_elem?
spec_for-round_trip Operation.lookup = (_, refl, refl, refl, refl, refl)
spec_for-round_trip _ = (_, refl, refl, refl, refl, refl)

-- Each row stands at the place of its operation.
rows_in_place : All (λ s. spec_for s.operation ≡ some s) operation_specs
unfolding spec_for operation_specs node_rows attribute_rows sync_rows discriminant get_elem?
rows_in_place = ground arith

found :
    (p : OperationSpec → Bool) (rows : List OperationSpec) (operation : Operation)
    → All (λ s. spec_for s.operation ≡ some s) rows
    → map_option (λ s. s.operation) (find p rows) ≡ some operation
    → (s : OperationSpec) × (p s ≡ true) × (spec_for operation ≡ some s)
unfolding find
found p [] operation a h = absurd (cc)
found p (r ∷ rows) operation a h = step (p r) refl h (found p rows operation a.1)
  where
    step :
        (hit : Bool)
        → p r ≡ hit
        → map_option (λ s. s.operation) (if hit then some r else find p rows) ≡ some operation
        → (map_option (λ s. s.operation) (find p rows) ≡ some operation
            → (s : OperationSpec) × (p s ≡ true) × (spec_for operation ≡ some s))
        → (s : OperationSpec) × (p s ≡ true) × (spec_for operation ≡ some s)
    step true e g later =
        (r, e, ap (λ o. spec_for o) (sym (Option.some-injective r.operation operation g)) ∙ a.0)
    step false e g later = later g

-- The operation that a wire value is read as has that wire value.
pub wire_value_of-try_from :
    (value : ℕ) (operation : Operation)
    → try_from_wire value ≡ ok operation
    → wire_value_of operation ≡ some value
unfolding try_from_wire operation_for_wire_value wire_value_of
wire_value_of-try_from value operation h =
    let (s, hit, at) =
      found (λ s. s.wire_value == value) operation_specs operation rows_in_place read in
    rw at (ap {B = Option ℕ} some ((==_iff s.wire_value value).0 hit))
  where
    read :
        map_option (λ s. s.operation) (find (λ s. s.wire_value == value) operation_specs)
        ≡ some operation
    read = ground arith

-- The operation that a subject token names has that subject token.
pub as_str-from_subject_token :
    (token : String) (operation : Operation)
    → operation_for_subject_token token ≡ some operation
    → as_str operation ≡ some token
unfolding operation_for_subject_token as_str
as_str-from_subject_token token operation h =
    let (s, hit, at) =
      found (λ s. s.subject_token === token) operation_specs operation rows_in_place h in
    rw at (ap {B = Option String} some (===_eq s.subject_token token hit))

-- Operations with the same number are the same.
pub same_operation-≡ : (a b : Operation) → same_operation a b ≡ true → a ≡ b
unfolding same_operation
same_operation-≡ a b h =
    let (s, at, is_a, n1, w1, t1) = spec_for-round_trip a in
    let (t, bt, is_b, n2, w2, t2) = spec_for-round_trip b in
    let numbers : discriminant a ≡ discriminant b =
      (==_iff (discriminant a) (discriminant b)).0 h in
    let rows : spec_for a ≡ spec_for b =
      unfold spec_for in ap (λ n. get_elem? operation_specs (n - 1)) numbers in
    let same : some s ≡ some t = sym at ∙ rows ∙ bt in
    sym is_a ∙ ap (λ r. r.operation) (Option.some-injective s t same) ∙ is_b
