-- ===== src/Transport/Replay.antt =====
-- fabricfs-transport/src/policy.rs, `OwnInvalidationReplay`: a client's own requests, whose invalidations
-- reach it both with the response and on the invalidation subject.
pub mod Bounded
pub mod Reached
pub mod Delivery
use fabric_fs.Prelude.{
  ℕ, suc, ◌+◌, ◌≡◌, refl, Bool, true, false, ◌||◌, Option, none, some, List, [], ◌∷◌, ◌++◌, String,
  ◌===◌, string_eq, if◌then◌else◌, leb, length,
}
use fabric_fs.Prelude.Map
use fabric_fs.Prelude.Map.{Map}
use fabric_fs.Prelude.Names.{contains, without, add}
use fabric_fs.Protocol.Invalidation.{Invalidation}

abbrev pub max_own_request_ids : ℕ
max_own_request_ids = 1024

pub record OwnInvalidationReplay : Type 0 where
  pub completed_order : List String
  pub completed : List String
  pub pending : List String
  pub deferred : Map String (List Invalidation)
  pub recovered : List Invalidation

unfoldable pub start : OwnInvalidationReplay
start = record { completed_order = []; completed = []; pending = []; deferred = []; recovered = [] }

unfoldable pub begin : OwnInvalidationReplay → String → OwnInvalidationReplay
begin r request_id = if request_id === "" then r else record r {
  completed = without r.completed request_id;
  completed_order = without r.completed_order request_id;
  pending = add r.pending request_id;
}

-- The loop that expires the oldest completed requests.
unfoldable pub expire : List String → List String → List String × List String
expire [] completed = ([], completed)
expire (x ∷ order) completed =
    let rest = expire order (without completed x) in
    if leb (length (x ∷ order)) max_own_request_ids then (x ∷ order, completed) else rest

unfoldable pub remember_completed : OwnInvalidationReplay → String → OwnInvalidationReplay
remember_completed r request_id =
    if request_id === "" || contains r.completed request_id
    then r
    else let (order, completed) =
        expire (r.completed_order ++ request_id ∷ []) (add r.completed request_id) in
      record r { completed_order = order; completed = completed }

unfoldable pub complete : OwnInvalidationReplay → String → OwnInvalidationReplay
complete r request_id =
    remember_completed
      (record r {
        pending = without r.pending request_id;
        deferred = Map.remove r.deferred request_id;
      })
      request_id

abbrev pub or_none_deferred : Option (List Invalidation) → List Invalidation
or_none_deferred none = []
or_none_deferred (some l) = l

unfoldable pub abandon : OwnInvalidationReplay → String → OwnInvalidationReplay
abandon r request_id = record r {
  pending = without r.pending request_id;
  deferred = Map.remove r.deferred request_id;
  recovered = r.recovered ++ or_none_deferred (Map.get r.deferred request_id);
}

-- The invalidation is handed on (`some`), or it is known already or kept for later (`none`).
unfoldable pub handle_invalidation :
    OwnInvalidationReplay → Invalidation → OwnInvalidationReplay × Option Invalidation
handle_invalidation r v =
    if v.request_id === ""
    then (r, some v)
    else if contains r.completed v.request_id
    then (r, none)
    else if contains r.pending v.request_id
    then (
      record r {
        deferred =
            Map.insert r.deferred v.request_id
              (or_none_deferred (Map.get r.deferred v.request_id) ++ v ∷ []);
      },
      none,
    )
    else (r, some v)

-- The loop of `take_recovered`: the ready and the retained invalidations.
unfoldable pub partition_namespace :
    List Invalidation → String → List Invalidation × List Invalidation
partition_namespace [] namespace = ([], [])
partition_namespace (v ∷ rest) namespace =
    let (ready, retained) = partition_namespace rest namespace in
    if v.namespace === namespace then (v ∷ ready, retained) else (ready, v ∷ retained)

unfoldable pub take_recovered :
    OwnInvalidationReplay → String → OwnInvalidationReplay × List Invalidation
take_recovered r namespace =
    let (ready, retained) = partition_namespace r.recovered namespace in
    (record r { recovered = retained }, ready)
