-- ===== src/Fuse/Tests.antt =====
-- Runs of the path cache and of the cache kernel, and the theorems at concrete caches.
use fabric_fs.Prelude.{two_pow_64}
use fabric_fs.Prelude.{◌+◌, ◌<◌, ◌∷◌}
use fabric_fs.Protocol.ResponseEnvelope.{ResponseEnvelope}
use fabric_fs.Protocol.Codec.Example.{kept_prost}
use fabric_fs.Core.Invalidating.{next_of}
use fabric_fs.Core.Dispatcher.{RpcError, dispatch}
use fabric_fs.Core.Example
use fabric_fs.Core.Example.{counting_dispatcher, at_start, mkdir_request, read_request, metadata_of}
use fabric_fs.Transport.Local.{LocalState}
use fabric_fs.Fuse.Covering
use fabric_fs.Fuse.Adapter.State
use fabric_fs.Fuse.Adapter.State.{AdapterState}
use fabric_fs.Fuse.Adapter.Calling.{accept, call_with_cache_policy, map_transport_error}
use fabric_fs.Fuse.Adapter.Serving.{dispatch-covered}
use fabric_fs.Fuse.Adapter.Synced.{local_adapter, Agree, call-Agree}
use fabric_fs.Fuse.Adapter.Runs.{AdapterCall, run_calls, new_run-IsConsistent}
use fabric_fs.Prelude.{◌⊎◌, none, Result}
use fabric_fs.Core.Invalidating.{invalidation_kind_for_request}
use fabric_fs.Fuse.Cache.{FuseError}
use fabric_fs.Fuse.Adapter.Calling.{apply_batch, poison_cache_after_uncertain_path_mutation}
use fabric_fs.Fuse.Adapter.Staying.{is_resync, failed-stale}
use fabric_fs.Fuse.Adapter.Losing.{IsRefused, lost-poisoned}
use fabric_fs.Prelude.{
  ℕ, ◌≡◌, ◌≢◌, refl, true, false, List, [], some, arith, bytes, bytes_eq, pair_eq, ok, err, any,
}
use fabric_fs.Prelude.Map
use fabric_fs.Protocol.Path
use fabric_fs.Protocol.Path.{root, validate_path_value, validate_rename_paths}
use fabric_fs.Protocol.Invalidation.{
  Invalidation, InvalidationKind, validate_invalidation, validate_kind_paths, try_from,
}
use fabric_fs.Fuse.Paths.{
  path_is_in_subtree, subtree_suffix, rsplit_once, parent_path, valid_child_name, join_child_path,
  join-valid,
}
use fabric_fs.Fuse.PathSet
use fabric_fs.Fuse.Cache.{
  PathCache, stale_cache, paths_at, remove_inode_path, displace, link, insert, new, add_lookup,
  insert_lookup, remove_paths, remove_inode, forget, paths_in_subtree, drop_entry, drop_entries,
  remove_path, not_among, remove_subtree_except, detach_inode_path_for_rename, move_entry,
  move_entries, rename, poison, reset_with_sequence, can_accept_noncontiguous_sequence,
  representative_path, path_for_inode, child_path, parent_inode_for_path, parent_inode,
}
use fabric_fs.Fuse.Cache.Consistent.{IsConsistent, maps, new-IsConsistent, insert-IsConsistent}
use fabric_fs.Fuse.Cache.Renaming.{renamed_maps, maps-rename, rename-IsConsistent}
use fabric_fs.Fuse.Kernel
use fabric_fs.Fuse.Kernel.{
  CacheKernel, new_kernel, remember_handle_path, moved_path, rename_handle_paths, apply_kind,
  gap_handles, rejects_gap, apply_valid, apply_invalidation,
}
use fabric_fs.Fuse.Kernel.Sequence.{apply_invalidation-IsConsistent}
use fabric_fs.Fuse.Kernel.Poisoning.{error-poisoned}
use fabric_fs.Fuse.Kernel.Ordering.{Admits, applied-in_order}
use fabric_fs.Fuse.Kernel.Handles.{Handled, apply_invalidation-Handled}

program : Unit {0}
unfolding Map.get Map.remove Map.insert Map.filter_map any PathSet.bytes_lt PathSet.member
    PathSet.insert PathSet.remove Path.split Path.strip_prefix Path.contains_nul validate_path_value
    Path.validate_non_root_path_value Path.path_is_in_subtree validate_rename_paths
    Path.validate_required_invalidation_path Path.validate_required_non_root_invalidation_path
    try_from validate_kind_paths validate_invalidation path_is_in_subtree subtree_suffix rsplit_once
    parent_path valid_child_name join_child_path paths_at remove_inode_path displace link insert new
    add_lookup insert_lookup remove_paths remove_inode forget paths_in_subtree drop_entry
    drop_entries remove_path not_among remove_subtree_except detach_inode_path_for_rename move_entry
    move_entries rename poison reset_with_sequence can_accept_noncontiguous_sequence
    representative_path path_for_inode child_path parent_inode_for_path parent_inode new_kernel
    remember_handle_path moved_path rename_handle_paths apply_kind gap_handles Kernel.next_sequence
    rejects_gap apply_valid apply_invalidation maps
program = tt

abbrev directory : List ℕ
directory = bytes "/a"

abbrev inside_old : List ℕ
inside_old = bytes "/a/f"

abbrev new_place : List ℕ
new_place = bytes "/b"

abbrev inside_new : List ℕ
inside_new = bytes "/b/f"

-- The directory `/a` with the file `/a/f`.
abbrev two_entries : PathCache
two_entries = insert (insert new directory 2) inside_old 3

abbrev open_kernel : CacheKernel
open_kernel =
    remember_handle_path (record { cache = two_entries; open_handles = [] }) 3 9 inside_old

abbrev empty_path : List ℕ
empty_path = []

abbrev rename_event : ℕ → Invalidation
rename_event sequence = record {
  namespace = "home";
  sequence = sequence;
  kind = 4;
  path = empty_path;
  old_path = directory;
  new_path = new_place;
  inode = 2;
  handle = 0;
  request_id = "r1";
}

two_entries-IsConsistent : IsConsistent two_entries
two_entries-IsConsistent =
    insert-IsConsistent (insert new directory 2) inside_old 3
      (insert-IsConsistent new directory 2 new-IsConsistent)

rename_moves :
    (Map.get
        (apply_invalidation open_kernel "home" (rename_event 1) true).0.cache.path_to_inode
        inside_new
      ≡ some 3)
    × (Map.get (apply_invalidation open_kernel "home" (rename_event 1) true).0.open_handles (3, 9)
        ≡ some inside_new)
unfolding program
rename_moves = (refl, refl)

valid_rename : validate_rename_paths directory new_place ≡ ok tt
unfolding program
valid_rename = refl

abbrev renamed : PathCache
renamed = (apply_invalidation open_kernel "home" (rename_event 1) true).0.cache

abbrev after_rename : PathCache
after_rename = elim (rename two_entries directory new_place) as (λ _. PathCache) [
  | ok c ↦ c
  | err e ↦ two_entries
]

renames : rename two_entries directory new_place ≡ ok after_rename
unfolding program
renames = refl

maps-rename_example :
    maps after_rename inside_new 3
    ≡ renamed_maps two_entries directory new_place valid_rename inside_new 3
maps-rename_example =
    maps-rename two_entries directory new_place valid_rename after_rename inside_new 3 renames

rename-IsConsistent_example :
    (c : PathCache) × (rename two_entries directory new_place ≡ ok c) × IsConsistent c
rename-IsConsistent_example =
    rename-IsConsistent two_entries directory new_place valid_rename two_entries-IsConsistent

apply_invalidation-IsConsistent_example :
    IsConsistent (apply_invalidation open_kernel "home" (rename_event 1) true).0.cache
unfolding remember_handle_path
apply_invalidation-IsConsistent_example =
    apply_invalidation-IsConsistent open_kernel "home" (rename_event 1) true
      two_entries-IsConsistent

applied : (apply_invalidation open_kernel "home" (rename_event 1) true).1 ≡ ok false
unfolding program
applied = refl

applied-in_order_example :
    ((apply_invalidation open_kernel "home" (rename_event 1) true).0.cache.last_sequence ≡ 1)
    × Admits open_kernel (rename_event 1) true
applied-in_order_example =
    applied-in_order open_kernel "home" (rename_event 1) true refl refl applied

refused : (apply_invalidation open_kernel "home" (rename_event 8) true).1 ≡ err stale_cache
unfolding program
refused = refl

error-poisoned_example :
    (apply_invalidation open_kernel "home" (rename_event 8) true).0.cache.poisoned ≡ true
error-poisoned_example = error-poisoned open_kernel "home" (rename_event 8) true stale_cache refused

valid_name : valid_child_name (bytes "f") ≡ true
unfolding program
valid_name = refl

valid_event : validate_invalidation (rename_event 8) ≡ ok tt
unfolding program
valid_event = refl

read_event : try_from 4 ≡ ok InvalidationKind.rename
unfolding program
read_event = refl

nonempty : directory ≢ []
nonempty h = cc

valid_directory : validate_path_value directory ≡ ok tt
unfolding program
valid_directory = refl

join-valid_example : validate_path_value (join_child_path directory (bytes "f")) ≡ ok tt
join-valid_example = join-valid directory (bytes "f") valid_directory valid_name refl

dispatch-covered_example :
    Covering.require_covering_path_invalidation open_kernel mkdir_request
      (dispatch counting_dispatcher 1 at_start mkdir_request (metadata_of mkdir_request)).1
    ≡ (open_kernel, ok tt)
dispatch-covered_example =
    dispatch-covered counting_dispatcher 1 at_start mkdir_request (metadata_of mkdir_request)
      open_kernel

abbrev first_connection : LocalState ℕ
first_connection = record { served = at_start; connected = true }

abbrev first_state : AdapterState (LocalState ℕ)
first_state = State.new_state first_connection

first_connected : first_state.connection.connected ≡ true
unfolding State.new_state
first_connected = refl

first_bound : next_of first_state.connection.served.sequences "home" + 1 < two_pow_64
unfolding State.new_state Example.program
first_bound = ground arith

first_Agree : Agree counting_dispatcher kept_prost 1 "home" first_state
unfolding State.new_state program Example.program
first_Agree = (refl, refl)

call-Agree_example :
    Agree counting_dispatcher kept_prost 1 "home"
      (call_with_cache_policy
        (local_adapter counting_dispatcher kept_prost 1 "home")
        mkdir_request.payload
        true
        false
        first_state).0
call-Agree_example =
    call-Agree counting_dispatcher kept_prost 1 "home" first_state mkdir_request.payload true
      first_connected first_bound first_Agree

new_run-IsConsistent_example :
    IsConsistent
      (run_calls
        (local_adapter counting_dispatcher kept_prost 1 "home")
        (AdapterCall.mkdir 1 (bytes "d") 493
          ∷ AdapterCall.lookup 1 (bytes "d")
          ∷ AdapterCall.forget 5 1
          ∷ [])
        (State.new_state first_connection)).kernel.cache
new_run-IsConsistent_example =
    new_run-IsConsistent (local_adapter counting_dispatcher kept_prost 1 "home")
      (AdapterCall.mkdir 1 (bytes "d") 493
        ∷ AdapterCall.lookup 1 (bytes "d")
        ∷ AdapterCall.forget 5 1
        ∷ [])
      first_connection

apply_invalidation-Handled_example :
    Handled
      (rename_event 8)
      InvalidationKind.rename
      (Map.get open_kernel.open_handles (3, 9))
      (Map.get (apply_invalidation open_kernel "home" (rename_event 8) true).0.open_handles (3, 9))
apply_invalidation-Handled_example =
    apply_invalidation-Handled open_kernel "home" (rename_event 8) true InvalidationKind.rename
      (3, 9) refl read_event valid_event

-- The numbers 1 and 2, which follow, do not make up for the 8 that came too early.
abbrev later : List Invalidation
later = rename_event 1 ∷ rename_event 2 ∷ []

abbrev given_up : PathCache
given_up =
    (apply_batch (apply_invalidation open_kernel "home" (rename_event 8) true).0 "home" later
      none).0.cache

no_resync : any is_resync later ≡ false
unfolding any
no_resync = refl

failed-stale_example :
    (path_for_inode given_up 3 ≡ err stale_cache)
    × (child_path given_up 3 (bytes "f") ≡ err stale_cache)
    × (parent_inode_for_path given_up inside_old ≡ err stale_cache)
    × (parent_inode given_up 3 ≡ err stale_cache)
failed-stale_example =
    failed-stale open_kernel "home" (rename_event 8) true stale_cache later 3 (bytes "f") inside_old
      refused no_resync valid_name

announced : invalidation_kind_for_request mkdir_request.payload ≡ some InvalidationKind.create
unfolding Example.program
announced = refl

abbrev timed_out : AdapterState (LocalState ℕ) × Result FuseError ResponseEnvelope
timed_out =
    accept (local_adapter counting_dispatcher kept_prost 1 "home") mkdir_request
      (err RpcError.timeout) first_state

fails : timed_out.1 ≡ err (map_transport_error RpcError.timeout)
unfolding Example.program Covering.request_requires_path_invalidation
    Covering.poison_after_uncertain_path_mutation poison_cache_after_uncertain_path_mutation
fails = refl

lost-poisoned_example :
    IsRefused mkdir_request (err RpcError.timeout) ⊎ (timed_out.0.kernel.cache.poisoned ≡ true)
lost-poisoned_example =
    lost-poisoned (local_adapter counting_dispatcher kept_prost 1 "home") mkdir_request first_state
      (err RpcError.timeout) InvalidationKind.create (map_transport_error RpcError.timeout)
      announced fails
