-- ===== src/Fuse/Kernel.antt =====
-- fs-fuse/src/cache.rs, `CacheKernel`: the path cache and the paths of the open handles, and what an
-- invalidation does to both. The mutexes are not modelled: a call runs under their locks. A sequence
-- number is a `u64`, and the one after the largest is 0, as in a release build.
pub mod Sequence
pub mod Poisoning
pub mod Ordering
pub mod Handles
pub mod Following
use fabric_fs.Prelude.{
  ℕ, ◌+◌, ◌-◌, ◌%◌, two_pow_64, ◌≡◌, Bool, true, false, ◌&&◌, ◌||◌, not, Option, none, some, List,
  [], ◌∷◌, ◌++◌, String, ◌==◌, ◌===◌, if◌then◌else◌, bytes_eq, nat_eq, pair_eq, string_eq, is_empty,
  Result, ok, err, ◌>>=◌, ◌>>◌,
}
use fabric_fs.Prelude.Map
use fabric_fs.Prelude.Map.{Map}
use fabric_fs.Protocol.Error.{ProtocolError}
use fabric_fs.Protocol.Invalidation.{
  Invalidation, InvalidationKind, validate_invalidation, try_from,
}
use fabric_fs.Fuse.Paths.{path_is_in_subtree, subtree_suffix}
use fabric_fs.Fuse.Cache.{
  PathCache, FuseError, stale_cache, empty_namespace, protocol, new, insert, insert_lookup, forget,
  remove_path, rename, poison, reset_with_sequence, can_accept_noncontiguous_sequence,
  representative_path, path_for_inode, child_path, parent_inode_for_path,
}

-- An open handle is known by its inode and its number.
pub record CacheKernel : Type 0 where
  pub cache : PathCache
  pub open_handles : Map (ℕ × ℕ) (List ℕ)

unfoldable pub new_kernel : CacheKernel
new_kernel = record { cache = new; open_handles = [] }

unfoldable pub remember_handle_path : CacheKernel → ℕ → ℕ → List ℕ → CacheKernel
remember_handle_path k inode handle path = record k {
  open_handles = Map.insert k.open_handles (inode, handle) path;
}

unfoldable pub forget_handle_path : CacheKernel → ℕ → ℕ → CacheKernel
forget_handle_path k inode handle = record k {
  open_handles = Map.remove k.open_handles (inode, handle);
}

unfoldable pub moved_path : List ℕ → List ℕ → List ℕ → List ℕ
moved_path old_path new_path path =
    if path_is_in_subtree path old_path then new_path ++ subtree_suffix path old_path else path

unfoldable pub rename_handle_paths : Map (ℕ × ℕ) (List ℕ) → List ℕ → List ℕ → Map (ℕ × ℕ) (List ℕ)
rename_handle_paths handles old_path new_path =
    Map.filter_map (λ key path. some (moved_path old_path new_path path)) handles

unfoldable pub path_for_handle_bound_call : CacheKernel → ℕ → ℕ → Result FuseError (List ℕ)
path_for_handle_bound_call k inode handle = elim (Map.get k.open_handles (inode, handle)) [
  | some path ↦ ok path
  | none ↦
      if k.cache.poisoned
      then err stale_cache
      else elim (representative_path k.cache inode) [ some path ↦ ok path | none ↦ err stale_cache ]
]

unfoldable pub parent_and_path_for_inode : CacheKernel → ℕ → Result FuseError (ℕ × List ℕ)
parent_and_path_for_inode k inode = do
  path ← path_for_inode k.cache inode
  parent ← parent_inode_for_path k.cache path
  ok (parent, path)

unfoldable pub rename_paths :
    CacheKernel → ℕ → List ℕ → ℕ → List ℕ → Result FuseError (List ℕ × List ℕ)
rename_paths k old_parent old_name new_parent new_name = do
  old_path ← child_path k.cache old_parent old_name
  new_path ← child_path k.cache new_parent new_name
  ok (old_path, new_path)

unfoldable pub hardlink_paths : CacheKernel → ℕ → ℕ → List ℕ → Result FuseError (List ℕ × List ℕ)
hardlink_paths k inode new_parent new_name = do
  path ← path_for_inode k.cache inode
  new_path ← child_path k.cache new_parent new_name
  ok (path, new_path)

unfoldable pub copy_file_range_paths :
    CacheKernel → ℕ → ℕ → ℕ → ℕ → Result FuseError (List ℕ × List ℕ)
copy_file_range_paths k input_inode input_handle output_inode output_handle = do
  input ← path_for_handle_bound_call k input_inode input_handle
  output ← path_for_handle_bound_call k output_inode output_handle
  ok (input, output)

abbrev pub with_cache : CacheKernel → PathCache → CacheKernel
with_cache k c = record k { cache = c }

abbrev pub poisoned_kernel : CacheKernel → CacheKernel
poisoned_kernel k = with_cache k (poison k.cache)

-- `cache.last_sequence = sequence`
abbrev pub at_sequence : PathCache → ℕ → PathCache
at_sequence c sequence = record c { last_sequence = sequence }

-- The final `match kind` of `apply_invalidation`.
unfoldable pub apply_kind :
    CacheKernel → Invalidation → InvalidationKind → CacheKernel × Result FuseError Bool
apply_kind k v InvalidationKind.create = (
  with_cache k (
      at_sequence
        (if v.inode == 0 then remove_path k.cache v.path else insert k.cache v.path v.inode)
        v.sequence),
  ok false,
)
apply_kind k v InvalidationKind.delete =
    (with_cache k (at_sequence (remove_path k.cache v.path) v.sequence), ok false)
apply_kind k v InvalidationKind.rename = elim (rename k.cache v.old_path v.new_path) [
  | err e ↦ (poisoned_kernel k, err (protocol e))
  | ok c ↦ (
    record {
      cache = at_sequence c v.sequence;
      open_handles = rename_handle_paths k.open_handles v.old_path v.new_path;
    },
    ok false,
  )
]
apply_kind k v _ = (with_cache k (at_sequence k.cache v.sequence), ok false)

abbrev pub is_rename : InvalidationKind → Bool
is_rename InvalidationKind.rename = true
is_rename _ = false

abbrev pub is_full_resync : InvalidationKind → Bool
is_full_resync InvalidationKind.full_resync = true
is_full_resync _ = false

-- The open handles follow a rename even if its sequence number is not the next one.
unfoldable pub gap_handles : CacheKernel → Invalidation → InvalidationKind → CacheKernel
gap_handles k v kind =
    if is_rename kind
    then record k { open_handles = rename_handle_paths k.open_handles v.old_path v.new_path }
    else k

-- `last_sequence + 1`
unfoldable pub next_sequence : PathCache → ℕ
next_sequence c = (c.last_sequence + 1) % two_pow_64

-- A sequence number that does not follow is accepted only by an empty cache without handles.
unfoldable pub rejects_gap : CacheKernel → Invalidation → Bool → Bool
rejects_gap k v allow_empty_sequence_baseline =
    v.sequence == 0
    || not allow_empty_sequence_baseline
    || not (is_empty k.open_handles)
    || not (can_accept_noncontiguous_sequence k.cache)

unfoldable pub apply_valid :
    CacheKernel → Invalidation → Bool → InvalidationKind → CacheKernel × Result FuseError Bool
apply_valid k v allow kind =
    if is_full_resync kind
    then (with_cache k (reset_with_sequence v.sequence), ok true)
    else if v.sequence == next_sequence k.cache
    then apply_kind k v kind
    else if rejects_gap (gap_handles k v kind) v allow
    then (poisoned_kernel (gap_handles k v kind), err stale_cache)
    else apply_kind (with_cache (gap_handles k v kind) (at_sequence k.cache (v.sequence - 1))) v
        kind

unfoldable pub apply_invalidation :
    CacheKernel → String → Invalidation → Bool → CacheKernel × Result FuseError Bool
apply_invalidation k namespace v allow =
    if v.namespace === ""
    then (poisoned_kernel k, err empty_namespace)
    else if not (v.namespace === namespace)
    then (k, ok false)
    else elim (validate_invalidation v) [
      | err e ↦ (poisoned_kernel k, err (protocol e))
      | ok _ ↦ elim (try_from v.kind) [
        | err e ↦ (k, err (protocol e))
        | ok kind ↦ apply_valid k v allow kind
      ]
    ]

abbrev pub stale_is_ok : Result FuseError Bool → Result FuseError (Unit {0})
stale_is_ok (ok b) = ok tt
stale_is_ok (err stale_cache) = ok tt
stale_is_ok (err e) = err e

unfoldable pub apply_success_response_invalidation :
    CacheKernel → String → Invalidation → CacheKernel × Result FuseError (Unit {0})
apply_success_response_invalidation k namespace v =
    let (k', r) = apply_invalidation k namespace v false in (k', stale_is_ok r)
