-- ===== src/Fuse/Kernel/Sequence.antt =====
-- fs-fuse/src/cache.rs, `apply_invalidation`: the two directions of the cache.
use fabric_fs.Prelude.{
  ok-injective, ℕ, ◌≡◌, inl, inr, refl, sym, ◌∙◌, Bool, List, String, ◌==◌, ◌===◌, bytes_eq,
  string_eq, Result, ok, err, arith, Bool-cases,
}
use fabric_fs.Protocol.Error.{ProtocolError}
use fabric_fs.Protocol.Path.{validate_rename_paths}
use fabric_fs.Protocol.Invalidation.{
  Invalidation, InvalidationKind, validate_invalidation, try_from,
}
use fabric_fs.Fuse.Cache.{PathCache, paths_at, FuseError, protocol, rename}
use fabric_fs.Fuse.Cache.Consistent.{
  IsConsistent, maps, lists, insert-IsConsistent, poison-IsConsistent, reset-IsConsistent,
}
use fabric_fs.Fuse.Cache.Removing.{remove_path-IsConsistent}
use fabric_fs.Fuse.Cache.Renaming.{rename-IsConsistent}
use fabric_fs.Fuse.Kernel.{
  next_sequence, CacheKernel, apply_kind, apply_valid, apply_invalidation, gap_handles, rejects_gap,
  poisoned_kernel, at_sequence, is_full_resync,
}

at_sequence-IsConsistent : (c : PathCache) (n : ℕ) → IsConsistent c → IsConsistent (at_sequence c n)
at_sequence-IsConsistent c n k = record { agree = λ q j. unfold lists maps paths_at in k.agree q j }

rename_result-IsConsistent :
    (c c' : PathCache) (old_path new_path : List ℕ)
    → IsConsistent c
    → rename c old_path new_path ≡ ok c'
    → IsConsistent c'
rename_result-IsConsistent c c' old_path new_path k e =
    go (validate_rename_paths old_path new_path) refl
  where
    go :
        (r : Result ProtocolError (Unit {0}))
        → validate_rename_paths old_path new_path ≡ r
        → IsConsistent c'
    go (ok _) v =
        let (after, f, k') = rename-IsConsistent c old_path new_path v k in
        rw (ok-injective (sym e ∙ f)) k'
    go (err x) v = absurd (unfold rename in ground arith)

apply_kind-IsConsistent :
    (k : CacheKernel) (v : Invalidation) (kind : InvalidationKind)
    → IsConsistent k.cache
    → IsConsistent (apply_kind k v kind).0.cache
unfolding apply_kind
apply_kind-IsConsistent k v InvalidationKind.create c = elim (Bool-cases (v.inode == 0)) [
  | inl none_known ↦
      rw none_known (at_sequence-IsConsistent _ _ (remove_path-IsConsistent k.cache v.path c))
  | inr known ↦
      rw known (at_sequence-IsConsistent _ _ (insert-IsConsistent k.cache v.path v.inode c))
]
apply_kind-IsConsistent k v InvalidationKind.delete c =
    at_sequence-IsConsistent _ _ (remove_path-IsConsistent k.cache v.path c)
apply_kind-IsConsistent k v InvalidationKind.rename c =
    go (rename k.cache v.old_path v.new_path) refl
  where
    go :
        (r : Result ProtocolError PathCache)
        → rename k.cache v.old_path v.new_path ≡ r
        → IsConsistent (apply_kind k v InvalidationKind.rename).0.cache
    go (ok c') e =
        rw (e, apply_kind)
          (at_sequence-IsConsistent c' v.sequence
            (rename_result-IsConsistent k.cache c' v.old_path v.new_path c e))
    go (err x) e = rw (e, apply_kind) (poison-IsConsistent k.cache)
apply_kind-IsConsistent k v _ c = at_sequence-IsConsistent _ _ c

gap_handles-cache :
    (k : CacheKernel) (v : Invalidation) (kind : InvalidationKind)
    → (gap_handles k v kind).cache ≡ k.cache
unfolding gap_handles
gap_handles-cache k v kind = ground arith

apply_valid-IsConsistent :
    (k : CacheKernel) (v : Invalidation) (allow : Bool) (kind : InvalidationKind)
    → IsConsistent k.cache
    → IsConsistent (apply_valid k v allow kind).0.cache
unfolding apply_valid
apply_valid-IsConsistent k v allow kind c = elim (Bool-cases (is_full_resync kind)) [
  | inl resync ↦ rw resync (reset-IsConsistent v.sequence)
  | inr other ↦ elim (Bool-cases (v.sequence == next_sequence k.cache)) [
    | inl next ↦ rw (other, next) (apply_kind-IsConsistent k v kind c)
    | inr gap ↦ elim (Bool-cases (rejects_gap (gap_handles k v kind) v allow)) [
      | inl rejected ↦ rw (other, gap, rejected) (poison-IsConsistent _)
      | inr baseline ↦
          rw (other, gap, baseline)
            (apply_kind-IsConsistent _ v kind (at_sequence-IsConsistent k.cache _ c))
    ]
  ]
]

-- Whatever invalidation arrives, the two directions of the cache agree after it if they did before.
pub apply_invalidation-IsConsistent :
    (k : CacheKernel) (namespace : String) (v : Invalidation) (allow : Bool)
    → IsConsistent k.cache
    → IsConsistent (apply_invalidation k namespace v allow).0.cache
unfolding apply_invalidation
apply_invalidation-IsConsistent k namespace v allow c = elim (Bool-cases (v.namespace === "")) [
  | inl empty ↦ rw empty (poison-IsConsistent k.cache)
  | inr named ↦ elim (Bool-cases (v.namespace === namespace)) [
    | inr foreign ↦ rw (named, foreign) c
    | inl own ↦ rw (named, own) (go (validate_invalidation v) (try_from v.kind))
  ]
]
  where
    go :
        (r : Result ProtocolError (Unit {0})) (kr : Result ProtocolError InvalidationKind)
        → IsConsistent
            (elim r as (λ _. CacheKernel × Result FuseError Bool) [
              | err e ↦ (poisoned_kernel k, err (protocol e))
              | ok _ ↦ elim kr [
                | err e ↦ (k, err (protocol e))
                | ok kind ↦ apply_valid k v allow kind
              ]
            ]).0.cache
    go (err e) kr = poison-IsConsistent k.cache
    go (ok _) (err e) = c
    go (ok _) (ok kind) = apply_valid-IsConsistent k v allow kind c
