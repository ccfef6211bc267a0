-- ===== src/Fuse/Kernel/Poisoning.antt =====
-- fs-fuse/src/cache.rs: the poisoning of the cache, and what a poisoned cache answers.
use fabric_fs.Prelude.{
  ℕ, ◌≡◌, inl, inr, refl, Bool, true, false, List, String, ◌==◌, ◌===◌, bytes_eq, nat_eq, pair_eq,
  string_eq, Result, ok, err, Bool-cases,
}
use fabric_fs.Prelude.Map
use fabric_fs.Prelude.Map.{Map}
use fabric_fs.Protocol.Error.{ProtocolError}
use fabric_fs.Protocol.Invalidation.{
  Invalidation, InvalidationKind, validate_invalidation, try_from, valid-kind,
}
use fabric_fs.Fuse.Paths.{valid_child_name}
use fabric_fs.Fuse.Cache.{
  PathCache, FuseError, stale_cache, protocol, insert, rename, poison, reset_with_sequence, link,
  displace, path_for_inode, child_path, parent_inode, parent_inode_for_path,
}
use fabric_fs.Fuse.Kernel.{
  next_sequence, CacheKernel, apply_kind, apply_valid, apply_invalidation, gap_handles, rejects_gap,
  poisoned_kernel, is_full_resync,
}

pub poison-poisoned : (c : PathCache) → (poison c).poisoned ≡ true
unfolding poison insert link displace Map.get
poison-poisoned c = refl

pub reset-poisoned :
    (n : ℕ)
    → ((reset_with_sequence n).poisoned ≡ false) × ((reset_with_sequence n).last_sequence ≡ n)
unfolding reset_with_sequence insert link displace Map.get
reset-poisoned n = (refl, refl)

-- An invalidation that fails has poisoned the cache.
abbrev FailsClosed : CacheKernel × Result FuseError Bool → Type 0
FailsClosed (k, ok b) = Unit
FailsClosed (k, err e) = k.cache.poisoned ≡ true

apply_kind-FailsClosed :
    (k : CacheKernel) (v : Invalidation) (kind : InvalidationKind)
    → FailsClosed (apply_kind k v kind)
unfolding apply_kind
apply_kind-FailsClosed k v InvalidationKind.rename = go (rename k.cache v.old_path v.new_path) refl
  where
    go :
        (r : Result ProtocolError PathCache)
        → rename k.cache v.old_path v.new_path ≡ r
        → FailsClosed (apply_kind k v InvalidationKind.rename)
    go (ok c) e = rw (e, apply_kind) tt
    go (err x) e = rw (e, apply_kind) (poison-poisoned k.cache)
apply_kind-FailsClosed k v _ = tt

apply_valid-FailsClosed :
    (k : CacheKernel) (v : Invalidation) (allow : Bool) (kind : InvalidationKind)
    → FailsClosed (apply_valid k v allow kind)
unfolding apply_valid
apply_valid-FailsClosed k v allow kind = elim (Bool-cases (is_full_resync kind)) [
  | inl resync ↦ rw resync tt
  | inr other ↦ elim (Bool-cases (v.sequence == next_sequence k.cache)) [
    | inl next ↦ rw (other, next) (apply_kind-FailsClosed k v kind)
    | inr gap ↦ elim (Bool-cases (rejects_gap (gap_handles k v kind) v allow)) [
      | inl rejected ↦ rw (other, gap, rejected) (poison-poisoned _)
      | inr baseline ↦ rw (other, gap, baseline) (apply_kind-FailsClosed _ v kind)
    ]
  ]
]

fails_closed :
    (r : CacheKernel × Result FuseError Bool) (e : FuseError)
    → FailsClosed r
    → r.1 ≡ err e
    → r.0.cache.poisoned ≡ true
fails_closed (k, ok b) e f h = absurd (cc)
fails_closed (k, err x) e f h = f

-- Any invalidation that is answered by an error leaves a poisoned cache.
pub error-poisoned :
    (k : CacheKernel) (namespace : String) (v : Invalidation) (allow : Bool) (e : FuseError)
    → (apply_invalidation k namespace v allow).1 ≡ err e
    → (apply_invalidation k namespace v allow).0.cache.poisoned ≡ true
unfolding apply_invalidation
error-poisoned k namespace v allow e =
    fails_closed (apply_invalidation k namespace v allow) e closed
  where
    go :
        (r : Result ProtocolError (Unit {0}))
        → validate_invalidation v ≡ r
        → FailsClosed (elim r as (λ _. CacheKernel × Result FuseError Bool) [
          | err e ↦ (poisoned_kernel k, err (protocol e))
          | ok _ ↦ elim (try_from v.kind) [
            | err e ↦ (k, err (protocol e))
            | ok kind ↦ apply_valid k v allow kind
          ]
        ])
    go (err x) h = poison-poisoned k.cache
    go (ok _) h =
        let (kind, read, _) = valid-kind v h in rw read (apply_valid-FailsClosed k v allow kind)

    closed : FailsClosed (apply_invalidation k namespace v allow)
    closed = elim (Bool-cases (v.namespace === "")) [
      | inl empty ↦ rw empty (poison-poisoned k.cache)
      | inr named ↦ elim (Bool-cases (v.namespace === namespace)) [
        | inr foreign ↦ rw (named, foreign) tt
        | inl own ↦ rw (named, own) (go (validate_invalidation v) refl)
      ]
    ]

pub poisoned-stale :
    (c : PathCache) (inode : ℕ) (name path : List ℕ)
    → c.poisoned ≡ true
    → valid_child_name name ≡ true
    → (path_for_inode c inode ≡ err stale_cache)
      × (child_path c inode name ≡ err stale_cache)
      × (parent_inode_for_path c path ≡ err stale_cache)
      × (parent_inode c inode ≡ err stale_cache)
unfolding path_for_inode child_path parent_inode_for_path parent_inode
poisoned-stale c inode name path p n = (rw p, rw (n, p), rw p, rw p)
