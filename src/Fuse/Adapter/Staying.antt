-- ===== src/Fuse/Adapter/Staying.antt =====
-- fs-fuse/src/cache.rs and fs-fuse/src/lib.rs: a poisoned cache through later invalidations.
use fabric_fs.Prelude.{
  ℕ, ◌-◌, ◌≡◌, refl, Bool, true, false, Option, none, List, [], ◌∷◌, String, ◌==◌, ◌===◌, bytes_eq,
  string_eq, any, Result, ok, err, Bool-cases, inl, inr, arith,
}
use fabric_fs.Protocol.Error.{ProtocolError}
use fabric_fs.Protocol.Invalidation.{
  Invalidation, InvalidationKind, wire_value, try_from, validate_invalidation, validate_kind_paths,
  valid-kind, wire_value-try_from,
}
use fabric_fs.Fuse.Paths.{valid_child_name}
use fabric_fs.Fuse.Cache.{
  FuseError, protocol, stale_cache, path_for_inode, child_path, parent_inode, parent_inode_for_path,
}
use fabric_fs.Fuse.Kernel.{
  CacheKernel, apply_valid, apply_invalidation, next_sequence, gap_handles, rejects_gap,
  poisoned_kernel, is_full_resync, with_cache, at_sequence,
}
use fabric_fs.Fuse.Kernel.Poisoning.{poison-poisoned, error-poisoned, poisoned-stale}
use fabric_fs.Fuse.Kernel.Following.{apply_kind-Came}
use fabric_fs.Fuse.Adapter.Calling.{apply_batch, batch_error_after}

apply_valid-poisoned :
    (k : CacheKernel) (v : Invalidation) (allow : Bool) (kind : InvalidationKind)
    → validate_kind_paths kind v ≡ ok tt
    → is_full_resync kind ≡ false
    → k.cache.poisoned ≡ true
    → (apply_valid k v allow kind).0.cache.poisoned ≡ true
unfolding apply_valid
apply_valid-poisoned k v allow kind paths other poisoned =
    elim (Bool-cases (v.sequence == next_sequence k.cache)) [
      | inl next ↦ rw (other, next) (apply_kind-Came k v kind paths poisoned).1
      | inr gap ↦ elim (Bool-cases (rejects_gap (gap_handles k v kind) v allow)) [
        | inl rejected ↦ rw (other, gap, rejected) (poison-poisoned _)
        | inr baseline ↦
            rw (other, gap, baseline)
              (apply_kind-Came
                (with_cache (gap_handles k v kind) (at_sequence k.cache (v.sequence - 1))) v kind
                paths poisoned).1
      ]
    ]

-- An invalidation that says to begin anew.
abbrev pub is_resync : Invalidation → Bool
is_resync v = v.kind == 7

not_resync :
    (v : Invalidation) (kind : InvalidationKind)
    → try_from v.kind ≡ ok kind
    → is_resync v ≡ false
    → is_full_resync kind ≡ false
not_resync v InvalidationKind.full_resync read h =
    let same = wire_value-try_from v.kind InvalidationKind.full_resync read in
    absurd (unfold wire_value in ground arith)
not_resync v InvalidationKind.create read h = refl
not_resync v _ read h = refl

apply_invalidation-poisoned :
    (k : CacheKernel) (namespace : String) (v : Invalidation) (allow : Bool)
    → is_resync v ≡ false
    → k.cache.poisoned ≡ true
    → (apply_invalidation k namespace v allow).0.cache.poisoned ≡ true
unfolding apply_invalidation
apply_invalidation-poisoned k namespace v allow other poisoned =
    elim (Bool-cases (v.namespace === "")) [
      | inl empty ↦ rw empty (poison-poisoned k.cache)
      | inr named ↦ elim (Bool-cases (v.namespace === namespace)) [
        | inr foreign ↦ rw (named, foreign) poisoned
        | inl own ↦ rw (named, own) (go (validate_invalidation v) refl)
      ]
    ]
  where
    go :
        (r : Result ProtocolError (Unit {0}))
        → validate_invalidation v ≡ r
        → (elim r as (λ _. CacheKernel × Result FuseError Bool) [
          | err e ↦ (poisoned_kernel k, err (protocol e))
          | ok _ ↦ elim (try_from v.kind) [
            | err e ↦ (k, err (protocol e))
            | ok kind ↦ apply_valid k v allow kind
          ]
        ]).0.cache.poisoned
          ≡ true
    go (err x) h = poison-poisoned k.cache
    go (ok _) h =
        let (kind, read, paths) = valid-kind v h in
        rw read (apply_valid-poisoned k v allow kind paths (not_resync v kind read other) poisoned)

apply_batch-poisoned :
    (k : CacheKernel) (namespace : String) (later : List Invalidation) (e : Option FuseError)
    → any is_resync later ≡ false
    → k.cache.poisoned ≡ true
    → (apply_batch k namespace later e).0.cache.poisoned ≡ true
unfolding apply_batch any
apply_batch-poisoned k namespace [] e other poisoned = poisoned
apply_batch-poisoned k namespace (v ∷ rest) e other poisoned =
    apply_batch-poisoned (apply_invalidation k namespace v true).0 namespace rest
      (batch_error_after (apply_invalidation k namespace v true).1 e) (ground arith)
      (apply_invalidation-poisoned k namespace v true (ground arith) poisoned)

-- After an invalidation that failed, and any batch of others without a full resync, in sequence or not,
-- the cache gives no path of an inode, no path of a child with a valid name and no parent: each is
-- answered with the error for a stale cache.
pub failed-stale :
    (k : CacheKernel) (namespace : String) (v : Invalidation) (allow : Bool) (e : FuseError)
    (later : List Invalidation) (inode : ℕ) (name path : List ℕ)
    → (apply_invalidation k namespace v allow).1 ≡ err e
    → any is_resync later ≡ false
    → valid_child_name name ≡ true
    → let after =
        (apply_batch (apply_invalidation k namespace v allow).0 namespace later none).0.cache in
      (path_for_inode after inode ≡ err stale_cache)
      × (child_path after inode name ≡ err stale_cache)
      × (parent_inode_for_path after path ≡ err stale_cache)
      × (parent_inode after inode ≡ err stale_cache)
failed-stale k namespace v allow e later inode name path failed other valid =
    poisoned-stale _ inode name path
      (apply_batch-poisoned (apply_invalidation k namespace v allow).0 namespace later none other
        (error-poisoned k namespace v allow e failed))
      valid
