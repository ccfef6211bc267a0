-- ===== src/Fuse/Kernel/Following.antt =====
-- fs-fuse/src/cache.rs, `apply_success_response_invalidation`: the invalidation that follows the last
-- one is applied, and so is a full resync.
use fabric_fs.Prelude.{
  ℕ, ◌≡◌, refl, ◌∙◌, Bool, true, false, String, ◌==◌, ◌===◌, bytes_eq, nat_eq, string_eq, Result,
  ok, arith, Bool-cases, inl, inr, ==_iff, eq-===,
}
use fabric_fs.Protocol.Path.{validate_rename_paths}
use fabric_fs.Protocol.Invalidation.{
  Invalidation, InvalidationKind, validate_kind_paths, validate_invalidation, try_from, valid-kind,
}
use fabric_fs.Fuse.Cache.{FuseError}
use fabric_fs.Fuse.Cache.Status.{insert-poisoned, remove_path-poisoned, rename-poisoned}
use fabric_fs.Fuse.Kernel.{
  next_sequence, CacheKernel, apply_kind, apply_valid, apply_invalidation,
  apply_success_response_invalidation, is_full_resync,
}
use fabric_fs.Fuse.Kernel.Poisoning.{reset-poisoned}

-- The cache came to the number and is poisoned or not, as it was.
abbrev pub Came : CacheKernel × Result FuseError Bool → ℕ → Bool → Type 0
Came (k, r) n poisoned =
    (k.cache.last_sequence ≡ n) × (k.cache.poisoned ≡ poisoned) × (r ≡ ok false)

pub apply_kind-Came :
    (k : CacheKernel) (v : Invalidation) (kind : InvalidationKind) {poisoned : Bool}
    → validate_kind_paths kind v ≡ ok tt
    → k.cache.poisoned ≡ poisoned
    → Came (apply_kind k v kind) v.sequence poisoned
unfolding apply_kind
apply_kind-Came k v InvalidationKind.create h sound = elim (Bool-cases (v.inode == 0)) [
  | inl unknown ↦ rw unknown (refl, remove_path-poisoned k.cache v.path ∙ sound, refl)
  | inr known ↦ rw known (refl, insert-poisoned k.cache v.path v.inode ∙ sound, refl)
]
apply_kind-Came k v InvalidationKind.delete h sound =
    (refl, remove_path-poisoned k.cache v.path ∙ sound, refl)
apply_kind-Came k v InvalidationKind.rename h sound =
    let paths : validate_rename_paths v.old_path v.new_path ≡ ok tt =
      unfold validate_kind_paths in ground arith in
    let (after, e, same) = rename-poisoned k.cache v.old_path v.new_path paths in
    rw (apply_kind, e) (refl, same ∙ sound, refl)
apply_kind-Came k v _ h sound = (refl, sound, refl)

-- The cache has the number, is in order, and the step succeeded.
abbrev pub Follows : {A : Type 0} → CacheKernel × Result FuseError A → ℕ → A → Type 0
Follows (k, r) n a = (k.cache.last_sequence ≡ n) × (k.cache.poisoned ≡ false) × (r ≡ ok a)

apply_valid-next :
    (k : CacheKernel) (v : Invalidation) (kind : InvalidationKind)
    → validate_kind_paths kind v ≡ ok tt
    → k.cache.poisoned ≡ false
    → v.sequence ≡ next_sequence k.cache
    → (full : Bool) × Follows (apply_valid k v false kind) v.sequence full
unfolding apply_valid
apply_valid-next k v kind h sound next = elim (Bool-cases (is_full_resync kind)) [
  | inl resync ↦
      rw resync (true, ((reset-poisoned v.sequence).1, (reset-poisoned v.sequence).0, refl))
  | inr other ↦
      rw (other, (==_iff v.sequence (next_sequence k.cache)).1 next)
        (false, apply_kind-Came k v kind h sound)
]

-- An own, well-formed invalidation that follows the last one is applied, or resets the cache.
pub applied-Follows :
    (k : CacheKernel) (namespace : String) (v : Invalidation)
    → validate_invalidation v ≡ ok tt
    → v.namespace ≡ namespace
    → k.cache.poisoned ≡ false
    → v.sequence ≡ next_sequence k.cache
    → Follows (apply_success_response_invalidation k namespace v) v.sequence tt
unfolding apply_success_response_invalidation apply_invalidation
applied-Follows k namespace v valid own sound next =
    let (kind, read, paths) = valid-kind v valid in
    let (full, (last, still, result)) = apply_valid-next k v kind paths sound next in
    let named : (v.namespace === "") ≡ false = unfold validate_invalidation in ground arith in
    let same : (v.namespace === namespace) ≡ true = eq-=== v.namespace namespace own in
    rw (named, same, valid, read) (last, still, rw result refl)

-- An own full resync is applied to any cache.
pub resync-Follows :
    (k : CacheKernel) (namespace : String) (v : Invalidation)
    → validate_invalidation v ≡ ok tt
    → (v.namespace === "") ≡ false
    → v.namespace ≡ namespace
    → try_from v.kind ≡ ok InvalidationKind.full_resync
    → Follows (apply_success_response_invalidation k namespace v) v.sequence tt
unfolding apply_success_response_invalidation apply_invalidation apply_valid
resync-Follows k namespace v valid named own read =
    let same : (v.namespace === namespace) ≡ true = eq-=== v.namespace namespace own in
    rw (named, same, valid, read)
      ((reset-poisoned v.sequence).1, (reset-poisoned v.sequence).0, refl)
