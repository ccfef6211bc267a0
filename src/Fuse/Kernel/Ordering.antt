-- ===== src/Fuse/Kernel/Ordering.antt =====
-- fs-fuse/src/cache.rs, `apply_invalidation`: which sequence numbers are accepted.
use fabric_fs.Prelude.{
  ℕ, ◌+◌, ◌-◌, ◌%◌, two_pow_64, ◌≡◌, ◌≢◌, ◌⊎◌, inl, inr, refl, ap, Bool, true, false, List, [], ◌∷◌,
  String, ◌==◌, ◌===◌, bytes_eq, nat_eq, pair_eq, string_eq, is_empty, Result, ok, err, arith,
  Bool-cases, ==_iff,
}
use fabric_fs.Prelude.Map
use fabric_fs.Prelude.Map.{Map}
use fabric_fs.Protocol.Error.{ProtocolError}
use fabric_fs.Protocol.Invalidation.{
  Invalidation, InvalidationKind, validate_invalidation, try_from,
}
use fabric_fs.Fuse.Cache.{PathCache, FuseError, protocol, rename, can_accept_noncontiguous_sequence}
use fabric_fs.Fuse.Kernel.{
  next_sequence, CacheKernel, apply_kind, apply_valid, apply_invalidation, gap_handles, rejects_gap,
  with_cache, rename_handle_paths, poisoned_kernel, at_sequence, is_full_resync,
}

rename_handle_paths-empty :
    (m : Map (ℕ × ℕ) (List ℕ)) (old_path new_path : List ℕ)
    → is_empty (rename_handle_paths m old_path new_path) ≡ is_empty m
unfolding rename_handle_paths Map.filter_map
rename_handle_paths-empty [] old_path new_path = refl
rename_handle_paths-empty ((key, path) ∷ m) old_path new_path = refl

gap_handles-empty :
    (k : CacheKernel) (v : Invalidation) (kind : InvalidationKind)
    → is_empty (gap_handles k v kind).open_handles ≡ is_empty k.open_handles
unfolding gap_handles
gap_handles-empty k v kind =
    ground (arith, rename_handle_paths-empty k.open_handles v.old_path v.new_path)

gap_handles-cache :
    (k : CacheKernel) (v : Invalidation) (kind : InvalidationKind)
    → (gap_handles k v kind).cache ≡ k.cache
unfolding gap_handles
gap_handles-cache k v kind = ground arith

-- Why a sequence number was taken: it is the next one, or the cache and the handles were empty.
abbrev pub Admits : CacheKernel → Invalidation → Bool → Type 0
Admits k v allow =
    (v.sequence ≡ (k.cache.last_sequence + 1) % two_pow_64)
    ⊎ ((v.sequence ≢ 0)
        × (allow ≡ true)
        × (is_empty k.open_handles ≡ true)
        × (can_accept_noncontiguous_sequence k.cache ≡ true))

baseline-Admits :
    (k : CacheKernel) (v : Invalidation) (allow : Bool) (kind : InvalidationKind)
    → rejects_gap (gap_handles k v kind) v allow ≡ false
    → Admits k v allow
unfolding rejects_gap
baseline-Admits k v allow kind h = inr (
    ground (
      arith,
      gap_handles-empty k v kind,
      ap (λ c. can_accept_noncontiguous_sequence c) (gap_handles-cache k v kind),
    ))

-- The sequence number that the cache holds after an invalidation other than a full resync.
abbrev Counted : CacheKernel × Result FuseError Bool → ℕ → Type 0
Counted (k, ok false) n = k.cache.last_sequence ≡ n
Counted (k, _) n = Unit

apply_kind-Counted :
    (k : CacheKernel) (v : Invalidation) (kind : InvalidationKind)
    → Counted (apply_kind k v kind) v.sequence
unfolding apply_kind
apply_kind-Counted k v InvalidationKind.rename = go (rename k.cache v.old_path v.new_path) refl
  where
    go :
        (r : Result ProtocolError PathCache)
        → rename k.cache v.old_path v.new_path ≡ r
        → Counted (apply_kind k v InvalidationKind.rename) v.sequence
    go (ok c) e = rw (e, apply_kind) refl
    go (err x) e = rw (e, apply_kind) tt
apply_kind-Counted k v _ = refl

abbrev InOrder : CacheKernel → Invalidation → Bool → CacheKernel × Result FuseError Bool → Type 0
InOrder k v allow (k', ok false) = (k'.cache.last_sequence ≡ v.sequence) × Admits k v allow
InOrder k v allow (k', _) = Unit

Counted-InOrder :
    (k : CacheKernel) (v : Invalidation) (allow : Bool) (r : CacheKernel × Result FuseError Bool)
    → Counted r v.sequence
    → Admits k v allow
    → InOrder k v allow r
Counted-InOrder k v allow (k', ok false) c a = (c, a)
Counted-InOrder k v allow (k', ok true) c a = tt
Counted-InOrder k v allow (k', err e) c a = tt

apply_valid-InOrder :
    (k : CacheKernel) (v : Invalidation) (allow : Bool) (kind : InvalidationKind)
    → InOrder k v allow (apply_valid k v allow kind)
unfolding apply_valid
apply_valid-InOrder k v allow kind = elim (Bool-cases (is_full_resync kind)) [
  | inl resync ↦ rw resync tt
  | inr other ↦ elim (Bool-cases (v.sequence == next_sequence k.cache)) [
    | inl next ↦
        rw (other, next)
          (Counted-InOrder k v allow (apply_kind k v kind) (apply_kind-Counted k v kind)
            (inl (unfold next_sequence in (==_iff v.sequence (next_sequence k.cache)).0 next)))
    | inr gap ↦ elim (Bool-cases (rejects_gap (gap_handles k v kind) v allow)) [
      | inl rejected ↦ rw (other, gap, rejected) tt
      | inr baseline ↦
          rw (other, gap, baseline)
            (Counted-InOrder k v allow
              (apply_kind (with_cache (gap_handles k v kind) (at_sequence k.cache (v.sequence - 1)))
                v kind)
              (apply_kind-Counted
                (with_cache (gap_handles k v kind) (at_sequence k.cache (v.sequence - 1))) v kind)
              (baseline-Admits k v allow kind baseline))
    ]
  ]
]

in_order :
    (k : CacheKernel) (v : Invalidation) (allow : Bool) (r : CacheKernel × Result FuseError Bool)
    → InOrder k v allow r
    → r.1 ≡ ok false
    → (r.0.cache.last_sequence ≡ v.sequence) × Admits k v allow
in_order k v allow (k', ok false) i h = i
in_order k v allow (k', ok true) i h = absurd (cc)
in_order k v allow (k', err e) i h = absurd (cc)

-- An invalidation of this namespace, which has a name, that is applied and is no full resync had the
-- number after the last one as a u64, where 0 comes after the largest, unless a baseline was allowed, its
-- number was not 0, no handle was open and the cache held nothing but the root; its number is then
-- the last one.
pub applied-in_order :
    (k : CacheKernel) (namespace : String) (v : Invalidation) (allow : Bool)
    → (v.namespace === "") ≡ false
    → (v.namespace === namespace) ≡ true
    → (apply_invalidation k namespace v allow).1 ≡ ok false
    → ((apply_invalidation k namespace v allow).0.cache.last_sequence ≡ v.sequence)
      × Admits k v allow
applied-in_order k namespace v allow named own =
    in_order k v allow (apply_invalidation k namespace v allow) inside
  where
    go :
        (r : Result ProtocolError (Unit {0})) (kr : Result ProtocolError InvalidationKind)
        → InOrder k v allow (elim r as (λ _. CacheKernel × Result FuseError Bool) [
          | err e ↦ (poisoned_kernel k, err (protocol e))
          | ok _ ↦ elim kr [ err e ↦ (k, err (protocol e)) | ok kind ↦ apply_valid k v allow kind ]
        ])
    go (err x) kr = tt
    go (ok _) (err e) = tt
    go (ok _) (ok kind) = apply_valid-InOrder k v allow kind

    inside : InOrder k v allow (apply_invalidation k namespace v allow)
    inside =
        unfold apply_invalidation in
        rw (named, own) (go (validate_invalidation v) (try_from v.kind))
