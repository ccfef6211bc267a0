-- ===== src/Fuse/Kernel/Handles.antt =====
-- fs-fuse/src/cache.rs, `apply_invalidation`: the paths of the open handles.
use mathlib.Core.Path.{subst}
use fabric_fs.Prelude.{◌++◌}
use fabric_fs.Protocol.Path.{path_is_in_subtree as in_subtree}
use fabric_fs.Protocol.Path.Prefix.{is_suffix, suffix-in_subtree, strip_prefix-append}
use fabric_fs.Protocol.Path.Subtree.{Below, Below-in_subtree}
use fabric_fs.Fuse.Paths.{path_is_in_subtree, subtree_suffix}
use fabric_fs.Fuse.Cache.Moving.{nonempty}
use fabric_fs.Prelude.{
  ok-injective, ℕ, ◌-◌, ◌≡◌, inl, inr, refl, ap, sym, ◌∙◌, Bool, true, false, Option, none, some,
  List, [], ◌∷◌, String, ◌==◌, ◌===◌, if◌then◌else◌, bytes_eq, nat_eq, pair_eq, string_eq, is_empty,
  Result, ok, err, arith, Bool-cases,
}
use fabric_fs.Prelude.Map
use fabric_fs.Prelude.Map.{Map, bind_value, get-filter_map}
use fabric_fs.Protocol.Error.{ProtocolError}
use fabric_fs.Protocol.Path.{validate_rename_paths}
use fabric_fs.Protocol.Invalidation.{
  Invalidation, InvalidationKind, validate_invalidation, try_from, validate_kind_paths, valid-kind,
}
use fabric_fs.Fuse.Cache.{PathCache, rename}
use fabric_fs.Fuse.Kernel.{
  next_sequence, CacheKernel, apply_kind, apply_valid, apply_invalidation, gap_handles, rejects_gap,
  with_cache, rename_handle_paths, moved_path, at_sequence, is_full_resync, is_rename,
}

-- What the invalidation makes of the path of a handle.
abbrev pub followed : Invalidation → InvalidationKind → Option (List ℕ) → Option (List ℕ)
followed v kind path =
    if is_rename kind
    then bind_value (λ p. some (moved_path v.old_path v.new_path p)) path
    else path

abbrev Follows : CacheKernel → Invalidation → InvalidationKind → CacheKernel → Type 0
Follows k v kind k' =
    (key : ℕ × ℕ) → Map.get k'.open_handles key ≡ followed v kind (Map.get k.open_handles key)

rename_handle_paths-get :
    (m : Map (ℕ × ℕ) (List ℕ)) (old_path new_path : List ℕ) (key : ℕ × ℕ)
    → Map.get (rename_handle_paths m old_path new_path) key
      ≡ bind_value (λ p. some (moved_path old_path new_path p)) (Map.get m key)
unfolding rename_handle_paths
rename_handle_paths-get m old_path new_path key =
    get-filter_map (λ _ path. some (moved_path old_path new_path path)) m key

gap_handles-Follows :
    (k : CacheKernel) (v : Invalidation) (kind : InvalidationKind)
    → Follows k v kind (gap_handles k v kind)
unfolding gap_handles
gap_handles-Follows k v InvalidationKind.rename key =
    rename_handle_paths-get k.open_handles v.old_path v.new_path key
gap_handles-Follows k v _ key = refl

apply_kind-Follows :
    (k : CacheKernel) (v : Invalidation) (kind : InvalidationKind)
    → validate_kind_paths kind v ≡ ok tt
    → Follows k v kind (apply_kind k v kind).0
unfolding apply_kind
apply_kind-Follows k v InvalidationKind.rename h key =
    go (rename k.cache v.old_path v.new_path) refl
  where
    valid : validate_rename_paths v.old_path v.new_path ≡ ok tt
    valid = unfold validate_kind_paths in ground arith

    refused : (x : ProtocolError) → rename k.cache v.old_path v.new_path ≡ err x → ⊥
    refused x = unfold rename in rw valid λ e. absurd (cc)

    go :
        (r : Result ProtocolError PathCache)
        → rename k.cache v.old_path v.new_path ≡ r
        → Map.get (apply_kind k v InvalidationKind.rename).0.open_handles key
          ≡ followed v InvalidationKind.rename (Map.get k.open_handles key)
    go (ok c) e =
        rw (e, apply_kind) (rename_handle_paths-get k.open_handles v.old_path v.new_path key)
    go (err x) e = absurd (refused x e)
apply_kind-Follows k v _ h key = refl

no_handles : (m : Map (ℕ × ℕ) (List ℕ)) (key : ℕ × ℕ) → is_empty m ≡ true → Map.get m key ≡ none
unfolding Map.get
no_handles [] key h = refl
no_handles (x ∷ m) key h = absurd (cc)

followed-none : (v : Invalidation) (kind : InvalidationKind) → followed v kind none ≡ none
followed-none v InvalidationKind.rename = refl
followed-none v _ = refl

unmoved :
    (v : Invalidation) (kind : InvalidationKind) (path : Option (List ℕ))
    → is_full_resync kind ≡ true
    → path ≡ followed v kind path
unmoved v InvalidationKind.rename path h = absurd (cc)
unmoved v _ path h = refl

baseline-empty :
    (k : CacheKernel) (v : Invalidation) (allow : Bool)
    → rejects_gap k v allow ≡ false
    → is_empty k.open_handles ≡ true
unfolding rejects_gap
baseline-empty k v allow h = ground arith

baseline-Follows :
    (k g : CacheKernel) (v : Invalidation) (kind : InvalidationKind)
    → validate_kind_paths kind v ≡ ok tt
    → is_empty g.open_handles ≡ true
    → Follows k v kind g
    → Follows k v kind (apply_kind g v kind).0
baseline-Follows k g v kind h none_open f key =
    apply_kind-Follows g v kind h key
    ∙ ap (λ path. followed v kind path) (no_handles g.open_handles key none_open)
    ∙ followed-none v kind
    ∙ sym (no_handles g.open_handles key none_open)
    ∙ f key

apply_valid-Follows :
    (k : CacheKernel) (v : Invalidation) (allow : Bool) (kind : InvalidationKind)
    → validate_kind_paths kind v ≡ ok tt
    → Follows k v kind (apply_valid k v allow kind).0
unfolding apply_valid
apply_valid-Follows k v allow kind h key = elim (Bool-cases (is_full_resync kind)) [
  | inl resync ↦ rw resync (unmoved v kind (Map.get k.open_handles key) resync)
  | inr other ↦ elim (Bool-cases (v.sequence == next_sequence k.cache)) [
    | inl next ↦ rw (other, next) (apply_kind-Follows k v kind h key)
    | inr gap ↦ elim (Bool-cases (rejects_gap (gap_handles k v kind) v allow)) [
      | inl rejected ↦ rw (other, gap, rejected) (gap_handles-Follows k v kind key)
      | inr baseline ↦
          rw (other, gap, baseline)
            (baseline-Follows k
              (with_cache (gap_handles k v kind) (at_sequence k.cache (v.sequence - 1))) v kind h
              (baseline-empty (gap_handles k v kind) v allow baseline)
              (gap_handles-Follows k v kind) key)
    ]
  ]
]

apply_invalidation-get :
    (k : CacheKernel) (namespace : String) (v : Invalidation) (allow : Bool)
    (kind : InvalidationKind) (key : ℕ × ℕ)
    → (v.namespace === namespace) ≡ true
    → try_from v.kind ≡ ok kind
    → validate_invalidation v ≡ ok tt
    → Map.get (apply_invalidation k namespace v allow).0.open_handles key
      ≡ followed v kind (Map.get k.open_handles key)
apply_invalidation-get k namespace v allow kind key own read valid =
    unfold apply_invalidation in
    rw (named, own, valid, read) (apply_valid-Follows k v allow kind paths key)
  where
    named : (v.namespace === "") ≡ false
    named = unfold validate_invalidation in ground arith

    paths : validate_kind_paths kind v ≡ ok tt
    paths = let (kind', read', p) = valid-kind v valid in rw (ok-injective (sym read ∙ read')) p

-- What becomes of a handle: it stays closed; under a rename, its path is the old path and a rest, which
-- the new path then has, or lies elsewhere and stays; under another kind it stays.
pub data Handled (v : Invalidation) (kind : InvalidationKind)
    : Option (List ℕ) → Option (List ℕ) → Type 0 where
  closed : Handled v kind none none
  moved :
      is_rename kind ≡ true
      → (rest : List ℕ) → is_suffix rest ≡ true
      → Handled v kind (some (v.old_path ++ rest)) (some (v.new_path ++ rest))
  beside :
      is_rename kind ≡ true
      → (path : List ℕ) → ¬ Below path v.old_path
      → Handled v kind (some path) (some path)
  still : is_rename kind ≡ false → (path : List ℕ) → Handled v kind (some path) (some path)

moved_path-Handled :
    (v : Invalidation) (kind : InvalidationKind) (path : List ℕ)
    → is_rename kind ≡ true
    → validate_rename_paths v.old_path v.new_path ≡ ok tt
    → Handled v kind (some path) (some (moved_path v.old_path v.new_path path))
unfolding moved_path path_is_in_subtree
moved_path-Handled v kind path renames valid = elim (Bool-cases (in_subtree path v.old_path)) [
  | inl inside ↦
      let (rest, e, suffix) = suffix-in_subtree path v.old_path inside in
      rw (full, inside)
        (subst (λ p. Handled v kind (some p) (some (v.new_path ++ subtree_suffix p v.old_path)))
          (sym e)
          (unfold subtree_suffix in
            rw (strip_prefix-append v.old_path rest) (moved renames rest suffix)))
  | inr outside ↦
      rw (full, outside)
        (beside renames path
          (λ below. let inside = Below-in_subtree path v.old_path below in absurd (cc)))
]
  where
    full : is_empty v.old_path ≡ false
    full = (nonempty v.old_path v.new_path valid).0

followed-Handled :
    (v : Invalidation) (kind : InvalidationKind) (path : Option (List ℕ))
    → validate_kind_paths kind v ≡ ok tt
    → Handled v kind path (followed v kind path)
unfolding validate_kind_paths
followed-Handled v InvalidationKind.rename none h = closed
followed-Handled v InvalidationKind.rename (some path) h =
    moved_path-Handled v InvalidationKind.rename path refl (ground arith)
followed-Handled v InvalidationKind.create none h = closed
followed-Handled v InvalidationKind.create (some path) h = still refl path
followed-Handled v _ none h = closed
followed-Handled v _ (some path) h = still refl path

-- A valid invalidation of this namespace opens and closes no handle: a rename puts the new path for
-- the old one at the head of the paths at and below it, also when its sequence number makes the cache
-- refuse it, and every other path stays, as all do under an invalidation of another kind.
pub apply_invalidation-Handled :
    (k : CacheKernel) (namespace : String) (v : Invalidation) (allow : Bool)
    (kind : InvalidationKind) (key : ℕ × ℕ)
    → (v.namespace === namespace) ≡ true
    → try_from v.kind ≡ ok kind
    → validate_invalidation v ≡ ok tt
    → Handled v kind
        (Map.get k.open_handles key)
        (Map.get (apply_invalidation k namespace v allow).0.open_handles key)
apply_invalidation-Handled k namespace v allow kind key own read valid =
    let (kind', read', paths) = valid-kind v valid in
    rw (apply_invalidation-get k namespace v allow kind key own read valid) (
      followed-Handled v kind (Map.get k.open_handles key)
        (rw (ok-injective (sym read ∙ read')) paths))
