-- ===== src/Fd/Confirmed.antt =====
-- `FdPathCache::resolve` of ncda/src/bpf.rs: where the path of a resolved open comes from.
use ncda.Base.{
  ℕ, ◌≡◌, refl, true, Option, none, some, Bytes, nat_beq, nat_beq_iff, nat_eq, list_beq_iff,
  starts_with, ascii, ℤ, arith, Bool-cases, Option-cases, inl, inr, ◌⊎◌, ◌++◌, ◌∷◌,
}
use ncda.Procfs.{Procfs}
use ncda.Paths.{
  PseudoPath, ordinary, ignore, memory, classify_pseudo_path, display_path, normalize_absolute_path,
}
use ncda.Fd.{
  FdPathCache, PathResolution, resolved, unresolved, ignored, resolve, resolve_absolute,
  resolve_relative, resolve_ordinary, resolve_proc_target, strip_container_root, base_dir, confirm,
}

-- Procfs gives the path for the descriptor.
abbrev pub Confirms : Procfs → ℕ → ℕ → Bytes → Type 0
Confirms proc pid fd path =
    (c : FdPathCache) × ((resolve_proc_target proc pid fd c).0 ≡ some (resolved path))

-- The path is absolute as the program gave it.
abbrev pub IsAbsolute : Bytes → Bytes → Type 0
IsAbsolute raw path =
    (starts_with (ascii "/") raw ≡ true) × (path ≡ display_path (normalize_absolute_path raw))

confirm-resolved :
    (pid fd : ℕ) (raw want path : Bytes) (target : Option PathResolution)
    → confirm pid fd raw want target ≡ resolved path
    → target ≡ some (resolved path)
unfolding confirm
confirm-resolved pid fd raw want path none h = cc
confirm-resolved pid fd raw want path (some (resolved actual)) h =
    ground (arith, list_beq_iff actual want)
confirm-resolved pid fd raw want path (some (unresolved p)) h = cc
confirm-resolved pid fd raw want path (some ignored) h = cc

relative-resolved :
    (proc : Procfs) (pid fd : ℕ) (base raw path : Bytes) (c : FdPathCache)
    → (resolve_relative proc pid fd base raw c).0 ≡ resolved path
    → Confirms proc pid fd path
unfolding resolve_relative
relative-resolved proc pid fd base raw path c h = (
  (strip_container_root proc pid (base ++ b'/' ∷ raw) c).1,
  confirm-resolved pid fd raw _ path _ h,
)

absolute-resolved :
    (proc : Procfs) (pid fd : ℕ) (raw path : Bytes) (c : FdPathCache)
    → (resolve_absolute proc pid fd raw c).0 ≡ resolved path
    → path ≡ display_path (normalize_absolute_path raw)
unfolding resolve_absolute
absolute-resolved proc pid fd raw path c h = ground arith

ordinary-resolved :
    (proc : Procfs) (pid fd : ℕ) (dirfd : ℤ) (raw path : Bytes) (c : FdPathCache)
    → (resolve_ordinary proc pid fd dirfd raw c).0 ≡ resolved path
    → IsAbsolute raw path ⊎ Confirms proc pid fd path
unfolding resolve_ordinary
ordinary-resolved proc pid fd dirfd raw path c h = elim (Bool-cases (starts_with (ascii "/") raw)) [
  | inl e ↦ inl (e, absolute-resolved proc pid fd raw path c (ground (arith, e, h)))
  | inr e ↦ elim (Option-cases (base_dir proc pid dirfd)) [
    | inl n ↦ ground (arith, e, n, h)
    | inr (base, b) ↦ inr (relative-resolved proc pid fd base raw path c (ground (arith, e, b, h)))
  ]
]

-- A path that an open is recorded with, as resolved, was read whole, and is a memory file's, or the
-- normal form of an absolute path, or what procfs says of the descriptor.
pub resolve-resolved :
    (proc : Procfs) (pid fd : ℕ) (dirfd : ℤ) (raw path : Bytes) (flags : ℕ) (c : FdPathCache)
    → (resolve proc pid fd dirfd raw flags c).0 ≡ resolved path
    → (flags ≡ 0)
      × ((classify_pseudo_path raw ≡ memory path)
          ⊎ (IsAbsolute raw path ⊎ Confirms proc pid fd path))
unfolding resolve
resolve-resolved proc pid fd dirfd raw path flags c h = elim (Bool-cases (nat_beq flags 0)) [
  | inr e ↦ ground (arith, e, h)
  | inl e ↦ ((nat_beq_iff flags 0).0 e, by_class (classify_pseudo_path raw) refl)
]
  where
    by_class :
        (class : PseudoPath)
        → classify_pseudo_path raw ≡ class
        → (classify_pseudo_path raw ≡ memory path)
          ⊎ (IsAbsolute raw path ⊎ Confirms proc pid fd path)
    by_class ignore k = ground (arith, k, h)
    by_class (memory m) k = inl (ground (arith, k, h))
    by_class ordinary k =
        inr (ordinary-resolved proc pid fd dirfd raw path c (ground (arith, k, h)))
