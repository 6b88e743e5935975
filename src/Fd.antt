-- ===== src/Fd.antt =====
-- `FdPathCache` of ncda/src/bpf.rs: the paths of open descriptors.
pub mod Lifecycle
mod Confirmed
mod Examples
use ncda.Base.{
  ℕ, ◌+◌, ◌/◌, ◌%◌, Bool, true, false, not, ◌&&◌, ◌||◌, Option, none, some, List, [], ◌∷◌, ◌++◌,
  Bytes, length, is_empty, ascii, strip_prefix, starts_with, get_elem?, drop, unwrap_or, nat_beq,
  ltb, leb, if◌then◌else◌, ◌==◌, nat_eq, list_eq, pair_eq, ℤ, pos, negsuc, int_beq,
}
use ncda.Base.HashMap.{HashMap, get, insert, remove, retain}
use ncda.Procfs.{Procfs, dirfd_link}
use ncda.Paths.{
  PseudoPath, ordinary, ignore, memory, classify_pseudo_path, trim_deleted_suffix, unresolved_fd,
  unresolved_path, normalize_absolute_path, display_path,
}

pub record FdPathCache : Type 0 where
  pub map : HashMap (ℕ × ℕ) Bytes
  -- `none` for a process whose root is the host's
  pub root_cache : HashMap ℕ (Option Bytes)

pub data PathResolution : Type 0 where
  resolved : Bytes → PathResolution
  unresolved : Bytes → PathResolution
  ignored : PathResolution

pub new : FdPathCache
new = record { map = []; root_cache = [] }

-- `read_link(/proc/{pid}/root)`, unless it is `/`
abbrev read_root : Procfs → ℕ → Option Bytes
read_root proc pid = elim (proc.root pid) [
  | none ↦ none
  | some root ↦ if root == ascii "/" then none else some root
]

abbrev below_root : Option Bytes → Bytes → Bytes
below_root none host_path = host_path
below_root (some root) host_path =
    if host_path == root
    then ascii "/"
    else if starts_with (root ++ b'/' ∷ []) host_path
    then drop (length root) host_path
    else host_path

pub strip_container_root : Procfs → ℕ → Bytes → FdPathCache → Bytes × FdPathCache
strip_container_root proc pid host_path c = elim (get pid c.root_cache) [
  | some root ↦ (below_root root host_path, c)
  | none ↦
      let root = read_root proc pid in
      (below_root root host_path, record c { root_cache = insert pid root c.root_cache })
]

-- A target of procfs that is no pseudo path.
pub ordinary_target : Procfs → ℕ → Bytes → FdPathCache → Option PathResolution × FdPathCache
ordinary_target proc pid path c =
    if starts_with (ascii "/") path
    then (let (stripped, c') = strip_container_root proc pid path c in
        (some (resolved (display_path (normalize_absolute_path stripped))), c'))
    else (none, c)

pub resolve_proc_target : Procfs → ℕ → ℕ → FdPathCache → Option PathResolution × FdPathCache
resolve_proc_target proc pid fd c = elim (proc.fd pid fd) [
  | none ↦ (none, c)
  | some target ↦
      let path = trim_deleted_suffix target in
      elim (classify_pseudo_path path) [
        | ignore ↦ (some ignored, c)
        | memory m ↦ (some (resolved m), c)
        | ordinary ↦ ordinary_target proc pid path c
      ]
]

-- `libc::AT_FDCWD`
abbrev pub at_fdcwd : ℤ
at_fdcwd = negsuc 99

-- The directory that a relative path starts from.
abbrev pub base_dir : Procfs → ℕ → ℤ → Option Bytes
base_dir proc pid dirfd = if int_beq dirfd at_fdcwd then proc.cwd pid else dirfd_link proc pid dirfd

-- What procfs says of the descriptor, against the path that is expected.
pub confirm : ℕ → ℕ → Bytes → Bytes → Option PathResolution → PathResolution
confirm pid fd raw_path expected none = unresolved (unresolved_path pid fd raw_path)
confirm pid fd raw_path expected (some ignored) = ignored
confirm pid fd raw_path expected (some (unresolved p)) =
    unresolved (unresolved_path pid fd raw_path)
confirm pid fd raw_path expected (some (resolved actual)) =
    if actual == expected
    then resolved expected
    else if starts_with (ascii "/[memory]/") actual
    then resolved actual
    else unresolved (unresolved_path pid fd raw_path)

pub resolve_relative : Procfs → ℕ → ℕ → Bytes → Bytes → FdPathCache → PathResolution × FdPathCache
resolve_relative proc pid fd base raw_path c =
    let (candidate, c') = strip_container_root proc pid (base ++ b'/' ∷ raw_path) c in
    let expected = display_path (normalize_absolute_path candidate) in
    let (target, c'') = resolve_proc_target proc pid fd c' in
    (confirm pid fd raw_path expected target, c'')

pub resolve_absolute : Procfs → ℕ → ℕ → Bytes → FdPathCache → PathResolution × FdPathCache
resolve_absolute proc pid fd raw_path c =
    let (target, c') = resolve_proc_target proc pid fd c in
    elim target [
      | some ignored ↦ (ignored, c')
      | _ ↦ (resolved (display_path (normalize_absolute_path raw_path)), c')
    ]

pub resolve_ordinary : Procfs → ℕ → ℕ → ℤ → Bytes → FdPathCache → PathResolution × FdPathCache
resolve_ordinary proc pid fd dirfd raw_path c =
    if starts_with (ascii "/") raw_path
    then resolve_absolute proc pid fd raw_path c
    else elim (base_dir proc pid dirfd) [
      | none ↦ (unresolved (unresolved_path pid fd raw_path), c)
      | some base ↦ resolve_relative proc pid fd base raw_path c
    ]

pub resolve : Procfs → ℕ → ℕ → ℤ → Bytes → ℕ → FdPathCache → PathResolution × FdPathCache
resolve proc pid fd dirfd raw_path path_flags c =
    if not (nat_beq path_flags 0)
    then (unresolved (unresolved_path pid fd raw_path), c)
    else elim (classify_pseudo_path raw_path) [
      | ignore ↦ (ignored, c)
      | memory path ↦ (resolved path, c)
      | ordinary ↦ resolve_ordinary proc pid fd dirfd raw_path c
    ]

pub resolve_existing : Procfs → ℕ → ℕ → FdPathCache → PathResolution × FdPathCache
resolve_existing proc pid fd c =
    let (target, c') = resolve_proc_target proc pid fd c in
    (unwrap_or target (unresolved (unresolved_fd pid fd)), c')

unfoldable pub store : ℕ → ℕ → Bytes → FdPathCache → FdPathCache
store pid fd path c = record c { map = insert (pid, fd) path c.map }

unfoldable pub on_close : ℕ → ℕ → FdPathCache → FdPathCache
on_close pid fd c = record c { map = remove (pid, fd) c.map }

-- `flags & CLOSE_RANGE_CLOEXEC != 0`, the bit of value 4
abbrev pub is_cloexec : ℕ → Bool
is_cloexec flags = nat_beq ((flags / 4) % 2) 1

unfoldable pub on_close_range : ℕ → ℕ → ℕ → ℕ → FdPathCache → FdPathCache
on_close_range pid first_fd last_fd flags c = if is_cloexec flags then c else record c {
  map = retain (λ key. not (nat_beq key.0 pid) || ltb key.1 first_fd || ltb last_fd key.1) c.map;
}

unfoldable pub on_process_reset : ℕ → FdPathCache → FdPathCache
on_process_reset pid c = record c {
  map = retain (λ key. not (nat_beq key.0 pid)) c.map;
  root_cache = remove pid c.root_cache;
}

unfoldable pub invalidate_all : FdPathCache → FdPathCache
invalidate_all c = record { map = []; root_cache = [] }

unfoldable pub lookup : ℕ → ℕ → FdPathCache → Option Bytes
lookup pid fd c = get (pid, fd) c.map
