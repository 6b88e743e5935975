-- ===== src/Container.antt =====
-- `ContainerResolver` of ncda/src/container.rs: the container of a process, from its cgroup, and the
-- cache of the answers. Container/Discovery fills the two tables of names from what `crictl` and `docker`
-- print.
mod Json
mod Keys
pub mod Discovery
use ncda.Base.{
  ℕ, Bool, ◌&&◌, ◌||◌, Option, none, some, List, [], ◌∷◌, Bytes, length, all, any, split_on, ascii,
  strip_prefix, strip_suffix, ends_with, after_byte, lines, take, unwrap_or, nat_beq, leb,
  if◌then◌else◌, ◌==◌, nat_eq, list_eq,
}
use ncda.Base.HashMap.{HashMap, get, insert, remove}
use ncda.Procfs.{Procfs}

pub record ContainerResolver : Type 0 where
  pub container_names : HashMap Bytes Bytes
  pub sandbox_names : HashMap Bytes Bytes
  -- `none` for a process in no container
  pub pid_cache : HashMap ℕ (Option Bytes)

unfoldable pub new : ContainerResolver
new = record { container_names = []; sandbox_names = []; pid_cache = [] }

abbrev is_hex_digit : ℕ → Bool
is_hex_digit b =
    (leb b'0' b && leb b b'9') || (leb b'a' b && leb b b'f') || (leb b'A' b && leb b b'F')

pub is_hex64 : Bytes → Bool
is_hex64 s = nat_beq (length s) 64 && all is_hex_digit s

-- `rsplit(c).next()`
abbrev last_piece : ℕ → Bytes → Bytes
last_piece c s = last (split_on c s)
  where
    last : List Bytes → Bytes
    last [] = []
    last (p ∷ []) = p
    last (p ∷ p' ∷ ps) = last (p' ∷ ps)

-- The first prefix that an identifier of 64 digits follows.
abbrev scope_id_after : List Bytes → Bytes → Option Bytes
scope_id_after [] rest = none
scope_id_after (p ∷ ps) rest =
    let later = scope_id_after ps rest in
    elim (strip_prefix p rest) [ none ↦ later | some id ↦ if is_hex64 id then some id else later ]

pub extract_scope_id : Bytes → Option Bytes
extract_scope_id cgroup_path = elim (strip_suffix (ascii ".scope") (last_piece b'/' cgroup_path)) [
  | none ↦ none
  | some rest ↦
      scope_id_after (ascii "cri-containerd-" ∷ ascii "docker-" ∷ ascii "libpod-" ∷ []) rest
]

pub extract_colon_id : Bytes → Option Bytes
extract_colon_id cgroup_line =
    let id = last_piece b':' cgroup_line in
    if is_hex64 id
    then elim (strip_suffix (b':' ∷ id) cgroup_line) [
      | none ↦ none
      | some prefix ↦
          if ends_with (ascii "cri-containerd") prefix || ends_with (ascii "containerd") prefix
          then some id
          else none
    ]
    else none

abbrev is_runtime : Bytes → Bool
is_runtime s =
    s == ascii "docker"
    || s == ascii "kubepods"
    || s == ascii "containerd"
    || s == ascii "crio"
    || s == ascii "libpod"

pub extract_path_id : Bytes → Option Bytes
extract_path_id cgroup_path =
    let id = last_piece b'/' cgroup_path in
    if is_hex64 id && any is_runtime (split_on b'/' cgroup_path) then some id else none

-- A known name, or the first twelve digits of the identifier.
abbrev name_of : HashMap Bytes Bytes → Bytes → Bytes
name_of names id = unwrap_or (get id names) (take 12 id)

-- `line.splitn(3, ':').nth(2)`
abbrev third_field : Bytes → Bytes
third_field line =
    unwrap_or (elim (after_byte b':' line) [ none ↦ none | some rest ↦ after_byte b':' rest ]) []

pub lookup_line : ContainerResolver → Bytes → Option Bytes
lookup_line r line =
    let path = third_field line in
    elim (extract_scope_id path) [
      | some id ↦ some (name_of r.container_names id)
      | none ↦ elim (extract_colon_id line) [
        | some id ↦ some (name_of r.sandbox_names id)
        | none ↦ elim (extract_path_id path) [
          | some id ↦ some (name_of r.container_names id)
          | none ↦ none
        ]
      ]
    ]

-- The loop of `lookup_pid` over the lines.
pub lookup_lines : ContainerResolver → List Bytes → Option Bytes
lookup_lines r [] = none
lookup_lines r (line ∷ rest) = elim (lookup_line r line) [
  | some name ↦ some name
  | none ↦ lookup_lines r rest
]

pub lookup_pid : Procfs → ContainerResolver → ℕ → Option Bytes
lookup_pid proc r pid = elim (proc.cgroup pid) [
  | none ↦ none
  | some text ↦ lookup_lines r (lines text)
]

unfoldable pub resolve : Procfs → ℕ → ContainerResolver → Option Bytes × ContainerResolver
resolve proc pid r = elim (get pid r.pid_cache) [
  | some name ↦ (name, r)
  | none ↦
      let name = lookup_pid proc r pid in
      (name, record r { pid_cache = insert pid name r.pid_cache })
]

unfoldable pub invalidate_pid : ℕ → ContainerResolver → ContainerResolver
invalidate_pid pid r = record r { pid_cache = remove pid r.pid_cache }

unfoldable pub replace_discovery : ContainerResolver → ContainerResolver → ContainerResolver
replace_discovery discovered r = record {
  container_names = discovered.container_names;
  sandbox_names = discovered.sandbox_names;
  pid_cache = [];
}
