-- ===== src/Container/Discovery.antt =====
-- The discovery of ncda/src/container.rs: the tables of names from what `crictl ps -o json` and
-- `docker ps` print. The commands are parameters; `none` stands for each of their failures: no program,
-- no success, a timeout, or output that is no UTF-8.
pub mod Form
pub mod Printed
mod Examples
use ncda.Base.{
  Bool, true, false, Option, none, some, List, [], ◌∷◌, Bytes, ascii, split_once, is_empty, lines,
  if◌then◌else◌, ◌==◌, nat_eq, list_eq, ◌&&◌, not,
}
use ncda.Base.HashMap.{HashMap, get, insert}
use ncda.Container.{ContainerResolver, new, is_hex64}
use ncda.Container.Json.{extract_json_string, iter_json_array_objects}

pub record Commands : Type 0 where
  pub crictl : Option Bytes
  pub docker : Option Bytes

-- `entry(sid).or_insert(name)`
abbrev pub insert_first : Bytes → Bytes → HashMap Bytes Bytes → HashMap Bytes Bytes
insert_first id name names = elim (get id names) [ some old ↦ names | none ↦ insert id name names ]

abbrev pub name_sandbox : Option Bytes → Bytes → HashMap Bytes Bytes → HashMap Bytes Bytes
name_sandbox none name names = names
name_sandbox (some id) name names = if is_hex64 id then insert_first id name names else names

-- An identifier of 64 digits, and a name that is not empty.
abbrev hex64 : Option Bytes → Option Bytes
hex64 none = none
hex64 (some id) = if is_hex64 id then some id else none

abbrev non_empty : Option Bytes → Option Bytes
non_empty none = none
non_empty (some name) = if is_empty name then none else some name

abbrev add_container :
    Option Bytes → Option Bytes → Option Bytes → Bool × ContainerResolver → Bool × ContainerResolver
add_container (some id) (some name) sandbox (found, r) = (
  true,
  record r {
    container_names = insert id name r.container_names;
    sandbox_names = name_sandbox sandbox name r.sandbox_names;
  },
)
add_container _ _ sandbox found_r = found_r

-- A round of the loop of `discover_crictl`.
unfoldable pub add_entry : Bytes → Bool × ContainerResolver → Bool × ContainerResolver
unfolding extract_json_string is_hex64
add_entry entry found_r =
    add_container (hex64 (extract_json_string entry (ascii "id")))
      (non_empty (extract_json_string entry (ascii "name")))
      (extract_json_string entry (ascii "podSandboxId")) found_r

unfoldable pub add_entries : List Bytes → Bool × ContainerResolver → Bool × ContainerResolver
add_entries [] found_r = found_r
add_entries (entry ∷ entries) found_r = add_entries entries (add_entry entry found_r)

unfoldable pub discover_crictl : Option Bytes → ContainerResolver → Bool × ContainerResolver
unfolding add_entries iter_json_array_objects
discover_crictl none r = (false, r)
discover_crictl (some json) r =
    add_entries (iter_json_array_objects json (ascii "containers")) (false, r)

-- A line of `docker ps`: an identifier, a tabulator and a name.
abbrev add_pair : Option (Bytes × Bytes) → ContainerResolver → ContainerResolver
add_pair none r = r
add_pair (some (id, name)) r =
    if is_hex64 id && not (is_empty name)
    then record r { container_names = insert id name r.container_names }
    else r

unfoldable pub add_lines : List Bytes → ContainerResolver → ContainerResolver
add_lines [] r = r
add_lines (line ∷ rest) r = add_lines rest (add_pair (split_once 9 line) r)

unfoldable pub discover_docker : Option Bytes → ContainerResolver → ContainerResolver
unfolding add_lines
discover_docker none r = r
discover_docker (some text) r = add_lines (lines text) r

unfoldable pub discover_blocking : Commands → ContainerResolver
unfolding discover_crictl discover_docker
discover_blocking commands =
    let (found, r) = discover_crictl commands.crictl new in
    if found then r else discover_docker commands.docker r
