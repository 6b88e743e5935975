-- ===== src/Container/Discovery/Printed.antt =====
-- What the discovery of ncda/src/container.rs makes of a list of containers in the form of
-- `crictl ps -o json`.
use ncda.Base.{
  ◌≡◌, refl, ap, ◌∙◌, Bool, true, false, not, ◌||◌, some, List, [], ◌∷◌, ◌++◌, Bytes, ascii,
  is_empty, nat_eq, list_eq, arith, map,
}
use ncda.Base.HashMap.{insert}
use ncda.Container.{ContainerResolver}
use ncda.Container.Json.{◌>>=◌, first_part, string_value, extract_json_string, array_field}
use ncda.Container.Keys.{pieces, find_after-pieces, find_after-hit, split_once-quote}
use ncda.Container.Discovery.{insert_first, add_entry, add_entries, discover_crictl}
use ncda.Container.Discovery.Form.{
  Entry, IsPrintable, AllPrintable, print_entry, print_output, after_name, up_to_sandbox,
  up_to_name, hex64-plain, hex64-no_key, scan_list,
}

module _ (e : Entry) (p : IsPrintable e) where
  extract-id : extract_json_string (print_entry e) (ascii "id") ≡ some e.id
  unfolding extract_json_string
  extract-id = ap first_part (split_once-quote e.id _ (hex64-plain e.id p.id).0)

  after_sandbox : Bytes
  after_sandbox = pieces (ascii ": " ∷ e.sandbox ∷ up_to_name ++ e.name ∷ []) (after_name e)

  extract-sandbox : extract_json_string (print_entry e) (ascii "podSandboxId") ≡ some e.sandbox
  unfolding extract_json_string after_sandbox
  extract-sandbox =
      ap (λ o. o >>= string_value)
        (find_after-pieces (ascii "podSandboxId")
            (ascii "id" ∷ ascii ": " ∷ e.id ∷ ascii ",\n      " ∷ [])
            (ascii "podSandboxId\"" ++ after_sandbox) refl
            (ground
              (arith, hex64-plain e.id p.id, hex64-no_key (ascii "podSandboxId") e.id p.id refl))
          ∙ find_after-hit (ascii "podSandboxId") after_sandbox)
      ∙ ap first_part (split_once-quote e.sandbox _ (hex64-plain e.sandbox p.sandbox).0)

  after_name_key : Bytes
  after_name_key = pieces (ascii ": " ∷ e.name ∷ []) (after_name e)

  extract-name : extract_json_string (print_entry e) (ascii "name") ≡ some e.name
  unfolding extract_json_string after_name_key
  extract-name =
      ap (λ o. o >>= string_value)
        (find_after-pieces (ascii "name")
            (ascii "id" ∷ ascii ": " ∷ e.id ∷ up_to_sandbox
              ++ e.sandbox ∷ ascii ",\n      " ∷ ascii "metadata" ∷ ascii ": {\n        " ∷ [])
            (ascii "name\"" ++ after_name_key) refl
            (ground (
              arith,
              hex64-plain e.id p.id,
              hex64-no_key (ascii "name") e.id p.id refl,
              hex64-plain e.sandbox p.sandbox,
              hex64-no_key (ascii "name") e.sandbox p.sandbox refl,
            ))
          ∙ find_after-hit (ascii "name") after_name_key)
      ∙ ap first_part (split_once-quote e.name _ p.unquoted)

-- What a container adds to the tables: its name, and the sandbox's unless that has one.
abbrev pub name_container : Entry → ContainerResolver → ContainerResolver
name_container e r = record r {
  container_names = insert e.id e.name r.container_names;
  sandbox_names = insert_first e.sandbox e.name r.sandbox_names;
}

abbrev pub name_containers : List Entry → ContainerResolver → ContainerResolver
name_containers [] r = r
name_containers (e ∷ es) r = name_containers es (name_container e r)

add_entry-print :
    (e : Entry) (found : Bool) (r : ContainerResolver)
    → IsPrintable e
    → add_entry (print_entry e) (found, r) ≡ (true, name_container e r)
unfolding add_entry
add_entry-print e found r p = ground (arith, extract-id e p, extract-name e p, extract-sandbox e p)

add_entries-print :
    (es : List Entry) (found : Bool) (r : ContainerResolver)
    → AllPrintable es
    → add_entries (map print_entry es) (found, r)
      ≡ (found || not (is_empty es), name_containers es r)
unfolding add_entries
add_entries-print [] found r p = ground arith
add_entries-print (e ∷ es) found r (p, ps) =
    ap (add_entries (map print_entry es)) (add_entry-print e found r p)
    ∙ add_entries-print es true (name_container e r) ps
    ∙ ap (λ b. (b, name_containers es (name_container e r))) (ground arith)

-- From an indented list of containers, each with `id`, `podSandboxId` and `metadata` as its first
-- fields and `name` first in its metadata, every container is entered: its name by its identifier,
-- and by its sandbox's if that has no name yet, in the order of the list. The discovery has found
-- something exactly when the list is not empty. The identifiers have 64 digits, a name is not empty
-- and has no quotes and no braces, and the braces of what stands after the name, also those in
-- strings, nest. What follows the list is any text.
pub discover_crictl-print :
    (tail : Bytes) (es : List Entry) (r : ContainerResolver)
    → AllPrintable es
    → discover_crictl (some (print_output tail es)) r ≡ (not (is_empty es), name_containers es r)
unfolding discover_crictl array_field
discover_crictl-print tail es r p =
    ap (λ os. add_entries os (false, r)) (scan_list tail es p) ∙ add_entries-print es false r p
