-- ===== src/Container/Discovery/Examples.antt =====
-- Discoveries at concrete outputs, after the tests of ncda/src/container.rs.
use ncda.Base.{
  ◌≡◌, refl, ℕ, zero, suc, not, true, false, none, some, List, [], ◌∷◌, ◌++◌, Bytes, ascii,
  is_empty, lines,
}
use ncda.Container.{new, is_hex64}
use ncda.Container.Json.{extract_json_string, iter_json_array_objects}
use ncda.Container.Discovery.{discover_crictl, discover_blocking}
use ncda.Container.Discovery.Printed
use ncda.Container.Keys.{has_no_quote}
use ncda.Container.Discovery.Printed.{name_containers}
use ncda.Container.Discovery.Form.{
  Entry, plain, braces, done, IsPrintable, has_no_brace, print_output,
}

program : Unit {0}
unfolding extract_json_string iter_json_array_objects discover_blocking is_hex64 new lines
program = tt

-- `json_string_extraction`
extracted :
    extract_json_string
      (ascii "{\"id\": \"abc123\", \"metadata\": {\"name\": \"wordpress\"}}")
      (ascii "name")
    ≡ some (ascii "wordpress")
unfolding program
extracted = refl

-- `json_array_iteration`
iterated :
    iter_json_array_objects
      (ascii
        "{\"containers\": [{\"id\": \"a\", \"name\": \"foo\"}, {\"id\": \"b\", \"name\": \"bar\"}]}")
      (ascii "containers")
    ≡ ascii "{\"id\": \"a\", \"name\": \"foo\"}" ∷ ascii "{\"id\": \"b\", \"name\": \"bar\"}" ∷ []
unfolding program
iterated = refl

-- A brace in a string ends its object, and the next object is not found.
cut_by_a_brace :
    iter_json_array_objects
      (ascii "{\"containers\": [{\"id\": \"a\", \"note\": \"}\"}, {\"id\": \"b\"}]}")
      (ascii "containers")
    ≡ ascii "{\"id\": \"a\", \"note\": \"}" ∷ []
unfolding program
cut_by_a_brace = refl

abbrev digits : ℕ → ℕ → Bytes
digits b zero = []
digits b (suc n) = b ∷ digits b n

-- The first command fails, and the second prints one container.
from_docker :
    (discover_blocking (record {
      crictl = none;
      docker = some (digits b'a' 64 ++ 9 ∷ ascii "web" ++ 10 ∷ []);
    })).container_names
    ≡ (digits b'a' 64, ascii "web") ∷ []
unfolding program
from_docker = refl

-- `"attempt": 0` in the metadata, an image and a label with a pair of braces after it
abbrev container : Bytes → Bytes → Entry
container id name = record {
  id = id;
  sandbox = digits b'c' 64;
  name = name;
  more_metadata = plain (ascii ",\n        \"attempt\": 0\n      ") done;
  more = plain (ascii ",\n      \"image\": ") (
      braces (plain (ascii "\"image\": \"nginx\"") done) (
        plain (ascii ",\n      \"note\": \"")
          (braces (plain (ascii "name") done) (plain (ascii "\"\n    ") done))));
}

abbrev entries : List Entry
entries = container (digits b'a' 64) (ascii "web") ∷ container (digits b'b' 64) (ascii "log") ∷ []

container-IsPrintable :
    (id name : Bytes)
    → is_hex64 id ≡ true
    → is_empty name ≡ false
    → has_no_quote name ≡ true
    → has_no_brace name ≡ true
    → IsPrintable (container id name)
unfolding is_hex64
container-IsPrintable id name h k q b = record {
  id = h;
  sandbox = refl;
  named = k;
  unquoted = q;
  unbraced = b;
  metadata_nests = refl;
  nests = refl;
}

discover_crictl-print_example :
    discover_crictl (some (print_output (ascii "\n}\n") entries)) new
    ≡ (not (is_empty entries), name_containers entries new)
unfolding is_hex64
discover_crictl-print_example = Printed.discover_crictl-print (ascii "\n}\n") entries new (
  container-IsPrintable (digits b'a' 64) (ascii "web") refl refl refl refl,
  (container-IsPrintable (digits b'b' 64) (ascii "log") refl refl refl refl, tt),
)
