-- ===== src/Events/Examples.antt =====
-- Runs of the event log at concrete inputs, after the tests of ncda/src/rate.rs.
use ncda.Base.{◌≡◌, refl, false, [], ◌∷◌, Bytes, ascii}
use ncda.Events.{prefixes_at, path_prefixes, path_matches_prefix}
use ncda.Events.Prefixes
use ncda.Events.Prefixes.{contains}

program : Unit {0}
unfolding prefixes_at path_prefixes path_matches_prefix
program = tt

abbrev log_path : Bytes
log_path = ascii "/var/log"

indexed_by : path_prefixes log_path ≡ ascii "/" ∷ ascii "/var" ∷ log_path ∷ []
unfolding program
indexed_by = refl

-- A prefix ends with a component.
no_cut : path_matches_prefix log_path (ascii "/va") ≡ false
unfolding program
no_cut = refl

contains-path_prefixes_example :
    contains (ascii "/var") (path_prefixes log_path) ≡ path_matches_prefix log_path (ascii "/var")
contains-path_prefixes_example = Prefixes.contains-path_prefixes log_path (ascii "/var") refl
