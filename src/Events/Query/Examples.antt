-- ===== src/Events/Query/Examples.antt =====
-- A run of the event log of ncda/src/rate.rs at concrete inputs.
use ncda.Base.{ℕ, ◌≡◌, refl, List, [], ◌∷◌, Bytes, ascii, arith}
use ncda.Process.{ProcessTable}
use ncda.Filter.{no_query}
use ncda.Rate.{bucket_width, update_back}
use ncda.Events
use ncda.Events.{
  prefixes_at, path_prefixes, adjust_prefix, adjust_prefixes, release_count, remove_activity,
  remove_activities, expire_from, trim_from, intern, add_activity, push_activity, record_activity,
  record_at,
}
use ncda.Events.Query.{bytes_for_prefix, bytes_for_prefix_at}
use ncda.Events.Query.Held
use ncda.Events.Query.Held.{Action, event, rate_query, start_again, log_after, offered}
use ncda.Events.Sums.{held}

abbrev no_processes : ProcessTable
no_processes = record { processes = [] }

abbrev var : Bytes
var = ascii "/var"

abbrev lower : Bytes → Bytes
lower bytes = bytes

-- The first event is out of the window when the third comes.
abbrev actions : List Action
actions =
    start_again
    ∷ event 5000 (ascii "/var/a") 7 11
    ∷ event 5800 (ascii "/var/b") 8 13
    ∷ rate_query 5900 var no_query no_processes
    ∷ event 6700 (ascii "/tmp") 7 5
    ∷ []

program : Unit {0}
unfolding prefixes_at path_prefixes adjust_prefix adjust_prefixes release_count remove_activity
    remove_activities expire_from trim_from intern add_activity push_activity record_activity
    record_at Events.new Events.reset bytes_for_prefix bytes_for_prefix_at update_back bucket_width
program = tt

abbrev shown : ℕ × Events.EventLog
shown =
    bytes_for_prefix_at lower no_query no_processes 6750 var
      (log_after lower actions (Events.new 1000))

thirteen : shown.0 ≡ 13
unfolding program
thirteen = refl

bytes_for_prefix_at-held_example : shown.0 ≡ held var shown.1.state.buckets
unfolding program
bytes_for_prefix_at-held_example =
    Held.bytes_for_prefix_at-held lower var 1000 actions 6750 no_query no_processes refl
      (omega arith)
