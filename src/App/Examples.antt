-- ===== src/App/Examples.antt =====
-- Runs of the whole state at concrete inputs, after the tests of ncda/src/tui/app.rs.
use ncda.Base.{
  ◌≡◌, ◌≢◌, ◌+◌, none, some, List, [], ◌∷◌, Bytes, ascii, pos, negsuc, nat_beq, if◌then◌else◌,
  arith, nat_eq,
}
use ncda.Procfs.{Procfs}
use ncda.Wire.{BpfEvent, read_event, write_event, close_event}
use ncda.Fd.{lookup, store}
use ncda.Base.HashMap.{insert}
use ncda.App.{AppState, new, reset, forget_process, update_drop_total}
use ncda.App.Batches.{ingest}
use ncda.App.Batches.Safety
use ncda.App.Groups.{IoKey, new_group, group_stats}
use ncda.App.Coalescing
use ncda.App.Coalescing.{join_all, record_each}
use ncda.Stats.{write_op}
use ncda.Tree.{record_stats}
use ncda.Tree.Walk.{stats_at, agg_stats_at}
use ncda.App.Lifecycle
use ncda.App.Lifecycle.{known, nothing_known}
use ncda.Tree.Index.{new-IsIndexed}

-- A host process with one open file.
abbrev host : Procfs
host = record {
  cwd = λ pid. some (ascii "/srv");
  fd = λ pid fd. if nat_beq fd 3 then some (ascii "/srv/log") else none;
  root = λ pid. some (ascii "/");
  comm = λ pid. some (ascii "writer");
  cgroup = λ pid. none;
}

-- Two writes that join, a read that fails, a close, and a write after it.
abbrev events : List (Procfs × BpfEvent)
events =
    (host, write_event 9 9 3 5 (pos 5) 70 100)
    ∷ (host, write_event 9 9 3 7 (pos 7) 90 200)
    ∷ (host, read_event 9 9 3 0 (negsuc 10) 10 300)
    ∷ (host, close_event 9 9 3 400)
    ∷ (host, write_event 9 9 3 2 (pos 2) 10 500)
    ∷ []

abbrev start : AppState
start = new 1000 []

ingest-ne-none_example : ingest 4000 host events start ≢ none
ingest-ne-none_example = Safety.ingest-ne-none 4000 host events start

-- A descriptor and a name of the process are known.
abbrev in_use : AppState
in_use = record start {
  fd_cache = store 9 3 (ascii "/srv/log") start.fd_cache;
  containers = record start.containers { pid_cache = insert 9 (some (ascii "db")) [] };
}

known-forget_process_example :
    (known 9 3 [] (forget_process 9 in_use)
      ≡ (if nat_beq 9 9 then nothing_known else known 9 3 [] in_use))
    × ((forget_process 9 in_use).global_rate ≡ in_use.global_rate)
    × ((forget_process 9 in_use).event_log ≡ in_use.event_log)
unfolding new
known-forget_process_example = Lifecycle.known-forget_process 9 9 3 [] in_use new-IsIndexed

update_drop_total-reset_example :
    (lookup 9 3 (update_drop_total 7 (reset (update_drop_total 4 start))).fd_cache ≡ none)
    × ((update_drop_total 7 (reset (update_drop_total 4 start))).dropped_events + 4 ≡ 7)
update_drop_total-reset_example = Lifecycle.update_drop_total-reset 4 7 9 3 start (omega arith)

abbrev writer : IoKey
writer = record { pid = 9; fd = 3; op = write_op }

abbrev log_path : Bytes
log_path = ascii "/srv/log"

abbrev log_components : List Bytes
log_components = ascii "srv" ∷ ascii "log" ∷ []

record_stats-join_all_example :
    (stats_at log_components
        (record_stats log_path 9
          (group_stats (join_all (new_group writer 5 70 4000) ((7, 90) ∷ [])))
          start.tree).root
      ≡ stats_at log_components
          (record_each log_path 9 write_op ((5, 70) ∷ (7, 90) ∷ []) start.tree).root)
    × (agg_stats_at log_components
          (record_stats log_path 9
            (group_stats (join_all (new_group writer 5 70 4000) ((7, 90) ∷ [])))
            start.tree).root
        ≡ agg_stats_at log_components
            (record_each log_path 9 write_op ((5, 70) ∷ (7, 90) ∷ []) start.tree).root)
record_stats-join_all_example =
    Coalescing.record_stats-join_all log_path writer 5 70 4000 ((7, 90) ∷ []) start.tree
      log_components
