-- ===== src/App/Lifecycle.antt =====
-- The end of a process generation in ncda/src/tui/app.rs, through the tables.
use ncda.Base.{
  ℕ, ◌+◌, ◌≡◌, refl, not, Option, none, List, Bytes, nat_beq, nat_eq, pair_eq, if◌then◌else◌, arith,
  ◌<◌,
}
use ncda.Base.HashMap.{get, get-remove, get-retain}
use ncda.Fd.{lookup, on_process_reset, invalidate_all}
use ncda.Container.{invalidate_pid}
use ncda.Process
use ncda.Tree.Walk.{process_at}
use ncda.Tree.Index.{IsIndexed, process_at-remove_process}
use ncda.Stats.{NodeStats}
use ncda.App.{AppState, forget_process, update_drop_total, reset}

-- What the caches, the table of processes and the tree know of a process, of one of its descriptors and of its part in one file.
pub record Known : Type 0 where
  pub path : Option Bytes
  pub root : Option (Option Bytes)
  pub container : Option (Option Bytes)
  pub process : Option Process.ProcessInfo
  pub activity : Option NodeStats

unfoldable pub known : ℕ → ℕ → List Bytes → AppState → Known
known pid fd components s = record {
  path = lookup pid fd s.fd_cache;
  root = get pid s.fd_cache.root_cache;
  container = get pid s.containers.pid_cache;
  process = get pid s.process_table.processes;
  activity = process_at pid components s.tree.root;
}

abbrev pub nothing_known : Known
nothing_known = record {
  path = none;
  root = none;
  container = none;
  process = none;
  activity = none;
}

-- When a process executes a program or exits, the descriptor and container caches, the table of
-- processes and the tree know nothing of it any more; what they know of every other process stays. The
-- rate tracker and the event log stay as they are, so that the log's recent activity still stands under
-- the process's number. Each process's activity in the tree must have stood at its indexed paths.
pub known-forget_process :
    (gone pid fd : ℕ) (components : List Bytes) (s : AppState)
    → IsIndexed s.tree
    → (known pid fd components (forget_process gone s)
        ≡ (if nat_beq gone pid then nothing_known else known pid fd components s))
      × ((forget_process gone s).global_rate ≡ s.global_rate)
      × ((forget_process gone s).event_log ≡ s.event_log)
unfolding known forget_process lookup on_process_reset invalidate_pid Process.remove_process
known-forget_process gone pid fd components s indexed = (
  ground (
    arith,
    get-retain (λ (key : ℕ × ℕ). not (nat_beq key.0 gone)) (pid, fd) s.fd_cache.map,
    get-remove gone pid s.fd_cache.root_cache,
    get-remove gone pid s.containers.pid_cache,
    get-remove gone pid s.process_table.processes,
    process_at-remove_process pid gone components s.tree indexed,
  ),
  refl,
  refl,
)

-- After a reset at a total of `before` dropped events, a greater total makes every lookup fail, and
-- the drops that are counted are those since the reset.
pub update_drop_total-reset :
    (before total pid fd : ℕ) (s : AppState)
    → before < total
    → (lookup pid fd (update_drop_total total (reset (update_drop_total before s))).fd_cache ≡ none)
      × ((update_drop_total total (reset (update_drop_total before s))).dropped_events + before
          ≡ total)
unfolding update_drop_total reset lookup invalidate_all
update_drop_total-reset before total pid fd s k = ground (arith, k)
