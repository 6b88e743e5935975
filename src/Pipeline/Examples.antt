-- ===== src/Pipeline/Examples.antt =====
-- Runs of the tasks of ncda/src/main.rs at concrete inputs, after its tests.
use ncda.Base.{ℕ, zero, suc, ◌+◌, ◌≡◌, refl, Bool, true, false, none, some, List, [], ◌∷◌, arith}
use ncda.Procfs.{Procfs}
use ncda.Wire.{event_process_exit, process_exit}
use ncda.Wire.Layout.{to_bytes, process_bytes}
use ncda.App
use ncda.Reader.{ReaderDropCounters}
use ncda.Ebpf.Counters.{no_stats}
use ncda.Pipeline.{
  Pipeline, selecting, Observation, handle_aggregator_batch, total, record_shutdown_discarded,
}
use ncda.Pipeline.Turns.{
  Turn, submit, read, aggregate_batch, monitor_drops, discover, stop_aggregation, stop_reader, run,
}
use ncda.Pipeline.Accounting.{Accounts, run-accounted}
use ncda.Pipeline.Shutdown
use ncda.Pipeline.Shutdown.{Ended, fair_rounds}

abbrev no_procfs : Procfs
no_procfs = record {
  cwd = λ pid. none;
  fd = λ pid fd. none;
  root = λ pid. none;
  comm = λ pid. none;
  cgroup = λ pid. none;
}

abbrev seen : Observation
seen = record { observed_at = 1; on_event = λ i. no_procfs; on_flush = no_procfs }

abbrev no_drops : ReaderDropCounters
no_drops = record { parse_drops = 0; queue_drops = 0; shutdown_discarded = 0 }

abbrev state : App.AppState
unfolding App.new
state = App.new 5 []

-- An exit and a record cut short in the ring, and a batch of one exit in the channel.
abbrev busy : Pipeline
unfolding process_bytes
busy = record {
  ring = process_bytes event_process_exit 7 100 ∷ to_bytes 4 event_process_exit ∷ [];
  ready = true;
  reader = selecting;
  queue = (process_exit 5 50 ∷ []) ∷ [];
  aggregating = true;
  shutdown = record { value = false; unseen = false; closed = false };
  discard_pending = false;
  drops = no_drops;
  state = state;
}

-- `drop_snapshot_sums_every_loss_class`
drop_total :
    total (record {
      ring_output_drops = 1;
      stash_update_failures = 2;
      scratch_failures = 3;
      parse_drops = 4;
      queue_drops = 5;
      shutdown_discarded = 99;
    })
    ≡ 15
unfolding total
drop_total = refl

-- `shutdown_batches_are_counted_without_aggregation`
discarded :
    handle_aggregator_batch seen (process_exit 42 1 ∷ []) true no_drops state
    ≡ some (record no_drops { shutdown_discarded = 1 }, state)
unfolding handle_aggregator_batch record_shutdown_discarded
discarded = refl

abbrev turns : List Turn
unfolding process_bytes
turns =
    submit (process_bytes event_process_exit 8 200)
    ∷ read false
    ∷ aggregate_batch seen
    ∷ monitor_drops (no_stats ∷ [])
    ∷ read false
    ∷ stop_aggregation
    ∷ stop_reader
    ∷ aggregate_batch seen
    ∷ discover (record { crictl = none; docker = none })
    ∷ []

run-accounted_example : Accounts 4 (run turns busy)
unfolding busy state
run-accounted_example = run-accounted turns busy (omega arith)

abbrev replicate : {A : Type 0} → ℕ → A → List A
replicate zero a = []
replicate (suc n) a = a ∷ replicate n a

abbrev schedule : List (Bool × Observation)
schedule = replicate 30 (true, seen)

shutdown-Ended_example :
    (q : Pipeline) × (run (stop_aggregation ∷ stop_reader ∷ fair_rounds schedule) busy ≡ some q)
    × Ended q
    × (q.state.total_events + q.drops.parse_drops + q.drops.queue_drops + q.drops.shutdown_discarded
        ≡ 3)
unfolding busy state
shutdown-Ended_example = Shutdown.shutdown-Ended schedule busy tt refl (omega arith) (omega arith)
