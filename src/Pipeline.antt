-- ===== src/Pipeline.antt =====
-- The tasks of ncda/src/main.rs that carry records from the ring buffer to the counters:
-- `reader_loop` of ncda/src/bpf.rs, the channel of batches, the aggregator, `monitor_drop_counters` and
-- `monitor_container_discovery`. A task runs until it waits, and a `Turn` says which one runs and what
-- the world answers it. The readiness of the descriptor does not fail while the runtime lives.
mod Turns
pub mod Accounting
mod Stopping
pub mod Shutdown
mod Examples
use ncda.Base.{
  ℕ, suc, ◌+◌, ◌%◌, ◌^◌, Bool, true, false, not, ◌&&◌, ◌||◌, Option, none, some, List, [], ◌∷◌,
  ◌++◌, Bytes, length, is_empty, saturating_add, ltb, if◌then◌else◌,
}
use ncda.Procfs.{Procfs}
use ncda.Wire.{BpfEvent}
use ncda.Reader.{ReaderDropCounters, drain_ring_batch, send_batch}
use ncda.Ebpf.Counters.{CaptureStats, capture_stats}
use ncda.Container
use ncda.Container.Discovery.{Commands, discover_blocking}
use ncda.App.{AppState, update_drop_total}
use ncda.App.Batches.{ingest}

pub record_shutdown_discarded : ℕ → ReaderDropCounters → ReaderDropCounters
record_shutdown_discarded count d = record d {
  shutdown_discarded = saturating_add d.shutdown_discarded count;
}

-- The receiver's half of a `watch` channel: its value, whether that was seen, whether the sender is
-- gone.
pub record Watch : Type 0 where
  pub value : Bool
  pub unseen : Bool
  pub closed : Bool

-- Where `reader_loop` waits: in the `select!`, in `send_batch` of a batch that left the ring drained or
-- not, or nowhere. `at_shutdown` is the loop of the first arm, with `result.is_err()`.
pub data ReaderTask : Type 0 where
  selecting : ReaderTask
  draining : Bool → ReaderTask
  sending : (at_shutdown : Option Bool) → List BpfEvent → (drained : Bool) → ReaderTask
  returned : ReaderTask

pub record Pipeline : Type 0 where
  pub ring : List Bytes
  -- the descriptor is readable, as the reader's `AsyncFd` remembers it
  pub ready : Bool
  pub reader : ReaderTask
  pub queue : List (List BpfEvent)
  -- the aggregator still receives
  pub aggregating : Bool
  pub shutdown : Watch
  pub discard_pending : Bool
  pub drops : ReaderDropCounters
  pub state : AppState

-- `mpsc::channel(512)`
abbrev pub channel_size : ℕ
channel_size = 512

-- The second arm of the `select!`, up to its `send_batch`.
pub drain_ready : Pipeline → Pipeline
drain_ready p =
    let r = drain_ring_batch p.ring p.drops in
    record p {
      ring = r.ring;
      ready = p.ready && not r.drained;
      reader = sending none r.batch r.drained;
      drops = r.drops;
    }

-- A round of the loop in the first arm, up to its `send_batch`.
pub drain_at_shutdown : Bool → Pipeline → Pipeline
drain_at_shutdown is_err p =
    let r = drain_ring_batch p.ring p.drops in
    record p { ring = r.ring; reader = sending (some is_err) r.batch r.drained; drops = r.drops }

-- `select!` takes one of the arms that are ready; if both are, the world chooses.
pub select : Bool → Pipeline → Pipeline
select first p =
    if (p.shutdown.unseen || p.shutdown.closed) && (first || not p.ready)
    then drain_at_shutdown p.shutdown.closed
        (record p { shutdown = record p.shutdown { unseen = false } })
    else if p.ready
    then drain_ready p
    else p

-- What follows a `send_batch` in either arm.
pub after_send : Option Bool → Bool → Bool → Pipeline → Pipeline
after_send none is_open drained p = record p { reader = (if is_open then selecting else returned) }
after_send (some is_err) is_open drained p = record p {
  reader =
      (if is_open && not drained
        then draining is_err
        else if is_err || p.shutdown.value
        then returned
        else selecting);
}

-- `send_batch` waits while the channel is full.
pub send : Option Bool → List BpfEvent → Bool → Pipeline → Pipeline
send at_shutdown batch drained p =
    let (is_open, drops') = send_batch (λ b. p.aggregating) batch p.drops in
    if is_empty batch || not p.aggregating
    then after_send at_shutdown is_open drained (record p { drops = drops' })
    else if ltb (length p.queue) channel_size
    then after_send at_shutdown is_open drained
        (record p { drops = drops'; queue = p.queue ++ batch ∷ [] })
    else p

pub resume : ReaderTask → Bool → Pipeline → Pipeline
resume selecting first p = select first p
resume (draining is_err) first p = drain_at_shutdown is_err p
resume (sending at_shutdown batch drained) first p = send at_shutdown batch drained p
resume returned first p = p

pub reader_loop : Bool → Pipeline → Pipeline
reader_loop first p = resume p.reader first p

-- What the world answers while a batch is ingested: the instant, and procfs for each event and for
-- the flush at the end.
pub record Observation : Type 0 where
  pub observed_at : ℕ
  pub on_event : ℕ → Procfs
  pub on_flush : Procfs

abbrev pub observed : (ℕ → Procfs) → List BpfEvent → List (Procfs × BpfEvent)
observed on_event [] = []
observed on_event (event ∷ events) = (on_event 0, event) ∷ observed (λ i. on_event (suc i)) events

-- `none` is a panic.
pub handle_aggregator_batch :
    Observation
    → List BpfEvent
    → Bool
    → ReaderDropCounters
    → AppState
    → Option (ReaderDropCounters × AppState)
handle_aggregator_batch o batch discard drops s =
    if discard
    then some (record_shutdown_discarded (length batch) drops, s)
    else elim (ingest o.observed_at o.on_flush (observed o.on_event batch) s) [
      | none ↦ none
      | some s' ↦ some (drops, s')
    ]

abbrev pub has_returned : ReaderTask → Bool
has_returned returned = true
has_returned _ = false

-- A round of the aggregator: `recv` gives `None` when the channel is empty and its sender is dropped,
-- which the reader does when it returns.
pub receive : Observation → List (List BpfEvent) → Pipeline → Option Pipeline
receive o [] p = some (record p { aggregating = p.aggregating && not (has_returned p.reader) })
receive o (batch ∷ queue) p =
    elim (handle_aggregator_batch o batch p.discard_pending p.drops p.state) [
      | none ↦ none
      | some (drops, s) ↦ some (record p { queue = queue; drops = drops; state = s })
    ]

pub aggregate : Observation → Pipeline → Option Pipeline
aggregate o p = if p.aggregating then receive o p.queue p else some p

pub record DropSnapshot : Type 0 where
  pub ring_output_drops : ℕ
  pub stash_update_failures : ℕ
  pub scratch_failures : ℕ
  pub parse_drops : ℕ
  pub queue_drops : ℕ
  pub shutdown_discarded : ℕ

-- `+` on `u64` in a release build
pub total : DropSnapshot → ℕ
total d =
    (d.ring_output_drops + d.stash_update_failures + d.scratch_failures + d.parse_drops
      + d.queue_drops)
    % 2 ^ 64

abbrev pub snapshot : CaptureStats → ReaderDropCounters → DropSnapshot
snapshot kernel reader = record {
  ring_output_drops = kernel.ring_output_drops;
  stash_update_failures = kernel.stash_update_failures;
  scratch_failures = kernel.scratch_failures;
  parse_drops = reader.parse_drops;
  queue_drops = reader.queue_drops;
  shutdown_discarded = reader.shutdown_discarded;
}

-- A round of `monitor_drop_counters`, with what the kernel's map holds for each CPU.
pub monitor_drop_counters : List CaptureStats → Pipeline → Pipeline
monitor_drop_counters cpus p = record p {
  state = update_drop_total (total (snapshot (capture_stats cpus) p.drops)) p.state;
}

-- A round of `monitor_container_discovery`.
pub monitor_container_discovery : Commands → Pipeline → Pipeline
monitor_container_discovery commands p = record p {
  state = record p.state {
    containers = Container.replace_discovery (discover_blocking commands) p.state.containers;
  };
}
