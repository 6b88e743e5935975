-- ===== src/Pipeline/Accounting.antt =====
-- The tasks of ncda/src/main.rs lose no record without counting it.
use ncda.Base.{
  ℕ, suc, ◌+◌, ◌≤◌, ◌≡◌, refl, Bool, true, false, Option, none, some, List, [], ◌∷◌, ◌++◌, length,
  u64_max, arith, length-append, Option-cases, Bool-cases, inl, inr,
}
use ncda.Procfs.{Procfs}
use ncda.Wire.{BpfEvent}
use ncda.Reader.{send_batch, record_queue_drops}
use ncda.Reader.Counts.{drain_ring_batch-Takes}
use ncda.App.{update_drop_total}
use ncda.App.Batches.{ingest}
use ncda.App.Batches.Safety.{ingest-ne-none}
use ncda.App.Batches.Counted.{total_events-ingest}
use ncda.Pipeline.{
  Pipeline, ReaderTask, selecting, draining, sending, returned, Observation, observed,
  record_shutdown_discarded, drain_ready, drain_at_shutdown, select, after_send, send, resume,
  reader_loop, handle_aggregator_batch, receive, aggregate, monitor_drop_counters,
  monitor_container_discovery,
}
use ncda.Pipeline.Turns.{
  Turn, submit, read, aggregate_batch, monitor_drops, discover, stop_aggregation, stop_reader,
  take_turn, run, submitted,
}

-- The events that the reader holds and those in the channel.
abbrev pub in_hand : ReaderTask → ℕ
in_hand selecting = 0
in_hand (draining is_err) = 0
in_hand (sending at_shutdown batch drained) = length batch
in_hand returned = 0

abbrev pub queued : List (List BpfEvent) → ℕ
queued [] = 0
queued (batch ∷ batches) = length batch + queued batches

-- Where a record can be: in the ring, in the reader, in the channel, ingested, or counted as lost.
abbrev pub accounted : Pipeline → ℕ
accounted p =
    length p.ring
    + in_hand p.reader
    + queued p.queue
    + p.state.total_events
    + p.drops.parse_drops
    + p.drops.queue_drops
    + p.drops.shutdown_discarded

queued-append :
    (batches : List (List BpfEvent)) (batch : List BpfEvent)
    → queued (batches ++ batch ∷ []) ≡ queued batches + length batch
queued-append [] batch = omega arith
queued-append (b ∷ batches) batch = omega (arith, queued-append batches batch)

drain_ready-accounted :
    (p : Pipeline)
    → in_hand p.reader ≡ 0
    → accounted p ≤ u64_max
    → accounted (drain_ready p) ≡ accounted p
unfolding drain_ready
drain_ready-accounted p hand h =
    let t = drain_ring_batch-Takes p.ring p.drops (omega arith) in
    omega (arith, t.all, t.queue, t.discarded)

drain_at_shutdown-accounted :
    (is_err : Bool) (p : Pipeline)
    → in_hand p.reader ≡ 0
    → accounted p ≤ u64_max
    → accounted (drain_at_shutdown is_err p) ≡ accounted p
unfolding drain_at_shutdown
drain_at_shutdown-accounted is_err p hand h =
    let t = drain_ring_batch-Takes p.ring p.drops (omega arith) in
    omega (arith, t.all, t.queue, t.discarded)

after_send-accounted :
    (at_shutdown : Option Bool) (is_open drained : Bool) (p : Pipeline)
    → accounted (after_send at_shutdown is_open drained p) + in_hand p.reader ≡ accounted p
unfolding after_send
after_send-accounted none is_open drained p = ground arith
after_send-accounted (some is_err) is_open drained p = ground arith

send-accounted :
    (at_shutdown : Option Bool) (batch : List BpfEvent) (drained : Bool) (p : Pipeline)
    → in_hand p.reader ≡ length batch
    → accounted p ≤ u64_max
    → accounted (send at_shutdown batch drained p) ≡ accounted p
unfolding send send_batch record_queue_drops
send-accounted at_shutdown [] drained p hand h =
    omega (arith, after_send-accounted at_shutdown true drained p)
send-accounted at_shutdown (e ∷ es) drained p hand h = ground (
  arith,
  after_send-accounted at_shutdown true drained (record p { queue = p.queue ++ (e ∷ es) ∷ [] }),
  queued-append p.queue (e ∷ es),
  after_send-accounted at_shutdown false drained
      (record p { drops = record_queue_drops (length (e ∷ es)) p.drops }),
)

select-accounted :
    (first : Bool) (p : Pipeline)
    → in_hand p.reader ≡ 0
    → accounted p ≤ u64_max
    → accounted (select first p) ≡ accounted p
unfolding select
select-accounted first p hand h = ground (
  arith,
  drain_at_shutdown-accounted p.shutdown.closed
      (record p { shutdown = record p.shutdown { unseen = false } }) hand h,
  drain_ready-accounted p hand h,
)

reader_loop-accounted :
    (first : Bool) (p : Pipeline)
    → accounted p ≤ u64_max
    → accounted (reader_loop first p) ≡ accounted p
unfolding reader_loop resume
reader_loop-accounted first p h = resumed p.reader refl
  where
    resumed : (r : ReaderTask) → p.reader ≡ r → accounted (resume r first p) ≡ accounted p
    resumed selecting e = select-accounted first p (rw e refl) h
    resumed (draining is_err) e = drain_at_shutdown-accounted is_err p (rw e refl) h
    resumed (sending at_shutdown batch drained) e =
        send-accounted at_shutdown batch drained p (rw e refl) h
    resumed returned e = refl

length-observed :
    (on_event : ℕ → Procfs) (batch : List BpfEvent)
    → length (observed on_event batch) ≡ length batch
length-observed on_event [] = refl
length-observed on_event (event ∷ events) =
    omega (arith, length-observed (λ i. on_event (suc i)) events)

-- A turn goes on, and as many records are accounted for.
abbrev pub Accounts : ℕ → Option Pipeline → Type 0
Accounts n o = (p : Pipeline) × (o ≡ some p) × (accounted p ≡ n)

receive-Accounts :
    (o : Observation) (batches : List (List BpfEvent)) (p : Pipeline)
    → p.queue ≡ batches
    → accounted p ≤ u64_max
    → Accounts (accounted p) (receive o batches p)
unfolding receive handle_aggregator_batch record_shutdown_discarded
receive-Accounts o [] p e h = (_, refl, refl)
receive-Accounts o (batch ∷ batches) p e h =
    let all : queued p.queue ≡ length batch + queued batches = rw e refl in
    elim (Bool-cases p.discard_pending) [
      | inl discards ↦ (
        record p { queue = batches; drops = record_shutdown_discarded (length batch) p.drops },
        ground arith,
        omega arith,
      )
      | inr ingests ↦
          elim (Option-cases
            (ingest o.observed_at o.on_flush (observed o.on_event batch) p.state)) [
              | inl panics ↦ absurd (
                  ingest-ne-none o.observed_at o.on_flush (observed o.on_event batch) p.state
                    panics)
              | inr (s, ok) ↦ (
                record p { queue = batches; state = s },
                ground arith,
                omega (
                  arith,
                  total_events-ingest o.observed_at o.on_flush (observed o.on_event batch) p.state s
                      ok,
                  length-observed o.on_event batch,
                ),
              )
            ]
    ]

pub aggregate-Accounts :
    (o : Observation) (p : Pipeline)
    → accounted p ≤ u64_max
    → Accounts (accounted p) (aggregate o p)
unfolding aggregate
aggregate-Accounts o p h = elim (Bool-cases p.aggregating) [
  | inl e ↦ let (p', r, a) = receive-Accounts o p.queue p refl h in (p', ground arith, a)
  | inr e ↦ (p, ground arith, refl)
]

turn-Accounts :
    (t : Turn) (p : Pipeline)
    → accounted p + submitted (t ∷ []) ≤ u64_max
    → Accounts (accounted p + submitted (t ∷ [])) (take_turn t p)
unfolding take_turn monitor_drop_counters monitor_container_discovery update_drop_total
turn-Accounts (submit bytes) p h = (_, refl, omega (arith, length-append {0} p.ring (bytes ∷ [])))
turn-Accounts (read first) p h =
    (_, refl, omega (arith, reader_loop-accounted first p (omega arith)))
turn-Accounts (aggregate_batch o) p h =
    let (p', e, a) = aggregate-Accounts o p (omega arith) in (p', e, omega (arith, a))
turn-Accounts (monitor_drops cpus) p h = (_, refl, omega arith)
turn-Accounts (discover commands) p h = (_, refl, omega arith)
turn-Accounts stop_aggregation p h = (_, refl, omega arith)
turn-Accounts stop_reader p h = (_, refl, omega arith)

submitted-cons :
    (t : Turn) (ts : List Turn) → submitted (t ∷ ts) ≡ submitted (t ∷ []) + submitted ts
submitted-cons (submit bytes) ts = omega arith
submitted-cons t ts = omega arith

-- Whatever turns the kernel, the reader, the aggregator, the monitors and the main task take, from
-- whatever state: none panics, and each record that was put into the ring is counted once: it is in the
-- ring, in the reader's batch, in the channel, among the ingested events, or counted as a parse
-- drop, as a queue drop or as discarded at shutdown, while their number fits `u64`.
pub run-accounted :
    (ts : List Turn) (p : Pipeline)
    → accounted p + submitted ts ≤ u64_max
    → Accounts (accounted p + submitted ts) (run ts p)
unfolding run
run-accounted [] p h = (p, refl, omega arith)
run-accounted (t ∷ ts) p h =
    let first = submitted-cons t ts in
    let (q, e, a) = turn-Accounts t p (omega (arith, first)) in
    let (r, e', b) = run-accounted ts q (omega (arith, a, first)) in
    (r, rw e e', omega (arith, a, b, first))
