-- ===== src/Reader.antt =====
-- The ring-buffer reader of ncda/src/bpf.rs: its batches, its drop counters and the last drain of
-- `reader_loop`. The ring is the list of the records in it; the channel's answer to a batch is a
-- parameter, since the receiver decides it.
pub mod Drain
pub mod Counts
mod Examples
use ncda.Base.{
  ℕ, zero, suc, Bool, true, false, not, ◌||◌, Option, none, some, List, [], ◌∷◌, ◌++◌, Bytes,
  length, is_empty, saturating_add, if◌then◌else◌,
}
use ncda.Wire.{BpfEvent, parse_event}

pub record ReaderDropCounters : Type 0 where
  pub parse_drops : ℕ
  pub queue_drops : ℕ
  pub shutdown_discarded : ℕ

pub record_parse_drop : ReaderDropCounters → ReaderDropCounters
record_parse_drop d = record d { parse_drops = saturating_add d.parse_drops 1 }

unfoldable pub record_queue_drops : ℕ → ReaderDropCounters → ReaderDropCounters
record_queue_drops count d = record d { queue_drops = saturating_add d.queue_drops count }

abbrev pub max_batch_events : ℕ
max_batch_events = 4096

-- A batch that was drained: its events, whether the ring is empty, the ring and the counters.
pub record Drained : Type 0 where
  pub batch : List BpfEvent
  pub drained : Bool
  pub ring : List Bytes
  pub drops : ReaderDropCounters

abbrev pub take_record : Option BpfEvent → List BpfEvent → List BpfEvent
take_record none batch = batch
take_record (some event) batch = batch ++ event ∷ []

abbrev pub count_record : Option BpfEvent → ReaderDropCounters → ReaderDropCounters
count_record none d = record_parse_drop d
count_record (some event) d = d

-- `n` rounds of the loop of `drain_ring_batch`.
pub drain_from : ℕ → List BpfEvent → List Bytes → ReaderDropCounters → Drained
drain_from zero batch ring d = record { batch = batch; drained = false; ring = ring; drops = d }
drain_from (suc n) batch [] d = record { batch = batch; drained = true; ring = []; drops = d }
drain_from (suc n) batch (item ∷ ring) d =
    drain_from n (take_record (parse_event item) batch) ring (count_record (parse_event item) d)

pub drain_ring_batch : List Bytes → ReaderDropCounters → Drained
drain_ring_batch ring d = drain_from max_batch_events [] ring d

unfoldable pub send_batch :
    (List BpfEvent → Bool) → List BpfEvent → ReaderDropCounters → Bool × ReaderDropCounters
send_batch accepts batch d =
    if is_empty batch || accepts batch
    then (true, d)
    else (false, record_queue_drops (length batch) d)

-- What the loop at shutdown leaves: the events that were sent, the ring and the counters.
pub record Shutdown : Type 0 where
  pub sent : List BpfEvent
  pub ring : List Bytes
  pub drops : ReaderDropCounters

-- The loop at shutdown, of at most `n` rounds.
pub shutdown_from :
    (List BpfEvent → Bool) → ℕ → List BpfEvent → List Bytes → ReaderDropCounters → Shutdown
shutdown_from accepts zero sent ring d = record { sent = sent; ring = ring; drops = d }
shutdown_from accepts (suc n) sent ring d =
    let r = drain_ring_batch ring d in
    let (is_open, d') = send_batch accepts r.batch r.drops in
    let sent' = if is_open then sent ++ r.batch else sent in
    let later = shutdown_from accepts n sent' r.ring d' in
    if not is_open || r.drained then record { sent = sent'; ring = r.ring; drops = d' } else later

-- Each round that goes on takes a record, so one more round than there are records is enough.
pub shutdown_drain : (List BpfEvent → Bool) → List Bytes → ReaderDropCounters → Shutdown
shutdown_drain accepts ring d = shutdown_from accepts (suc (length ring)) [] ring d
