-- ===== src/Reader/Drain.antt =====
-- Nothing in the ring is lost by the reader of ncda/src/bpf.rs.
use ncda.Base.{
  ℕ, zero, suc, ◌+◌, ◌≤◌, ◌<◌, ◌≡◌, refl, sym, ap, ◌∙◌, Bool, true, false, none, some, List, [],
  ◌∷◌, ◌++◌, Bytes, length, saturating_add, u64_max, arith, Bool-cases, Option-cases, inl, inr,
}
use mathlib.Core.List.{append-nil, append_assoc}
use ncda.Wire.{BpfEvent, parse_event}
use ncda.Reader.{
  ReaderDropCounters, record_parse_drop, Drained, take_record, count_record, drain_from,
  drain_ring_batch, send_batch, shutdown_from, shutdown_drain, Shutdown, max_batch_events,
}

-- The events of the records that parse, and how many do not.
abbrev pub parsed : List Bytes → List BpfEvent
parsed [] = []
parsed (item ∷ ring) = elim (parse_event item) [ none ↦ parsed ring | some e ↦ e ∷ parsed ring ]

abbrev pub malformed : List Bytes → ℕ
malformed [] = 0
malformed (item ∷ ring) = elim (parse_event item) [
  | none ↦ suc (malformed ring)
  | some e ↦ malformed ring
]

drain-events :
    (n : ℕ) (batch : List BpfEvent) (records : List Bytes) (d : ReaderDropCounters)
    → let r = drain_from n batch records d in batch ++ parsed records ≡ r.batch ++ parsed r.ring
unfolding drain_from
drain-events zero batch records d = refl
drain-events (suc n) batch [] d = refl
drain-events (suc n) batch (item ∷ records) d = elim (Option-cases (parse_event item)) [
  | inl e ↦ rw (e, parsed, drain_from) (drain-events n batch records (record_parse_drop d))
  | inr (event, e) ↦
      rw (e, parsed, drain_from)
        (sym (append_assoc batch (event ∷ []) (parsed records))
          ∙ drain-events n (batch ++ event ∷ []) records d)
]

drain-failures :
    (n : ℕ) (batch : List BpfEvent) (records : List Bytes) (d : ReaderDropCounters)
    → let r = drain_from n batch records d in
      saturating_add d.parse_drops (malformed records)
      ≡ saturating_add r.drops.parse_drops (malformed r.ring)
unfolding drain_from record_parse_drop
drain-failures zero batch records d = refl
drain-failures (suc n) batch [] d = refl
drain-failures (suc n) batch (item ∷ records) d = elim (Option-cases (parse_event item)) [
  | inl e ↦
      rw (e, malformed, drain_from)
        (omega (arith, drain-failures n batch records (record_parse_drop d)))
  | inr (event, e) ↦
      rw (e, malformed, drain_from) (drain-failures n (batch ++ event ∷ []) records d)
]

drain-queue :
    (n : ℕ) (batch : List BpfEvent) (records : List Bytes) (d : ReaderDropCounters)
    → (drain_from n batch records d).drops.queue_drops ≡ d.queue_drops
unfolding drain_from record_parse_drop
drain-queue zero batch records d = refl
drain-queue (suc n) batch [] d = refl
drain-queue (suc n) batch (item ∷ records) d = elim (Option-cases (parse_event item)) [
  | inl e ↦ rw (e, drain_from) (drain-queue n batch records (record_parse_drop d))
  | inr (event, e) ↦ rw (e, drain_from) (drain-queue n (batch ++ event ∷ []) records d)
]

drained-empty :
    (n : ℕ) (batch : List BpfEvent) (records : List Bytes) (d : ReaderDropCounters)
    → (drain_from n batch records d).drained ≡ true
    → (drain_from n batch records d).ring ≡ []
unfolding drain_from
drained-empty zero batch records d h = cc
drained-empty (suc n) batch [] d h = refl
drained-empty (suc n) batch (item ∷ records) d h =
    drained-empty n (take_record (parse_event item) batch) records
      (count_record (parse_event item) d) h

-- A drain that stops for the size of its batch has taken that many records.
drained-shorter :
    (n : ℕ) (batch : List BpfEvent) (records : List Bytes) (d : ReaderDropCounters)
    → (drain_from n batch records d).drained ≡ false
    → length (drain_from n batch records d).ring + n ≡ length records
unfolding drain_from
drained-shorter zero batch records d h = omega arith
drained-shorter (suc n) batch [] d h = cc
drained-shorter (suc n) batch (item ∷ records) d h = omega (
  arith,
  drained-shorter n (take_record (parse_event item) batch) records
      (count_record (parse_event item) d) h,
)

drain-bound :
    (n : ℕ) (batch : List BpfEvent) (records : List Bytes) (d : ReaderDropCounters)
    → d.parse_drops ≤ u64_max
    → (drain_from n batch records d).drops.parse_drops ≤ u64_max
unfolding drain_from record_parse_drop
drain-bound zero batch records d h = h
drain-bound (suc n) batch [] d h = h
drain-bound (suc n) batch (item ∷ records) d h = elim (Option-cases (parse_event item)) [
  | inl e ↦ rw (e, drain_from) (drain-bound n batch records (record_parse_drop d) (omega arith))
  | inr (event, e) ↦ rw (e, drain_from) (drain-bound n (batch ++ event ∷ []) records d h)
]

-- Each record that parses is sent once and in order, each other is counted, none is dropped, and the
-- ring is empty.
abbrev pub Complete : List BpfEvent → List Bytes → ReaderDropCounters → Shutdown → Type 0
Complete sent records d r =
    (r.sent ≡ sent ++ parsed records)
    × ((r.ring ≡ [])
        × ((r.drops.parse_drops ≡ saturating_add d.parse_drops (malformed records))
            × (r.drops.queue_drops ≡ d.queue_drops)))

-- One round of the loop, from what a drain keeps.
module _ (r : Drained) (sent : List BpfEvent) (records : List Bytes) (d : ReaderDropCounters)
    (events : parsed records ≡ r.batch ++ parsed r.ring)
    (failures : saturating_add d.parse_drops (malformed records)
      ≡ saturating_add r.drops.parse_drops (malformed r.ring))
    (queue : r.drops.queue_drops ≡ d.queue_drops) where
  next_round :
      (x : Shutdown) → Complete (sent ++ r.batch) r.ring r.drops x → Complete sent records d x
  next_round x (s, (empty, (f, q))) = (
    s ∙ append_assoc sent r.batch (parsed r.ring) ∙ ap (λ es. sent ++ es) (sym events),
    (empty, (f ∙ sym failures, q ∙ queue)),
  )

  last_round :
      r.drops.parse_drops ≤ u64_max
      → r.ring ≡ []
      → Complete sent records d (record { sent = sent ++ r.batch; ring = r.ring; drops = r.drops })
  last_round fits empty =
      next_round (record { sent = sent ++ r.batch; ring = r.ring; drops = r.drops })
        (rw (empty) (sym (append-nil (sent ++ r.batch))), (empty, (rw (empty) (omega arith), refl)))

module _ (accepts : List BpfEvent → Bool)
    (all : (batch : List BpfEvent) → accepts batch ≡ true) where
  accepted :
      (batch : List BpfEvent) (d : ReaderDropCounters) → send_batch accepts batch d ≡ (true, d)
  unfolding send_batch
  accepted batch d = ground (arith, all batch)

  shutdown-Complete :
      (n : ℕ) (sent : List BpfEvent) (records : List Bytes) (d : ReaderDropCounters)
      → d.parse_drops ≤ u64_max
      → length records < n
      → Complete sent records d (shutdown_from accepts n sent records d)
  unfolding shutdown_from drain_ring_batch
  shutdown-Complete zero sent records d bound h = absurd (omega arith)
  shutdown-Complete (suc n) sent records d bound h =
      let r = drain_from max_batch_events [] records d in
      let events = drain-events max_batch_events [] records d in
      let failures = drain-failures max_batch_events [] records d in
      let queue = drain-queue max_batch_events [] records d in
      let fits = drain-bound max_batch_events [] records d bound in
      elim (Bool-cases r.drained) [
        | inl e ↦
            let ended : r.ring ≡ [] = drained-empty max_batch_events [] records d e in
            rw (accepted r.batch r.drops, e)
              (last_round r sent records d events failures queue fits ended)
        | inr e ↦
            let shorter = drained-shorter max_batch_events [] records d e in
            rw (accepted r.batch r.drops, e)
              (next_round r sent records d events failures queue
                (shutdown_from accepts n (sent ++ r.batch) r.ring r.drops)
                (shutdown-Complete n (sent ++ r.batch) r.ring r.drops fits (omega arith)))
      ]

-- The last drain of a reader whose channel takes every batch ends within its rounds: each record in
-- the ring that parses has been sent, once and in order, each other record is counted as a parse
-- drop, no batch is dropped and the ring is empty.
pub shutdown_drain-Complete :
    (accepts : List BpfEvent → Bool) (records : List Bytes) (d : ReaderDropCounters)
    → ((batch : List BpfEvent) → accepts batch ≡ true)
    → d.parse_drops ≤ u64_max
    → Complete [] records d (shutdown_drain accepts records d)
unfolding shutdown_drain
shutdown_drain-Complete accepts records d all bound =
    shutdown-Complete accepts all (suc (length records)) [] records d bound (omega arith)

-- What a batch leaves in the ring: nothing, or fewer records.
pub drain_ring_batch-empty :
    (records : List Bytes) (d : ReaderDropCounters)
    → (drain_ring_batch records d).drained ≡ true
    → (drain_ring_batch records d).ring ≡ []
unfolding drain_ring_batch
drain_ring_batch-empty records d h = drained-empty max_batch_events [] records d h

pub drain_ring_batch-shorter :
    (records : List Bytes) (d : ReaderDropCounters)
    → (drain_ring_batch records d).drained ≡ false
    → length (drain_ring_batch records d).ring < length records
unfolding drain_ring_batch
drain_ring_batch-shorter records d h =
    omega (arith, drained-shorter max_batch_events [] records d h)
