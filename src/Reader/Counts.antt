-- ===== src/Reader/Counts.antt =====
-- Every record that the reader of ncda/src/bpf.rs takes from the ring is in its batch or is counted.
use ncda.Base.{
  ℕ, zero, suc, ◌+◌, ◌≤◌, ◌≡◌, refl, List, [], ◌∷◌, ◌++◌, Bytes, length, u64_max, arith,
  length-append, Option-cases, inl, inr,
}
use ncda.Wire.{BpfEvent, parse_event}
use ncda.Reader.{
  ReaderDropCounters, record_parse_drop, Drained, drain_from, drain_ring_batch, max_batch_events,
}

-- What a drain does with the counters.
pub record Takes (r : Drained) (held : ℕ) (d : ReaderDropCounters) : Type 0 where
  pub all : length r.ring + length r.batch + r.drops.parse_drops ≡ held
  pub queue : r.drops.queue_drops ≡ d.queue_drops
  pub discarded : r.drops.shutdown_discarded ≡ d.shutdown_discarded

drain-Takes :
    (n : ℕ) (batch : List BpfEvent) (ring : List Bytes) (d : ReaderDropCounters)
    → length ring + length batch + d.parse_drops ≤ u64_max
    → Takes (drain_from n batch ring d) (length ring + length batch + d.parse_drops) d
unfolding drain_from record_parse_drop
drain-Takes zero batch ring d h = record { all = refl; queue = refl; discarded = refl }
drain-Takes (suc n) batch [] d h = record { all = refl; queue = refl; discarded = refl }
drain-Takes (suc n) batch (item ∷ ring) d h = elim (Option-cases (parse_event item)) [
  | inl e ↦
      rw (e, drain_from)
        (let later = drain-Takes n batch ring (record_parse_drop d) (omega arith) in
          record {
            all = omega (arith, later.all);
            queue = later.queue;
            discarded = later.discarded;
          })
  | inr (event, e) ↦
      rw (e, drain_from)
        (let longer = length-append {0} batch (event ∷ []) in
          let later = drain-Takes n (batch ++ event ∷ []) ring d (omega (arith, longer)) in
          record {
            all = omega (arith, later.all, longer);
            queue = later.queue;
            discarded = later.discarded;
          })
]

-- A drain into an empty batch, and the readers that see its counters alone.
pub drain_ring_batch-Takes :
    (ring : List Bytes) (d : ReaderDropCounters)
    → length ring + d.parse_drops ≤ u64_max
    → Takes (drain_ring_batch ring d) (length ring + d.parse_drops) d
unfolding drain_ring_batch
drain_ring_batch-Takes ring d h =
    let all = drain-Takes max_batch_events [] ring d (omega arith) in
    record { all = omega (arith, all.all); queue = all.queue; discarded = all.discarded }
