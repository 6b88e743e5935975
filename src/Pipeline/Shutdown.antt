-- ===== src/Pipeline/Shutdown.antt =====
-- The shutdown of ncda/src/main.rs: once the producers are detached and the reader is told to stop, the
-- reader and the aggregator end, whichever of them waits for the other.
use ncda.Base.{
  suc, ◌+◌, ◌-◌, ◌≤◌, ◌<◌, ◌≡◌, ◌≢◌, refl, sym, ap, subst, Bool, true, false, not, ◌&&◌, Option,
  none, some, List, [], ◌∷◌, length, u64_max, arith, ◌⊎◌, inl, inr, Option-cases, Bool-cases,
}
use ncda.Wire.{BpfEvent}
use ncda.Reader.{ReaderDropCounters}
use ncda.App.{AppState}
use ncda.App.Batches.Safety.{ingest-ne-none}
use ncda.App.Batches.{ingest}
use ncda.Pipeline.{
  Pipeline, ReaderTask, selecting, draining, sending, returned, Observation, observed, reader_loop,
  handle_aggregator_batch, receive, aggregate, has_returned,
}
use ncda.Pipeline.Stopping.{
  Stopping, Reads, Leaves, steps_left, rounds_left, last_receive, reader_loop-Reads,
}
use ncda.Pipeline.Turns.{
  Turn, read, aggregate_batch, stop_aggregation, stop_reader, take_turn, run, submitted,
}
use ncda.Pipeline.Accounting.{accounted, in_hand, queued, run-accounted}

handle_aggregator_batch-ne-none :
    (o : Observation) (batch : List BpfEvent) (discard : Bool) (d : ReaderDropCounters)
    (s : AppState)
    → handle_aggregator_batch o batch discard d s ≢ none
unfolding handle_aggregator_batch
handle_aggregator_batch-ne-none o batch true d s = λ e. cc
handle_aggregator_batch-ne-none o batch false d s =
    let ingested = ingest-ne-none o.observed_at o.on_flush (observed o.on_event batch) s in
    elim (Option-cases (ingest o.observed_at o.on_flush (observed o.on_event batch) s)) [
      | inl e ↦ absurd (ingested e)
      | inr (t, e) ↦ rw e (λ f. cc)
    ]

-- What the aggregator does with the channel.
record Receives (p q : Pipeline) : Type 0 where
  stopping : Stopping q
  at_most : rounds_left q ≤ rounds_left p
  takes : 0 < length p.queue → rounds_left q < rounds_left p
  ends : p.reader ≡ returned → rounds_left q < rounds_left p

receive-Receives :
    (o : Observation) (batches : List (List BpfEvent)) (p : Pipeline)
    → p.queue ≡ batches
    → p.aggregating ≡ true
    → Stopping p
    → (q : Pipeline) × (receive o batches p ≡ some q) × Receives p q
unfolding receive handle_aggregator_batch
receive-Receives o [] p e receives s =
    let empty : length p.queue ≡ 0 = ap length e in
    let left : Leaves p.reader p.shutdown (p.aggregating && not (has_returned p.reader)) p.ring =
      ended p.reader s.leaves in
    (
      _,
      refl,
      record {
        stopping = record { told = s.told; leaves = left; quiet = λ _. e };
        at_most = ground arith;
        takes = λ h. absurd (omega arith);
        ends = λ r. ground (arith, ap has_returned r);
      },
    )
  where
    ended :
        (r : ReaderTask)
        → Leaves r p.shutdown p.aggregating p.ring
        → Leaves r p.shutdown (p.aggregating && not (has_returned r)) p.ring
    ended selecting (w, a) = (w, rw a refl)
    ended (draining is_err) a = rw a refl
    ended (sending none batch drained) (w, a) = (w, rw a refl)
    ended (sending (some is_err) batch true) (w, a) = (w, rw a refl)
    ended (sending (some is_err) batch false) a = rw a refl
    ended returned a = a
receive-Receives o (batch ∷ batches) p e receives s =
    let shorter : length p.queue ≡ suc (length batches) = ap length e in
    elim (Option-cases (handle_aggregator_batch o batch p.discard_pending p.drops p.state)) [
      | inl panics ↦
          absurd (handle_aggregator_batch-ne-none o batch p.discard_pending p.drops p.state panics)
      | inr ((drops, t), ok) ↦ (
        record p { queue = batches; drops = drops; state = t },
        ground arith,
        record {
          stopping = record { told = s.told; leaves = s.leaves; quiet = λ f. cc };
          at_most = omega arith;
          takes = λ _. omega arith;
          ends = λ _. omega arith;
        },
      )
    ]

aggregate-Receives :
    (o : Observation) (p : Pipeline)
    → p.aggregating ≡ true
    → Stopping p
    → (q : Pipeline) × (aggregate o p ≡ some q) × Receives p q
unfolding aggregate
aggregate-Receives o p receives s =
    let (q, e, r) = receive-Receives o p.queue p refl receives s in (q, ground arith, r)

-- Rounds in which the reader runs, and then the aggregator.
abbrev pub fair_rounds : List (Bool × Observation) → List Turn
fair_rounds [] = []
fair_rounds (r ∷ rs) = read r.0 ∷ aggregate_batch r.1 ∷ fair_rounds rs

-- What a round leaves to do.
abbrev Nearer : Pipeline → Option Pipeline → Type 0
Nearer p o = (q : Pipeline) × (o ≡ some q) × Stopping q × (rounds_left q ≤ rounds_left p - 1)

waited :
    (o : Observation) (p : Pipeline)
    → Stopping p
    → (0 < length p.queue) ⊎ (p.reader ≡ returned)
    → Nearer p (aggregate o p)
unfolding aggregate
waited o p s why = elim (Bool-cases p.aggregating) [
  | inl receives ↦
      let (r, e, k) = aggregate-Receives o p receives s in (r, e, k.stopping, nearer r k why)
  | inr done ↦ (p, ground arith, s, over done why)
]
  where
    nearer :
        (r : Pipeline)
        → Receives p r
        → (0 < length p.queue) ⊎ (p.reader ≡ returned)
        → rounds_left r ≤ rounds_left p - 1
    nearer r k (inl more) = omega (arith, k.takes more)
    nearer r k (inr ended) = omega (arith, k.ends ended)

    over :
        p.aggregating ≡ false
        → (0 < length p.queue) ⊎ (p.reader ≡ returned)
        → rounds_left p ≤ rounds_left p - 1
    over done (inl more) = absurd (omega (arith, ap length (s.quiet done)))
    over done (inr ended) =
        ground
          (arith, ap (λ r. steps_left r p.ready (length p.ring)) ended, ap length (s.quiet done))

aggregated : (o : Observation) (p q : Pipeline) → Stopping p → Reads p q → Nearer p (aggregate o q)
unfolding aggregate
aggregated o p q s (inl moves) =
    let same = ap last_receive moves.receives in
    elim (Bool-cases q.aggregating) [
      | inl receives ↦
          let (r, e, k) = aggregate-Receives o q receives moves.stopping in
          (r, e, k.stopping, omega (arith, same, k.at_most, moves.fewer, moves.queue))
      | inr done ↦ (q, ground arith, moves.stopping, omega (arith, same, moves.fewer, moves.queue))
    ]
aggregated o p q s (inr (e, why)) = subst (λ x. Nearer p (aggregate o x)) (sym e) (waited o p s why)

-- The ring and the channel are empty, and both tasks have ended.
pub record Ended (p : Pipeline) : Type 0 where
  pub ring : p.ring ≡ []
  pub reader : p.reader ≡ returned
  pub queue : p.queue ≡ []
  pub aggregator : p.aggregating ≡ false

no_batch : (batches : List (List BpfEvent)) → length batches ≡ 0 → batches ≡ []
no_batch [] h = refl
no_batch (b ∷ bs) h = absurd (omega arith)

over-Ended : (p : Pipeline) → Stopping p → rounds_left p ≡ 0 → Ended p
over-Ended p s h = from p.reader refl
  where
    left : (r : ReaderTask) → p.reader ≡ r → steps_left r p.ready (length p.ring) ≡ 0
    left r e = omega (arith, ap (λ t. steps_left t p.ready (length p.ring)) e)

    from : (r : ReaderTask) → p.reader ≡ r → Ended p
    from selecting e = absurd (omega (arith, left selecting e))
    from (draining is_err) e = absurd (omega (arith, left (draining is_err) e))
    from (sending none batch drained) e =
        absurd (omega (arith, left (sending none batch drained) e))
    from (sending (some is_err) batch true) e =
        absurd (omega (arith, left (sending (some is_err) batch true) e))
    from (sending (some is_err) batch false) e =
        absurd (omega (arith, left (sending (some is_err) batch false) e))
    from returned e = record {
      ring = subst (λ r. Leaves r p.shutdown p.aggregating p.ring) e s.leaves;
      reader = e;
      queue = no_batch p.queue (omega arith);
      aggregator = ground arith;
    }

fair_rounds-Ended :
    (rs : List (Bool × Observation)) (p : Pipeline)
    → Stopping p
    → rounds_left p ≤ length rs
    → (q : Pipeline) × (run (fair_rounds rs) p ≡ some q) × Ended q
unfolding run take_turn
fair_rounds-Ended [] p s h = (p, refl, over-Ended p s (omega arith))
fair_rounds-Ended ((first, o) ∷ rs) p s h =
    let (q, e, t, near) = aggregated o p (reader_loop first p) s (reader_loop-Reads first p s) in
    let (r, e', done) = fair_rounds-Ended rs q t (omega (arith, near)) in (r, rw e e', done)

-- A task that has not been told to stop.
abbrev pub Serves : ReaderTask → Type 0
Serves selecting = Unit {0}
Serves (sending none batch drained) = Unit {0}
Serves _ = ⊥

told-Stopping :
    (p : Pipeline)
    → p.aggregating ≡ true
    → Serves p.reader
    → Stopping (record p {
      discard_pending = true;
      shutdown = record p.shutdown { value = true; unseen = true };
    })
told-Stopping p receives serves = record {
  told = refl;
  leaves = from p.reader serves;
  quiet = λ e. cc;
}
  where
    from :
        (r : ReaderTask)
        → Serves r
        → Leaves r (record p.shutdown { value = true; unseen = true }) p.aggregating p.ring
    from selecting h = (refl, receives)
    from (sending none batch drained) h = (refl, receives)
    from (draining _) h = elim h [ ]
    from (sending (some _) batch drained) h = elim h [ ]
    from returned h = elim h [ ]

submitted-fair_rounds : (rs : List (Bool × Observation)) → submitted (fair_rounds rs) ≡ 0
submitted-fair_rounds [] = refl
submitted-fair_rounds (r ∷ rs) = submitted-fair_rounds rs

-- While the reader serves and the aggregator receives, both are told to stop. Then at least
-- `rounds_left` rounds, in whatever order the reader finds its arms ready, end both: the ring and the
-- channel are empty, and every record that was in the ring, in the reader or in the channel has been
-- counted, as an event, as a drop or as discarded.
pub shutdown-Ended :
    (rs : List (Bool × Observation)) (p : Pipeline)
    → Serves p.reader
    → p.aggregating ≡ true
    → rounds_left p ≤ length rs
    → accounted p ≤ u64_max
    → (q : Pipeline) × (run (stop_aggregation ∷ stop_reader ∷ fair_rounds rs) p ≡ some q)
      × Ended q
      × (q.state.total_events + q.drops.parse_drops + q.drops.queue_drops
            + q.drops.shutdown_discarded
          ≡ accounted p)
unfolding run take_turn
shutdown-Ended rs p serves receives enough fits =
    let told : Pipeline = record p {
      discard_pending = true;
      shutdown = record p.shutdown { value = true; unseen = true };
    } in
    let none_new = submitted-fair_rounds rs in
    let (q, e, done) = fair_rounds-Ended rs told (told-Stopping p receives serves) enough in
    let (q', e', all) = run-accounted (fair_rounds rs) told (omega (arith, none_new)) in
    let same : accounted q ≡ accounted q' = ground arith in
    (
      q,
      e,
      done,
      omega (
        arith,
        all,
        same,
        none_new,
        ap length done.ring,
        ap in_hand done.reader,
        ap queued done.queue,
      ),
    )
