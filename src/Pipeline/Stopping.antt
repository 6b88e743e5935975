-- ===== src/Pipeline/Stopping.antt =====
-- `reader_loop` of ncda/src/bpf.rs once it is told to stop: each of its turns brings it nearer to its
-- return, or waits for room in the channel.
use ncda.Base.{
  ℕ, ◌+◌, ◌*◌, ◌≤◌, ◌<◌, ◌≡◌, refl, sym, ap, ◌∙◌, subst, Bool, true, false, not, ◌&&◌, ◌||◌, Option,
  none, some, List, [], ◌∷◌, ◌++◌, Bytes, length, arith, ◌⊎◌, inl, inr, length-append, Bool-cases,
  ltb, if◌then◌else◌,
}
use ncda.Wire.{BpfEvent}
use ncda.Reader.{Drained, drain_ring_batch, send_batch}
use ncda.Reader.Drain.{drain_ring_batch-empty, drain_ring_batch-shorter}
use ncda.Pipeline.{
  Pipeline, Watch, ReaderTask, selecting, draining, sending, returned, drain_ready,
  drain_at_shutdown, select, after_send, send, resume, reader_loop, channel_size,
}

-- How often the reader runs, at most, with so many records in the ring.
abbrev pub steps_left : ReaderTask → Bool → ℕ → ℕ
steps_left selecting ready n = 4 * n + 4 + (if ready then 2 else 0)
steps_left (draining is_err) ready n = 2 * n + 2
steps_left (sending none batch drained) ready n = 4 * n + 5 + (if ready then 2 else 0)
steps_left (sending (some is_err) batch true) ready n = 1
steps_left (sending (some is_err) batch false) ready n = 2 * n + 3
steps_left returned ready n = 0

abbrev pub steps : Pipeline → ℕ
steps p = steps_left p.reader p.ready (length p.ring)

abbrev pub last_receive : Bool → ℕ
last_receive true = 1
last_receive false = 0

-- How many rounds are left, at most: the reader's, the batches in the channel and the last `recv`.
abbrev pub rounds_left : Pipeline → ℕ
rounds_left p = 2 * steps p + length p.queue + last_receive p.aggregating

-- The reader has been told to stop, and was not yet, or has seen it; it leaves nothing in the ring.
abbrev pub Pending : Watch → Type 0
Pending w = (w.unseen || w.closed) ≡ true

abbrev pub Leaves : ReaderTask → Watch → Bool → List Bytes → Type 0
Leaves selecting w receives ring = Pending w × (receives ≡ true)
Leaves (draining is_err) w receives ring = receives ≡ true
Leaves (sending none batch drained) w receives ring = Pending w × (receives ≡ true)
Leaves (sending (some is_err) batch true) w receives ring = (ring ≡ []) × (receives ≡ true)
Leaves (sending (some is_err) batch false) w receives ring = receives ≡ true
Leaves returned w receives ring = ring ≡ []

pub record Stopping (p : Pipeline) : Type 0 where
  pub told : p.shutdown.value ≡ true
  pub leaves : Leaves p.reader p.shutdown p.aggregating p.ring
  pub quiet : p.aggregating ≡ false → p.queue ≡ []

-- A reader's turn moves on, or waits for room in the channel, or there is none.
pub record Moves (p q : Pipeline) : Type 0 where
  pub stopping : Stopping q
  pub fewer : steps q < steps p
  pub queue : length q.queue ≤ length p.queue + 1
  pub receives : q.aggregating ≡ p.aggregating

abbrev pub Reads : Pipeline → Pipeline → Type 0
Reads p q = Moves p q ⊎ ((q ≡ p) × ((0 < length p.queue) ⊎ (p.reader ≡ returned)))

drained_steps :
    (is_err : Bool) (p : Pipeline)
    → p.shutdown.value ≡ true
    → p.aggregating ≡ true
    → let q = drain_at_shutdown is_err p in
      Leaves q.reader q.shutdown q.aggregating q.ring × (steps q < 2 * length p.ring + 2)
unfolding drain_at_shutdown
drained_steps is_err p told receives =
    let r = drain_ring_batch p.ring p.drops in from r.drained refl
  where
    from :
        (b : Bool)
        → (drain_ring_batch p.ring p.drops).drained ≡ b
        → let r = drain_ring_batch p.ring p.drops in
          Leaves (sending (some is_err) r.batch b) p.shutdown p.aggregating r.ring
          × (steps_left (sending (some is_err) r.batch b) p.ready (length r.ring)
              < 2 * length p.ring + 2)
    from true e = ((drain_ring_batch-empty p.ring p.drops e, receives), omega arith)
    from false e = (receives, omega (arith, drain_ring_batch-shorter p.ring p.drops e))

drain_at_shutdown-Moves :
    (is_err : Bool) (p : Pipeline)
    → p.shutdown.value ≡ true
    → (p.aggregating ≡ false → p.queue ≡ [])
    → p.aggregating ≡ true
    → 2 * length p.ring + 2 ≤ steps p
    → Moves p (drain_at_shutdown is_err p)
unfolding drain_at_shutdown
drain_at_shutdown-Moves is_err p told quiet receives enough =
    let d = drained_steps is_err p told receives in
    record {
      stopping = record { told = told; leaves = d.0; quiet = quiet };
      fewer = omega (arith, d.1);
      queue = omega arith;
      receives = refl;
    }

drain_ready-Moves :
    (p : Pipeline)
    → Stopping p
    → Pending p.shutdown
    → p.aggregating ≡ true
    → 4 * length p.ring + 6 ≤ steps p
    → Moves p (drain_ready p)
unfolding drain_ready
drain_ready-Moves p s waits receives enough = record {
  stopping = record { told = s.told; leaves = (waits, receives); quiet = s.quiet };
  fewer = from r.drained refl;
  queue = omega arith;
  receives = refl;
}
  where
    r : Drained
    r = drain_ring_batch p.ring p.drops

    from :
        (b : Bool)
        → (drain_ring_batch p.ring p.drops).drained ≡ b
        → 4 * length (drain_ring_batch p.ring p.drops).ring
            + 5
            + (if p.ready && not b then 2 else 0)
          < steps p
    from true e =
        let empty : length (drain_ring_batch p.ring p.drops).ring ≡ 0 =
          ap length (drain_ring_batch-empty p.ring p.drops e) in
        ground arith
    from false e = ground (arith, drain_ring_batch-shorter p.ring p.drops e)

select-Reads :
    (first : Bool) (p : Pipeline) → Stopping p → p.reader ≡ selecting → Reads p (select first p)
unfolding select
select-Reads first p s at =
    let (waits, receives) = subst (λ r. Leaves r p.shutdown p.aggregating p.ring) at s.leaves in
    let left : steps p ≡ 4 * length p.ring + 4 + (if p.ready then 2 else 0) =
      ap (λ r. steps_left r p.ready (length p.ring)) at in
    let seen : Pipeline = record p { shutdown = record p.shutdown { unseen = false } } in
    elim (Bool-cases (first || not p.ready)) [
      | inl shuts ↦
          let e : select first p ≡ drain_at_shutdown p.shutdown.closed seen = ground arith in
          let m =
            drain_at_shutdown-Moves p.shutdown.closed seen s.told s.quiet receives (omega arith) in
          subst (Reads p) (sym e) (
            inl (record {
              stopping = m.stopping;
              fewer = m.fewer;
              queue = m.queue;
              receives = m.receives;
            }))
      | inr reads ↦
          let ready : p.ready ≡ true = ground arith in
          let e : select first p ≡ drain_ready p = ground arith in
          subst (Reads p) (sym e) (inl (drain_ready-Moves p s waits receives (ground arith)))
    ]

-- What a `send_batch` keeps.
module _ (batch : List BpfEvent) (p p' : Pipeline) (s : Stopping p)
    (receives : p.aggregating ≡ true) (ring : p'.ring ≡ p.ring) (ready : p'.ready ≡ p.ready)
    (same : p'.shutdown ≡ p.shutdown) (still : p'.aggregating ≡ p.aggregating)
    (queue : length p'.queue ≤ length p.queue + 1) where
  told : p'.shutdown.value ≡ true
  told = ap (λ w. w.value) same ∙ s.told

  running : p'.aggregating ≡ true
  running = still ∙ receives

  quiet : p'.aggregating ≡ false → p'.queue ≡ []
  quiet e = cc running

  after_send-Moves :
      (at_shutdown : Option Bool) (drained : Bool)
      → p.reader ≡ sending at_shutdown batch drained
      → Moves p (after_send at_shutdown true drained p')
  unfolding after_send
  after_send-Moves none drained at =
      let (waits, _) = subst (λ r. Leaves r p.shutdown p.aggregating p.ring) at s.leaves in
      let left = ap (λ r. steps_left r p.ready (length p.ring)) at in
      record {
        stopping = record {
          told = told;
          leaves = (subst Pending (sym same) waits, running);
          quiet = quiet;
        };
        fewer = ground (arith, ap length ring, ready);
        queue = queue;
        receives = still;
      }
  after_send-Moves (some is_err) true at =
      let (empty, _) = subst (λ r. Leaves r p.shutdown p.aggregating p.ring) at s.leaves in
      let left = ap (λ r. steps_left r p.ready (length p.ring)) at in
      let e : after_send (some is_err) true true p' ≡ record p' { reader = returned } =
        ground (arith, told) in
      subst (Moves p) (sym e) (record {
        stopping = record { told = told; leaves = ring ∙ empty; quiet = quiet };
        fewer = omega arith;
        queue = queue;
        receives = still;
      })
  after_send-Moves (some is_err) false at =
      let left = ap (λ r. steps_left r p.ready (length p.ring)) at in
      record {
        stopping = record { told = told; leaves = running; quiet = quiet };
        fewer = omega (arith, ap length ring);
        queue = queue;
        receives = still;
      }

send-Reads :
    (at_shutdown : Option Bool) (batch : List BpfEvent) (drained : Bool) (p : Pipeline)
    → Stopping p
    → p.reader ≡ sending at_shutdown batch drained
    → p.aggregating ≡ true
    → Reads p (send at_shutdown batch drained p)
unfolding send send_batch
send-Reads at_shutdown [] drained p s at receives =
    inl
      (after_send-Moves [] p p s receives refl refl refl refl (omega arith) at_shutdown drained at)
send-Reads at_shutdown (e ∷ es) drained p s at receives =
    elim (Bool-cases (ltb (length p.queue) channel_size)) [
      | inl room ↦
          let sent : Pipeline = record p { queue = p.queue ++ (e ∷ es) ∷ [] } in
          let eq : send at_shutdown (e ∷ es) drained p ≡ after_send at_shutdown true drained sent =
            ground arith in
          subst (Reads p) (sym eq) (
            inl (
              after_send-Moves (e ∷ es) p sent s receives refl refl refl refl
                (omega (arith, length-append {0} p.queue ((e ∷ es) ∷ []))) at_shutdown drained at))
      | inr full ↦
          let eq : send at_shutdown (e ∷ es) drained p ≡ p = ground arith in
          subst (Reads p) (sym eq) (inr (refl, inl (ground arith)))
    ]

pub reader_loop-Reads : (first : Bool) (p : Pipeline) → Stopping p → Reads p (reader_loop first p)
unfolding reader_loop resume
reader_loop-Reads first p s = resumed p.reader refl
  where
    leaves : (r : ReaderTask) → p.reader ≡ r → Leaves r p.shutdown p.aggregating p.ring
    leaves r e = subst (λ t. Leaves t p.shutdown p.aggregating p.ring) e s.leaves

    resumed : (r : ReaderTask) → p.reader ≡ r → Reads p (resume r first p)
    resumed selecting e = select-Reads first p s e
    resumed (draining is_err) e = inl (
        drain_at_shutdown-Moves is_err p s.told s.quiet (leaves (draining is_err) e)
          (omega (arith, ap (λ r. steps_left r p.ready (length p.ring)) e)))
    resumed (sending none batch drained) e =
        send-Reads none batch drained p s e (leaves (sending none batch drained) e).1
    resumed (sending (some is_err) batch true) e =
        send-Reads (some is_err) batch true p s e (leaves (sending (some is_err) batch true) e).1
    resumed (sending (some is_err) batch false) e =
        send-Reads (some is_err) batch false p s e (leaves (sending (some is_err) batch false) e)
    resumed returned e = inr (refl, inr e)
