-- ===== src/Pipeline/Turns.antt =====
-- Runs of the tasks of ncda/src/main.rs: the turns that the scheduler, the kernel and the main task
-- take, in any order.
use ncda.Base.{◌+◌, ℕ, Bool, true, Option, none, some, List, [], ◌∷◌, ◌++◌, Bytes}
use ncda.Ebpf.Counters.{CaptureStats}
use ncda.Container.Discovery.{Commands}
use ncda.Pipeline.{
  Pipeline, Observation, reader_loop, aggregate, monitor_drop_counters, monitor_container_discovery,
}

pub data Turn : Type 0 where
  -- the kernel's programs put a record into the ring
  submit : Bytes → Turn
  -- the reader runs until it waits; the first arm comes first, if both are ready
  read : Bool → Turn
  -- the aggregator receives
  aggregate_batch : Observation → Turn
  -- the counters of the CPUs are read
  monitor_drops : List CaptureStats → Turn
  -- the containers are found anew
  discover : Commands → Turn
  -- `discard_pending.store(true)`
  stop_aggregation : Turn
  -- `reader_shutdown_tx.send(true)`
  stop_reader : Turn

abbrev pub request_shutdown : Pipeline → Pipeline
request_shutdown p = record p { shutdown = record p.shutdown { value = true; unseen = true } }

unfoldable pub take_turn : Turn → Pipeline → Option Pipeline
take_turn (submit bytes) p = some (record p { ring = p.ring ++ bytes ∷ []; ready = true })
take_turn (read first) p = some (reader_loop first p)
take_turn (aggregate_batch o) p = aggregate o p
take_turn (monitor_drops cpus) p = some (monitor_drop_counters cpus p)
take_turn (discover commands) p = some (monitor_container_discovery commands p)
take_turn stop_aggregation p = some (record p { discard_pending = true })
take_turn stop_reader p = some (request_shutdown p)

infixl 5 ◌>>=◌
abbrev pub ◌>>=◌ : Option Pipeline → (Pipeline → Option Pipeline) → Option Pipeline
none >>= f = none
some p >>= f = f p

unfoldable pub run : List Turn → Pipeline → Option Pipeline
run [] p = some p
run (t ∷ ts) p = take_turn t p >>= run ts

-- How many records the kernel puts into the ring.
abbrev pub submitted : List Turn → ℕ
submitted [] = 0
submitted (submit bytes ∷ ts) = 1 + submitted ts
submitted (_ ∷ ts) = submitted ts
