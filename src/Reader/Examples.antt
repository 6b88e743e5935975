-- ===== src/Reader/Examples.antt =====
-- Runs of the reader at concrete inputs, after the tests of ncda/src/bpf.rs.
use ncda.Base.{◌≡◌, refl, true, false, List, [], ◌∷◌, Bytes, arith}
use ncda.Wire.{event_process_exit, process_exit}
use ncda.Wire.Layout.{to_bytes, process_bytes}
use ncda.Reader.{ReaderDropCounters, send_batch, shutdown_drain, record_queue_drops}
use ncda.Reader.Drain
use ncda.Reader.Drain.{Complete}

program : Unit {0}
unfolding send_batch record_queue_drops
program = tt

abbrev no_drops : ReaderDropCounters
no_drops = record { parse_drops = 0; queue_drops = 0; shutdown_discarded = 0 }

-- `closed_queue_accounts_for_the_entire_batch`
closed_queue :
    send_batch (λ batch. false) (process_exit 7 100 ∷ process_exit 8 200 ∷ []) no_drops
    ≡ (false, record no_drops { queue_drops = 2 })
unfolding program
closed_queue = refl

-- An exit, a record cut short and another exit.
abbrev in_ring : List Bytes
unfolding process_bytes
in_ring =
    process_bytes event_process_exit 7 100
    ∷ to_bytes 4 event_process_exit
    ∷ process_bytes event_process_exit 8 200
    ∷ []

shutdown_drain-Complete_example :
    Complete [] in_ring no_drops (shutdown_drain (λ batch. true) in_ring no_drops)
shutdown_drain-Complete_example =
    Drain.shutdown_drain-Complete (λ batch. true) in_ring no_drops (λ batch. refl) (omega arith)
