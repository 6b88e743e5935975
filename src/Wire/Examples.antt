-- ===== src/Wire/Examples.antt =====
-- Runs of the record parser at concrete inputs.
use ncda.Base.{◌≡◌, refl, none, some, ascii, arith, negsuc, All}
use ncda.Wire.{
  BpfEvent, open_event, write_event, parse_event, parse_kind, parse_open_event, parse_io_event,
  parse_fd_event, parse_range_event, parse_process_event, event_write, event_process_exit,
}
use ncda.Wire.Layout.{encode, open_bytes, io_bytes, process_bytes, to_bytes, IsWire}
use ncda.Wire.RoundTrip
use ncda.Wire.Malformed

program : Unit {0}
unfolding parse_event parse_kind parse_open_event parse_io_event parse_fd_event parse_range_event
    parse_process_event encode open_bytes io_bytes process_bytes
program = tt

-- A record cut short.
short_record : parse_event (to_bytes 4 event_process_exit) ≡ none
unfolding program
short_record = refl

failed_write :
    parse_event (io_bytes event_write 4242 4243 3 (negsuc 10) 100 200)
    ≡ some (write_event 4242 4243 3 0 (negsuc 10) 100 200)
unfolding program
failed_write = refl

abbrev opened : BpfEvent
opened = open_event 4242 4243 3 (negsuc 99) (ascii "var/log") 1 700

opened-IsWire : IsWire opened
unfolding IsWire
opened-IsWire = ground arith

parse_event-encode_example : parse_event (encode opened) ≡ some opened
parse_event-encode_example = RoundTrip.parse_event-encode opened opened-IsWire

-- The same record, as bytes.
opened-bytes : All Malformed.IsByte (encode opened)
unfolding program
opened-bytes = ground arith

parse_event-IsWire_example : IsWire opened
parse_event-IsWire_example =
    Malformed.parse_event-IsWire (encode opened) opened-bytes opened
      (RoundTrip.parse_event-encode opened opened-IsWire)
