-- ===== src/Wire.antt =====
-- `BpfEvent` and the parser of ring-buffer records of ncda/src/bpf.rs, with the sizes and flags of
-- ncda-common/src/lib.rs. Both supported architectures are little-endian.
pub mod Layout
pub mod RoundTrip
mod Malformed
mod Examples
use ncda.Base.{
  ℕ, zero, suc, ◌+◌, ◌-◌, ◌*◌, ◌/◌, ◌%◌, ◌^◌, Bool, true, false, not, ◌&&◌, ◌||◌, Option, none,
  some, List, [], ◌∷◌, Bytes, length, any, take, drop, ltb, leb, nat_beq, if◌then◌else◌, ℤ, pos,
  negsuc,
}

pub data BpfEvent : Type 0 where
  open_event : (pid tid fd : ℕ) (dirfd : ℤ) (path : Bytes) (path_flags emitted_ns : ℕ) → BpfEvent
  read_event : (pid tid fd bytes : ℕ) (result : ℤ) (latency_ns emitted_ns : ℕ) → BpfEvent
  write_event : (pid tid fd bytes : ℕ) (result : ℤ) (latency_ns emitted_ns : ℕ) → BpfEvent
  close_event : (pid tid fd emitted_ns : ℕ) → BpfEvent
  dup_event : (pid tid old_fd new_fd emitted_ns : ℕ) → BpfEvent
  close_range_event : (pid tid first_fd last_fd flags emitted_ns : ℕ) → BpfEvent
  process_exec : (pid emitted_ns : ℕ) → BpfEvent
  process_exit : (pid emitted_ns : ℕ) → BpfEvent

abbrev pub max_fname_len : ℕ
max_fname_len = 256

-- The kinds, `EVENT_OPEN` to `EVENT_PROCESS_EXIT`.
abbrev pub event_open : ℕ
event_open = 1

abbrev pub event_read : ℕ
event_read = 2

abbrev pub event_write : ℕ
event_write = 3

abbrev pub event_close : ℕ
event_close = 4

abbrev pub event_dup : ℕ
event_dup = 5

abbrev pub event_close_range : ℕ
event_close_range = 6

abbrev pub event_process_exec : ℕ
event_process_exec = 7

abbrev pub event_process_exit : ℕ
event_process_exit = 8

-- The sizes of the `repr(C)` records.
abbrev pub open_event_size : ℕ
open_event_size = 288

abbrev pub io_event_size : ℕ
io_event_size = 40

abbrev pub fd_event_size : ℕ
fd_event_size = 32

abbrev pub range_event_size : ℕ
range_event_size = 32

abbrev pub process_event_size : ℕ
process_event_size = 16

-- `from_ne_bytes` of the bytes from an offset.
abbrev pub from_bytes : Bytes → ℕ
from_bytes [] = 0
from_bytes (b ∷ bs) = b + 256 * from_bytes bs

abbrev pub field_at : Bytes → ℕ → ℕ → ℕ
field_at bytes offset size = from_bytes (take size (drop offset bytes))

-- Two's complement at a width given by its modulus.
abbrev pub signed : ℕ → ℕ → ℤ
signed modulus n = if ltb n (modulus / 2) then pos n else negsuc (modulus - 1 - n)

-- `result.max(0) as u64`
abbrev pub max_zero : ℤ → ℕ
max_zero (pos n) = n
max_zero (negsuc n) = 0

-- `PATH_TRUNCATED` and `PATH_READ_FAILED` are the bits of value 1 and 2, and all that are known.
abbrev pub has_unknown_flags : ℕ → Bool
has_unknown_flags flags = not (nat_beq (flags / 4) 0)

abbrev pub has_read_failed : ℕ → Bool
has_read_failed flags = nat_beq ((flags / 2) % 2) 1

abbrev is_zero : ℕ → Bool
is_zero b = nat_beq b 0

abbrev is_not_zero : ℕ → Bool
is_not_zero b = not (nat_beq b 0)

unfoldable pub parse_open_event : Bytes → Option BpfEvent
parse_open_event bytes =
    if ltb (length bytes) open_event_size
    then none
    else let fname_len = field_at bytes 16 2 in
      let path_flags = field_at bytes 18 2 in
      if ltb max_fname_len fname_len || has_unknown_flags path_flags
      then none
      else if has_read_failed path_flags && not (nat_beq fname_len 0)
      then none
      else let path = take fname_len (drop 32 bytes) in
        let tail = take (max_fname_len - fname_len) (drop (32 + fname_len) bytes) in
        if any is_zero path || any is_not_zero tail
        then none
        else some (
            open_event (field_at bytes 4 4) (field_at bytes 8 4) (field_at bytes 12 4)
              (signed (2 ^ 32) (field_at bytes 20 4)) path path_flags (field_at bytes 24 8))

unfoldable pub parse_io_event : Bytes → ℕ → Option BpfEvent
parse_io_event bytes kind =
    if ltb (length bytes) io_event_size
    then none
    else let pid = field_at bytes 4 4 in
      let tid = field_at bytes 8 4 in
      let fd = field_at bytes 12 4 in
      let result = signed (2 ^ 64) (field_at bytes 16 8) in
      let count = max_zero result in
      let latency_ns = field_at bytes 24 8 in
      let emitted_ns = field_at bytes 32 8 in
      if nat_beq kind event_read
      then some (read_event pid tid fd count result latency_ns emitted_ns)
      else if nat_beq kind event_write
      then some (write_event pid tid fd count result latency_ns emitted_ns)
      else if nat_beq kind event_close
      then some (close_event pid tid fd emitted_ns)
      else none

unfoldable pub parse_fd_event : Bytes → Option BpfEvent
parse_fd_event bytes =
    if ltb (length bytes) fd_event_size
    then none
    else some (
        dup_event (field_at bytes 4 4) (field_at bytes 8 4) (field_at bytes 12 4)
          (field_at bytes 16 4) (field_at bytes 24 8))

unfoldable pub parse_range_event : Bytes → Option BpfEvent
parse_range_event bytes =
    if ltb (length bytes) range_event_size
    then none
    else some (
        close_range_event (field_at bytes 4 4) (field_at bytes 8 4) (field_at bytes 12 4)
          (field_at bytes 16 4) (field_at bytes 20 4) (field_at bytes 24 8))

unfoldable pub parse_process_event : Bytes → ℕ → Option BpfEvent
parse_process_event bytes kind =
    if ltb (length bytes) process_event_size
    then none
    else let pid = field_at bytes 4 4 in
      let emitted_ns = field_at bytes 8 8 in
      if nat_beq kind event_process_exec
      then some (process_exec pid emitted_ns)
      else if nat_beq kind event_process_exit
      then some (process_exit pid emitted_ns)
      else none

-- The dispatch of `parse_event` on the kind of a record.
unfoldable pub parse_kind : Bytes → ℕ → Option BpfEvent
parse_kind bytes kind =
    if nat_beq kind event_open
    then parse_open_event bytes
    else if nat_beq kind event_read
    then parse_io_event bytes event_read
    else if nat_beq kind event_write
    then parse_io_event bytes event_write
    else if nat_beq kind event_close
    then parse_io_event bytes event_close
    else if nat_beq kind event_dup
    then parse_fd_event bytes
    else if nat_beq kind event_close_range
    then parse_range_event bytes
    else if nat_beq kind event_process_exec || nat_beq kind event_process_exit
    then parse_process_event bytes kind
    else none

unfoldable pub parse_event : Bytes → Option BpfEvent
parse_event bytes = if ltb (length bytes) 4 then none else parse_kind bytes (field_at bytes 0 4)
