-- ===== src/Wire/Layout.antt =====
-- The ring-buffer records of ncda-common/src/lib.rs as bytes: `repr(C)` structures of little-endian
-- fields, each written where the Rust layout puts it, padding included.
use ncda.Base.{
  ℕ, zero, suc, ◌-◌, ◌/◌, ◌%◌, ◌^◌, ◌<◌, ◌≤◌, ◌≡◌, true, [], ◌∷◌, ◌++◌, Bytes, length, All, ℤ, pos,
  negsuc, arith,
}
use ncda.Wire.{
  BpfEvent, open_event, read_event, write_event, close_event, dup_event, close_range_event,
  process_exec, process_exit, max_fname_len, event_open, event_read, event_write, event_close,
  event_dup, event_close_range, event_process_exec, event_process_exit, from_bytes, signed,
  max_zero, has_read_failed,
}

abbrev pub to_bytes : ℕ → ℕ → Bytes
to_bytes zero n = []
to_bytes (suc k) n = (n % 256) ∷ to_bytes k (n / 256)

-- An integer that two's complement can hold, and its bits.
abbrev pub IsSigned : ℕ → ℤ → Type 0
IsSigned modulus (pos n) = n < modulus / 2
IsSigned modulus (negsuc n) = n < modulus / 2

abbrev pub unsigned : ℕ → ℤ → ℕ
unsigned modulus (pos n) = n
unsigned modulus (negsuc n) = modulus - 1 - n

abbrev pub zeros : ℕ → Bytes
zeros zero = []
zeros (suc n) = 0 ∷ zeros n

abbrev pub IsU32 : ℕ → Type 0
IsU32 n = n < 2 ^ 32

abbrev pub IsU64 : ℕ → Type 0
IsU64 n = n < 2 ^ 64

-- `OpenEvent`
unfoldable pub open_bytes : ℕ → ℕ → ℕ → ℤ → Bytes → ℕ → ℕ → Bytes
open_bytes pid tid fd dirfd path flags emitted =
    to_bytes 4 event_open
    ++ to_bytes 4 pid
    ++ to_bytes 4 tid
    ++ to_bytes 4 fd
    ++ to_bytes 2 (length path)
    ++ to_bytes 2 flags
    ++ to_bytes 4 (unsigned (2 ^ 32) dirfd)
    ++ to_bytes 8 emitted
    ++ path
    ++ zeros (max_fname_len - length path)

-- `IoEvent`
unfoldable pub io_bytes : ℕ → ℕ → ℕ → ℕ → ℤ → ℕ → ℕ → Bytes
io_bytes kind pid tid fd result latency emitted =
    to_bytes 4 kind
    ++ to_bytes 4 pid
    ++ to_bytes 4 tid
    ++ to_bytes 4 fd
    ++ to_bytes 8 (unsigned (2 ^ 64) result)
    ++ to_bytes 8 latency
    ++ to_bytes 8 emitted

-- `FdEvent`, four bytes of padding before the time
unfoldable pub fd_bytes : ℕ → ℕ → ℕ → ℕ → ℕ → Bytes
fd_bytes pid tid old_fd new_fd emitted =
    to_bytes 4 event_dup
    ++ to_bytes 4 pid
    ++ to_bytes 4 tid
    ++ to_bytes 4 old_fd
    ++ to_bytes 4 new_fd
    ++ zeros 4
    ++ to_bytes 8 emitted

-- `RangeEvent`
unfoldable pub range_bytes : ℕ → ℕ → ℕ → ℕ → ℕ → ℕ → Bytes
range_bytes pid tid first_fd last_fd flags emitted =
    to_bytes 4 event_close_range
    ++ to_bytes 4 pid
    ++ to_bytes 4 tid
    ++ to_bytes 4 first_fd
    ++ to_bytes 4 last_fd
    ++ to_bytes 4 flags
    ++ to_bytes 8 emitted

-- `ProcessEvent`
unfoldable pub process_bytes : ℕ → ℕ → ℕ → Bytes
process_bytes kind pid emitted = to_bytes 4 kind ++ to_bytes 4 pid ++ to_bytes 8 emitted

-- A close carries no result and no latency.
unfoldable pub encode : BpfEvent → Bytes
encode (open_event pid tid fd dirfd path flags emitted) =
    open_bytes pid tid fd dirfd path flags emitted
encode (read_event pid tid fd bytes result latency emitted) =
    io_bytes event_read pid tid fd result latency emitted
encode (write_event pid tid fd bytes result latency emitted) =
    io_bytes event_write pid tid fd result latency emitted
encode (close_event pid tid fd emitted) = io_bytes event_close pid tid fd (pos 0) 0 emitted
encode (dup_event pid tid old_fd new_fd emitted) = fd_bytes pid tid old_fd new_fd emitted
encode (close_range_event pid tid first_fd last_fd flags emitted) =
    range_bytes pid tid first_fd last_fd flags emitted
encode (process_exec pid emitted) = process_bytes event_process_exec pid emitted
encode (process_exit pid emitted) = process_bytes event_process_exit pid emitted

abbrev pub IsIo : ℕ → ℕ → ℕ → ℕ → ℤ → ℕ → ℕ → Type 0
IsIo pid tid fd bytes result latency emitted =
    IsU32 pid
    × IsU32 tid
    × IsU32 fd
    × (bytes ≡ max_zero result)
    × IsSigned (2 ^ 64) result
    × IsU64 latency
    × IsU64 emitted

-- The events that the records can hold: fields of their width, a path of bytes other than zero that
-- fits, two flags at most, and no path where reading it failed.
unfoldable pub IsWire : BpfEvent → Type 0
IsWire (open_event pid tid fd dirfd path flags emitted) =
    IsU32 pid
    × IsU32 tid
    × IsU32 fd
    × IsSigned (2 ^ 32) dirfd
    × (length path ≤ max_fname_len)
    × All (λ b. 0 < b) path
    × (flags < 4)
    × (has_read_failed flags ≡ true → length path ≡ 0)
    × IsU64 emitted
IsWire (read_event pid tid fd bytes result latency emitted) =
    IsIo pid tid fd bytes result latency emitted
IsWire (write_event pid tid fd bytes result latency emitted) =
    IsIo pid tid fd bytes result latency emitted
IsWire (close_event pid tid fd emitted) = IsU32 pid × IsU32 tid × IsU32 fd × IsU64 emitted
IsWire (dup_event pid tid old_fd new_fd emitted) =
    IsU32 pid × IsU32 tid × IsU32 old_fd × IsU32 new_fd × IsU64 emitted
IsWire (close_range_event pid tid first_fd last_fd flags emitted) =
    IsU32 pid × IsU32 tid × IsU32 first_fd × IsU32 last_fd × IsU32 flags × IsU64 emitted
IsWire (process_exec pid emitted) = IsU32 pid × IsU64 emitted
IsWire (process_exit pid emitted) = IsU32 pid × IsU64 emitted

-- Little-endian bytes hold a number of their width.
pub from_bytes-u16 : (n : ℕ) → n < 2 ^ 16 → from_bytes (to_bytes 2 n) ≡ n
from_bytes-u16 n h = omega arith

pub from_bytes-u32 : (n : ℕ) → IsU32 n → from_bytes (to_bytes 4 n) ≡ n
from_bytes-u32 n h = omega arith

pub from_bytes-u64 : (n : ℕ) → IsU64 n → from_bytes (to_bytes 8 n) ≡ n
from_bytes-u64 n h = omega arith

pub signed-unsigned :
    (modulus : ℕ) (z : ℤ) → IsSigned modulus z → signed modulus (unsigned modulus z) ≡ z
signed-unsigned modulus (pos n) h = ground arith
signed-unsigned modulus (negsuc n) h = ground arith

pub unsigned-bound :
    (modulus : ℕ) (z : ℤ) → 2 ≤ modulus → IsSigned modulus z → unsigned modulus z < modulus
unsigned-bound modulus (pos n) m h = omega arith
unsigned-bound modulus (negsuc n) m h = omega arith
