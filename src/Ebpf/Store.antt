-- ===== src/Ebpf/Store.antt =====
-- The maps of ncda-ebpf/src/main.rs, the helpers' answers during one hook, and `EVENTS.output`.
use ncda.Base.{ℕ, ◌/◌, ◌%◌, ◌^◌, Bool, Option, List, [], ◌∷◌, ◌++◌, Bytes, nat_eq, if◌then◌else◌, ℤ}
use ncda.Base.HashMap.{HashMap}
use ncda.Wire.{signed}
use ncda.Wire.Layout.{unsigned}
use ncda.Ebpf.Syscalls.{Registers}
use ncda.Ebpf.Counters.{CaptureStats, change_at, record_ring_drop}

-- `fname` is the part of the buffer that was read: bytes from `fname_len` on are never looked at.
pub record OpenArgs : Type 0 where
  pub fname : Bytes
  pub fname_len : ℕ
  pub fname_flags : ℕ
  pub dirfd : ℤ

pub record RwArgs : Type 0 where
  pub ts : ℕ
  pub fd : ℕ
  pub kind : ℕ

pub record FdArgs : Type 0 where
  pub fd : ℕ

pub record RangeArgs : Type 0 where
  pub first_fd : ℕ
  pub last_fd : ℕ
  pub flags : ℕ

-- The maps. `events` is every record that the ring buffer took, oldest first.
pub record Maps : Type 0 where
  pub events : List Bytes
  pub open_stash : HashMap ℕ OpenArgs
  pub io_stash : HashMap ℕ RwArgs
  pub close_stash : HashMap ℕ FdArgs
  pub dup_stash : HashMap ℕ FdArgs
  pub range_stash : HashMap ℕ RangeArgs
  pub capture_stats : List CaptureStats

-- The helpers' answers during one hook: `filename` is what `bpf_probe_read_user_str_bytes` reads,
-- `stashes` and `outputs` whether a map or the ring buffer takes an entry.
pub record Context : Type 0 where
  pub cpu : ℕ
  pub pid_tgid : ℕ
  pub now : ℕ
  pub registers : Registers
  pub syscall : ℤ
  pub result : ℤ
  pub filename : Option Bytes
  pub has_scratch : Bool
  pub has_event_buf : Bool
  pub stashes : Bool
  pub outputs : Bool
  pub group_dead : ℕ
  pub taskstats_dead : Option ℤ

abbrev pub empty_maps : List CaptureStats → Maps
empty_maps cpus = record {
  events = [];
  open_stash = [];
  io_stash = [];
  close_stash = [];
  dup_stash = [];
  range_stash = [];
  capture_stats = cpus;
}

abbrev pub count : Context → (CaptureStats → CaptureStats) → Maps → Maps
count ctx f m = record m { capture_stats = change_at ctx.cpu f m.capture_stats }

-- `(pid_tgid >> 32) as u32` and `pid_tgid as u32`
abbrev pub pid_of : ℕ → ℕ
pid_of pid_tgid = (pid_tgid / 2 ^ 32) % 2 ^ 32

abbrev pub tid_of : ℕ → ℕ
tid_of pid_tgid = pid_tgid % 2 ^ 32

-- `as u32` of a register and of a result, and `as i32`
abbrev pub as_u32 : ℕ → ℕ
as_u32 n = n % 2 ^ 32

abbrev pub result_u32 : ℤ → ℕ
result_u32 result = unsigned (2 ^ 64) result % 2 ^ 32

abbrev pub as_i32 : ℕ → ℤ
as_i32 n = signed (2 ^ 32) (n % 2 ^ 32)

-- `EVENTS.output`
unfoldable pub output : Context → Bytes → Maps → Maps
output ctx bytes m =
    if ctx.outputs
    then record m { events = m.events ++ bytes ∷ [] }
    else count ctx record_ring_drop m
