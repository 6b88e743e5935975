-- ===== src/Ebpf/Syscalls.antt =====
-- `mod arch` of ncda-ebpf/src/main.rs, for both architectures, and what the program does by it: the
-- system calls that it knows and the test of the native ABI.
use ncda.Base.{
  ℕ, ◌/◌, ◌%◌, ◌^◌, Bool, not, ◌&&◌, ◌||◌, Option, none, some, unwrap_or, nat_beq, if◌then◌else◌, ℤ,
  pos, negsuc, int_beq,
}
use ncda.Wire.{signed, event_read, event_write}

pub data Target : Type 0 where
  x86_64 aarch64 : Target

pub record Arch : Type 0 where
  pub target : Target
  pub read : ℤ
  pub write : ℤ
  pub close : ℤ
  pub pread64 : ℤ
  pub pwrite64 : ℤ
  pub readv : ℤ
  pub writev : ℤ
  pub dup : ℤ
  pub dup2 : ℤ
  pub dup3 : ℤ
  pub fcntl : ℤ
  pub close_range : ℤ
  pub preadv : ℤ
  pub pwritev : ℤ
  pub preadv2 : ℤ
  pub pwritev2 : ℤ
  pub openat : ℤ
  pub openat2 : ℤ

abbrev pub arch_x86_64 : Arch
arch_x86_64 = record {
  target = x86_64;
  read = pos 0;
  write = pos 1;
  close = pos 3;
  pread64 = pos 17;
  pwrite64 = pos 18;
  readv = pos 19;
  writev = pos 20;
  dup = pos 32;
  dup2 = pos 33;
  dup3 = pos 292;
  fcntl = pos 72;
  close_range = pos 436;
  preadv = pos 295;
  pwritev = pos 296;
  preadv2 = pos 327;
  pwritev2 = pos 328;
  openat = pos 257;
  openat2 = pos 437;
}

abbrev pub arch_aarch64 : Arch
arch_aarch64 = record {
  target = aarch64;
  read = pos 63;
  write = pos 64;
  close = pos 57;
  pread64 = pos 67;
  pwrite64 = pos 68;
  readv = pos 65;
  writev = pos 66;
  dup = pos 23;
  dup2 = negsuc 0;
  dup3 = pos 24;
  fcntl = pos 25;
  close_range = pos 436;
  preadv = pos 69;
  pwritev = pos 70;
  preadv2 = pos 286;
  pwritev2 = pos 287;
  openat = pos 56;
  openat2 = pos 437;
}

abbrev pub arch_of : Target → Arch
arch_of x86_64 = arch_x86_64
arch_of aarch64 = arch_aarch64

-- What the kernel's memory gives: the status word of the task, or the saved `pstate`, and the saved
-- number of the system call. `none` where the read fails.
pub record Registers : Type 0 where
  pub status : Option ℕ
  pub pstate : Option ℕ
  pub number : Option ℕ
  pub arguments : ℕ → Option ℕ

unfoldable pub syscall_arg : Registers → ℕ → ℕ
syscall_arg regs argument = unwrap_or (regs.arguments argument) 0

unfoldable pub syscall_number : Target → Registers → ℤ
syscall_number x86_64 regs = elim regs.number [ none ↦ negsuc 0 | some n ↦ signed (2 ^ 64) n ]
syscall_number aarch64 regs = elim regs.number [
  | none ↦ negsuc 0
  | some n ↦ signed (2 ^ 32) (n % 2 ^ 32)
]

-- Bit `k` of an `i64`.
abbrev has_bit : ℕ → ℤ → Bool
has_bit k (pos n) = nat_beq ((n / 2 ^ k) % 2) 1
has_bit k (negsuc n) = nat_beq ((n / 2 ^ k) % 2) 0

abbrev x32_syscall_bit : ℕ
x32_syscall_bit = 30

abbrev ts_compat : ℕ
ts_compat = 2

abbrev psr_mode32_bit : ℕ
psr_mode32_bit = 16

unfoldable pub native_syscall_abi : Target → Registers → ℤ → Bool
native_syscall_abi x86_64 regs syscall =
    not (has_bit x32_syscall_bit syscall)
    && nat_beq ((unwrap_or regs.status ts_compat / ts_compat) % 2) 0
native_syscall_abi aarch64 regs syscall =
    nat_beq ((unwrap_or regs.pstate psr_mode32_bit / psr_mode32_bit) % 2) 0

unfoldable pub io_kind : Arch → ℤ → Option ℕ
io_kind arch syscall =
    if int_beq syscall arch.read
      || int_beq syscall arch.pread64
      || int_beq syscall arch.readv
      || int_beq syscall arch.preadv
      || int_beq syscall arch.preadv2
    then some event_read
    else if int_beq syscall arch.write
        || int_beq syscall arch.pwrite64
        || int_beq syscall arch.writev
        || int_beq syscall arch.pwritev
        || int_beq syscall arch.pwritev2
    then some event_write
    else none
