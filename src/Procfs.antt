-- ===== src/Procfs.antt =====
-- What the program reads of procfs while it handles one event: the targets of symbolic links and the
-- contents of files, `none` where the read fails. The kernel decides these; a model takes them as an
-- argument.
use ncda.Base.{ℕ, Option, none, Bytes, ℤ, pos, negsuc}

pub record Procfs : Type 0 where
  -- /proc/{pid}/cwd, /proc/{pid}/fd/{fd} and /proc/{pid}/root
  pub cwd : ℕ → Option Bytes
  pub fd : ℕ → ℕ → Option Bytes
  pub root : ℕ → Option Bytes
  -- the text of /proc/{pid}/comm and /proc/{pid}/cgroup
  pub comm : ℕ → Option Bytes
  pub cgroup : ℕ → Option Bytes

-- A directory's descriptor: procfs names descriptors by natural numbers alone.
abbrev pub dirfd_link : Procfs → ℕ → ℤ → Option Bytes
dirfd_link proc pid (pos n) = proc.fd pid n
dirfd_link proc pid (negsuc n) = none
