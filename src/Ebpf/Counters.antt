-- ===== src/Ebpf/Counters.antt =====
-- `CaptureStats` of ncda-common/src/lib.rs: the counters that ncda-ebpf/src/main.rs keeps for each
-- CPU, and `capture_stats` of ncda/src/bpf.rs, which sums them.
use ncda.Base.{ℕ, List, [], ◌∷◌, zero, suc, saturating_add, nat_beq, if◌then◌else◌}
use ncda.Wire.{event_read}

pub record CaptureStats : Type 0 where
  pub ring_output_drops : ℕ
  pub stash_update_failures : ℕ
  pub scratch_failures : ℕ
  pub read_entries : ℕ
  pub write_entries : ℕ
  pub read_exits : ℕ
  pub write_exits : ℕ
  pub compat_syscalls_ignored : ℕ

abbrev pub no_stats : CaptureStats
no_stats = record {
  ring_output_drops = 0;
  stash_update_failures = 0;
  scratch_failures = 0;
  read_entries = 0;
  write_entries = 0;
  read_exits = 0;
  write_exits = 0;
  compat_syscalls_ignored = 0;
}

-- `CAPTURE_STATS.get_ptr_mut(0)` on a CPU, and a change there.
abbrev pub change_at : ℕ → (CaptureStats → CaptureStats) → List CaptureStats → List CaptureStats
change_at cpu f [] = []
change_at zero f (s ∷ rest) = f s ∷ rest
change_at (suc cpu) f (s ∷ rest) = s ∷ change_at cpu f rest

unfoldable pub record_ring_drop : CaptureStats → CaptureStats
record_ring_drop s = record s { ring_output_drops = saturating_add s.ring_output_drops 1 }

unfoldable pub record_stash_failure : CaptureStats → CaptureStats
record_stash_failure s = record s {
  stash_update_failures = saturating_add s.stash_update_failures 1;
}

unfoldable pub record_scratch_failure : CaptureStats → CaptureStats
record_scratch_failure s = record s { scratch_failures = saturating_add s.scratch_failures 1 }

unfoldable pub record_compat_syscall : CaptureStats → CaptureStats
record_compat_syscall s = record s {
  compat_syscalls_ignored = saturating_add s.compat_syscalls_ignored 1;
}

unfoldable pub record_io_entry : ℕ → CaptureStats → CaptureStats
record_io_entry kind s =
    if nat_beq kind event_read
    then record s { read_entries = saturating_add s.read_entries 1 }
    else record s { write_entries = saturating_add s.write_entries 1 }

unfoldable pub record_io_exit : ℕ → CaptureStats → CaptureStats
record_io_exit kind s =
    if nat_beq kind event_read
    then record s { read_exits = saturating_add s.read_exits 1 }
    else record s { write_exits = saturating_add s.write_exits 1 }

-- One round of the fold of `capture_stats`.
unfoldable pub add_stats : CaptureStats → CaptureStats → CaptureStats
add_stats total value = record {
  ring_output_drops = saturating_add total.ring_output_drops value.ring_output_drops;
  stash_update_failures = saturating_add total.stash_update_failures value.stash_update_failures;
  scratch_failures = saturating_add total.scratch_failures value.scratch_failures;
  read_entries = saturating_add total.read_entries value.read_entries;
  write_entries = saturating_add total.write_entries value.write_entries;
  read_exits = saturating_add total.read_exits value.read_exits;
  write_exits = saturating_add total.write_exits value.write_exits;
  compat_syscalls_ignored =
      saturating_add total.compat_syscalls_ignored value.compat_syscalls_ignored;
}

unfoldable pub capture_from : CaptureStats → List CaptureStats → CaptureStats
capture_from total [] = total
capture_from total (value ∷ rest) = capture_from (add_stats total value) rest

unfoldable pub capture_stats : List CaptureStats → CaptureStats
capture_stats cpus = capture_from no_stats cpus
