-- ===== src/Events/Query.antt =====
-- The query of `EventLog` in ncda/src/rate.rs: the bytes below a path that a filter leaves. The
-- division by the window, on `f64`, is left out.
mod Totals
mod Held
mod Examples
use ncda.Base.{
  ℕ, ◌+◌, ◌%◌, ◌^◌, ◌&&◌, [], ◌∷◌, Bytes, unwrap_or, nat_beq, if◌then◌else◌, nat_eq, list_eq,
}
use ncda.Base.HashMap.{HashMap, get}
use ncda.Process.{ProcessTable}
use ncda.Filter.{FilterQuery, has_no_terms, matches_activity}
use ncda.Events.{
  ActivityKey, EventLog, EventState, empty_state, path_matches_prefix, expire_event_buckets,
}

module _ (to_lowercase : Bytes → Bytes) (query : FilterQuery) (processes : ProcessTable) where
  -- The sum over the activities that match; a `u64` wraps.
  pub filtered_bytes : Bytes → HashMap ActivityKey ℕ → ℕ
  filtered_bytes prefix [] = 0
  filtered_bytes prefix (((path, pid), bytes) ∷ rest) =
      let others = filtered_bytes prefix rest in
      if path_matches_prefix path prefix
        && matches_activity to_lowercase query path pid (get pid processes.processes)
      then (bytes + others) % 2 ^ 64
      else others

  pub bytes_for_prefix : Bytes → EventState → ℕ
  bytes_for_prefix prefix s =
      if has_no_terms query
      then unwrap_or (get prefix s.prefix_totals) 0
      else filtered_bytes prefix s.activities

  -- `rate_for_prefix_at`, and the log, whose expired buckets are gone
  pub bytes_for_prefix_at : ℕ → Bytes → EventLog → ℕ × EventLog
  bytes_for_prefix_at now prefix log =
      let s = expire_event_buckets log.state now log.window in
      if nat_beq log.window 0
      then (0, record log { state = empty_state })
      else (bytes_for_prefix prefix s, record log { state = s })
