-- ===== src/Events/Storage.antt =====
-- The memory of the `EventLog` of ncda/src/rate.rs.
use ncda.Base.{ℕ, ◌≤◌, List, [], ◌∷◌, Bytes, length, arith}
use ncda.Rate.{max_time_buckets, cutoff}
use ncda.Events.{
  EventBucket, EventState, EventLog, expire_from, trim_from, record_at, record_activity,
  expire_event_buckets, remove_bucket,
}

length-trim_from :
    (bs : List EventBucket) (s : EventState) → length (trim_from bs s).buckets ≤ max_time_buckets
unfolding trim_from
length-trim_from [] s = omega arith
length-trim_from (b ∷ bs) s =
    ground (arith, length-trim_from bs (remove_bucket b (record s { buckets = bs })))

length-expire_from :
    (limit : ℕ) (bs : List EventBucket) (s : EventState)
    → length (expire_from limit bs s).buckets ≤ length bs
unfolding expire_from
length-expire_from limit [] s = omega arith
length-expire_from limit (b ∷ bs) s =
    ground (arith, length-expire_from limit bs (remove_bucket b (record s { buckets = bs })))

-- Recording leaves at most 64 buckets in a log that has at most 64, however the times run.
length-event_buckets :
    (now : ℕ) (path : Bytes) (pid bytes : ℕ) (log : EventLog)
    → length log.state.buckets ≤ max_time_buckets
    → length (record_at now path pid bytes log).state.buckets ≤ max_time_buckets
unfolding record_at
length-event_buckets now path pid bytes log h =
    let old = length-expire_from (cutoff now log.window) log.state.buckets log.state in
    let s =
      record_activity now log.width (path, pid) bytes
        (expire_event_buckets log.state now log.window) in
    ground (arith, h, old, length-trim_from s.buckets s)
