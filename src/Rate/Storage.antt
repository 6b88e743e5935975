-- ===== src/Rate/Storage.antt =====
-- The storage of a rate tracker is bounded, whatever the clock does.
use ncda.Base.{ℕ, ◌-◌, ◌≤◌, List, [], ◌∷◌, length, arith}
use ncda.Rate.{
  RateBucket, RateTracker, max_time_buckets, cutoff, expire_from, expire_rate_buckets, trim_from,
  trim_rate_buckets, push_bytes, record_at, rate_bps_at, new, reset,
}

length-trim_from :
    (bs : List RateBucket) (sum : ℕ) → length (trim_from bs sum).buckets ≤ max_time_buckets
unfolding trim_from
length-trim_from [] sum = omega arith
length-trim_from (b ∷ bs) sum = ground (arith, length-trim_from bs (sum - b.bytes))

length-expire_from :
    (limit : ℕ) (bs : List RateBucket) (sum : ℕ)
    → length (expire_from limit bs sum).buckets ≤ length bs
unfolding expire_from
length-expire_from limit [] sum = omega arith
length-expire_from limit (b ∷ bs) sum = ground (arith, length-expire_from limit bs (sum - b.bytes))

length-buckets :
    (now bytes : ℕ) (t : RateTracker)
    → length t.state.buckets ≤ max_time_buckets
    → (length (record_at now bytes t).state.buckets ≤ max_time_buckets)
      × (length (rate_bps_at now t).1.state.buckets ≤ max_time_buckets)
unfolding record_at rate_bps_at expire_rate_buckets trim_rate_buckets
length-buckets now bytes t h =
    let old = length-expire_from (cutoff now t.window) t.state.buckets t.state.window_sum in
    let s = expire_rate_buckets t.state now t.window in
    let pushed = push_bytes now t.width bytes s in
    ground (arith, old, length-trim_from pushed.buckets pushed.window_sum)

-- What the program does with a tracker, at instants that need not be in order.
pub data Action : Type 0 where
  event : (now bytes : ℕ) → Action
  rate_query : (now : ℕ) → Action
  start_again : Action

abbrev pub tracker_after : List Action → RateTracker → RateTracker
tracker_after [] t = t
tracker_after (event now bytes ∷ rest) t = tracker_after rest (record_at now bytes t)
tracker_after (rate_query now ∷ rest) t = tracker_after rest (rate_bps_at now t).1
tracker_after (start_again ∷ rest) t = tracker_after rest (reset t)

length-tracker_after :
    (actions : List Action) (t : RateTracker)
    → length t.state.buckets ≤ max_time_buckets
    → length (tracker_after actions t).state.buckets ≤ max_time_buckets
length-tracker_after [] t h = h
length-tracker_after (event now bytes ∷ rest) t h =
    length-tracker_after rest (record_at now bytes t) (length-buckets now bytes t h).0
length-tracker_after (rate_query now ∷ rest) t h =
    length-tracker_after rest (rate_bps_at now t).1 (length-buckets now 0 t h).1
length-tracker_after (start_again ∷ rest) t h =
    length-tracker_after rest (reset t) (unfold reset in omega arith)

-- A new tracker has at most 64 buckets after any events, queries and resets, at whatever instants
-- these come, also when the clock runs backwards.
pub length-buckets-tracker_after :
    (window : ℕ) (actions : List Action)
    → length (tracker_after actions (new window)).state.buckets ≤ max_time_buckets
length-buckets-tracker_after window actions =
    length-tracker_after actions (new window) (unfold new in omega arith)
