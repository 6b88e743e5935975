-- ===== src/Rate/Examples.antt =====
-- Runs of the rate tracker at concrete inputs.
use ncda.Base.{◌+◌, ◌-◌, ◌≤◌, ◌≡◌, refl, List, [], ◌∷◌, length, arith}
use ncda.Rate.{
  bucket_width, update_back, expire_from, expire_rate_buckets, trim_from, trim_rate_buckets,
  push_bytes, record_at, rate_bps_at, new, max_time_buckets,
}
use ncda.Rate.Spans.{History, since}
use ncda.Rate.Bounds
use ncda.Rate.Storage
use ncda.Rate.Storage.{Action, event, rate_query, start_again, tracker_after}
use ncda.Rate.Bounds.{run}

program : Unit {0}
unfolding bucket_width update_back expire_from expire_rate_buckets trim_from trim_rate_buckets
    push_bytes record_at rate_bps_at new run since
program = tt

-- Two events share a bucket, a third starts one.
abbrev history : History
history = (1500, 4) ∷ (1010, 2) ∷ (1000, 1) ∷ []

all_reported : (rate_bps_at 1600 (run 630 history)).0 ≡ 7
unfolding program
all_reported = refl

-- The first bucket is dropped as a whole, once its latest event leaves the window.
one_reported : (rate_bps_at 1641 (run 630 history)).0 ≡ 4
unfolding program
one_reported = refl

-- The expired event at 1000 is still reported with its bucket.
late_reported : (rate_bps_at 1639 (run 630 ((1009, 2) ∷ (1000, 1) ∷ []))).0 ≡ 3
unfolding program
late_reported = refl

rate_bps_at-run_example :
    (since (1639 - 630) history ≤ (rate_bps_at 1639 (run 630 history)).0)
    × ((rate_bps_at 1639 (run 630 history)).0 ≤ since (1639 - 630 + 1 - bucket_width 630) history)
unfolding program
rate_bps_at-run_example =
    Bounds.rate_bps_at-run 630 1639 history (omega arith) (omega arith) (omega arith) (omega arith)
      (omega arith)

-- The clock steps back before the last event.
abbrev actions : List Action
actions = event 1000 3 ∷ rate_query 1200 ∷ start_again ∷ event 5000 4 ∷ event 4000 1 ∷ []

length-buckets-tracker_after_example :
    length (tracker_after actions (new 630)).state.buckets ≤ max_time_buckets
length-buckets-tracker_after_example = Storage.length-buckets-tracker_after 630 actions
