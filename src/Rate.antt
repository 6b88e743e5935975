-- ===== src/Rate.antt =====
-- `RateTracker` of ncda/src/rate.rs: the bytes of a rolling window, in at most 64 buckets. An
-- `Instant` is the nanoseconds since the earliest one, a `Duration` is its nanoseconds. The queries
-- return the bytes of the window; the division by its length, on `f64`, is left out.
mod Spans
mod Window
pub mod Bounds
pub mod Storage
mod Examples
use ncda.Base.{
  is_some, unwrap_or, ℕ, ◌+◌, ◌-◌, ◌*◌, ◌/◌, min, max, Bool, true, false, ◌&&◌, ◌||◌, Option, none,
  some, List, [], ◌∷◌, ◌++◌, length, ltb, leb, nat_beq, if◌then◌else◌, u64_max, saturating_add,
  saturating_sub,
}

abbrev pub max_time_buckets : ℕ
max_time_buckets = 64

-- `Instant::checked_sub` and `Instant::checked_duration_since`
abbrev pub checked_sub : ℕ → ℕ → Option ℕ
checked_sub now d = if ltb now d then none else some (now - d)

abbrev pub div_ceil : ℕ → ℕ → ℕ
div_ceil a b = (a + (b - 1)) / b

-- A bucket takes events for a 63rd of the window, rounded up.
unfoldable pub bucket_width : ℕ → ℕ
bucket_width window =
    if nat_beq window 0 then 0 else max (min (div_ceil window (max_time_buckets - 1)) u64_max) 1

-- Where the window begins; where no such instant is, all but the present is expired.
abbrev pub cutoff : ℕ → ℕ → ℕ
cutoff now window = unwrap_or (checked_sub now window) now

-- `now.checked_duration_since(started_at).is_some_and(|elapsed| elapsed < width)`
abbrev pub is_within : ℕ → ℕ → ℕ → Bool
is_within now started_at width = leb started_at now && ltb (now - started_at) width

-- `back_mut`, where `f` says what becomes of the last element, if it is taken.
unfoldable pub update_back {ℓ} : {A : Type ℓ} → (A → Option A) → List A → Option (List A)
update_back f [] = none
update_back f (x ∷ []) = elim (f x) [ none ↦ none | some y ↦ some (y ∷ []) ]
update_back f (x ∷ x' ∷ xs) = elim (update_back f (x' ∷ xs)) [
  | none ↦ none
  | some ys ↦ some (x ∷ ys)
]

pub record RateBucket : Type 0 where
  pub started_at : ℕ
  pub latest_at : ℕ
  pub bytes : ℕ

pub record RateState : Type 0 where
  -- the front of the queue first
  pub buckets : List RateBucket
  pub window_sum : ℕ

pub record RateTracker : Type 0 where
  pub window : ℕ
  pub width : ℕ
  pub state : RateState

abbrev pub empty_state : RateState
empty_state = record { buckets = []; window_sum = 0 }

pub new : ℕ → RateTracker
new window = record { window = window; width = bucket_width window; state = empty_state }

pub reset : RateTracker → RateTracker
reset t = record t { state = empty_state }

-- The loop of `expire_rate_buckets`, from a queue and a sum.
pub expire_from : ℕ → List RateBucket → ℕ → RateState
expire_from limit [] sum = record { buckets = []; window_sum = sum }
expire_from limit (b ∷ bs) sum =
    let rest = expire_from limit bs (saturating_sub sum b.bytes) in
    if ltb b.latest_at limit then rest else record { buckets = b ∷ bs; window_sum = sum }

pub expire_rate_buckets : RateState → ℕ → ℕ → RateState
expire_rate_buckets s now window = expire_from (cutoff now window) s.buckets s.window_sum

-- The loop of `trim_rate_buckets`.
pub trim_from : List RateBucket → ℕ → RateState
trim_from [] sum = record { buckets = []; window_sum = sum }
trim_from (b ∷ bs) sum =
    let rest = trim_from bs (saturating_sub sum b.bytes) in
    if ltb max_time_buckets (length (b ∷ bs))
    then rest
    else record { buckets = b ∷ bs; window_sum = sum }

pub trim_rate_buckets : RateState → RateState
trim_rate_buckets s = trim_from s.buckets s.window_sum

-- The last bucket takes the bytes if it is not yet a bucket's width old.
abbrev pub add_to_bucket : ℕ → ℕ → ℕ → RateBucket → Option RateBucket
add_to_bucket now width bytes b =
    if is_within now b.started_at width
    then some (record b { latest_at = now; bytes = saturating_add b.bytes bytes })
    else none

abbrev pub new_bucket : ℕ → ℕ → RateBucket
new_bucket now bytes = record { started_at = now; latest_at = now; bytes = bytes }

pub push_bytes : ℕ → ℕ → ℕ → RateState → RateState
push_bytes now width bytes s = record {
  buckets =
      unwrap_or (update_back (add_to_bucket now width bytes) s.buckets)
        (s.buckets ++ new_bucket now bytes ∷ []);
  window_sum = saturating_add s.window_sum bytes;
}

pub record_at : ℕ → ℕ → RateTracker → RateTracker
record_at now bytes t =
    let state = expire_rate_buckets t.state now t.window in
    if nat_beq t.window 0 || nat_beq bytes 0
    then record t { state = state }
    else record t { state = trim_rate_buckets (push_bytes now t.width bytes state) }

-- The bytes of the window, and the tracker, whose expired buckets are gone.
pub rate_bps_at : ℕ → RateTracker → ℕ × RateTracker
rate_bps_at now t =
    let state = expire_rate_buckets t.state now t.window in
    if nat_beq t.window 0
    then (0, record t { state = empty_state })
    else (state.window_sum, record t { state = state })
