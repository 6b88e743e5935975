-- ===== src/Rate/Window.antt =====
-- A rate tracker against the history of its events: each operation keeps the buckets true to it.
use ncda.Base.{
  ℕ, ◌-◌, ◌*◌, ◌≤◌, ◌<◌, ◌≡◌, refl, suc, List, [], ◌∷◌, length, ltb, arith, u64_max, Bool-cases,
  inl, inr,
}
use ncda.Rate.{
  RateBucket, RateState, RateTracker, bucket_width, max_time_buckets, update_back, expire_from,
  trim_from,
}
use ncda.Rate.Spans.{
  History, since, since_antitone, sum_bytes, Spans, Spans-length, pushed, pushed_cons,
}

pub bucket_width_bounds :
    (window : ℕ)
    → 0 < window
    → window ≤ 63 * u64_max
    → (0 < bucket_width window) × (window ≤ 63 * bucket_width window)
unfolding bucket_width
bucket_width_bounds window positive small = ground arith

-- What holds of a tracker whose last operation was at `clock`, after the events of `h`.
pub record Tracks (clock : ℕ) (t : RateTracker) (h : History) : Type 0 where
  pub width_eq : t.width ≡ bucket_width t.window
  pub positive : 0 < t.window
  pub small : t.window ≤ 63 * u64_max
  pub spans : Spans h clock t.width t.state.buckets
  pub summed : t.state.window_sum ≡ sum_bytes t.state.buckets
  pub covered : since (clock - t.window) h ≤ sum_bytes t.state.buckets

pub Spans-later :
    (h : History) (clock now width : ℕ) (bs : List RateBucket)
    → clock ≤ now
    → Spans h clock width bs
    → Spans h now width bs
Spans-later h clock now width [] p s = tt
Spans-later h clock now width (b ∷ bs) p s = (
  record {
    ordered = s.0.ordered;
    narrow = s.0.narrow;
    past = omega arith;
    since_start = s.0.since_start;
    since_end = s.0.since_end;
  },
  s.1,
  Spans-later h clock now width bs p s.2,
)

-- The front bucket is not expired.
abbrev pub LatestFrom : ℕ → List RateBucket → Type 0
LatestFrom limit [] = Unit
LatestFrom limit (b ∷ bs) = limit ≤ b.latest_at

pub record IsExpired (h : History) (clock width limit : ℕ) (s : RateState) : Type 0 where
  pub spans : Spans h clock width s.buckets
  pub summed : s.window_sum ≡ sum_bytes s.buckets
  pub covered : since limit h ≤ sum_bytes s.buckets
  pub fresh : LatestFrom limit s.buckets

pub expire_from-IsExpired :
    (h : History) (clock width limit : ℕ) (bs : List RateBucket) (sum : ℕ)
    → Spans h clock width bs
    → sum ≡ sum_bytes bs
    → since limit h ≤ sum_bytes bs
    → IsExpired h clock width limit (expire_from limit bs sum)
unfolding expire_from sum_bytes
expire_from-IsExpired h clock width limit [] sum s e c = record {
  spans = tt;
  summed = e;
  covered = c;
  fresh = tt;
}
expire_from-IsExpired h clock width limit (b ∷ bs) sum s e c =
    elim (Bool-cases (ltb b.latest_at limit)) [
      | inl old ↦ rw old (
          expire_from-IsExpired h clock width limit bs (sum - b.bytes) s.2 (omega arith)
            (ground (arith, since_antitone (suc b.latest_at) limit h, s.0.since_end)))
      | inr kept ↦ rw kept (record { spans = s; summed = e; covered = c; fresh = ground arith })
    ]

pub pushed_fresh :
    (now width bytes limit : ℕ) (bs : List RateBucket)
    → limit ≤ now
    → LatestFrom limit bs
    → LatestFrom limit (pushed now width bytes bs)
unfolding update_back
pushed_fresh now width bytes limit [] l f = l
pushed_fresh now width bytes limit (b ∷ []) l f = ground arith
pushed_fresh now width bytes limit (b ∷ b' ∷ bs) l f = rw (pushed_cons now width bytes b b' bs) f

-- No more than 64 unexpired buckets fit: the limit of storage never costs a bucket.
pub length-le :
    (h : History) (now width window : ℕ) (bs : List RateBucket)
    → window ≤ 63 * width
    → Spans h now width bs
    → LatestFrom (now - window) bs
    → length bs ≤ max_time_buckets
length-le h now width window [] small s f = omega arith
length-le h now width window (b ∷ []) small s f = omega arith
length-le h now width window (b ∷ b' ∷ bs) small s f =
    grind (arith, Spans-length h now width b' bs s.2)

pub trim_from_short :
    (bs : List RateBucket) (sum : ℕ)
    → length bs ≤ max_time_buckets
    → trim_from bs sum ≡ record { buckets = bs; window_sum = sum }
unfolding trim_from
trim_from_short [] sum p = refl
trim_from_short (b ∷ bs) sum p = ground arith
