-- ===== src/Rate/Bounds.antt =====
-- The bytes that a rate tracker reports are those of its window, up to one bucket's width.
use ncda.Base.{
  ℕ, ◌+◌, ◌-◌, ◌*◌, ◌≤◌, ◌<◌, ◌≡◌, refl, ◌∙◌, false, List, [], ◌∷◌, nat_beq, nat_beq_iff, arith,
  saturating_add, u64_max, Bool-cases, inl, inr,
}
use ncda.Rate.{
  RateBucket, RateState, RateTracker, bucket_width, cutoff, expire_rate_buckets, trim_rate_buckets,
  push_bytes, record_at, rate_bps_at, new,
}
use ncda.Rate.Spans.{History, since, since_antitone, sum_bytes, Spans, pushed-Spans}
use ncda.Rate.Window.{
  Tracks, bucket_width_bounds, Spans-later, IsExpired, LatestFrom, expire_from-IsExpired,
  pushed_fresh, length-le, trim_from_short,
}

Spans-zero :
    (h : History) (clock now width : ℕ) (bs : List RateBucket)
    → Spans h clock width bs
    → Spans ((now, 0) ∷ h) clock width bs
unfolding since
Spans-zero h clock now width [] s = tt
Spans-zero h clock now width (b ∷ bs) s = (
  record {
    ordered = s.0.ordered;
    narrow = s.0.narrow;
    past = s.0.past;
    since_start = ground (arith, s.0.since_start);
    since_end = ground (arith, s.0.since_end);
  },
  s.1,
  Spans-zero h clock now width bs s.2,
)

sum_bytes-le :
    (h : History) (clock width : ℕ) (bs : List RateBucket)
    → Spans h clock width bs
    → sum_bytes bs ≤ since 0 h
unfolding sum_bytes
sum_bytes-le h clock width [] s = omega arith
sum_bytes-le h clock width (b ∷ bs) s =
    omega (arith, s.0.since_start, since_antitone 0 b.started_at h (omega arith))

fresh_sum :
    (h : History) (clock width limit : ℕ) (bs : List RateBucket)
    → Spans h clock width bs
    → LatestFrom limit bs
    → sum_bytes bs ≤ since (limit + 1 - width) h
unfolding sum_bytes
fresh_sum h clock width limit [] s f = omega arith
fresh_sum h clock width limit (b ∷ bs) s f = omega (
  arith,
  s.0.since_start,
  s.0.narrow,
  since_antitone (limit + 1 - width) b.started_at h (omega (arith, s.0.narrow)),
)

module _ (clock now : ℕ) (t : RateTracker) (h : History) (k : Tracks clock t h)
    (monotone : clock ≤ now) (started : t.window ≤ now) where
  expired_lem :
      IsExpired h clock t.width (now - t.window) (expire_rate_buckets t.state now t.window)
  unfolding expire_rate_buckets
  expired_lem =
      let limit_eq : cutoff now t.window ≡ now - t.window = ground arith in
      rw limit_eq (
        expire_from-IsExpired h clock t.width (now - t.window) t.state.buckets t.state.window_sum
          k.spans k.summed
          (omega (arith, k.covered, since_antitone (clock - t.window) (now - t.window) h)))

  pushed_state :
      (bytes : ℕ) (s : RateState)
      → IsExpired h clock t.width (now - t.window) s
      → sum_bytes s.buckets + bytes ≤ u64_max
      → Tracks now
          (record t { state = trim_rate_buckets (push_bytes now t.width bytes s) })
          ((now, bytes) ∷ h)
  unfolding trim_rate_buckets push_bytes
  pushed_state bytes s e fits =
      let b = bucket_width_bounds t.window k.positive k.small in
      let wide : 0 < t.width = rw k.width_eq b.0 in
      let (spans, total) =
        pushed-Spans h clock now t.width bytes monotone wide s.buckets e.spans
          (omega (arith, e.covered, since_antitone (now - t.window) now h)) fits in
      let short =
        length-le _ now t.width t.window _ (rw k.width_eq b.1) spans
          (pushed_fresh now t.width bytes (now - t.window) s.buckets (omega arith) e.fresh) in
      rw (trim_from_short _ (saturating_add s.window_sum bytes) short) (record {
        width_eq = k.width_eq;
        positive = k.positive;
        small = k.small;
        spans = spans;
        summed = omega (arith, e.summed);
        covered = unfold since in ground (arith, total, e.covered);
      })

  idle_state :
      (s : RateState)
      → IsExpired h clock t.width (now - t.window) s
      → Tracks now (record t { state = s }) ((now, 0) ∷ h)
  unfolding since
  idle_state s e = record {
    width_eq = k.width_eq;
    positive = k.positive;
    small = k.small;
    spans =
        Spans-later ((now, 0) ∷ h) clock now t.width s.buckets monotone
          (Spans-zero h clock now t.width s.buckets e.spans);
    summed = e.summed;
    covered = ground (arith, e.covered);
  }

  record_at-Tracks :
      (bytes : ℕ)
      → since 0 h + bytes ≤ u64_max
      → Tracks now (record_at now bytes t) ((now, bytes) ∷ h)
  unfolding record_at
  record_at-Tracks bytes fits =
      let e = expired_lem in
      let w : nat_beq t.window 0 ≡ false = ground (arith, k.positive) in
      elim (Bool-cases (nat_beq bytes 0)) [
        | inl z ↦ rw (w, z, (nat_beq_iff bytes 0).0 z) (idle_state _ e)
        | inr nz ↦
            rw (w, nz)
              (pushed_state bytes _ e (omega (arith, sum_bytes-le h clock t.width _ e.spans)))
      ]

  -- The bytes of a query lie between those of the window and those of the window and one bucket.
  rate_bps_at_bounds :
      (since (now - t.window) h ≤ (rate_bps_at now t).0)
      × ((rate_bps_at now t).0 ≤ since (now - t.window + 1 - t.width) h)
  unfolding rate_bps_at
  rate_bps_at_bounds =
      let e = expired_lem in
      let w : nat_beq t.window 0 ≡ false = ground (arith, k.positive) in
      rw w (
        omega (arith, e.covered, e.summed),
        omega (arith, e.summed, fresh_sum h clock t.width (now - t.window) _ e.spans e.fresh),
      )

-- A tracker after the events of a history, in the order in which they came.
unfoldable pub run : ℕ → History → RateTracker
run window [] = new window
run window ((now, bytes) ∷ h) = record_at now bytes (run window h)

-- The clock does not run backwards, and the window of every event lies on it.
abbrev pub IsMonotone : ℕ → ℕ → History → Type 0
IsMonotone window clock [] = Unit
IsMonotone window clock ((now, bytes) ∷ h) =
    (now ≤ clock) × (window ≤ now) × IsMonotone window now h

abbrev clock_of : History → ℕ
clock_of [] = 0
clock_of ((now, bytes) ∷ h) = now

window-record_at : (now bytes : ℕ) (t : RateTracker) → (record_at now bytes t).window ≡ t.window
unfolding record_at
window-record_at now bytes t = ground arith

window-run : (window : ℕ) (h : History) → (run window h).window ≡ window
unfolding run new
window-run window [] = refl
window-run window ((now, bytes) ∷ h) =
    window-record_at now bytes (run window h) ∙ window-run window h

clock_of-le : (window clock : ℕ) (h : History) → IsMonotone window clock h → clock_of h ≤ clock
clock_of-le window clock [] m = omega arith
clock_of-le window clock ((now, bytes) ∷ h) m = m.0

since_zero : (now bytes : ℕ) (h : History) → since 0 ((now, bytes) ∷ h) ≡ bytes + since 0 h
unfolding since
since_zero now bytes h = ground arith

run-Tracks :
    (window clock : ℕ) (h : History)
    → 0 < window
    → window ≤ 63 * u64_max
    → IsMonotone window clock h
    → since 0 h ≤ u64_max
    → Tracks (clock_of h) (run window h) h
unfolding run new since sum_bytes
run-Tracks window clock [] positive small m fits = record {
  width_eq = refl;
  positive = positive;
  small = small;
  spans = tt;
  summed = refl;
  covered = omega arith;
}
run-Tracks window clock ((now, bytes) ∷ h) positive small m fits =
    let total = since_zero now bytes h in
    record_at-Tracks (clock_of h) now (run window h) h
      (run-Tracks window now h positive small m.2 (omega (arith, total)))
      (clock_of-le window now h m.2) (rw (window-run window h) m.1) bytes (omega (arith, total))

-- What a rate query reports, for events of at most `u64::MAX` bytes in all, on a clock that does
-- not run backwards: at least the bytes of every event in the window, and at most those of the
-- window and one bucket's width before it. So the limit of 64 buckets loses nothing.
pub rate_bps_at-run :
    (window now : ℕ) (h : History)
    → 0 < window
    → window ≤ 63 * u64_max
    → window ≤ now
    → IsMonotone window now h
    → since 0 h ≤ u64_max
    → (since (now - window) h ≤ (rate_bps_at now (run window h)).0)
      × ((rate_bps_at now (run window h)).0 ≤ since (now - window + 1 - bucket_width window) h)
rate_bps_at-run window now h positive small begun m fits =
    let k = run-Tracks window now h positive small m fits in
    let e = window-run window h in
    let bounds =
      rate_bps_at_bounds (clock_of h) now (run window h) h k (clock_of-le window now h m)
        (rw e begun) in
    ground (arith, bounds, e, k.width_eq)
