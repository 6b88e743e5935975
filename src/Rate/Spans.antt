-- ===== src/Rate/Spans.antt =====
-- The buckets of a rate tracker against the history of its events.
use ncda.Base.{
  unwrap_or, ℕ, ◌+◌, ◌*◌, ◌≤◌, ◌<◌, ◌≡◌, suc, List, [], ◌∷◌, ◌++◌, length, leb, if◌then◌else◌,
  arith, u64_max,
}
use ncda.Rate.{RateBucket, add_to_bucket, new_bucket, update_back}

-- The events so far, the newest first: when, and how many bytes.
abbrev pub History : Type 0
History = List (ℕ × ℕ)

-- The bytes at or after an instant.
unfoldable pub since : ℕ → History → ℕ
since x [] = 0
since x ((t, b) ∷ h) = (if leb x t then b else 0) + since x h

pub since_antitone : (x y : ℕ) (h : History) → x ≤ y → since y h ≤ since x h
unfolding since
since_antitone x y [] p = omega arith
since_antitone x y ((t, b) ∷ h) p = ground (arith, since_antitone x y h p)

unfoldable pub sum_bytes : List RateBucket → ℕ
sum_bytes [] = 0
sum_bytes (b ∷ bs) = b.bytes + sum_bytes bs

-- What one bucket says: the events since its start are its own and those of the later buckets.
pub record IsSpan (h : History) (clock width : ℕ) (b : RateBucket) (later : ℕ) : Type 0 where
  pub ordered : b.started_at ≤ b.latest_at
  pub narrow : b.latest_at < b.started_at + width
  pub past : b.latest_at ≤ clock
  pub since_start : since b.started_at h ≡ b.bytes + later
  pub since_end : since (suc b.latest_at) h ≡ later

-- A bucket starts a width after the one before it, at the earliest.
abbrev pub StartsFrom : ℕ → List RateBucket → Type 0
StartsFrom x [] = Unit
StartsFrom x (b ∷ bs) = x ≤ b.started_at

abbrev pub Spans : History → ℕ → ℕ → List RateBucket → Type 0
Spans h clock width [] = Unit
Spans h clock width (b ∷ bs) =
    IsSpan h clock width b (sum_bytes bs)
    × StartsFrom (b.started_at + width) bs
    × Spans h clock width bs

-- Buckets that start a width apart, up to the present: so many fit.
pub Spans-length :
    (h : History) (clock width : ℕ) (b : RateBucket) (bs : List RateBucket)
    → Spans h clock width (b ∷ bs)
    → b.started_at + length bs * width ≤ clock
Spans-length h clock width b [] s = omega arith
Spans-length h clock width b (b' ∷ bs) s = grind (arith, Spans-length h clock width b' bs s.2)

-- The queue after an event.
abbrev pub pushed : ℕ → ℕ → ℕ → List RateBucket → List RateBucket
pushed now width bytes bs =
    unwrap_or (update_back (add_to_bucket now width bytes) bs) (bs ++ new_bucket now bytes ∷ [])

pub pushed_cons :
    (now width bytes : ℕ) (b b' : RateBucket) (bs : List RateBucket)
    → pushed now width bytes (b ∷ b' ∷ bs) ≡ b ∷ pushed now width bytes (b' ∷ bs)
unfolding update_back
pushed_cons now width bytes b b' bs = ground arith

module _ (h : History) (clock now width bytes : ℕ) (later_now : clock ≤ now) where
  -- An event after the end of a bucket adds to what is later.
  IsSpan-add :
      (b : RateBucket) (later : ℕ)
      → IsSpan h clock width b later
      → b.latest_at < now
      → IsSpan ((now, bytes) ∷ h) now width b (later + bytes)
  unfolding since
  IsSpan-add b later s after = ground arith

  module _ (wide : 0 < width) where
    pushed_one :
        (b : RateBucket)
        → IsSpan h clock width b 0
        → b.bytes + bytes ≤ u64_max
        → Spans ((now, bytes) ∷ h) now width (pushed now width bytes (b ∷ []))
          × (sum_bytes (pushed now width bytes (b ∷ [])) ≡ b.bytes + bytes)
    unfolding since update_back sum_bytes
    pushed_one b s fits = ground (
      arith,
      since_antitone (suc b.latest_at) now h,
      since_antitone (suc b.latest_at) (suc now) h,
    )

    pushed_starts :
        (x : ℕ) (b : RateBucket) (bs : List RateBucket)
        → x ≤ b.started_at
        → StartsFrom x (pushed now width bytes (b ∷ bs))
    unfolding update_back
    pushed_starts x b [] p = ground arith
    pushed_starts x b (b' ∷ bs) p = rw (pushed_cons now width bytes b b' bs) p

    pushed_from :
        (b : RateBucket) (bs : List RateBucket)
        → Spans h clock width (b ∷ bs)
        → sum_bytes (b ∷ bs) + bytes ≤ u64_max
        → Spans ((now, bytes) ∷ h) now width (pushed now width bytes (b ∷ bs))
          × (sum_bytes (pushed now width bytes (b ∷ bs)) ≡ sum_bytes (b ∷ bs) + bytes)
    unfolding sum_bytes
    pushed_from b [] s fits =
        let (spans, total) = pushed_one b s.0 (omega arith) in (spans, omega arith)
    pushed_from b (b' ∷ bs) s fits =
        let (spans, total) = pushed_from b' bs s.2 (omega arith) in
        rw (pushed_cons now width bytes b b' bs) (
          (
            rw total (IsSpan-add b (sum_bytes (b' ∷ bs)) s.0 (omega arith)),
            pushed_starts (b.started_at + width) b' bs s.1,
            spans,
          ),
          omega arith,
        )

    -- What the buckets say holds again after an event, which they count.
    pub pushed-Spans :
        (bs : List RateBucket)
        → Spans h clock width bs
        → since now h ≤ sum_bytes bs
        → sum_bytes bs + bytes ≤ u64_max
        → Spans ((now, bytes) ∷ h) now width (pushed now width bytes bs)
          × (sum_bytes (pushed now width bytes bs) ≡ sum_bytes bs + bytes)
    unfolding sum_bytes update_back since
    pushed-Spans [] s none_since fits = ground (arith, since_antitone now (suc now) h)
    pushed-Spans (b ∷ bs) s none_since fits = pushed_from b bs s fits
