-- ===== src/Events/Sums.antt =====
-- The index of sums by prefix in the `EventLog` of ncda/src/rate.rs, against the buckets that it sums.
use ncda.Base.{
  ℕ, ◌+◌, ◌-◌, ◌≤◌, ◌≡◌, refl, true, false, List, [], ◌∷◌, Bytes, unwrap_or, saturating_add,
  saturating_sub, u64_max, if◌then◌else◌, ◌==◌, nat_eq, list_eq, pair_eq, list_beq_iff, arith,
  Option-cases, inl, inr,
}
use ncda.Base.HashMap.{HashMap, get, insert, remove, get-insert, get-remove}
use ncda.Events.{
  ActivityKey, EventBucket, EventState, path_prefixes, adjust_prefix, adjust_prefixes,
  release_count, remove_activity, remove_activities, remove_bucket, expire_from, trim_from,
}
use ncda.Events.Measure.{in_activities, in_buckets}

-- The total of a prefix, 0 if it has none.
abbrev pub total_of : Bytes → HashMap Bytes ℕ → ℕ
total_of prefix totals = unwrap_or (get prefix totals) 0

-- Some bytes, as often as the prefix is among some.
abbrev pub share_of : Bytes → List Bytes → ℕ → ℕ
share_of prefix [] bytes = 0
share_of prefix (q ∷ qs) bytes = (if q == prefix then bytes else 0) + share_of prefix qs bytes

pub share_of-add :
    (prefix : Bytes) (qs : List Bytes) (a b : ℕ)
    → share_of prefix qs (a + b) ≡ share_of prefix qs a + share_of prefix qs b
share_of-add prefix [] a b = refl
share_of-add prefix (q ∷ qs) a b = ground (arith, share_of-add prefix qs a b)

module _ (prefix : Bytes) where
  total_of-insert :
      (q : Bytes) (v : ℕ) (m : HashMap Bytes ℕ)
      → total_of prefix (insert q v m) ≡ (if q == prefix then v else total_of prefix m)
  total_of-insert q v m = ground (arith, get-insert q prefix v m)

  total_of-remove :
      (q : Bytes) (m : HashMap Bytes ℕ)
      → total_of prefix (remove q m) ≡ (if q == prefix then 0 else total_of prefix m)
  total_of-remove q m = ground (arith, get-remove q prefix m)

  adjust_prefix-add :
      (q : Bytes) (bytes : ℕ) (m : HashMap Bytes ℕ)
      → (if q == prefix then bytes else 0) + total_of prefix m ≤ u64_max
      → total_of prefix (adjust_prefix true bytes q m)
        ≡ (if q == prefix then bytes else 0) + total_of prefix m
  unfolding adjust_prefix
  adjust_prefix-add q bytes m h = elim (Option-cases (get q m)) [
    | inl new ↦ ground (arith, new, list_beq_iff q prefix, total_of-insert q bytes m)
    | inr (total, old) ↦
        ground (arith, old, list_beq_iff q prefix, total_of-insert q (saturating_add total bytes) m)
  ]

  adjust_prefix-sub :
      (q : Bytes) (bytes : ℕ) (m : HashMap Bytes ℕ)
      → total_of prefix (adjust_prefix false bytes q m)
        ≡ total_of prefix m - (if q == prefix then bytes else 0)
  unfolding adjust_prefix
  adjust_prefix-sub q bytes m = elim (Option-cases (get q m)) [
    | inl new ↦ ground (arith, new, list_beq_iff q prefix)
    | inr (total, old) ↦ ground (
      arith,
      old,
      list_beq_iff q prefix,
      total_of-insert q (saturating_sub total bytes) m,
      total_of-remove q m,
    )
  ]

  pub adjust_prefixes-add :
      (qs : List Bytes) (bytes : ℕ) (m : HashMap Bytes ℕ)
      → share_of prefix qs bytes + total_of prefix m ≤ u64_max
      → total_of prefix (adjust_prefixes true bytes qs m)
        ≡ share_of prefix qs bytes + total_of prefix m
  unfolding adjust_prefixes
  adjust_prefixes-add [] bytes m h = omega arith
  adjust_prefixes-add (q ∷ qs) bytes m h =
      let one = adjust_prefix-add q bytes m (omega arith) in
      let more = adjust_prefixes-add qs bytes (adjust_prefix true bytes q m) (omega (arith, one)) in
      omega (arith, one, more)

  adjust_prefixes-sub :
      (qs : List Bytes) (bytes : ℕ) (m : HashMap Bytes ℕ)
      → total_of prefix (adjust_prefixes false bytes qs m)
        ≡ total_of prefix m - share_of prefix qs bytes
  unfolding adjust_prefixes
  adjust_prefixes-sub [] bytes m = omega arith
  adjust_prefixes-sub (q ∷ qs) bytes m = omega (
    arith,
    adjust_prefix-sub q bytes m,
    adjust_prefixes-sub qs bytes (adjust_prefix false bytes q m),
  )

-- The share of a prefix in the bytes of a path.
abbrev pub share : Bytes → Bytes → ℕ → ℕ
share prefix path bytes = share_of prefix (path_prefixes path) bytes

-- What the buckets hold for a prefix, and in all.
abbrev pub held : Bytes → List EventBucket → ℕ
held prefix bs = in_buckets (share prefix) bs

abbrev pub held_in_all : List EventBucket → ℕ
held_in_all bs = in_buckets (λ path bytes. bytes) bs

module _ (prefix : Bytes) where
  remove_activity-total :
      (key : ActivityKey) (bytes : ℕ) (s : EventState)
      → total_of prefix (remove_activity key bytes s).prefix_totals
        ≡ total_of prefix s.prefix_totals - share prefix key.0 bytes
  unfolding remove_activity release_count
  remove_activity-total key bytes s =
      ground (arith, adjust_prefixes-sub prefix (path_prefixes key.0) bytes s.prefix_totals)

  remove_activities-total :
      (activities : HashMap ActivityKey ℕ) (s : EventState)
      → total_of prefix (remove_activities activities s).prefix_totals
        ≡ total_of prefix s.prefix_totals - in_activities (share prefix) activities
  unfolding remove_activities
  remove_activities-total [] s = omega arith
  remove_activities-total ((key, bytes) ∷ rest) s = omega (
    arith,
    remove_activity-total key bytes s,
    remove_activities-total rest (remove_activity key bytes s),
  )

  pub expire_from-total :
      (limit : ℕ) (bs : List EventBucket) (s : EventState)
      → total_of prefix s.prefix_totals ≡ held prefix bs
      → total_of prefix (expire_from limit bs s).prefix_totals
        ≡ held prefix (expire_from limit bs s).buckets
  unfolding expire_from
  expire_from-total limit [] s h = h
  expire_from-total limit (b ∷ bs) s h = ground (
    arith,
    remove_activities-total b.activities (record s { buckets = bs }),
    expire_from-total limit bs (remove_bucket b (record s { buckets = bs })),
  )

  pub trim_from-total :
      (bs : List EventBucket) (s : EventState)
      → total_of prefix s.prefix_totals ≡ held prefix bs
      → total_of prefix (trim_from bs s).prefix_totals ≡ held prefix (trim_from bs s).buckets
  unfolding trim_from
  trim_from-total [] s h = h
  trim_from-total (b ∷ bs) s h = ground (
    arith,
    remove_activities-total b.activities (record s { buckets = bs }),
    trim_from-total bs (remove_bucket b (record s { buckets = bs })),
  )
