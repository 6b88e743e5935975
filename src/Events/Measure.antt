-- ===== src/Events/Measure.antt =====
-- Sums over the buckets of the `EventLog` of ncda/src/rate.rs, by a measure of each activity.
use ncda.Base.{
  ℕ, ◌+◌, ◌≤◌, ◌≡◌, refl, Option, none, some, List, [], ◌∷◌, ◌++◌, Bytes, unwrap_or, saturating_add,
  u64_max, nat_eq, list_eq, pair_eq, pair_beq_iff, All, arith, Bool-cases, inl, inr,
}
use ncda.Base.HashMap.{HashMap, get, insert}
use ncda.Rate.{is_within, update_back}
use ncda.Events.{
  ActivityKey, EventBucket, EventState, remove_bucket, expire_from, trim_from, add_to_bucket,
  new_bucket, push_activity,
}

-- A measure of the activities, by a share of each one's bytes that is additive.
module _ (share : Bytes → ℕ → ℕ) where
  abbrev pub in_activities : HashMap ActivityKey ℕ → ℕ
  in_activities [] = 0
  in_activities ((key, bytes) ∷ rest) = share key.0 bytes + in_activities rest

  abbrev pub in_buckets : List EventBucket → ℕ
  in_buckets [] = 0
  in_buckets (b ∷ bs) = in_activities b.activities + in_buckets bs

  in_buckets-append :
      (bs : List EventBucket) (b : EventBucket)
      → in_buckets (bs ++ b ∷ []) ≡ in_buckets bs + in_activities b.activities
  in_buckets-append [] b = omega arith
  in_buckets-append (c ∷ bs) b = omega (arith, in_buckets-append bs b)

  module _ (additive : (path : Bytes) (a b : ℕ) → share path (a + b) ≡ share path a + share path b)
      (none_of_none : (path : Bytes) → share path 0 ≡ 0) where
    in_activities-insert :
        (key : ActivityKey) (bytes : ℕ) (m : HashMap ActivityKey ℕ)
        → in_activities (insert key (unwrap_or (get key m) 0 + bytes) m)
          ≡ in_activities m + share key.0 bytes
    in_activities-insert key bytes [] = omega (arith, additive key.0 0 bytes, none_of_none key.0)
    in_activities-insert key bytes ((k, b) ∷ m) =
        ground (arith, additive k.0 b bytes, in_activities-insert key bytes m, pair_beq_iff k key)

    add_to_bucket-in :
        (now width : ℕ) (key : ActivityKey) (bytes : ℕ) (b b' : EventBucket)
        → unwrap_or (get key b.activities) 0 + bytes ≤ u64_max
        → add_to_bucket now width key bytes b ≡ some b'
        → in_activities b'.activities ≡ in_activities b.activities + share key.0 bytes
    add_to_bucket-in now width key bytes b b' fits e =
        let exact : saturating_add (unwrap_or (get key b.activities) 0) bytes
            ≡ unwrap_or (get key b.activities) 0 + bytes =
          omega arith in
        let inserted : in_activities
              (insert key (saturating_add (unwrap_or (get key b.activities) 0) bytes) b.activities)
            ≡ in_activities b.activities + share key.0 bytes =
          rw exact (in_activities-insert key bytes b.activities) in
        elim (Bool-cases (is_within now b.started_at width)) [
          | inl near ↦ ground (arith, near, inserted)
          | inr far ↦ ground (arith, far)
        ]

    -- What a change at the back of the queue leaves, if there is one.
    Pushed : ℕ → List EventBucket → Option (List EventBucket) → Type 0
    Pushed more bs none = Unit {0}
    Pushed more bs (some bs') = in_buckets bs' ≡ in_buckets bs + more

    module _ (now width : ℕ) (key : ActivityKey) (bytes : ℕ) where
      abbrev Fits : EventBucket → Type 0
      Fits b = unwrap_or (get key b.activities) 0 + bytes ≤ u64_max

      update_back-Pushed :
          (bs : List EventBucket)
          → All Fits bs
          → Pushed (share key.0 bytes) bs (update_back (add_to_bucket now width key bytes) bs)
      unfolding update_back Pushed
      update_back-Pushed [] h = tt
      update_back-Pushed (b ∷ []) (h, _) = last (add_to_bucket now width key bytes b) refl
        where
          last :
              (o : Option EventBucket)
              → add_to_bucket now width key bytes b ≡ o
              → Pushed
                  (share key.0 bytes)
                  (b ∷ [])
                  (elim o [ none ↦ none | some y ↦ some (y ∷ []) ])
          last none e = tt
          last (some b') e = omega (arith, add_to_bucket-in now width key bytes b b' h e)
      update_back-Pushed (b ∷ c ∷ bs) (h, hs) =
          from (update_back (add_to_bucket now width key bytes) (c ∷ bs))
            (update_back-Pushed (c ∷ bs) hs)
        where
          from :
              (o : Option (List EventBucket))
              → Pushed (share key.0 bytes) (c ∷ bs) o
              → Pushed
                  (share key.0 bytes)
                  (b ∷ c ∷ bs)
                  (elim o [ none ↦ none | some ys ↦ some (b ∷ ys) ])
          from none k = tt
          from (some ys) k = omega (arith, k)

      pub push_activity-in :
          (s : EventState)
          → All Fits s.buckets
          → in_buckets (push_activity now width key bytes s).buckets
            ≡ in_buckets s.buckets + share key.0 bytes
      unfolding push_activity Pushed
      push_activity-in s h =
          from (update_back (add_to_bucket now width key bytes) s.buckets)
            (update_back-Pushed s.buckets h)
        where
          from :
              (o : Option (List EventBucket))
              → Pushed (share key.0 bytes) s.buckets o
              → in_buckets (unwrap_or o (s.buckets ++ new_bucket now key bytes ∷ []))
                ≡ in_buckets s.buckets + share key.0 bytes
          from none k = omega (arith, in_buckets-append s.buckets (new_bucket now key bytes))
          from (some bs) k = k

  -- The buckets that are left weigh no more.
  pub expire_from-le :
      (limit : ℕ) (bs : List EventBucket) (s : EventState)
      → in_buckets (expire_from limit bs s).buckets ≤ in_buckets bs
  unfolding expire_from
  expire_from-le limit [] s = omega arith
  expire_from-le limit (b ∷ bs) s =
      ground (arith, expire_from-le limit bs (remove_bucket b (record s { buckets = bs })))

  pub trim_from-le :
      (bs : List EventBucket) (s : EventState) → in_buckets (trim_from bs s).buckets ≤ in_buckets bs
  unfolding trim_from
  trim_from-le [] s = omega arith
  trim_from-le (b ∷ bs) s =
      ground (arith, trim_from-le bs (remove_bucket b (record s { buckets = bs })))
