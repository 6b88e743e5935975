-- ===== src/Events/Query/Totals.antt =====
-- The index of sums in the `EventLog` of ncda/src/rate.rs, through each of its operations.
use ncda.Base.{
  ℕ, ◌+◌, ◌≤◌, ◌≡◌, refl, sym, ap, ◌∙◌, true, ◌||◌, List, [], ◌∷◌, Bytes, unwrap_or, nat_beq,
  u64_max, nat_eq, list_eq, pair_eq, All, arith, Bool-cases, Option-cases, inl, inr,
}
use ncda.Base.HashMap.{HashMap, get}
use ncda.Rate.{cutoff}
use ncda.Process.{ProcessTable}
use ncda.Filter.{FilterQuery}
use ncda.Events.{
  ActivityKey, EventBucket, EventState, EventLog, path_prefixes, intern, reset, add_activity,
  adjust_prefixes, push_activity, record_activity, record_at, expire_event_buckets,
  trim_event_buckets,
}
use ncda.Events.Query.{bytes_for_prefix_at}
use ncda.Events.Measure.{in_activities, push_activity-in, expire_from-le, trim_from-le}
use ncda.Events.Sums.{
  total_of, share_of, share_of-add, share, held, held_in_all, adjust_prefixes-add,
  expire_from-total, trim_from-total,
}

share_of-zero : (prefix : Bytes) (qs : List Bytes) → share_of prefix qs 0 ≡ 0
share_of-zero prefix [] = refl
share_of-zero prefix (q ∷ qs) = ground (arith, share_of-zero prefix qs)

get-le :
    (key : ActivityKey) (m : HashMap ActivityKey ℕ)
    → unwrap_or (get key m) 0 ≤ in_activities (λ path bytes. bytes) m
get-le key [] = omega arith
get-le key ((k, b) ∷ m) = ground (arith, get-le key m)

all_fit :
    (key : ActivityKey) (bytes : ℕ) (bs : List EventBucket)
    → held_in_all bs + bytes ≤ u64_max
    → All (λ b. unwrap_or (get key b.activities) 0 + bytes ≤ u64_max) bs
all_fit key bytes [] h = tt
all_fit key bytes (b ∷ bs) h =
    (omega (arith, get-le key b.activities), all_fit key bytes bs (omega arith))

-- The index agrees with the buckets, and what these hold was offered.
pub record Summed (prefix : Bytes) (s : EventState) (n : ℕ) : Type 0 where
  pub total : total_of prefix s.prefix_totals ≡ held prefix s.buckets
  pub bound : held prefix s.buckets + held_in_all s.buckets ≤ n

module _ (prefix : Bytes) where
  expire-Summed :
      (now window : ℕ) (s : EventState) (n : ℕ)
      → Summed prefix s n
      → Summed prefix (expire_event_buckets s now window) n
  expire-Summed now window s n h = record {
    total = expire_from-total prefix (cutoff now window) s.buckets s h.total;
    bound = omega (
      arith,
      h.bound,
      expire_from-le (share prefix) (cutoff now window) s.buckets s,
      expire_from-le (λ path bytes. bytes) (cutoff now window) s.buckets s,
    );
  }

  trim-Summed :
      (s : EventState) (n : ℕ) → Summed prefix s n → Summed prefix (trim_event_buckets s) n
  trim-Summed s n h = record {
    total = trim_from-total prefix s.buckets s h.total;
    bound = omega (
      arith,
      h.bound,
      trim_from-le (share prefix) s.buckets s,
      trim_from-le (λ path bytes. bytes) s.buckets s,
    );
  }

  push_activity-prefix_totals :
      (now width : ℕ) (key : ActivityKey) (bytes : ℕ) (s : EventState)
      → (push_activity now width key bytes s).prefix_totals ≡ s.prefix_totals
  unfolding push_activity
  push_activity-prefix_totals now width key bytes s = refl

  push-Summed :
      (now width : ℕ) (path : Bytes) (pid bytes : ℕ) (s : EventState) (n : ℕ)
      → Summed prefix s n
      → n + (share prefix path bytes + bytes) ≤ u64_max
      → Summed prefix
          (push_activity now width
            (path, pid)
            bytes
            (record s {
              prefix_totals = adjust_prefixes true bytes (path_prefixes path) s.prefix_totals;
            }))
          (n + (share prefix path bytes + bytes))
  push-Summed now width path pid bytes s n h fits =
      let s' = record s {
        prefix_totals = adjust_prefixes true bytes (path_prefixes path) s.prefix_totals;
      } in
      let fit = all_fit (path, pid) bytes s.buckets (omega (arith, h.bound)) in
      let one =
        adjust_prefixes-add prefix (path_prefixes path) bytes s.prefix_totals
          (omega (arith, h.total, h.bound)) in
      let below =
        push_activity-in (share prefix) (λ q. share_of-add prefix (path_prefixes q))
          (λ q. share_of-zero prefix (path_prefixes q)) now width (path, pid) bytes s' fit in
      let all =
        push_activity-in (λ q n. n) (λ q a b. refl) (λ q. refl) now width (path, pid) bytes s'
          fit in
      record {
        total =
            ap (total_of prefix) (push_activity-prefix_totals now width (path, pid) bytes s')
            ∙ omega (arith, one, below, h.total);
        bound = omega (arith, h.bound, below, all);
      }

  kept-Summed :
      (s s' : EventState) (n : ℕ)
      → s'.prefix_totals ≡ s.prefix_totals
      → s'.buckets ≡ s.buckets
      → Summed prefix s n
      → Summed prefix s' n
  kept-Summed s s' n same_totals same_buckets h = record {
    total = ap (total_of prefix) same_totals ∙ h.total ∙ sym (ap (held prefix) same_buckets);
    bound = omega (arith, h.bound, ap (held prefix) same_buckets, ap held_in_all same_buckets);
  }

  intern-kept :
      (path : Bytes) (s : EventState)
      → (intern path s).prefix_totals ≡ s.prefix_totals × (intern path s).buckets ≡ s.buckets
  unfolding intern
  intern-kept path s = elim (Option-cases (get path s.interned_paths)) [
    | inl fresh ↦ (ground (arith, fresh), ground (arith, fresh))
    | inr (shared, old) ↦ (ground (arith, old), ground (arith, old))
  ]

  add_activity-kept :
      (key : ActivityKey) (bytes : ℕ) (s : EventState)
      → (add_activity key bytes s).prefix_totals ≡ s.prefix_totals
        × (add_activity key bytes s).buckets ≡ s.buckets
  unfolding add_activity
  add_activity-kept key bytes s = elim (Option-cases (get key s.activities)) [
    | inl fresh ↦ (ground (arith, fresh), ground (arith, fresh))
    | inr (total, old) ↦ (ground (arith, old), ground (arith, old))
  ]

  record_activity-Summed :
      (now width : ℕ) (path : Bytes) (pid bytes : ℕ) (s : EventState) (n : ℕ)
      → Summed prefix s n
      → n + (share prefix path bytes + bytes) ≤ u64_max
      → Summed prefix
          (record_activity now width (path, pid) bytes s)
          (n + (share prefix path bytes + bytes))
  unfolding record_activity
  record_activity-Summed now width path pid bytes s n h fits =
      push-Summed now width path pid bytes (add_activity (path, pid) bytes (intern path s)) n
        (kept-Summed s _ n
          ((add_activity-kept (path, pid) bytes (intern path s)).0 ∙ (intern-kept path s).0)
          ((add_activity-kept (path, pid) bytes (intern path s)).1 ∙ (intern-kept path s).1) h)
        fits

  pub record_at-Summed :
      (now : ℕ) (path : Bytes) (pid bytes : ℕ) (log : EventLog) (n : ℕ)
      → Summed prefix log.state n
      → n + (share prefix path bytes + bytes) ≤ u64_max
      → Summed prefix
          (record_at now path pid bytes log).state
          (n + (share prefix path bytes + bytes))
  unfolding record_at
  record_at-Summed now path pid bytes log n h fits =
      let old = expire-Summed now log.window log.state n h in
      let s = expire_event_buckets log.state now log.window in
      let next =
        trim-Summed (record_activity now log.width (path, pid) bytes s)
          (n + (share prefix path bytes + bytes))
          (record_activity-Summed now log.width path pid bytes s n old fits) in
      elim (Bool-cases (nat_beq log.window 0 || nat_beq bytes 0)) [
        | inl nothing ↦ rw nothing (record { total = old.total; bound = omega (arith, old.bound) })
        | inr counts ↦ rw counts next
      ]

  pub query-Summed :
      (to_lowercase : Bytes → Bytes) (query : FilterQuery) (processes : ProcessTable) (now : ℕ)
      (p : Bytes) (log : EventLog) (n : ℕ)
      → Summed prefix log.state n
      → Summed prefix (bytes_for_prefix_at to_lowercase query processes now p log).1.state n
  unfolding bytes_for_prefix_at
  query-Summed to_lowercase query processes now p log n h =
      let old = expire-Summed now log.window log.state n h in
      elim (Bool-cases (nat_beq log.window 0)) [
        | inl zero_window ↦ rw zero_window (record { total = refl; bound = omega arith })
        | inr timed ↦ rw timed old
      ]

  pub reset-Summed : (log : EventLog) (n : ℕ) → Summed prefix (reset log).state n
  unfolding reset
  reset-Summed log n = record { total = refl; bound = omega arith }
