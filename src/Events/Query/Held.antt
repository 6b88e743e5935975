-- ===== src/Events/Query/Held.antt =====
-- The query by prefix of the `EventLog` in ncda/src/rate.rs, after any sequence of events and queries.
use ncda.Base.{
  ℕ, ◌+◌, ◌≤◌, ◌≡◌, refl, ◌∙◌, true, List, [], ◌∷◌, Bytes, nat_beq, u64_max, nat_eq, list_eq,
  pair_eq, arith, Bool-cases, inl, inr,
}
use ncda.Process.{ProcessTable}
use ncda.Filter.{FilterQuery, has_no_terms}
use ncda.Events.{EventLog, new, reset, record_at}
use ncda.Events.Query.{bytes_for_prefix, bytes_for_prefix_at}
use ncda.Events.Sums.{total_of, share, held}
use ncda.Events.Query.Totals.{Summed, record_at-Summed, query-Summed, reset-Summed}

-- Without a filter the index is read.
shown :
    (to_lowercase : Bytes → Bytes) (prefix : Bytes) (filter : FilterQuery)
    (processes : ProcessTable) (now : ℕ) (log : EventLog)
    → has_no_terms filter ≡ true
    → (bytes_for_prefix_at to_lowercase filter processes now prefix log).0
      ≡ total_of prefix
          (bytes_for_prefix_at to_lowercase filter processes now prefix log).1.state.prefix_totals
unfolding bytes_for_prefix_at bytes_for_prefix
shown to_lowercase prefix filter processes now log unfiltered =
    elim (Bool-cases (nat_beq log.window 0)) [
      | inl zero_window ↦ ground (arith, zero_window)
      | inr timed ↦ ground (arith, timed, unfiltered)
    ]

-- What the program does with a log.
pub data Action : Type 0 where
  event : (now : ℕ) (path : Bytes) (pid bytes : ℕ) → Action
  rate_query : (now : ℕ) (path : Bytes) (filter : FilterQuery) (processes : ProcessTable) → Action
  start_again : Action

module _ (to_lowercase : Bytes → Bytes) where
  abbrev pub log_after : List Action → EventLog → EventLog
  log_after [] log = log
  log_after (event now path pid bytes ∷ rest) log =
      log_after rest (record_at now path pid bytes log)
  log_after (rate_query now path filter processes ∷ rest) log =
      log_after rest (bytes_for_prefix_at to_lowercase filter processes now path log).1
  log_after (start_again ∷ rest) log = log_after rest (reset log)

  -- The bytes of the events, and those that are for a prefix.
  abbrev pub offered : Bytes → List Action → ℕ
  offered prefix [] = 0
  offered prefix (event now path pid bytes ∷ rest) =
      share prefix path bytes + bytes + offered prefix rest
  offered prefix (rate_query now path filter processes ∷ rest) = offered prefix rest
  offered prefix (start_again ∷ rest) = offered prefix rest

  log_after-Summed :
      (prefix : Bytes) (actions : List Action) (log : EventLog) (n : ℕ)
      → Summed prefix log.state n
      → n + offered prefix actions ≤ u64_max
      → Summed prefix (log_after actions log).state (n + offered prefix actions)
  log_after-Summed prefix [] log n h fits = record {
    total = h.total;
    bound = omega (arith, h.bound);
  }
  log_after-Summed prefix (event now path pid bytes ∷ rest) log n h fits =
      let more = share prefix path bytes + bytes in
      let later =
        log_after-Summed prefix rest (record_at now path pid bytes log) (n + more)
          (record_at-Summed prefix now path pid bytes log n h (omega arith)) (omega arith) in
      record { total = later.total; bound = omega (arith, later.bound) }
  log_after-Summed prefix (rate_query now path filter processes ∷ rest) log n h fits =
      log_after-Summed prefix rest _ n
        (query-Summed prefix to_lowercase filter processes now path log n h) fits
  log_after-Summed prefix (start_again ∷ rest) log n h fits =
      log_after-Summed prefix rest (reset log) n (reset-Summed prefix log n) fits

  -- Whatever events, queries and resets a new log has had, a query without a filter shows for a
  -- prefix the sum of the bytes that the buckets of the log it leaves hold for the paths that are
  -- indexed by the prefix, as often as they are, if the bytes that were offered, with those for the
  -- prefix, are in all at most `u64::MAX`.
  pub bytes_for_prefix_at-held :
      (prefix : Bytes) (window : ℕ) (actions : List Action) (now : ℕ) (filter : FilterQuery)
      (processes : ProcessTable)
      → has_no_terms filter ≡ true
      → offered prefix actions ≤ u64_max
      → (bytes_for_prefix_at to_lowercase filter processes now prefix
          (log_after actions (new window))).0
        ≡ held prefix
            (bytes_for_prefix_at to_lowercase filter processes now prefix
              (log_after actions (new window))).1.state.buckets
  bytes_for_prefix_at-held prefix window actions now filter processes unfiltered fits =
      let start : Summed prefix (new window).state 0 =
        unfold new in record { total = refl; bound = omega arith } in
      let log = log_after actions (new window) in
      let h =
        query-Summed prefix to_lowercase filter processes now prefix log
          (0 + offered prefix actions)
          (log_after-Summed prefix actions (new window) 0 start (omega arith)) in
      shown to_lowercase prefix filter processes now log unfiltered ∙ h.total
