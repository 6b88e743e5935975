-- ===== src/Events.antt =====
-- `EventLog` of ncda/src/rate.rs: the recent bytes of each path and process, in buckets, with a sum
-- for each key and an index of sums by path prefix. Instants and durations are as in Rate.
mod Prefixes
mod Storage
mod Measure
mod Sums
pub mod Query
mod Examples
use ncda.Base.{
  ℕ, suc, ◌+◌, ◌-◌, ◌%◌, ◌^◌, Bool, true, false, ◌||◌, Option, none, some, List, [], ◌∷◌, ◌++◌,
  Bytes, length, take, ascii, starts_with, unwrap_or, ltb, nat_beq, saturating_add, saturating_sub,
  if◌then◌else◌, ◌==◌, nat_eq, list_eq, pair_eq,
}
use ncda.Base.HashMap.{HashMap, get, insert, remove}
use ncda.Rate.{max_time_buckets, bucket_width, cutoff, is_within, update_back}

-- An interned path is the path: interning shares memory, and the model keeps the table itself.
abbrev pub ActivityKey : Type 0
ActivityKey = Bytes × ℕ

pub record EventBucket : Type 0 where
  pub started_at : ℕ
  pub latest_at : ℕ
  pub activities : HashMap ActivityKey ℕ

pub record EventState : Type 0 where
  -- the front of the queue first
  pub buckets : List EventBucket
  pub activities : HashMap ActivityKey ℕ
  pub prefix_totals : HashMap Bytes ℕ
  pub interned_paths : HashMap Bytes Bytes
  pub path_pid_counts : HashMap Bytes ℕ

pub record EventLog : Type 0 where
  pub window : ℕ
  pub width : ℕ
  pub state : EventState

abbrev pub empty_state : EventState
empty_state = record {
  buckets = [];
  activities = [];
  prefix_totals = [];
  interned_paths = [];
  path_pid_counts = [];
}

unfoldable pub new : ℕ → EventLog
new window = record { window = window; width = bucket_width window; state = empty_state }

pub reset : EventLog → EventLog
reset log = record log { state = empty_state }

-- `&path[..index]` for each slash at an index from `i`, where `rest` begins.
pub prefixes_at : Bytes → ℕ → Bytes → List Bytes
prefixes_at path i [] = []
prefixes_at path i (b ∷ rest) =
    let later = prefixes_at path (suc i) rest in
    if nat_beq b b'/' then take i path ∷ later else later

abbrev tail : Bytes → Bytes
tail [] = []
tail (b ∷ bs) = bs

-- The prefixes that `for_each_path_prefix` visits, in order.
pub path_prefixes : Bytes → List Bytes
path_prefixes path =
    if path == ascii "/"
    then path ∷ []
    else ascii "/" ∷ (prefixes_at path 1 (tail path) ++ path ∷ [])

pub path_matches_prefix : Bytes → Bytes → Bool
path_matches_prefix path prefix =
    prefix == ascii "/" || path == prefix || starts_with (prefix ++ ascii "/") path

-- One visit of `adjust_prefix_totals`.
pub adjust_prefix : Bool → ℕ → Bytes → HashMap Bytes ℕ → HashMap Bytes ℕ
adjust_prefix true bytes prefix totals = elim (get prefix totals) [
  | some total ↦ insert prefix (saturating_add total bytes) totals
  | none ↦ insert prefix bytes totals
]
adjust_prefix false bytes prefix totals = elim (get prefix totals) [
  | none ↦ totals
  | some total ↦
      let total' = saturating_sub total bytes in
      if nat_beq total' 0 then remove prefix totals else insert prefix total' totals
]

pub adjust_prefixes : Bool → ℕ → List Bytes → HashMap Bytes ℕ → HashMap Bytes ℕ
adjust_prefixes add bytes [] totals = totals
adjust_prefixes add bytes (p ∷ ps) totals =
    adjust_prefixes add bytes ps (adjust_prefix add bytes p totals)

abbrev pub adjust_prefix_totals : Bytes → ℕ → Bool → HashMap Bytes ℕ → HashMap Bytes ℕ
adjust_prefix_totals path bytes add totals = adjust_prefixes add bytes (path_prefixes path) totals

-- The last key of a path gives up its count, and the last count the interned path. The count is a
-- `usize` of 64 bits, which wraps without overflow checks.
pub release_count : Bytes → EventState → EventState
release_count path s = elim (get path s.path_pid_counts) [
  | none ↦ s
  | some count ↦
      let count' = (count + (2 ^ 64 - 1)) % 2 ^ 64 in
      if nat_beq count' 0
      then record s {
        path_pid_counts = remove path s.path_pid_counts;
        interned_paths = remove path s.interned_paths;
      }
      else record s { path_pid_counts = insert path count' s.path_pid_counts }
]

-- One key of a bucket that is removed.
pub remove_activity : ActivityKey → ℕ → EventState → EventState
remove_activity key bytes s =
    let s' : EventState = elim (get key s.activities) [
      | none ↦ s
      | some total ↦
          if ltb bytes total
          then record s { activities = insert key (total - bytes) s.activities }
          else release_count key.0 (record s { activities = remove key s.activities })
    ] in
    record s' { prefix_totals = adjust_prefix_totals key.0 bytes false s'.prefix_totals }

pub remove_activities : HashMap ActivityKey ℕ → EventState → EventState
remove_activities [] s = s
remove_activities ((key, bytes) ∷ rest) s = remove_activities rest (remove_activity key bytes s)

abbrev pub remove_bucket : EventBucket → EventState → EventState
remove_bucket bucket s = remove_activities bucket.activities s

-- The loops of `expire_event_buckets` and `trim_event_buckets`, from a queue.
pub expire_from : ℕ → List EventBucket → EventState → EventState
expire_from limit [] s = record s { buckets = [] }
expire_from limit (b ∷ bs) s =
    let rest = expire_from limit bs (remove_bucket b (record s { buckets = bs })) in
    if ltb b.latest_at limit then rest else record s { buckets = b ∷ bs }

abbrev pub expire_event_buckets : EventState → ℕ → ℕ → EventState
expire_event_buckets s now window = expire_from (cutoff now window) s.buckets s

pub trim_from : List EventBucket → EventState → EventState
trim_from [] s = record s { buckets = [] }
trim_from (b ∷ bs) s =
    let rest = trim_from bs (remove_bucket b (record s { buckets = bs })) in
    if ltb max_time_buckets (length (b ∷ bs)) then rest else record s { buckets = b ∷ bs }

abbrev pub trim_event_buckets : EventState → EventState
trim_event_buckets s = trim_from s.buckets s

-- `interned_paths.entry(path)`
pub intern : Bytes → EventState → EventState
intern path s = elim (get path s.interned_paths) [
  | some shared ↦ s
  | none ↦ record s { interned_paths = insert path path s.interned_paths }
]

-- `activities.entry(key)`; a new key counts for its path.
pub add_activity : ActivityKey → ℕ → EventState → EventState
add_activity key bytes s = elim (get key s.activities) [
  | some total ↦ record s { activities = insert key (saturating_add total bytes) s.activities }
  | none ↦ record s {
    path_pid_counts =
        insert key.0 (saturating_add (unwrap_or (get key.0 s.path_pid_counts) 0) 1)
          s.path_pid_counts;
    activities = insert key bytes s.activities;
  }
]

abbrev add_to_bucket : ℕ → ℕ → ActivityKey → ℕ → EventBucket → Option EventBucket
add_to_bucket now width key bytes b =
    if is_within now b.started_at width
    then some (record b {
      latest_at = now;
      activities =
          insert key (saturating_add (unwrap_or (get key b.activities) 0) bytes) b.activities;
    })
    else none

abbrev new_bucket : ℕ → ActivityKey → ℕ → EventBucket
new_bucket now key bytes = record {
  started_at = now;
  latest_at = now;
  activities = (key, bytes) ∷ [];
}

pub push_activity : ℕ → ℕ → ActivityKey → ℕ → EventState → EventState
push_activity now width key bytes s = record s {
  buckets =
      unwrap_or (update_back (add_to_bucket now width key bytes) s.buckets)
        (s.buckets ++ new_bucket now key bytes ∷ []);
}

-- What `record_at` does with an event that counts, up to the trimming.
pub record_activity : ℕ → ℕ → ActivityKey → ℕ → EventState → EventState
record_activity now width key bytes s =
    let s' = add_activity key bytes (intern key.0 s) in
    push_activity now width key bytes
      (record s' { prefix_totals = adjust_prefix_totals key.0 bytes true s'.prefix_totals })

unfoldable pub record_at : ℕ → Bytes → ℕ → ℕ → EventLog → EventLog
record_at now path pid bytes log =
    let state = expire_event_buckets log.state now log.window in
    if nat_beq log.window 0 || nat_beq bytes 0 then record log { state = state } else record log {
      state = trim_event_buckets (record_activity now log.width (path, pid) bytes state);
    }
