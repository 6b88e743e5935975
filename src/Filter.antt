-- ===== src/Filter.antt =====
-- The filter language of ncda/src/tui/filter.rs: queries, the activity that they match, and the
-- statistics and processes that they leave visible.
mod Activity
pub mod Totals
pub mod Matching
mod Decimal
pub mod Parsing
mod Examples
use ncda.Base.{
  ℕ, Bool, true, false, ◌&&◌, ◌||◌, Option, none, some, List, [], ◌∷◌, ◌++◌, Bytes, is_empty, all,
  any, ascii, ltb, nat_beq, decimal, trim, split_whitespace, split_once, contains,
  to_ascii_lowercase, parse_u32, unwrap_or, if◌then◌else◌, ◌==◌, nat_eq, list_eq,
}
use ncda.Base.HashMap.{HashMap, get, keys}
use ncda.Stats.{NodeStats, zero_stats, accumulate, total_ops}
use ncda.Tree.{NodeInfo, TreeNode, node, Children, nil, cons, FileTree, info}
use ncda.Process.{ProcessInfo, ProcessTable}

pub data FilterTerm : Type 0 where
  any_term : Bytes → FilterTerm
  path_term : Bytes → FilterTerm
  pid_term : ℕ → FilterTerm
  process_term : Bytes → FilterTerm
  container_term : Bytes → FilterTerm

pub record FilterQuery : Type 0 where
  pub raw : Bytes
  pub terms : List FilterTerm

-- `Result<_, String>`
pub data Parsed {ℓ} (A : Type ℓ) : Type ℓ where
  ok : A → Parsed A
  err : Bytes → Parsed A

-- `FilterQuery::default()`
abbrev pub no_query : FilterQuery
no_query = record { raw = []; terms = [] }

abbrev pub has_no_terms : FilterQuery → Bool
has_no_terms query = is_empty query.terms

abbrev pub quoted : Bytes → Bytes → Bytes
quoted message text = message ++ ascii " '" ++ text ++ ascii "'"

abbrev pub join_path : Bytes → Bytes → Bytes
join_path parent child = if parent == ascii "/" then b'/' ∷ child else parent ++ b'/' ∷ child

-- `to_lowercase` is Unicode's, of `str`.
module _ (to_lowercase : Bytes → Bytes) where
  unfoldable pub parse_pid : Bytes → Bytes → Parsed FilterTerm
  parse_pid token value = elim (parse_u32 value) [
    | some pid ↦ ok (pid_term pid)
    | none ↦ err (quoted (ascii "invalid PID in filter term") token)
  ]

  unfoldable pub parse_field : Bytes → Bytes → Bytes → Parsed FilterTerm
  parse_field token field value =
      let name = to_ascii_lowercase field in
      if is_empty name
      then ok (any_term (to_lowercase value))
      else if name == ascii "path"
      then ok (path_term (to_lowercase value))
      else if name == ascii "pid"
      then parse_pid token value
      else if name == ascii "proc" || name == ascii "process"
      then ok (process_term (to_lowercase value))
      else if name == ascii "container"
      then ok (container_term (to_lowercase value))
      else err (quoted (ascii "unknown filter field") field)

  -- One round of the loop over the tokens.
  unfoldable pub parse_term : Bytes → Parsed FilterTerm
  parse_term token =
      let (field, value) = unwrap_or (split_once b':' token) ([], token) in
      if is_empty value
      then err (quoted (ascii "missing value in filter term") token)
      else parse_field token field value

  pub push_term : FilterTerm → Parsed (List FilterTerm) → Parsed (List FilterTerm)
  push_term term (ok terms) = ok (term ∷ terms)
  push_term term (err message) = err message

  pub parse_terms : List Bytes → Parsed (List FilterTerm)
  parse_terms [] = ok []
  parse_terms (token ∷ tokens) = elim (parse_term token) [
    | ok term ↦ push_term term (parse_terms tokens)
    | err message ↦ err message
  ]

  pub parse : Bytes → Parsed FilterQuery
  parse input = elim (parse_terms (split_whitespace input)) [
    | ok terms ↦ ok (record { raw = trim input; terms = terms })
    | err message ↦ err message
  ]

  abbrev pub process_name : Option ProcessInfo → Bytes
  process_name none = []
  process_name (some i) = to_lowercase i.comm

  abbrev pub container_name : Option ProcessInfo → Bytes
  container_name none = []
  container_name (some i) = elim i.container [ none ↦ [] | some name ↦ to_lowercase name ]

  -- One term, of the lower-case path and names.
  pub matches_term : Bytes → ℕ → Option ProcessInfo → FilterTerm → Bool
  matches_term path pid process (any_term value) =
      contains value (to_lowercase path)
      || contains value (decimal pid)
      || contains value (process_name process)
      || contains value (container_name process)
  matches_term path pid process (path_term value) = contains value (to_lowercase path)
  matches_term path pid process (pid_term value) = nat_beq pid value
  matches_term path pid process (process_term value) = contains value (process_name process)
  matches_term path pid process (container_term value) = contains value (container_name process)

  pub matches_activity : FilterQuery → Bytes → ℕ → Option ProcessInfo → Bool
  matches_activity query path pid process =
      if has_no_terms query then true else all (matches_term path pid process) query.terms

  -- The loop over the activity of one node.
  pub add_matching :
      FilterQuery → ProcessTable → Bytes → HashMap ℕ NodeStats → NodeStats → NodeStats
  add_matching query processes path [] total = total
  add_matching query processes path ((pid, stats) ∷ rest) total =
      add_matching query processes path rest (
        if matches_activity query path pid (get pid processes.processes)
        then accumulate total stats
        else total)

  unfoldable mutual
    pub filtered_stats : FilterQuery → ProcessTable → Bytes → TreeNode → Option NodeStats
    filtered_stats query processes path (node i cs) =
        let total =
          add_children query processes path cs
            (add_matching query processes path i.per_process zero_stats) in
        if has_no_terms query
        then some i.agg_stats
        else if ltb 0 (total_ops total)
        then some total
        else none

    -- The loop over the children.
    pub add_children : FilterQuery → ProcessTable → Bytes → Children → NodeStats → NodeStats
    add_children query processes path nil total = total
    add_children query processes path (cons k child cs) total =
        add_children query processes path cs
          (elim (filtered_stats query processes (join_path path (info child).name) child) [
            | none ↦ total
            | some stats ↦ accumulate total stats
          ])

  abbrev pub insert_pid : ℕ → List ℕ → List ℕ
  insert_pid pid matching = if any (nat_beq pid) matching then matching else pid ∷ matching

  pub insert_matching : FilterQuery → ProcessTable → Bytes → HashMap ℕ NodeStats → List ℕ → List ℕ
  insert_matching query processes path [] matching = matching
  insert_matching query processes path ((pid, stats) ∷ rest) matching =
      insert_matching query processes path rest (
        if matches_activity query path pid (get pid processes.processes)
        then insert_pid pid matching
        else matching)

  -- `visit` of `matching_pids`
  mutual
    pub visit : FilterQuery → ProcessTable → Bytes → TreeNode → List ℕ → List ℕ
    visit query processes path (node i cs) matching =
        visit_children query processes path cs
          (insert_matching query processes path i.per_process matching)

    pub visit_children : FilterQuery → ProcessTable → Bytes → Children → List ℕ → List ℕ
    visit_children query processes path nil matching = matching
    visit_children query processes path (cons k child cs) matching =
        visit_children query processes path cs
          (visit query processes (join_path path (info child).name) child matching)

  pub matching_pids : FileTree → FilterQuery → ProcessTable → List ℕ
  matching_pids tree query processes =
      if has_no_terms query
      then keys processes.processes
      else visit query processes (ascii "/") tree.root []
