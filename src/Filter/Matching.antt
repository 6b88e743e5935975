-- ===== src/Filter/Matching.antt =====
-- The processes that `matching_pids` of ncda/src/tui/filter.rs leaves visible, compared with the list
-- of a tree's activity.
use ncda.Base.{
  ℕ, ◌≡◌, refl, sym, Bool, true, ◌&&◌, ◌||◌, List, [], ◌∷◌, Bytes, any, arith, nat_beq, nat_beq_iff,
  if◌then◌else◌, Bool-cases, inl, inr, ascii, nat_eq, subst,
}
use ncda.Base.HashMap.{HashMap, get, keys, contains_key}
use ncda.Stats.{NodeStats}
use ncda.Tree.{TreeNode, node, Children, nil, cons, FileTree}
use ncda.Process.{ProcessInfo, ProcessTable}
use ncda.Filter.{
  FilterQuery, has_no_terms, join_path, matches_activity, insert_pid, insert_matching, visit,
  visit_children, matching_pids,
}
use ncda.Filter.Activity.{Activity, activities_at, activities, activities_below, any-append}
use ncda.Filter.Totals

module _ (to_lowercase : Bytes → Bytes) (query : FilterQuery) (processes : ProcessTable) where
  abbrev keep : Activity → Bool
  keep = Totals.keep to_lowercase query processes

  -- Whether a process has an activity in a list that matches.
  abbrev pub has_match : ℕ → List Activity → Bool
  has_match pid xs = any (λ a. nat_beq a.pid pid && keep a) xs

  abbrev among : ℕ → List ℕ → Bool
  among pid matching = any (nat_beq pid) matching

  insert_pid-among :
      (p pid : ℕ) (matching : List ℕ)
      → among p (insert_pid to_lowercase pid matching) ≡ (nat_beq p pid || among p matching)
  insert_pid-among p pid matching = elim (Bool-cases (any (nat_beq pid) matching)) [
    | inl e ↦ elim (Bool-cases (nat_beq p pid)) [
      | inl f ↦ rw (e, f) (subst (λ q. among q matching ≡ true) (sym ((nat_beq_iff p pid).0 f)) e)
      | inr f ↦ rw (e, f) refl
    ]
    | inr e ↦ rw e refl
  ]

  insert_matching-among :
      (p : ℕ) (path : Bytes) (entries : HashMap ℕ NodeStats) (matching : List ℕ)
      → among p (insert_matching to_lowercase query processes path entries matching)
        ≡ (has_match p (activities_at path entries) || among p matching)
  unfolding insert_matching
  insert_matching-among p path [] matching = refl
  insert_matching-among p path ((pid, stats) ∷ rest) matching =
      elim (Bool-cases
        (matches_activity to_lowercase query path pid (get pid processes.processes))) [
          | inl e ↦ ground (
            arith,
            e,
            nat_beq_iff p pid,
            nat_beq_iff pid p,
            insert_matching-among p path rest (insert_pid to_lowercase pid matching),
            insert_pid-among p pid matching,
          )
          | inr e ↦ ground (arith, e, insert_matching-among p path rest matching)
        ]

  visit_children-among :
      (p : ℕ) (path : Bytes) (cs : Children) (matching : List ℕ)
      → among p (visit_children to_lowercase query processes path cs matching)
        ≡ (has_match p (activities_below path cs) || among p matching)
  unfolding visit activities
  visit_children-among p path nil matching = refl
  visit_children-among p path (cons k (node i ch) rest) matching =
      let child_path = join_path path i.name in
      let here = insert_matching to_lowercase query processes child_path i.per_process matching in
      let below = visit_children to_lowercase query processes child_path ch here in
      ground (
        arith,
        visit_children-among p path rest below,
        visit_children-among p child_path ch here,
        insert_matching-among p child_path i.per_process matching,
        any-append (λ a. nat_beq a.pid p && keep a) (activities_at child_path i.per_process)
            (activities_below child_path ch),
        any-append (λ a. nat_beq a.pid p && keep a) (activities child_path (node i ch))
            (activities_below path rest),
      )

  keys-among : (p : ℕ) (m : HashMap ℕ ProcessInfo) → among p (keys m) ≡ contains_key p m
  keys-among p [] = refl
  keys-among p ((k, i) ∷ m) = ground (arith, keys-among p m, nat_beq_iff p k, nat_beq_iff k p)

  -- A query with terms leaves the processes visible that have an activity in the tree that matches,
  -- and no other; a query without terms leaves the processes of the table visible.
  pub matching_pids-has_match :
      (tree : FileTree) (p : ℕ)
      → any (nat_beq p) (matching_pids to_lowercase tree query processes) ≡ (
          if has_no_terms query
          then contains_key p processes.processes
          else has_match p (activities (ascii "/") tree.root))
  unfolding matching_pids visit activities
  matching_pids-has_match tree p = elim (Bool-cases (has_no_terms query)) [
    | inl e ↦ rw e (keys-among p processes.processes)
    | inr e ↦ rw e (by_root tree.root)
  ]
    where
      by_root :
          (n : TreeNode)
          → among p (visit to_lowercase query processes (ascii "/") n [])
            ≡ has_match p (activities (ascii "/") n)
      by_root (node i ch) =
          let here = insert_matching to_lowercase query processes (ascii "/") i.per_process [] in
          ground (
            arith,
            visit_children-among p (ascii "/") ch here,
            insert_matching-among p (ascii "/") i.per_process [],
            any-append (λ a. nat_beq a.pid p && keep a) (activities_at (ascii "/") i.per_process)
                (activities_below (ascii "/") ch),
          )
