-- ===== src/Filter/Totals.antt =====
-- What `filtered_stats` of ncda/src/tui/filter.rs compute, compared with the
-- list of a tree's activity.
use ncda.Base.{
  ℕ, ◌≡◌, refl, sym, ap, ◌∙◌, Bool, false, Option, none, some, List, [], ◌∷◌, Bytes, filter, All,
  if◌then◌else◌, Bool-cases, inl, inr, ltb, lt→ltb, nat_eq,
}
use ncda.Base.HashMap.{HashMap, get}
use ncda.Stats.{NodeStats, zero_stats, accumulate, total_ops}
use ncda.Tree.{NodeInfo, TreeNode, node, Children, nil, cons, info}
use ncda.Process.{ProcessTable}
use ncda.Filter.{
  FilterQuery, has_no_terms, join_path, matches_activity, add_matching, filtered_stats,
  add_children,
}
use ncda.Filter.Activity.{
  Activity, activities_at, activities, activities_below, sum_from, IsActive, All-append,
  sum_from-append, filter-append, All-filter, sum_from-cons, active_sum_cons,
}

module _ (to_lowercase : Bytes → Bytes) (query : FilterQuery) (processes : ProcessTable) where
  abbrev pub keep : Activity → Bool
  keep a = matches_activity to_lowercase query a.path a.pid (get a.pid processes.processes)

  -- The sum, and nothing when no operation is in it.
  abbrev pub shown : List Activity → Option NodeStats
  shown xs =
      let total = sum_from zero_stats (filter keep xs) in
      if ltb 0 (total_ops total) then some total else none

  add_matching-sum :
      (path : Bytes) (entries : HashMap ℕ NodeStats) (total : NodeStats)
      → add_matching to_lowercase query processes path entries total
        ≡ sum_from total (filter keep (activities_at path entries))
  unfolding add_matching
  add_matching-sum path [] total = refl
  add_matching-sum path ((pid, stats) ∷ rest) total =
      elim (Bool-cases
        (matches_activity to_lowercase query path pid (get pid processes.processes))) [
          | inl e ↦ rw e (add_matching-sum path rest (accumulate total stats))
          | inr e ↦ rw e (add_matching-sum path rest total)
        ]

  -- A child's sum, added when it is shown.
  add_shown :
      (total : NodeStats) (xs : List Activity)
      → All IsActive xs
      → (elim (shown xs) [ none ↦ total | some stats ↦ accumulate total stats ])
        ≡ sum_from total (filter keep xs)
  unfolding total_ops
  add_shown total xs h = by_list (filter keep xs) (All-filter keep xs h)
    where
      by_list :
          (ys : List Activity)
          → All IsActive ys
          → (elim (if ltb 0 (total_ops (sum_from zero_stats ys))
              then some (sum_from zero_stats ys)
              else none) [ none ↦ total | some stats ↦ accumulate total stats ])
            ≡ sum_from total ys
      by_list [] h = refl
      by_list (y ∷ ys) (h, hs) =
          rw (lt→ltb 0 (total_ops (sum_from zero_stats (y ∷ ys))) (active_sum_cons y ys h))
            (sym (sum_from-cons total y ys))

  node_total :
      (path : Bytes) (i : NodeInfo) (ch : Children)
      → ((total : NodeStats)
          → add_children to_lowercase query processes path ch total
            ≡ sum_from total (filter keep (activities_below path ch)))
      → add_children to_lowercase query processes path ch
          (add_matching to_lowercase query processes path i.per_process zero_stats)
        ≡ sum_from zero_stats (filter keep (activities path (node i ch)))
  unfolding activities
  node_total path i ch below =
      let here = activities_at path i.per_process in
      below _
      ∙ ap (λ t. sum_from t (filter keep (activities_below path ch)))
          (add_matching-sum path i.per_process zero_stats)
      ∙ sym (sum_from-append zero_stats (filter keep here) (filter keep (activities_below path ch)))
      ∙ ap (sum_from zero_stats) (sym (filter-append keep here (activities_below path ch)))

  node_shown :
      (path : Bytes) (i : NodeInfo) (ch : Children)
      → has_no_terms query ≡ false
      → ((total : NodeStats)
          → add_children to_lowercase query processes path ch total
            ≡ sum_from total (filter keep (activities_below path ch)))
      → filtered_stats to_lowercase query processes path (node i ch)
        ≡ shown (activities path (node i ch))
  unfolding filtered_stats
  node_shown path i ch has_terms below = rw (has_terms, node_total path i ch below) refl

  add_children-sum :
      (path : Bytes) (cs : Children)
      → has_no_terms query ≡ false
      → All IsActive (activities_below path cs)
      → (total : NodeStats)
      → add_children to_lowercase query processes path cs total
        ≡ sum_from total (filter keep (activities_below path cs))
  unfolding filtered_stats activities
  add_children-sum path nil has_terms active total = refl
  add_children-sum path (cons k (node i ch) rest) has_terms active total =
      let child_path = join_path path i.name in
      let acts = activities child_path (node i ch) in
      let (here, after) = All-append acts (activities_below path rest) active in
      let (_, deeper) =
        All-append (activities_at child_path i.per_process) (activities_below child_path ch) here in
      let below = add_children-sum child_path ch has_terms deeper in
      ap
        (λ o.
          add_children to_lowercase query processes path rest
            (elim o [ none ↦ total | some stats ↦ accumulate total stats ]))
        (node_shown child_path i ch has_terms below)
      ∙ ap (add_children to_lowercase query processes path rest) (add_shown total acts here)
      ∙ add_children-sum path rest has_terms after (sum_from total (filter keep acts))
      ∙ sym (sum_from-append total (filter keep acts) (filter keep (activities_below path rest)))
      ∙ ap (sum_from total) (sym (filter-append keep acts (activities_below path rest)))

  -- A query with terms leaves of a node the sum of the activity at and below it that matches, and
  -- nothing when none does; without terms it leaves the aggregate. The tree's entries each have an
  -- operation, as all that are recorded do.
  pub filtered_stats-shown :
      (path : Bytes) (n : TreeNode)
      → All IsActive (activities path n)
      → filtered_stats to_lowercase query processes path n
        ≡ (if has_no_terms query then some (info n).agg_stats else shown (activities path n))
  unfolding filtered_stats activities
  filtered_stats-shown path (node i ch) active = elim (Bool-cases (has_no_terms query)) [
    | inl e ↦ rw e refl
    | inr e ↦
        let (_, deeper) =
          All-append (activities_at path i.per_process) (activities_below path ch) active in
        node_shown path i ch e (add_children-sum path ch e deeper)
        ∙ ap (λ b. if b then some i.agg_stats else shown (activities path (node i ch))) (sym e)
  ]
