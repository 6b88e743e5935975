-- ===== src/Tree/Totals.antt =====
-- The operations of a tree keep the aggregate of every node that of its subtree.
use ncda.Base.{
  ℕ, ◌≡◌, sym, refl, ◌∙◌, true, List, [], ◌∷◌, Bytes, is_empty, ◌==◌, list_eq, nat_eq, Bool-cases,
  Option-cases, inl, inr, path_components,
}
use ncda.Base.HashMap.{get}
use ncda.Stats.{NodeStats, accumulate}
use ncda.Tree.{
  TreeNode, node, Children, nil, cons, child_update, update_node, forget, FileTree, new,
  record_stats, remove_paths, remove_process,
}
use ncda.Tree.Counters.{
  recomputed_aggregate, recomputed_from, IsAggregated, AllAggregated, walk-IsAggregated,
  new_node-IsAggregated,
}
use ncda.Tree.Record.{root-record_stats}

-- What forgets a process below a node leaves the counters alone.
module _ (pid : ℕ) where
  recomputed-child_update :
      (c : Bytes) (f : TreeNode → TreeNode)
      → ((n : TreeNode) → recomputed_aggregate (f n) ≡ recomputed_aggregate n)
      → (a : NodeStats) (cs : Children)
      → recomputed_from a (child_update c f cs) ≡ recomputed_from a cs
  unfolding recomputed_aggregate child_update
  recomputed-child_update c f h a nil = refl
  recomputed-child_update c f h a (cons k n cs) = elim (Bool-cases (k == c)) [
    | inl e ↦ rw (e, h n)
    | inr e ↦ rw e (recomputed-child_update c f h (accumulate a (recomputed_aggregate n)) cs)
  ]

  recomputed-update_node :
      (cs : List Bytes) (n : TreeNode)
      → recomputed_aggregate (update_node cs (forget pid) n) ≡ recomputed_aggregate n
  unfolding recomputed_aggregate update_node
  recomputed-update_node [] (node i ch) = refl
  recomputed-update_node (c ∷ rest) (node i ch) =
      recomputed-child_update c (update_node rest (forget pid)) (recomputed-update_node rest)
        i.stats ch

  AllAggregated-child_update :
      (c : Bytes) (f : TreeNode → TreeNode)
      → ((n : TreeNode) → IsAggregated n → IsAggregated (f n))
      → (cs : Children) → AllAggregated cs
      → AllAggregated (child_update c f cs)
  unfolding IsAggregated child_update
  AllAggregated-child_update c f h nil t = tt
  AllAggregated-child_update c f h (cons k n cs) t = elim (Bool-cases (k == c)) [
    | inl e ↦ rw e (h n t.0, t.1)
    | inr e ↦ rw e (t.0, AllAggregated-child_update c f h cs t.1)
  ]

  update_node-IsAggregated :
      (cs : List Bytes) (n : TreeNode)
      → IsAggregated n
      → IsAggregated (update_node cs (forget pid) n)
  unfolding IsAggregated update_node recomputed_aggregate
  update_node-IsAggregated [] (node i ch) t = t
  update_node-IsAggregated (c ∷ rest) (node i ch) t = (
    t.0 ∙ sym (recomputed-update_node (c ∷ rest) (node i ch)),
    AllAggregated-child_update c (update_node rest (forget pid)) (update_node-IsAggregated rest) ch
        t.1,
  )

pub record_stats-IsAggregated :
    (path : Bytes) (pid : ℕ) (delta : NodeStats) (t : FileTree)
    → IsAggregated t.root
    → IsAggregated (record_stats path pid delta t).root
record_stats-IsAggregated path pid delta t h =
    rw (root-record_stats path pid delta t) (elim (Bool-cases (is_empty (path_components path))) [
      | inl e ↦ rw e h
      | inr e ↦ rw e (walk-IsAggregated (path_components path) pid delta true t.root h)
    ])

remove_paths-IsAggregated :
    (pid : ℕ) (paths : List Bytes) (t : FileTree)
    → IsAggregated t.root
    → IsAggregated (remove_paths pid paths t).root
unfolding remove_paths
remove_paths-IsAggregated pid [] t h = h
remove_paths-IsAggregated pid (path ∷ paths) t h =
    remove_paths-IsAggregated pid paths _
      (update_node-IsAggregated pid (path_components path) t.root h)

pub remove_process-IsAggregated :
    (pid : ℕ) (t : FileTree) → IsAggregated t.root → IsAggregated (remove_process pid t).root
unfolding remove_process
remove_process-IsAggregated pid t h = elim (Option-cases (get pid t.paths_by_process)) [
  | inl e ↦ rw (e, remove_process) h
  | inr (paths, e) ↦ rw (e, remove_process) (remove_paths-IsAggregated pid paths _ h)
]

pub new-IsAggregated : IsAggregated new.root
unfolding new
new-IsAggregated = new_node-IsAggregated _ true
