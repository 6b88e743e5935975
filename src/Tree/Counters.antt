-- ===== src/Tree/Counters.antt =====
-- The aggregate counters of a tree: `recomputed_aggregate` and `assert_aggregate_invariants` of the
-- tests in ncda/src/model.rs, and that a walk preserves them.
use ncda.Base.{
  Bool, ◌≡◌, sym, refl, ap, ◌∙◌, ℕ, List, [], ◌∷◌, not, is_empty, Bytes, ◌==◌, Bool-cases, inl, inr,
  list_eq, nat_eq, arith,
}
use ncda.Stats.{NodeStats, zero_stats, accumulate}
use ncda.Stats.Laws.{accumulate_assoc, accumulate_comm, accumulate-zero_stats}
use ncda.Tree.{
  NodeInfo, TreeNode, node, Children, nil, cons, new_node, child_entry, touch_leaf, visit,
  visit_node, walk, info,
}

unfoldable mutual
  pub recomputed_aggregate : TreeNode → NodeStats
  recomputed_aggregate (node i cs) = recomputed_from i.stats cs

  pub recomputed_from : NodeStats → Children → NodeStats
  recomputed_from total nil = total
  recomputed_from total (cons k n cs) =
      recomputed_from (accumulate total (recomputed_aggregate n)) cs

-- The aggregate of every node is that of its own statistics and its descendants'.
unfoldable mutual
  pub IsAggregated : TreeNode → Type 0
  IsAggregated (node i cs) = (i.agg_stats ≡ recomputed_aggregate (node i cs)) × AllAggregated cs

  pub AllAggregated : Children → Type 0
  AllAggregated nil = Unit
  AllAggregated (cons k n cs) = IsAggregated n × AllAggregated cs

accumulate_right :
    (a b c : NodeStats) → accumulate (accumulate a b) c ≡ accumulate (accumulate a c) b
accumulate_right a b c =
    accumulate_assoc a b c ∙ ap (accumulate a) (accumulate_comm b c) ∙ sym (accumulate_assoc a c b)

recomputed_from-accumulate :
    (a d : NodeStats) (cs : Children)
    → recomputed_from (accumulate a d) cs ≡ accumulate (recomputed_from a cs) d
unfolding recomputed_aggregate
recomputed_from-accumulate a d nil = refl
recomputed_from-accumulate a d (cons k n cs) =
    rw (accumulate_right a d (recomputed_aggregate n))
      (recomputed_from-accumulate (accumulate a (recomputed_aggregate n)) d cs)

-- A walk step `f` that adds `d` below a node adds `d` below its parent.
module _ (d : NodeStats) (c : Bytes) (fresh : TreeNode) (f : TreeNode → TreeNode × Bool) where
  recomputed-child_entry :
      recomputed_aggregate (f fresh).0 ≡ accumulate zero_stats d
      → ((n : TreeNode) → recomputed_aggregate (f n).0 ≡ accumulate (recomputed_aggregate n) d)
      → (a : NodeStats) (cs : Children)
      → recomputed_from a (child_entry c fresh f cs).0 ≡ accumulate (recomputed_from a cs) d
  unfolding recomputed_aggregate child_entry
  recomputed-child_entry hf h a nil = rw (hf, accumulate-zero_stats)
  recomputed-child_entry hf h a (cons k n cs) = elim (Bool-cases (k == c)) [
    | inl e ↦ rw (e, h n, ← accumulate_assoc) (recomputed_from-accumulate _ d cs)
    | inr e ↦ rw e (recomputed-child_entry hf h (accumulate a (recomputed_aggregate n)) cs)
  ]

  AllAggregated-child_entry :
      IsAggregated (f fresh).0
      → ((n : TreeNode) → IsAggregated n → IsAggregated (f n).0)
      → (cs : Children) → AllAggregated cs
      → AllAggregated (child_entry c fresh f cs).0
  unfolding IsAggregated child_entry
  AllAggregated-child_entry hf h nil t = (hf, tt)
  AllAggregated-child_entry hf h (cons k n cs) t = elim (Bool-cases (k == c)) [
    | inl e ↦ rw e (h n t.0, t.1)
    | inr e ↦ rw e (t.0, AllAggregated-child_entry hf h cs t.1)
  ]

stats-touch_leaf :
    (pid : ℕ) (d : NodeStats) (i : NodeInfo)
    → ((touch_leaf pid d i).0.stats ≡ accumulate i.stats d)
      × ((touch_leaf pid d i).0.agg_stats ≡ i.agg_stats)
unfolding touch_leaf
stats-touch_leaf pid d i = ground arith

recomputed-visit_node :
    (l : Bool) (d : NodeStats) (n : TreeNode)
    → recomputed_aggregate (visit_node l d n) ≡ recomputed_aggregate n
unfolding visit recomputed_aggregate
recomputed-visit_node l d (node i cs) = refl

recomputed-new_node : (c : Bytes) (b : Bool) → recomputed_aggregate (new_node c b) ≡ zero_stats
unfolding recomputed_aggregate new_node
recomputed-new_node c b = refl

pub new_node-IsAggregated : (c : Bytes) (b : Bool) → IsAggregated (new_node c b)
unfolding recomputed_aggregate new_node IsAggregated
new_node-IsAggregated c b = (refl, tt)

-- A walk adds its delta once to what a node aggregates.
recomputed-walk :
    (cs : List Bytes) (pid : ℕ) (d : NodeStats) (n : TreeNode)
    → recomputed_aggregate (walk cs pid d n).0 ≡ accumulate (recomputed_aggregate n) d
unfolding walk recomputed_aggregate
recomputed-walk [] pid d (node i ch) =
    rw ((stats-touch_leaf pid d i).0) (recomputed_from-accumulate i.stats d ch)
recomputed-walk (c ∷ rest) pid d (node i ch) =
    let below = λ (n : TreeNode).
      recomputed-walk rest pid d (visit_node (is_empty rest) d n)
      ∙ ap (λ s. accumulate s d) (recomputed-visit_node (is_empty rest) d n) in
    recomputed-child_entry d c (new_node c (not (is_empty rest)))
      (λ n. walk rest pid d (visit_node (is_empty rest) d n))
      (below (new_node c (not (is_empty rest)))
        ∙ ap (λ s. accumulate s d) (recomputed-new_node c (not (is_empty rest))))
      below i.stats ch

agg_stats-walk :
    (cs : List Bytes) (pid : ℕ) (d : NodeStats) (l : Bool) (n : TreeNode)
    → (info n).agg_stats ≡ recomputed_aggregate n
    → accumulate (info n).agg_stats d ≡ recomputed_aggregate (walk cs pid d (visit_node l d n)).0
agg_stats-walk cs pid d l n h =
    ap (λ s. accumulate s d) (h ∙ sym (recomputed-visit_node l d n))
    ∙ sym (recomputed-walk cs pid d (visit_node l d n))

-- A node that is visited and then walked through stays in order.
pub walk-IsAggregated :
    (cs : List Bytes) (pid : ℕ) (d : NodeStats) (is_last : Bool) (n : TreeNode)
    → IsAggregated n
    → IsAggregated (walk cs pid d (visit_node is_last d n)).0
unfolding walk IsAggregated visit
walk-IsAggregated [] pid d l (node i ch) t =
    ((stats-touch_leaf pid d (visit l d i)).1 ∙ agg_stats-walk [] pid d l (node i ch) t.0, t.1)
walk-IsAggregated (c ∷ rest) pid d l (node i ch) t =
    let is_last = is_empty rest in
    let below = walk-IsAggregated rest pid d is_last in
    let fresh = new_node c (not is_last) in
    (
      agg_stats-walk (c ∷ rest) pid d l (node i ch) t.0,
      AllAggregated-child_entry d c fresh (λ n. walk rest pid d (visit_node is_last d n))
          (below fresh (new_node-IsAggregated c (not is_last))) below ch t.1,
    )
