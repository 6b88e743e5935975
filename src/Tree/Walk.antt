-- ===== src/Tree/Walk.antt =====
-- What the walk of `record_stats` changes in the three tables that a tree stands for: the direct
-- statistics, the aggregates and the processes' statistics, each by path.
use ncda.Base.{
  is_some, unwrap_or, ℕ, ◌≡◌, refl, ap, ◌∙◌, Bool, true, false, not, ◌&&◌, Option, none, some, List,
  [], ◌∷◌, Bytes, is_empty, if◌then◌else◌, ◌==◌, nat_beq, Option-cases, nat_eq, list_eq,
  list_beq_iff, inl, inr, arith,
}
use ncda.Base.HashMap.{get, get-insert}
use ncda.Stats.{NodeStats, zero_stats, accumulate}
use ncda.Tree.{
  NodeInfo, TreeNode, node, Children, nil, cons, info, new_node, child_get, child_entry, touch_leaf,
  visit, visit_node, walk, get_node,
}
use ncda.Tree.View.{view, view_child_entry, view_entered, view-walk}

-- The direct statistics of a path, its aggregate, and the statistics of one process on it.
unfoldable pub stats_at : List Bytes → TreeNode → NodeStats
unfolding view
stats_at = view (λ i. i.stats) zero_stats

unfoldable pub agg_stats_at : List Bytes → TreeNode → NodeStats
unfolding view
agg_stats_at = view (λ i. i.agg_stats) zero_stats

unfoldable pub process_at : ℕ → List Bytes → TreeNode → Option NodeStats
unfolding view
process_at pid = view (λ i. get pid i.per_process) none

-- One path stands at or below another.
abbrev pub is_prefix : List Bytes → List Bytes → Bool
is_prefix [] cs = true
is_prefix (q ∷ qs) [] = false
is_prefix (q ∷ qs) (c ∷ cs) = q == c && is_prefix qs cs

-- A process's entry takes a delta: its first activity makes the entry.
abbrev pub add_delta : NodeStats → Option NodeStats → NodeStats
add_delta d none = d
add_delta d (some old) = accumulate old d

pub stats-walk :
    (pid : ℕ) (d : NodeStats) (cs qs : List Bytes) (n : TreeNode)
    → stats_at qs (walk cs pid d n).0
      ≡ (if qs == cs then accumulate (stats_at qs n) d else stats_at qs n)
stats-walk pid d =
    unfold stats_at touch_leaf visit new_node in
    view-walk (λ i. i.stats) zero_stats pid d (λ s. accumulate s d) (λ c b. refl) (λ l i. refl)
      (λ i. ground arith)

process-touch_leaf :
    (p pid : ℕ) (d : NodeStats) (i : NodeInfo)
    → get p (touch_leaf pid d i).0.per_process
      ≡ (if nat_beq pid p then some (add_delta d (get p i.per_process)) else get p i.per_process)
unfolding touch_leaf
process-touch_leaf p pid d i = elim (Option-cases (get pid i.per_process)) [
  | inl e ↦ rw (e, touch_leaf) (ground (arith, get-insert pid p d i.per_process))
  | inr (old, e) ↦
      rw (e, touch_leaf) (ground (arith, get-insert pid p (accumulate old d) i.per_process))
]

pub stats-visit_node :
    (l : Bool) (d : NodeStats) (qs : List Bytes) (n : TreeNode)
    → stats_at qs (visit_node l d n) ≡ stats_at qs n
unfolding stats_at get_node visit
stats-visit_node l d [] (node i cs) = refl
stats-visit_node l d (q ∷ s) (node i cs) = refl

pub process-walk :
    (p pid : ℕ) (d : NodeStats) (cs qs : List Bytes) (n : TreeNode)
    → process_at p qs (walk cs pid d n).0 ≡ (
        if qs == cs
        then (if nat_beq pid p then some (add_delta d (process_at p qs n)) else process_at p qs n)
        else process_at p qs n)
process-walk p pid d =
    unfold process_at visit new_node in
    view-walk (λ i. get p i.per_process) none pid d
      (λ o. if nat_beq pid p then some (add_delta d o) else o) (λ c b. refl) (λ l i. refl)
      (process-touch_leaf p pid d)

pub agg_stats-visit_node :
    (l : Bool) (d : NodeStats) (qs : List Bytes) (n : TreeNode)
    → agg_stats_at qs (visit_node l d n)
      ≡ (if is_empty qs then accumulate (agg_stats_at qs n) d else agg_stats_at qs n)
unfolding agg_stats_at get_node visit
agg_stats-visit_node l d [] (node i cs) = refl
agg_stats-visit_node l d (q ∷ s) (node i cs) = refl

new-agg_stats : (c : Bytes) (b : Bool) → (info (new_node c b)).agg_stats ≡ zero_stats
unfolding new_node
new-agg_stats c b = refl

pub is_prefix_empty : (s cs : List Bytes) → is_empty s ≡ true → is_prefix s cs ≡ true
is_prefix_empty [] cs h = refl
is_prefix_empty (q ∷ s) cs h = cc

agg_stats-walk_cons :
    (pid : ℕ) (d : NodeStats) (c q : Bytes) (rest s : List Bytes)
    → ((n : TreeNode)
        → agg_stats_at s (walk rest pid d n).0 ≡ (
            if not (is_empty s) && is_prefix s rest
            then accumulate (agg_stats_at s n) d
            else agg_stats_at s n))
    → (n : TreeNode)
    → agg_stats_at (q ∷ s) (walk (c ∷ rest) pid d n).0 ≡ (
        if is_prefix (q ∷ s) (c ∷ rest)
        then accumulate (agg_stats_at (q ∷ s) n) d
        else agg_stats_at (q ∷ s) n)
unfolding walk agg_stats_at
agg_stats-walk_cons pid d c q rest s ih (node i ch) =
    let last = is_empty rest in
    let child = unwrap_or (child_get c ch) (new_node c (not last)) in
    ground (
      arith,
      list_beq_iff c q,
      list_beq_iff q c,
      is_prefix_empty s rest,
      view_entered (λ (i : NodeInfo). i.agg_stats) zero_stats c q s (new_node c (not last))
          (λ (n : TreeNode). walk rest pid d (visit_node last d n)) i ch,
      ih (visit_node last d child),
      agg_stats-visit_node last d s child,
      view_child_entry (λ (i : NodeInfo). i.agg_stats) zero_stats new-agg_stats c s (not last) i ch,
    )

-- The visited prefixes of a path take the delta; the start of the walk has it already.
pub agg_stats-walk :
    (pid : ℕ) (d : NodeStats) (cs qs : List Bytes) (n : TreeNode)
    → agg_stats_at qs (walk cs pid d n).0 ≡ (
        if not (is_empty qs) && is_prefix qs cs
        then accumulate (agg_stats_at qs n) d
        else agg_stats_at qs n)
unfolding agg_stats_at get_node walk touch_leaf
agg_stats-walk pid d [] [] (node i ch) = ground arith
agg_stats-walk pid d [] (q ∷ s) (node i ch) = refl
agg_stats-walk pid d (c ∷ rest) [] (node i ch) = refl
agg_stats-walk pid d (c ∷ rest) (q ∷ s) (node i ch) =
    agg_stats-walk_cons pid d c q rest s (agg_stats-walk pid d rest s) (node i ch)

child_entry_first :
    (c : Bytes) (fresh : TreeNode) (f : TreeNode → TreeNode × Bool) (cs : Children)
    → (child_entry c fresh f cs).1 ≡ (f (unwrap_or (child_get c cs) fresh)).1
unfolding child_entry child_get
child_entry_first c fresh f nil = refl
child_entry_first c fresh f (cons k n cs) = ground (arith, child_entry_first c fresh f cs)

new-process : (pid : ℕ) (c : Bytes) (b : Bool) → get pid (info (new_node c b)).per_process ≡ none
unfolding new_node
new-process pid c b = refl

pub process-visit_node :
    (pid : ℕ) (l : Bool) (d : NodeStats) (qs : List Bytes) (n : TreeNode)
    → process_at pid qs (visit_node l d n) ≡ process_at pid qs n
unfolding process_at get_node visit
process-visit_node pid l d [] (node i cs) = refl
process-visit_node pid l d (q ∷ s) (node i cs) = refl

-- `first_process_activity`: the process had no entry at the leaf.
pub first-walk :
    (pid : ℕ) (d : NodeStats) (cs : List Bytes) (n : TreeNode)
    → (walk cs pid d n).1 ≡ not (is_some (process_at pid cs n))
unfolding walk process_at
first-walk pid d [] (node i ch) = unfold touch_leaf view get_node in ground arith
first-walk pid d (c ∷ rest) (node i ch) =
    let last = is_empty rest in
    let fresh = new_node c (not last) in
    let child = unwrap_or (child_get c ch) fresh in
    child_entry_first c fresh (λ n. walk rest pid d (visit_node last d n)) ch
    ∙ first-walk pid d rest (visit_node last d child)
    ∙ ap (λ o. not (is_some o))
        (process-visit_node pid last d rest child
          ∙ view_child_entry (λ i. get pid i.per_process) none (new-process pid) c rest (not last) i
              ch)
