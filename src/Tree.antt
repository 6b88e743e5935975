-- ===== src/Tree.antt =====
-- `TreeNode` and `FileTree` of ncda/src/model.rs: the tree of the files that were active, and the
-- reverse index from a process to the paths that it touched.
mod Counters
mod View
pub mod Walk
pub mod Record
pub mod Totals
pub mod Index
pub mod Runs
mod Examples
use ncda.Base.{
  unwrap_or, ℕ, ◌-◌, Bool, true, false, not, Option, none, some, List, [], ◌∷◌, ◌++◌, Bytes,
  is_empty, any, path_components, saturating_add, leb, if◌then◌else◌, ◌==◌, nat_eq, list_eq,
}
use ncda.Base.HashMap.{HashMap, get, insert, remove}
use ncda.Stats.{NodeStats, OpKind, zero_stats, accumulate, for_operations}

-- The fields of a `TreeNode` but its children.
pub record NodeInfo : Type 0 where
  pub name : Bytes
  pub is_dir : Bool
  pub stats : NodeStats
  pub agg_stats : NodeStats
  pub per_process : HashMap ℕ NodeStats

-- `TreeNode`, with the `HashMap` of its children as a type of the same block.
mutual
  pub data TreeNode : Type 0 where
    node : NodeInfo → Children → TreeNode

  pub data Children : Type 0 where
    nil : Children
    cons : Bytes → TreeNode → Children → Children

abbrev pub info : TreeNode → NodeInfo
info (node i cs) = i

abbrev pub children : TreeNode → Children
children (node i cs) = cs

-- `TreeNode::new`
pub new_node : Bytes → Bool → TreeNode
new_node name is_dir =
    node
      (record {
        name = name;
        is_dir = is_dir;
        stats = zero_stats;
        agg_stats = zero_stats;
        per_process = [];
      })
      nil

-- `children.get(component)`
pub child_get : Bytes → Children → Option TreeNode
child_get c nil = none
child_get c (cons k n cs) = if k == c then some n else child_get c cs

-- `children.entry(component).or_insert_with(new)`, and `f` on the node that it borrows
pub child_entry : Bytes → TreeNode → (TreeNode → TreeNode × Bool) → Children → Children × Bool
child_entry c fresh f nil = let (n', b) = f fresh in (cons c n' nil, b)
child_entry c fresh f (cons k n cs) =
    let (n', b) = f n in
    let (cs', b') = child_entry c fresh f cs in
    if k == c then (cons k n' cs, b) else (cons k n cs', b')

-- The end of `record_stats`' walk: the direct and the per-process statistics of the leaf, and
-- whether the process reached it for the first time.
pub touch_leaf : ℕ → NodeStats → NodeInfo → NodeInfo × Bool
touch_leaf pid delta i =
    let stats' = accumulate i.stats delta in
    elim (get pid i.per_process) [
      | some old ↦ (
        record i { stats = stats'; per_process = insert pid (accumulate old delta) i.per_process },
        false,
      )
      | none ↦ (record i { stats = stats'; per_process = insert pid delta i.per_process }, true)
    ]

-- What the walk does at a component's node: all but the last are directories.
pub visit : Bool → NodeStats → NodeInfo → NodeInfo
visit is_last delta i = record i {
  is_dir = (if is_last then i.is_dir else true);
  agg_stats = accumulate i.agg_stats delta;
}

abbrev pub visit_node : Bool → NodeStats → TreeNode → TreeNode
visit_node is_last delta (node i cs) = node (visit is_last delta i) cs

-- The loop over the components, from a node that has been visited.
pub walk : List Bytes → ℕ → NodeStats → TreeNode → TreeNode × Bool
walk [] pid delta (node i cs) = let (i', first) = touch_leaf pid delta i in (node i' cs, first)
walk (c ∷ rest) pid delta (node i cs) =
    let is_last = is_empty rest in
    let below = walk rest pid delta in
    let (cs', first) =
      child_entry c (new_node c (not is_last)) (λ n. below (visit_node is_last delta n)) cs in
    (node i cs', first)

pub record FileTree : Type 0 where
  pub root : TreeNode
  -- the number of processes that reference a path
  pub active_paths : HashMap Bytes ℕ
  pub paths_by_process : HashMap ℕ (List Bytes)

-- `FileTree::new`
pub new : FileTree
new = record { root = new_node (b'/' ∷ []) true; active_paths = []; paths_by_process = [] }

-- `HashSet::insert`
abbrev pub set_insert : Bytes → List Bytes → List Bytes
set_insert p ps = if any (λ q. q == p) ps then ps else ps ++ p ∷ []

-- The reverse index at the first activity of a process on a path. The `debug_assert!` that the path
-- is new to the index is no part of a release build.
pub index_path : Bytes → ℕ → FileTree → FileTree
index_path path pid t = record t {
  active_paths =
      insert path (saturating_add (unwrap_or (get path t.active_paths) 0) 1) t.active_paths;
  paths_by_process =
      insert pid (set_insert path (unwrap_or (get pid t.paths_by_process) [])) t.paths_by_process;
}

pub record_stats : Bytes → ℕ → NodeStats → FileTree → FileTree
record_stats path pid delta t =
    let components = path_components path in
    if is_empty components
    then t
    else let (root', first) = walk components pid delta (visit_node true delta t.root) in
      let t' = record t { root = root' } in if first then index_path path pid t' else t'

unfoldable pub record_op : Bytes → ℕ → OpKind → ℕ → ℕ → FileTree → FileTree
record_op path pid op bytes latency_ns t =
    record_stats path pid (for_operations op bytes 1 latency_ns latency_ns) t

unfoldable pub get_node : List Bytes → TreeNode → Option TreeNode
get_node [] n = some n
get_node (c ∷ rest) (node i cs) = elim (child_get c cs) [ none ↦ none | some n ↦ get_node rest n ]

-- `find_node_mut`, and `f` on the node that it borrows
pub child_update : Bytes → (TreeNode → TreeNode) → Children → Children
child_update c f nil = nil
child_update c f (cons k n cs) = if k == c then cons k (f n) cs else cons k n (child_update c f cs)

pub update_node : List Bytes → (NodeInfo → NodeInfo) → TreeNode → TreeNode
update_node [] f (node i cs) = node (f i) cs
update_node (c ∷ rest) f (node i cs) = node i (child_update c (update_node rest f) cs)

-- `reset` releases all activity and the index.
pub reset : FileTree → FileTree
unfolding new
reset t = new

-- The count of a path that loses one of its processes.
pub release_path : Bytes → HashMap Bytes ℕ → HashMap Bytes ℕ
release_path path active = elim (get path active) [
  | none ↦ active
  | some references ↦
      if leb references 1 then remove path active else insert path (references - 1) active
]

abbrev pub forget : ℕ → NodeInfo → NodeInfo
forget pid i = record i { per_process = remove pid i.per_process }

-- One round of the loop of `remove_process`.
abbrev pub forget_path : ℕ → Bytes → FileTree → FileTree
forget_path pid path t = record t {
  root = update_node (path_components path) (forget pid) t.root;
  active_paths = release_path path t.active_paths;
}

pub remove_paths : ℕ → List Bytes → FileTree → FileTree
remove_paths pid [] t = t
remove_paths pid (path ∷ paths) t = remove_paths pid paths (forget_path pid path t)

pub remove_process : ℕ → FileTree → FileTree
remove_process pid t = elim (get pid t.paths_by_process) [
  | none ↦ t
  | some paths ↦
      remove_paths pid paths (record t { paths_by_process = remove pid t.paths_by_process })
]
