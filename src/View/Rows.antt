-- ===== src/View/Rows.antt =====
-- The rows of the views: `visible_rows` of ncda/src/tui/flat_view.rs, `flatten` of
-- ncda/src/tui/tree_view.rs, and `sorted` of ncda/src/process.rs.
pub mod Comparing
pub mod Sorted
pub mod Lines
use Prim.Native.Nat.{compare, Ordering}
use ncda.Base.{
  ℕ, suc, ◌+◌, Bool, true, false, ◌&&◌, Option, none, some, List, [], ◌∷◌, ◌++◌, Bytes, any, ascii,
  take, if◌then◌else◌, ◌==◌, nat_eq, list_eq,
}
use ncda.Base.HashMap.{HashMap}
use ncda.Base.Order.{reverse_order, then_with, compare_bytes, sort_by}
use ncda.Stats.{NodeStats, total_bytes, total_ops, avg_latency_ns}
use ncda.Tree.{TreeNode, node, Children, nil, cons, FileTree, info, children, get_node}
use ncda.Process.{ProcessInfo, ProcessTable}
use ncda.Filter.{FilterQuery, join_path, filtered_stats}
use ncda.View.{SortBy, ProcessSort, cwd_path}

pub record TreeLine : Type 0 where
  pub depth : ℕ
  pub path : List Bytes
  pub display_path : Bytes
  pub name : Bytes
  pub is_dir : Bool
  pub is_expanded : Bool
  pub read_bytes : ℕ
  pub write_bytes : ℕ
  pub total_ops : ℕ
  pub avg_latency_ns : ℕ
  pub total_bytes : ℕ

pub record FlatRow : Type 0 where
  pub name : Bytes
  pub path : Bytes
  pub is_dir : Bool
  pub stats : NodeStats

-- The comparison by a column, and that of the views: by a column, then by name.
unfoldable pub column_order : SortBy → Bytes × NodeStats → Bytes × NodeStats → Ordering
column_order SortBy.total_bytes (a, s) (b, t) = compare (total_bytes s) (total_bytes t)
column_order SortBy.read_bytes (a, s) (b, t) = compare s.read_bytes t.read_bytes
column_order SortBy.write_bytes (a, s) (b, t) = compare s.write_bytes t.write_bytes
column_order SortBy.frequency (a, s) (b, t) = compare (total_ops s) (total_ops t)
column_order SortBy.latency (a, s) (b, t) = compare (avg_latency_ns s) (avg_latency_ns t)
column_order SortBy.name (a, s) (b, t) = compare_bytes a b

abbrev pub directed : Bool → Ordering → Ordering
directed descending order = if descending then reverse_order order else order

unfoldable pub name_order : SortBy → Bool → Bytes × NodeStats → Bytes × NodeStats → Ordering
name_order sort desc a b = then_with (directed desc (column_order sort a b)) (compare_bytes a.0 b.0)

abbrev pub row_order : SortBy → Bool → FlatRow → FlatRow → Ordering
row_order sort desc a b = name_order sort desc (a.name, a.stats) (b.name, b.stats)

module _ (to_lowercase : Bytes → Bytes) (query : FilterQuery) (processes : ProcessTable) where
  abbrev pub shown_stats : Bytes → TreeNode → Option NodeStats
  shown_stats = filtered_stats to_lowercase query processes

  -- The rows of the children that the filter leaves, not sorted yet.
  unfoldable pub child_rows : Bytes → Children → List FlatRow
  child_rows parent_path nil = []
  child_rows parent_path (cons k child cs) =
      let path = join_path parent_path (info child).name in
      let rest = child_rows parent_path cs in
      elim (shown_stats path child) [
        | none ↦ rest
        | some stats ↦
            record {
              name = (info child).name;
              path = path;
              is_dir = (info child).is_dir;
              stats = stats;
            }
            ∷ rest
      ]

  unfoldable pub visible_rows : FileTree → List Bytes → SortBy → Bool → List FlatRow
  visible_rows tree cwd sort desc = elim (get_node cwd tree.root) [
    | none ↦ []
    | some n ↦ sort_by (row_order sort desc) (child_rows (cwd_path cwd) (children n))
  ]

  -- A line with its statistics, and the lines below it.
  abbrev pub Block : Type 0
  Block = NodeStats × (TreeLine × List TreeLine)

  abbrev pub block_order : SortBy → Bool → Block → Block → Ordering
  block_order sort desc a b = name_order sort desc (a.1.0.name, a.0) (b.1.0.name, b.0)

  abbrev pub line_of : ℕ → List Bytes → Bytes → Bool → TreeNode → NodeStats → TreeLine
  line_of depth path display_path is_expanded child stats = record {
    depth = depth;
    path = path;
    display_path = display_path;
    name = (info child).name;
    is_dir = (info child).is_dir;
    is_expanded = is_expanded;
    read_bytes = stats.read_bytes;
    write_bytes = stats.write_bytes;
    total_ops = total_ops stats;
    avg_latency_ns = avg_latency_ns stats;
    total_bytes = total_bytes stats;
  }

  abbrev pub join_blocks : List Block → List TreeLine
  join_blocks [] = []
  join_blocks ((stats, (line, below)) ∷ blocks) = line ∷ below ++ join_blocks blocks

  module _ (expanded : List (List Bytes)) (sort : SortBy) (desc : Bool) where
    -- `flatten_recurse`, and what it makes of each child before they are sorted
    unfoldable mutual
      pub flatten_recurse : List Bytes → Bytes → ℕ → TreeNode → List TreeLine
      flatten_recurse path display_path depth (node i cs) =
          join_blocks (sort_by (block_order sort desc) (child_blocks path display_path depth cs))

      pub child_blocks : List Bytes → Bytes → ℕ → Children → List Block
      child_blocks path display_path depth nil = []
      child_blocks path display_path depth (cons k child cs) =
          let child_path = path ++ (info child).name ∷ [] in
          let child_display_path = join_path display_path (info child).name in
          let is_expanded = any (λ p. p == child_path) expanded in
          let below = flatten_recurse child_path child_display_path (depth + 1) child in
          let rest = child_blocks path display_path depth cs in
          elim (shown_stats child_display_path child) [
            | none ↦ rest
            | some stats ↦
                (
                  stats,
                  (
                    line_of depth child_path child_display_path is_expanded child stats,
                    (if (info child).is_dir && is_expanded then below else []),
                  ),
                )
                ∷ rest
          ]

    unfoldable pub flatten : FileTree → List TreeLine
    flatten tree = flatten_recurse [] (ascii "/") 0 tree.root

-- `ProcessTable::sorted`, and `top_by_bytes`
unfoldable pub process_column : ProcessSort → ProcessInfo → ProcessInfo → Ordering
process_column ProcessSort.by_total_bytes a b = compare (total_bytes a.stats) (total_bytes b.stats)
process_column ProcessSort.by_read_bytes a b = compare a.stats.read_bytes b.stats.read_bytes
process_column ProcessSort.by_write_bytes a b = compare a.stats.write_bytes b.stats.write_bytes
process_column ProcessSort.by_operations a b = compare (total_ops a.stats) (total_ops b.stats)
process_column ProcessSort.by_latency a b =
    compare (avg_latency_ns a.stats) (avg_latency_ns b.stats)
process_column ProcessSort.by_pid a b = compare a.pid b.pid
process_column ProcessSort.by_name a b = compare_bytes a.comm b.comm

unfoldable pub process_order : ProcessSort → Bool → ProcessInfo → ProcessInfo → Ordering
process_order sort desc a b =
    then_with (directed desc (process_column sort a b)) (compare a.pid b.pid)

abbrev pub values : HashMap ℕ ProcessInfo → List ProcessInfo
values [] = []
values ((pid, info) ∷ m) = info ∷ values m

unfoldable pub sorted : ProcessSort → Bool → ProcessTable → List ProcessInfo
sorted sort desc t = sort_by (process_order sort desc) (values t.processes)

unfoldable pub top_by_bytes : ℕ → ProcessTable → List ProcessInfo
top_by_bytes n t = take n (sorted ProcessSort.by_total_bytes true t)
