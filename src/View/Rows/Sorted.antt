-- ===== src/View/Rows/Sorted.antt =====
-- The rows come in the order asked for, and sorting loses none.
use Prim.Native.Nat.{compare, Ordering}
use ncda.Base.{◌≡◌, ap, Bool, true, false, some, List, Bytes, arith}
use ncda.Base.Order.{
  reverse_order, then_with, compare_bytes, compare-reverse, compare_bytes-reverse, count,
  count-sort_by, sort_by-IsSorted, sort_by,
}
use ncda.Stats.{NodeStats, total_bytes, total_ops, avg_latency_ns}
use ncda.Tree.{TreeNode, FileTree, children, get_node}
use ncda.Process.{ProcessInfo, ProcessTable}
use ncda.Filter.{FilterQuery}
use ncda.View.{SortBy, ProcessSort, cwd_path}
use ncda.View.Rows.Comparing.{
  RowLe, ProcessLe, Chain, IsSorted-Chain, row_order-RowLe, process_order-ProcessLe,
}
use ncda.View.Rows.{
  FlatRow, column_order, directed, name_order, row_order, child_rows, visible_rows, process_column,
  process_order, values, sorted,
}

directed-reverse :
    (desc : Bool) (o p : Ordering)
    → p ≡ reverse_order o
    → directed desc p ≡ reverse_order (directed desc o)
directed-reverse true o p h = ap reverse_order h
directed-reverse false o p h = h

then_with-reverse :
    (o p o' p' : Ordering)
    → o' ≡ reverse_order o
    → p' ≡ reverse_order p
    → then_with o' p' ≡ reverse_order (then_with o p)
then_with-reverse o p o' p' h k = ground (arith, h, k)

column_order-reverse :
    (sort : SortBy) (a b : Bytes × NodeStats)
    → column_order sort b a ≡ reverse_order (column_order sort a b)
unfolding column_order
column_order-reverse SortBy.total_bytes (a, s) (b, t) =
    compare-reverse (total_bytes s) (total_bytes t)
column_order-reverse SortBy.read_bytes (a, s) (b, t) = compare-reverse s.read_bytes t.read_bytes
column_order-reverse SortBy.write_bytes (a, s) (b, t) = compare-reverse s.write_bytes t.write_bytes
column_order-reverse SortBy.frequency (a, s) (b, t) = compare-reverse (total_ops s) (total_ops t)
column_order-reverse SortBy.latency (a, s) (b, t) =
    compare-reverse (avg_latency_ns s) (avg_latency_ns t)
column_order-reverse SortBy.name (a, s) (b, t) = compare_bytes-reverse a b

name_order-reverse :
    (sort : SortBy) (desc : Bool) (a b : Bytes × NodeStats)
    → name_order sort desc b a ≡ reverse_order (name_order sort desc a b)
unfolding name_order
name_order-reverse sort desc a b =
    then_with-reverse (directed desc (column_order sort a b)) (compare_bytes a.0 b.0) _ _
      (directed-reverse desc (column_order sort a b) _ (column_order-reverse sort a b))
      (compare_bytes-reverse a.0 b.0)

process_column-reverse :
    (sort : ProcessSort) (a b : ProcessInfo)
    → process_column sort b a ≡ reverse_order (process_column sort a b)
unfolding process_column
process_column-reverse ProcessSort.by_total_bytes a b =
    compare-reverse (total_bytes a.stats) (total_bytes b.stats)
process_column-reverse ProcessSort.by_read_bytes a b =
    compare-reverse a.stats.read_bytes b.stats.read_bytes
process_column-reverse ProcessSort.by_write_bytes a b =
    compare-reverse a.stats.write_bytes b.stats.write_bytes
process_column-reverse ProcessSort.by_operations a b =
    compare-reverse (total_ops a.stats) (total_ops b.stats)
process_column-reverse ProcessSort.by_latency a b =
    compare-reverse (avg_latency_ns a.stats) (avg_latency_ns b.stats)
process_column-reverse ProcessSort.by_pid a b = compare-reverse a.pid b.pid
process_column-reverse ProcessSort.by_name a b = compare_bytes-reverse a.comm b.comm

process_order-reverse :
    (sort : ProcessSort) (desc : Bool) (a b : ProcessInfo)
    → process_order sort desc b a ≡ reverse_order (process_order sort desc a b)
unfolding process_order
process_order-reverse sort desc a b =
    then_with-reverse (directed desc (process_column sort a b)) (compare a.pid b.pid) _ _
      (directed-reverse desc (process_column sort a b) _ (process_column-reverse sort a b))
      (compare-reverse a.pid b.pid)

-- The processes of a table come by the number or the name in the column, up or down, and those
-- with the same by their process number; every test is passed by as many of them as of the table's
-- entries.
pub sorted-ProcessLe :
    (sort : ProcessSort) (desc : Bool) (t : ProcessTable) (p : ProcessInfo → Bool)
    → Chain (ProcessLe sort desc) (sorted sort desc t)
      × (count p (sorted sort desc t) ≡ count p (values t.processes))
unfolding sorted
sorted-ProcessLe sort desc t p = (
  IsSorted-Chain (process_order sort desc) (ProcessLe sort desc) (process_order-ProcessLe sort desc)
      (sorted sort desc t)
      (sort_by-IsSorted (process_order sort desc) (process_order-reverse sort desc)
        (values t.processes)),
  count-sort_by (process_order sort desc) p (values t.processes),
)

-- The rows of a directory come by the number or the name in the column, up or down, and those with
-- the same number by their name; every test is passed by as many of them as of the children that the
-- filter leaves.
pub visible_rows-RowLe :
    (to_lowercase : Bytes → Bytes) (query : FilterQuery) (processes : ProcessTable)
    (tree : FileTree) (cwd : List Bytes) (n : TreeNode) (sort : SortBy) (desc : Bool)
    (p : FlatRow → Bool)
    → get_node cwd tree.root ≡ some n
    → Chain (RowLe sort desc) (visible_rows to_lowercase query processes tree cwd sort desc)
      × (count p (visible_rows to_lowercase query processes tree cwd sort desc)
          ≡ count p (child_rows to_lowercase query processes (cwd_path cwd) (children n)))
unfolding visible_rows
visible_rows-RowLe to_lowercase query processes tree cwd n sort desc p h =
    let rows = child_rows to_lowercase query processes (cwd_path cwd) (children n) in
    rw (visible_rows, h)
      (
        IsSorted-Chain (row_order sort desc) (RowLe sort desc) (row_order-RowLe sort desc)
            (sort_by (row_order sort desc) rows)
            (sort_by-IsSorted (row_order sort desc)
              (λ a b. name_order-reverse sort desc (a.name, a.stats) (b.name, b.stats)) rows),
        count-sort_by (row_order sort desc) p rows,
      )
