-- ===== src/App/Coalescing.antt =====
-- The groups of ncda/src/tui/app.rs against the events that they stand for.
use ncda.Base.{
  ℕ, ◌≡◌, refl, ◌∙◌, ap, sym, List, [], ◌∷◌, Bytes, arith, not, ◌&&◌, is_empty, path_components,
  ◌==◌, list_eq, nat_eq, if◌then◌else◌,
}
use ncda.Stats.{NodeStats, OpKind, accumulate, for_operations}
use ncda.Stats.Laws.{accumulate_assoc}
use ncda.Tree.{FileTree, record_stats, record_op}
use ncda.Tree.Walk.{stats_at, agg_stats_at, is_prefix}
use ncda.Tree.Record.{stats_at-record_stats, agg_stats_at-record_stats}
use ncda.App.Groups.{IoKey, IoGroup, new_group, record_in_group, group_stats}

-- One read or write: its bytes and its latency.
abbrev pub Io : Type 0
Io = ℕ × ℕ

abbrev pub io_stats : OpKind → Io → NodeStats
io_stats op (bytes, latency_ns) = for_operations op bytes 1 latency_ns latency_ns

-- A group joined by each of the events.
unfoldable pub join_all : IoGroup → List Io → IoGroup
join_all g [] = g
join_all g ((bytes, latency_ns) ∷ ios) = join_all (record_in_group bytes latency_ns g) ios

-- Statistics to which each of the events is added.
unfoldable pub add_all : OpKind → NodeStats → List Io → NodeStats
add_all op stats [] = stats
add_all op stats (io ∷ ios) = add_all op (accumulate stats (io_stats op io)) ios

group_stats-record_in_group :
    (bytes latency_ns : ℕ) (g : IoGroup)
    → group_stats (record_in_group bytes latency_ns g)
      ≡ accumulate (group_stats g) (io_stats g.key.op (bytes, latency_ns))
unfolding group_stats record_in_group accumulate for_operations
group_stats-record_in_group bytes latency_ns g = ground arith

group_stats-join_all :
    (ios : List Io) (g : IoGroup)
    → group_stats (join_all g ios) ≡ add_all g.key.op (group_stats g) ios
unfolding join_all add_all record_in_group
group_stats-join_all [] g = refl
group_stats-join_all ((bytes, latency_ns) ∷ ios) g =
    group_stats-join_all ios (record_in_group bytes latency_ns g)
    ∙ ap (λ s. add_all g.key.op s ios) (group_stats-record_in_group bytes latency_ns g)

accumulate-add_all :
    (op : OpKind) (a d : NodeStats) (ios : List Io)
    → accumulate a (add_all op d ios) ≡ add_all op (accumulate a d) ios
unfolding add_all
accumulate-add_all op a d [] = refl
accumulate-add_all op a d (io ∷ ios) =
    accumulate-add_all op a (accumulate d (io_stats op io)) ios
    ∙ ap (λ s. add_all op s ios) (sym (accumulate_assoc a d (io_stats op io)))

-- Each of the events into the tree by itself.
unfoldable pub record_each : Bytes → ℕ → OpKind → List Io → FileTree → FileTree
record_each path pid op [] t = t
record_each path pid op ((bytes, latency_ns) ∷ ios) t =
    record_each path pid op ios (record_op path pid op bytes latency_ns t)

module _ (path : Bytes) (pid : ℕ) (op : OpKind) (qs : List Bytes) where
  agg-record_each :
      (ios : List Io) (t : FileTree)
      → agg_stats_at qs (record_each path pid op ios t).root ≡ (
          if not (is_empty (path_components path)) && is_prefix qs (path_components path)
          then add_all op (agg_stats_at qs t.root) ios
          else agg_stats_at qs t.root)
  unfolding record_each add_all record_op
  agg-record_each [] t = ground arith
  agg-record_each ((bytes, latency_ns) ∷ ios) t =
      let delta = for_operations op bytes 1 latency_ns latency_ns in
      ground (
        arith,
        agg-record_each ios (record_op path pid op bytes latency_ns t),
        agg_stats_at-record_stats path pid delta t qs,
      )

  stats-record_each :
      (ios : List Io) (t : FileTree)
      → stats_at qs (record_each path pid op ios t).root ≡ (
          if not (is_empty qs) && qs == path_components path
          then add_all op (stats_at qs t.root) ios
          else stats_at qs t.root)
  unfolding record_each add_all record_op
  stats-record_each [] t = ground arith
  stats-record_each ((bytes, latency_ns) ∷ ios) t =
      let delta = for_operations op bytes 1 latency_ns latency_ns in
      ground (
        arith,
        stats-record_each ios (record_op path pid op bytes latency_ns t),
        stats_at-record_stats path pid delta t qs,
      )

group_total :
    (key : IoKey) (bytes latency_ns observed_at : ℕ) (ios : List Io) (a : NodeStats)
    → accumulate a (group_stats (join_all (new_group key bytes latency_ns observed_at) ios))
      ≡ add_all key.op (accumulate a (io_stats key.op (bytes, latency_ns))) ios
unfolding group_stats new_group
group_total key bytes latency_ns observed_at ios a =
    ap (accumulate a) (group_stats-join_all ios (new_group key bytes latency_ns observed_at))
    ∙ accumulate-add_all key.op a (io_stats key.op (bytes, latency_ns)) ios

-- The statistics of a group of events, recorded at once, leave every node's direct statistics and
-- every aggregate as the events recorded one after the other do, where counters saturate too.
pub record_stats-join_all :
    (path : Bytes) (key : IoKey) (bytes latency_ns observed_at : ℕ) (ios : List Io) (t : FileTree)
    → (qs : List Bytes)
    → let g = join_all (new_group key bytes latency_ns observed_at) ios in
      let at_once = record_stats path key.pid (group_stats g) t in
      let one_by_one = record_each path key.pid key.op ((bytes, latency_ns) ∷ ios) t in
      (stats_at qs at_once.root ≡ stats_at qs one_by_one.root)
      × (agg_stats_at qs at_once.root ≡ agg_stats_at qs one_by_one.root)
unfolding add_all
record_stats-join_all path key bytes latency_ns observed_at ios t qs =
    let g = join_all (new_group key bytes latency_ns observed_at) ios in
    let all = (bytes, latency_ns) ∷ ios in
    (
      ground (
        arith,
        stats_at-record_stats path key.pid (group_stats g) t qs,
        stats-record_each path key.pid key.op qs all t,
        group_total key bytes latency_ns observed_at ios (stats_at qs t.root),
      ),
      ground (
        arith,
        agg_stats_at-record_stats path key.pid (group_stats g) t qs,
        agg-record_each path key.pid key.op qs all t,
        group_total key bytes latency_ns observed_at ios (agg_stats_at qs t.root),
      ),
    )
