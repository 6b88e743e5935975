-- ===== src/View/Rows/Lines.antt =====
-- The lines of the tree view have the path of their depth.
use ncda.Base.{
  ℕ, suc, ◌+◌, ◌≡◌, refl, ap, ◌∙◌, Bool, true, false, ◌&&◌, Option, none, some, List, [], ◌∷◌, ◌++◌,
  Bytes, arith, All, any, length, length-append, if◌then◌else◌, ◌==◌, list_eq, nat_eq, ascii,
}
use ncda.Base.Order.{All-sort_by}
use ncda.Stats.{NodeStats}
use ncda.Tree.{TreeNode, node, Children, nil, cons, FileTree}
use ncda.Process.{ProcessTable}
use ncda.Filter.{FilterQuery, join_path}
use ncda.View.{SortBy}
use ncda.View.Rows.{
  TreeLine, Block, block_order, line_of, join_blocks, flatten_recurse, child_blocks, flatten,
  shown_stats,
}

-- A line at depth d has d + 1 components.
abbrev pub IsLine : TreeLine → Type 0
IsLine line = length line.path ≡ suc line.depth

All-append-lines : (xs ys : List TreeLine) → All IsLine xs → All IsLine ys → All IsLine (xs ++ ys)
All-append-lines [] ys h k = k
All-append-lines (x ∷ xs) ys (h, hs) k = (h, All-append-lines xs ys hs k)

module _ (to_lowercase : Bytes → Bytes) (query : FilterQuery) (processes : ProcessTable) where
  abbrev IsBlock : Block to_lowercase query processes → Type 0
  IsBlock b = IsLine b.1.0 × All IsLine b.1.1

  join_blocks-IsLine :
      (blocks : List (Block to_lowercase query processes))
      → All IsBlock blocks
      → All IsLine (join_blocks to_lowercase query processes blocks)
  join_blocks-IsLine [] h = tt
  join_blocks-IsLine ((stats, (line, below)) ∷ blocks) ((h, k), hs) = (
    h,
    All-append-lines below (join_blocks to_lowercase query processes blocks) k
        (join_blocks-IsLine blocks hs),
  )

  -- The lines below a child are there when it is expanded.
  lines_branch :
      (b : Bool) (below : List TreeLine) → All IsLine below → All IsLine (if b then below else [])
  lines_branch true below h = h
  lines_branch false below h = tt

  -- The block of a child that is shown, before the others.
  one_more :
      (o : Option NodeStats) (rest : List (Block to_lowercase query processes))
      (line : NodeStats → TreeLine) (below : List TreeLine)
      → ((stats : NodeStats) → IsLine (line stats))
      → All IsLine below
      → All IsBlock rest
      → All IsBlock (elim o [ none ↦ rest | some stats ↦ (stats, (line stats, below)) ∷ rest ])
  one_more none rest line below h k hs = hs
  one_more (some stats) rest line below h k hs = ((h stats, k), hs)

  module _ (expanded : List (List Bytes)) (sort : SortBy) (desc : Bool) where
    child_blocks-IsBlock :
        (path : List Bytes) (display_path : Bytes) (depth : ℕ) (cs : Children)
        → length path ≡ depth
        → All IsBlock (
            child_blocks to_lowercase query processes expanded sort desc path display_path depth cs)
    unfolding flatten_recurse
    child_blocks-IsBlock path display_path depth nil h = tt
    child_blocks-IsBlock path display_path depth (cons k (node i ch) cs) h =
        let child_path = path ++ i.name ∷ [] in
        let child_display = join_path display_path i.name in
        let longer : length child_path ≡ depth + 1 =
          length-append path (i.name ∷ []) ∙ ap (λ n. n + 1) h in
        let blocks = child_blocks-IsBlock child_path child_display (depth + 1) ch longer in
        let below =
          join_blocks-IsLine _
            (All-sort_by (block_order to_lowercase query processes sort desc) IsBlock _ blocks) in
        let rest = child_blocks-IsBlock path display_path depth cs h in
        let is_expanded = any (λ p. p == child_path) expanded in
        one_more (shown_stats to_lowercase query processes child_display (node i ch)) _
          (line_of to_lowercase query processes depth child_path child_display is_expanded
            (node i ch))
          _ (λ stats. longer ∙ omega arith) (lines_branch (i.is_dir && is_expanded) _ below) rest

    -- Every line of the tree view at depth d has a path of d + 1 components, so that no line's path
    -- is empty.
    pub flatten-IsLine :
        (tree : FileTree)
        → All IsLine (flatten to_lowercase query processes expanded sort desc tree)
    unfolding flatten flatten_recurse
    flatten-IsLine tree = by_root tree.root
      where
        by_root :
            (n : TreeNode)
            → All IsLine
                (flatten_recurse to_lowercase query processes expanded sort desc [] (ascii "/") 0 n)
        by_root (node i cs) = join_blocks-IsLine _ (
            All-sort_by (block_order to_lowercase query processes sort desc) IsBlock _
              (child_blocks-IsBlock [] (ascii "/") 0 cs refl))
