-- ===== src/Tree/View.antt =====
-- What the node at a path holds, before and after a walk or an update: the tree seen as a function
-- of the path.
use ncda.Base.{
  unwrap_or, ℕ, ◌≡◌, refl, Bool, not, none, some, List, [], ◌∷◌, Bytes, is_empty, if◌then◌else◌,
  ◌==◌, nat_eq, list_eq, list_beq_iff, Option-cases, inl, inr, arith,
}
use ncda.Stats.{NodeStats}
use ncda.Tree.{
  NodeInfo, TreeNode, node, Children, nil, cons, info, new_node, child_get, child_entry, touch_leaf,
  visit, visit_node, walk, get_node, update_node, child_update,
}

pub child_get-child_entry :
    (c q : Bytes) (fresh : TreeNode) (f : TreeNode → TreeNode × Bool) (cs : Children)
    → child_get q (child_entry c fresh f cs).0
      ≡ (if c == q then some (f (unwrap_or (child_get c cs) fresh)).0 else child_get q cs)
unfolding child_get child_entry
child_get-child_entry c q fresh f nil = ground (arith, list_beq_iff c q)
child_get-child_entry c q fresh f (cons k n cs) = ground (
  arith,
  list_beq_iff c q,
  list_beq_iff k c,
  list_beq_iff k q,
  child_get-child_entry c q fresh f cs,
)

child_get-child_update :
    (c q : Bytes) (f : TreeNode → TreeNode) (cs : Children)
    → child_get q (child_update c f cs) ≡ (
        if c == q
        then elim (child_get q cs) [ none ↦ none | some n ↦ some (f n) ]
        else child_get q cs)
unfolding child_get child_update
child_get-child_update c q f nil = ground (arith, list_beq_iff c q)
child_get-child_update c q f (cons k n cs) =
    ground
      (arith, list_beq_iff c q, list_beq_iff k c, list_beq_iff k q, child_get-child_update c q f cs)

-- A property `f` of the node at a path, `z` where there is none.
module _ {A : Type 0} (f : NodeInfo → A) (z : A) where
  unfoldable pub view : List Bytes → TreeNode → A
  view qs n = elim (get_node qs n) [ none ↦ z | some m ↦ f (info m) ]

  pub view_child :
      (q : Bytes) (s : List Bytes) (i : NodeInfo) (cs : Children)
      → view (q ∷ s) (node i cs) ≡ (elim (child_get q cs) [ none ↦ z | some n ↦ view s n ])
  unfolding view get_node
  view_child q s i cs = ground arith

  pub view_child_entry :
      ((c : Bytes) (b : Bool) → f (info (new_node c b)) ≡ z)
      → (q : Bytes) (s : List Bytes) (b : Bool) (i : NodeInfo) (cs : Children)
      → view s (unwrap_or (child_get q cs) (new_node q b)) ≡ view (q ∷ s) (node i cs)
  unfolding view get_node new_node child_get
  view_child_entry fresh q [] b i cs = ground (arith, fresh q b)
  view_child_entry fresh q (a ∷ s) b i cs = ground arith

  pub view_entered :
      (c q : Bytes) (s : List Bytes) (fresh : TreeNode) (fn : TreeNode → TreeNode × Bool)
      (i : NodeInfo) (cs : Children)
      → view (q ∷ s) (node i (child_entry c fresh fn cs).0) ≡ (
          if c == q
          then view s (fn (unwrap_or (child_get c cs) fresh)).0
          else view (q ∷ s) (node i cs))
  unfolding view get_node
  view_entered c q s fresh fn i cs = ground (arith, child_get-child_entry c q fresh fn cs)

  view_updated :
      (c q : Bytes) (s : List Bytes) (fn : TreeNode → TreeNode) (i : NodeInfo) (cs : Children)
      → view (q ∷ s) (node i (child_update c fn cs)) ≡ (
          if c == q
          then (elim (child_get q cs) [ none ↦ z | some n ↦ view s (fn n) ])
          else view (q ∷ s) (node i cs))
  unfolding view get_node
  view_updated c q s fn i cs = ground (arith, child_get-child_update c q fn cs)

-- A property that only the end of a walk changes.
module _ {A : Type 0} (f : NodeInfo → A) (z : A) (pid : ℕ) (d : NodeStats) (g : A → A)
    (fresh : (c : Bytes) (b : Bool) → f (info (new_node c b)) ≡ z)
    (visited : (l : Bool) (i : NodeInfo) → f (visit l d i) ≡ f i)
    (touched : (i : NodeInfo) → f (touch_leaf pid d i).0 ≡ g (f i)) where
  view-visit_node :
      (l : Bool) (qs : List Bytes) (n : TreeNode) → view f z qs (visit_node l d n) ≡ view f z qs n
  unfolding view get_node
  view-visit_node l [] (node i cs) = visited l i
  view-visit_node l (q ∷ s) (node i cs) = refl

  view-walk_cons :
      (c q : Bytes) (rest s : List Bytes)
      → ((n : TreeNode)
          → view f z s (walk rest pid d n).0
            ≡ (if s == rest then g (view f z s n) else view f z s n))
      → (n : TreeNode)
      → view f z (q ∷ s) (walk (c ∷ rest) pid d n).0
        ≡ (if (q ∷ s) == (c ∷ rest) then g (view f z (q ∷ s) n) else view f z (q ∷ s) n)
  unfolding walk
  view-walk_cons c q rest s ih (node i ch) =
      let last = is_empty rest in
      let child = unwrap_or (child_get c ch) (new_node c (not last)) in
      ground (
        arith,
        list_beq_iff c q,
        list_beq_iff q c,
        view_entered f z c q s (new_node c (not last))
            (λ (n : TreeNode). walk rest pid d (visit_node last d n)) i ch,
        ih (visit_node last d child),
        view-visit_node last s child,
        view_child_entry f z fresh c s (not last) i ch,
      )

  -- A walk changes the property at its own path alone.
  pub view-walk :
      (cs qs : List Bytes) (n : TreeNode)
      → view f z qs (walk cs pid d n).0 ≡ (if qs == cs then g (view f z qs n) else view f z qs n)
  unfolding view get_node walk
  view-walk [] [] (node i ch) = touched i
  view-walk [] (q ∷ s) (node i ch) = refl
  view-walk (c ∷ rest) [] (node i ch) = refl
  view-walk (c ∷ rest) (q ∷ s) (node i ch) =
      view-walk_cons c q rest s (view-walk rest s) (node i ch)

module _ {A : Type 0} (f : NodeInfo → A) (z : A) (g : A → A) (h : NodeInfo → NodeInfo)
    (missing : g z ≡ z) (updated : (i : NodeInfo) → f (h i) ≡ g (f i)) where
  view-update_node_cons :
      (c q : Bytes) (rest s : List Bytes)
      → ((n : TreeNode)
          → view f z s (update_node rest h n)
            ≡ (if s == rest then g (view f z s n) else view f z s n))
      → (n : TreeNode)
      → view f z (q ∷ s) (update_node (c ∷ rest) h n)
        ≡ (if (q ∷ s) == (c ∷ rest) then g (view f z (q ∷ s) n) else view f z (q ∷ s) n)
  unfolding update_node
  view-update_node_cons c q rest s ih (node i ch) = elim (Option-cases (child_get q ch)) [
    | inl e ↦ ground (
      arith,
      list_beq_iff c q,
      list_beq_iff q c,
      view_updated f z c q s (update_node rest h) i ch,
      view_child f z q s i ch,
    )
    | inr (n, e) ↦ ground (
      arith,
      list_beq_iff c q,
      list_beq_iff q c,
      ih n,
      view_updated f z c q s (update_node rest h) i ch,
      view_child f z q s i ch,
    )
  ]

  -- An update changes the property at its own path alone.
  pub view-update_node :
      (cs qs : List Bytes) (n : TreeNode)
      → view f z qs (update_node cs h n) ≡ (if qs == cs then g (view f z qs n) else view f z qs n)
  unfolding view get_node update_node
  view-update_node [] [] (node i ch) = updated i
  view-update_node [] (q ∷ s) (node i ch) = refl
  view-update_node (c ∷ rest) [] (node i ch) = refl
  view-update_node (c ∷ rest) (q ∷ s) (node i ch) =
      view-update_node_cons c q rest s (view-update_node rest s) (node i ch)
