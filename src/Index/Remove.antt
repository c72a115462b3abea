-- ===== src/Index/Remove.antt =====
-- extract_leftmost, extract_rightmost and index_tree_delete of slpd/slpd_index.c.
use Prim.Native.Nat.Ordering.{lt, eq, gt}
use openslp.Base.{ℕ, ltb, if◌then◌else◌, Option, none, some, List, [], ◌∷◌, bind}
use openslp.Index.{
  IndexTreeNode, null, node, tree_depth, rebalance_tree, find_in_value_set, remove_from_value_set,
}
use openslp.Index.Compare.{compare_string}

-- The tree that is left, and what is used of the node that was taken out.
pub record Extracted : Type 0 where
  pub rest : IndexTreeNode
  pub values : List ℕ
  pub value_str : List ℕ

-- The depth of a node's subtree after the extraction from it: the parent of the node that was taken out gets a
-- new depth, the nodes above it keep theirs.
unfoldable pub depth_above : (outermost : IndexTreeNode) (depth : ℕ) (rest : IndexTreeNode) → ℕ
depth_above null depth rest = tree_depth rest
depth_above (node l ld v r rd s) depth rest = depth

abbrev pub extracted : Extracted → IndexTreeNode → Option Extracted
extracted e rest = some record { rest = rest; values = e.values; value_str = e.value_str }

unfoldable pub extract_leftmost : (root_node : IndexTreeNode) → Option Extracted
extract_leftmost null = none
extract_leftmost (node null ld v r rd s) = some record { rest = r; values = v; value_str = s }
extract_leftmost (node (node l2 ld2 v2 r2 rd2 s2) ld v r rd s) =
    bind (extract_leftmost (node l2 ld2 v2 r2 rd2 s2)) (λ (e : Extracted).
      bind (rebalance_tree (node e.rest (depth_above l2 ld e.rest) v r rd s)) (extracted e))

unfoldable pub extract_rightmost : (root_node : IndexTreeNode) → Option Extracted
extract_rightmost null = none
extract_rightmost (node l ld v null rd s) = some record { rest = l; values = v; value_str = s }
extract_rightmost (node l ld v (node l2 ld2 v2 r2 rd2 s2) rd s) =
    bind (extract_rightmost (node l2 ld2 v2 r2 rd2 s2)) (λ (e : Extracted).
      bind (rebalance_tree (node l ld v e.rest (depth_above r2 rd e.rest) s)) (extracted e))

-- A root without a value left is replaced by its neighbour from the deeper subtree.
unfoldable pub replace_by_rightmost :
    (right_node : IndexTreeNode) (right_depth : ℕ) → Extracted → Option IndexTreeNode
replace_by_rightmost r rd e =
    rebalance_tree (node e.rest (tree_depth e.rest) e.values r rd e.value_str)

unfoldable pub replace_by_leftmost :
    (left_node : IndexTreeNode) (left_depth : ℕ) → Extracted → Option IndexTreeNode
replace_by_leftmost l ld e =
    rebalance_tree (node l ld e.values e.rest (tree_depth e.rest) e.value_str)

unfoldable pub replace_by_right :
    (left_node : IndexTreeNode) (left_depth : ℕ) (right_node : IndexTreeNode) → Option IndexTreeNode
replace_by_right l ld null = some null
replace_by_right l ld (node l2 ld2 v2 r2 rd2 s2) =
    bind (extract_leftmost (node l2 ld2 v2 r2 rd2 s2)) (replace_by_leftmost l ld)

unfoldable pub replace_root :
    (left_node : IndexTreeNode) (left_depth : ℕ) (right_node : IndexTreeNode) (right_depth : ℕ)
    → Option IndexTreeNode
replace_root l ld r rd =
    if ltb rd ld
    then bind (extract_rightmost l) (replace_by_rightmost r rd)
    else replace_by_right l ld r

-- The root after its value set: it stays as long as that has an entry.
unfoldable pub keep_root :
    (left_node : IndexTreeNode) (left_depth : ℕ) (values : List ℕ) (right_node : IndexTreeNode)
    (right_depth : ℕ) (value_str : List ℕ)
    → Option IndexTreeNode
keep_root l ld [] r rd s = replace_root l ld r rd
keep_root l ld (v ∷ rest) r rd s = some (node l ld (v ∷ rest) r rd s)

unfoldable pub index_tree_delete :
    (root_node : IndexTreeNode) (value_str : List ℕ) (p : ℕ) → Option IndexTreeNode
index_tree_delete null q p = some null
index_tree_delete (node l ld v r rd s) q p = elim (compare_string q s) [
  | lt ↦
      bind (index_tree_delete l q p)
        (λ (left : IndexTreeNode). rebalance_tree (node left (tree_depth left) v r rd s))
  | eq ↦ elim (find_in_value_set v p) [
    | none ↦ some (node l ld v r rd s)
    | some place ↦ keep_root l ld (remove_from_value_set v place) r rd s
  ]
  | gt ↦
      bind (index_tree_delete r q p)
        (λ (right : IndexTreeNode). rebalance_tree (node l ld v right (tree_depth right) s))
]
