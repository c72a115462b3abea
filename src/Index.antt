-- ===== src/Index.antt =====
-- The index tree of slpd/slpd_index.c: a search tree that balances itself, from a string to the locations
-- that were added under it. A tree is a value, and a null pointer the empty tree. A node's parent pointer is
-- left out: the loops that climb along it are recursions. `none` is a read through a null pointer.
pub mod Compare
pub mod Order
pub mod Entries
pub mod Rotations
pub mod Bounded
pub mod Insert
pub mod Extract
pub mod Stages
pub mod Depths
pub mod Delete
pub mod Lookup
pub mod Leading
pub mod Balance
pub mod Growth
pub mod Failure
pub mod RoundTrip
pub mod Remove
pub mod Search
use Prim.Native.Nat.Ordering.{lt, eq, gt}
use openslp.Base.{
  ℕ, zero, suc, ◌+◌, ◌-◌, ◌%◌, Bool, true, false, ◌==◌, ltb, if◌then◌else◌, Option, none, some,
  List, [], ◌∷◌, length, bind,
}
use openslp.Index.Compare.{compare_string, compare_string_leading}

pub data IndexTreeNode : Type 0 where
  null : IndexTreeNode
  node :
      (left_node : IndexTreeNode) (left_depth : ℕ) (values : List ℕ) (right_node : IndexTreeNode)
      (right_depth : ℕ) (value_str : List ℕ)
      → IndexTreeNode

-- The place in the list of the first entry for `p`.
unfoldable pub find_in_value_set : List ℕ → (p : ℕ) → Option ℕ
find_in_value_set [] p = none
find_in_value_set (v ∷ rest) p =
    let later = bind (find_in_value_set rest p) (λ i. some (suc i)) in
    if v == p then some 0 else later

unfoldable pub remove_from_value_set : List ℕ → (place : ℕ) → List ℕ
remove_from_value_set [] place = []
remove_from_value_set (v ∷ rest) zero = rest
remove_from_value_set (v ∷ rest) (suc i) = v ∷ remove_from_value_set rest i

-- What the allocator answers: whether there is memory for a node, and for an entry of a value set.
pub record Memory : Type 0 where
  pub for_node : Bool
  pub for_value : Bool

unfoldable pub create_index_tree_node : Memory → (value_str : List ℕ) (p : ℕ) → IndexTreeNode
create_index_tree_node memory value_str p =
    if memory.for_node
    then if memory.for_value then node null 0 (p ∷ []) null 0 value_str else null
    else null

-- With no memory the value set is returned as it was.
unfoldable pub index_value_insert : Memory → List ℕ → (p : ℕ) → List ℕ
index_value_insert memory values p = if memory.for_value then p ∷ values else values

-- The macro `max`.
abbrev pub max : ℕ → ℕ → ℕ
max a b = if ltb b a then a else b

unfoldable pub tree_depth : IndexTreeNode → ℕ
tree_depth null = 0
tree_depth (node l ld v r rd s) = 1 + max ld rd

-- The difference of two `unsigned` depths.
abbrev pub depth_difference : ℕ → ℕ → ℕ
depth_difference a b = (a + 4294967296 - b) % 4294967296

-- A pivot that is deeper on its right is turned left first, and one that is deeper on its left, right.
unfoldable pub turn_pivot_left : (pivot : IndexTreeNode) → Option IndexTreeNode
turn_pivot_left null = none
turn_pivot_left (node l ld v null rd s) = some (node l ld v null rd s)
turn_pivot_left (node l ld v (node l2 ld2 v2 r2 rd2 s2) rd s) =
    let new_left = node l ld v l2 ld2 s in
    some (
      if ltb (tree_depth l) (tree_depth (node l2 ld2 v2 r2 rd2 s2))
      then node new_left (tree_depth new_left) v2 r2 rd2 s2
      else node l ld v (node l2 ld2 v2 r2 rd2 s2) rd s)

unfoldable pub turn_pivot_right : (pivot : IndexTreeNode) → Option IndexTreeNode
turn_pivot_right null = none
turn_pivot_right (node null ld v r rd s) = some (node null ld v r rd s)
turn_pivot_right (node (node l2 ld2 v2 r2 rd2 s2) ld v r rd s) =
    let new_right = node r2 rd2 v r rd s in
    some (
      if ltb (tree_depth r) (tree_depth (node l2 ld2 v2 r2 rd2 s2))
      then node l2 ld2 v2 new_right (tree_depth new_right) s2
      else node (node l2 ld2 v2 r2 rd2 s2) ld v r rd s)

-- The rotations around a pivot, for the rest of the root.
unfoldable pub rotate_right :
    (values : List ℕ) (right_node : IndexTreeNode) (right_depth : ℕ) (value_str : List ℕ)
    (pivot : IndexTreeNode)
    → Option IndexTreeNode
rotate_right v r rd s null = none
rotate_right v r rd s (node pl pld pv pr prd ps) =
    let root = node pr prd v r rd s in some (node pl pld pv root (tree_depth root) ps)

unfoldable pub rotate_left :
    (left_node : IndexTreeNode) (left_depth : ℕ) (values : List ℕ) (value_str : List ℕ)
    (pivot : IndexTreeNode)
    → Option IndexTreeNode
rotate_left l ld v s null = none
rotate_left l ld v s (node pl pld pv pr prd ps) =
    let root = node l ld v pl pld s in some (node root (tree_depth root) pv pr prd ps)

unfoldable pub rebalance_tree : IndexTreeNode → Option IndexTreeNode
rebalance_tree null = none
rebalance_tree (node l ld v r rd s) =
    if depth_difference ld rd == 2
    then bind (turn_pivot_left l) (rotate_right v r rd s)
    else if depth_difference rd ld == 2
    then bind (turn_pivot_right r) (rotate_left l ld v s)
    else some (node l ld v r rd s)

-- What the root makes of the subtree that the insertion returned: a null pointer is an error, and passed on.
unfoldable pub insert_left :
    (values : List ℕ) (right_node : IndexTreeNode) (right_depth : ℕ) (value_str : List ℕ)
    (new_subtree_root : IndexTreeNode)
    → Option IndexTreeNode
insert_left v r rd s null = some null
insert_left v r rd s (node l2 ld2 v2 r2 rd2 s2) =
    let left = node l2 ld2 v2 r2 rd2 s2 in rebalance_tree (node left (tree_depth left) v r rd s)

unfoldable pub insert_right :
    (left_node : IndexTreeNode) (left_depth : ℕ) (values : List ℕ) (value_str : List ℕ)
    (new_subtree_root : IndexTreeNode)
    → Option IndexTreeNode
insert_right l ld v s null = some null
insert_right l ld v s (node l2 ld2 v2 r2 rd2 s2) =
    let right = node l2 ld2 v2 r2 rd2 s2 in rebalance_tree (node l ld v right (tree_depth right) s)

-- index_tree_insert at a node, and add_to_index, which is also what the insertion does below a null pointer.
unfoldable pub add_to_index :
    Memory → (index_root_node : IndexTreeNode) (value_str : List ℕ) (p : ℕ) → Option IndexTreeNode
add_to_index memory null q p = some (create_index_tree_node memory q p)
add_to_index memory (node l ld v r rd s) q p = elim (compare_string q s) [
  | lt ↦ bind (add_to_index memory l q p) (insert_left v r rd s)
  | eq ↦ rebalance_tree (node l ld (index_value_insert memory v p) r rd s)
  | gt ↦ bind (add_to_index memory r q p) (insert_right l ld v s)
]
