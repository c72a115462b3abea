-- ===== src/Index/Stages.antt =====
-- index_tree_delete at a node, branch by branch.
use Prim.Native.Nat.Ordering.{lt, eq, gt}
use openslp.Base.{ℕ, ◌≡◌, refl, ◌∙◌, List, none, some, bind}
use openslp.Index.{
  IndexTreeNode, node, tree_depth, rebalance_tree, find_in_value_set, remove_from_value_set,
}
use openslp.Index.Compare.{order, compare_string-order}
use openslp.Index.Remove.{keep_root, index_tree_delete}

module _ (l : IndexTreeNode) (ld : ℕ) (v : List ℕ) (r : IndexTreeNode) (rd : ℕ) (s q : List ℕ)
    (p : ℕ) where
  pub delete-left :
      order q s ≡ lt
      → index_tree_delete (node l ld v r rd s) q p
        ≡ bind
            (index_tree_delete l q p)
            (λ (left : IndexTreeNode). rebalance_tree (node left (tree_depth left) v r rd s))
  unfolding index_tree_delete
  delete-left e = rw (compare_string-order q s ∙ e, index_tree_delete) refl

  pub delete-right :
      order q s ≡ gt
      → index_tree_delete (node l ld v r rd s) q p
        ≡ bind
            (index_tree_delete r q p)
            (λ (right : IndexTreeNode). rebalance_tree (node l ld v right (tree_depth right) s))
  unfolding index_tree_delete
  delete-right e = rw (compare_string-order q s ∙ e, index_tree_delete) refl

  pub delete-missing :
      order q s ≡ eq
      → find_in_value_set v p ≡ none
      → index_tree_delete (node l ld v r rd s) q p ≡ some (node l ld v r rd s)
  unfolding index_tree_delete
  delete-missing e f = rw (compare_string-order q s ∙ e, index_tree_delete) (rw f refl)

  pub delete-here :
      (i : ℕ)
      → order q s ≡ eq
      → find_in_value_set v p ≡ some i
      → index_tree_delete (node l ld v r rd s) q p
        ≡ keep_root l ld (remove_from_value_set v i) r rd s
  unfolding index_tree_delete
  delete-here i e f = rw (compare_string-order q s ∙ e, index_tree_delete) (rw f refl)
