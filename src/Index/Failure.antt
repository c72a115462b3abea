-- ===== src/Index/Failure.antt =====
-- add_to_index without memory.
use Prim.Native.Nat.Ordering.{lt, eq, gt}
use openslp.Base.{
  ℕ, ◌≡◌, refl, sym, ap, ◌∙◌, inl, inr, false, Bool-cases, List, [], length, some, arith,
}
use openslp.Index.{
  IndexTreeNode, null, node, Memory, create_index_tree_node, insert_left, insert_right,
  add_to_index,
}
use openslp.Index.Compare.{order, compare_string-order}
use openslp.Index.Order.{Ordering-cases}
use openslp.Index.Search.{find_in_index}
use openslp.Index.Entries.{entries, IsSorted, IsSorted-split}
use openslp.Index.Insert.{add-left, add-right}

created-null :
    (memory : Memory) (q : List ℕ) (p : ℕ)
    → memory.for_value ≡ false
    → create_index_tree_node memory q p ≡ null
unfolding create_index_tree_node
created-null memory q p h = elim (Bool-cases memory.for_node) [
  | inl e ↦ rw (e, h) refl
  | inr e ↦ rw e refl
]

module _ (l : IndexTreeNode) (ld : ℕ) (v : List ℕ) (r : IndexTreeNode) (rd : ℕ) (s q : List ℕ) where
  find-left : order q s ≡ lt → find_in_index (node l ld v r rd s) q ≡ find_in_index l q
  unfolding find_in_index
  find-left e = rw (compare_string-order q s ∙ e, find_in_index) refl

  find-here : order q s ≡ eq → find_in_index (node l ld v r rd s) q ≡ v
  unfolding find_in_index
  find-here e = rw (compare_string-order q s ∙ e, find_in_index) refl

  find-right : order q s ≡ gt → find_in_index (node l ld v r rd s) q ≡ find_in_index r q
  unfolding find_in_index
  find-right e = rw (compare_string-order q s ∙ e, find_in_index) refl

-- Without memory for a value, add_to_index returns a null pointer for a string that is not in a sorted tree: the
-- caller that stores the result has lost all of the tree.
pub add_to_index-Fails :
    (memory : Memory) (t : IndexTreeNode) (q : List ℕ) (p : ℕ)
    → memory.for_value ≡ false
    → IsSorted (entries t)
    → find_in_index t q ≡ []
    → add_to_index memory t q p ≡ some null
add_to_index-Fails memory null q p m h f =
    unfold add_to_index in (ap some (created-null memory q p m))
add_to_index-Fails memory (node l ld v r rd s) q p m h f =
    let (hl, before, after, full, hr) = IsSorted-split (entries l) (s, v) (entries r) h in
    elim (Ordering-cases (order q s)) [
      | inl e ↦
          let below : find_in_index l q ≡ [] = sym (find-left l ld v r rd s q e) ∙ f in
          rw (add-left memory l ld v r rd s q p e, add_to_index-Fails memory l q p m hl below)
            (unfold insert_left in refl)
      | inr (inl e) ↦
          let empty : v ≡ [] = sym (find-here l ld v r rd s q e) ∙ f in
          absurd (omega (arith, full, ap length empty))
      | inr (inr e) ↦
          let below : find_in_index r q ≡ [] = sym (find-right l ld v r rd s q e) ∙ f in
          rw (add-right memory l ld v r rd s q p e, add_to_index-Fails memory r q p m hr below)
            (unfold insert_right in refl)
    ]
