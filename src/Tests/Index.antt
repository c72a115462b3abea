-- ===== src/Tests/Index.antt =====
-- The index tree at concrete trees.
use openslp.Base.{
  ℕ, ◌+◌, ◌*◌, ◌<◌, ◌≤◌, ◌≡◌, ◌≢◌, refl, true, false, List, [], ◌∷◌, some, Returns, length, arith,
}
use openslp.Index.{
  IndexTreeNode, null, node, create_index_tree_node, index_value_insert, insert_left, insert_right,
  rebalance_tree, tree_depth, turn_pivot_left, turn_pivot_right, rotate_right, rotate_left,
  find_in_value_set, remove_from_value_set, add_to_index,
}
use openslp.Index.Compare.{order, compare_string, compare_string_leading, memcmp}
use openslp.Index.Remove.{
  index_tree_delete, extract_leftmost, extract_rightmost, depth_above, keep_root, replace_root,
  replace_by_right, replace_by_rightmost, replace_by_leftmost,
}
use openslp.Index.Search.{find_in_index, find_and_call, value_set_call, find_leading_and_call}
use openslp.Index.Entries.{entries, IsSorted, add_entry, remove_entry}
use openslp.Index.Bounded.{Bounded, height}
use openslp.Index.Insert.{enough, add_to_index-Refines}
use openslp.Index.Delete.{index_tree_delete-Refines}
use openslp.Index.Lookup.{add_to_index-Finds}
use openslp.Index.Leading.{leading, calls, find_leading_and_call-Finds, find_and_call-Finds}
use openslp.Index.Balance.{IsBalanced}
use openslp.Index.Growth.{add_to_index-IsBalanced}
use openslp.Index.Failure.{add_to_index-Fails}
use openslp.Index.RoundTrip.{index_tree_delete-add_to_index}

-- "a" and "b", "b" at the root.
abbrev two_keys : IndexTreeNode
two_keys = node (node null 0 (11 ∷ []) null 0 (97 ∷ [])) 1 (12 ∷ []) null 0 (98 ∷ [])

abbrev leaf : ℕ → IndexTreeNode
leaf k = node null 0 (1 ∷ []) null 0 (k ∷ [])

abbrev key : List ℕ
key = 97 ∷ 98 ∷ []

two_keys-IsSorted : IsSorted (entries two_keys)
unfolding order
two_keys-IsSorted = ((refl, tt), omega arith, (tt, omega arith, tt))

two_keys-Bounded : Bounded 1 two_keys
two_keys-Bounded = ((omega arith, omega arith), refl, (refl, refl, tt, tt), tt)

-- What the runs unfold.
index : Unit {0}
unfolding add_to_index create_index_tree_node index_value_insert insert_left insert_right
    rebalance_tree tree_depth turn_pivot_left turn_pivot_right rotate_right rotate_left
    compare_string memcmp index_tree_delete keep_root replace_root replace_by_right
    replace_by_rightmost replace_by_leftmost extract_leftmost extract_rightmost depth_above
    find_in_value_set remove_from_value_set find_in_index find_and_call find_leading_and_call
    value_set_call compare_string_leading
index = tt

-- "ab" comes between: the pivot is turned left first, and the new node becomes the root.
abbrev three_keys : IndexTreeNode
three_keys =
    node (node null 0 (11 ∷ []) null 0 (97 ∷ [])) 1 (13 ∷ [])
      (node null 0 (12 ∷ []) null 0 (98 ∷ [])) 1 key

between : add_to_index enough two_keys key 13 ≡ some three_keys
unfolding index
between = refl

without_memory :
    add_to_index record { for_node = true; for_value = false } two_keys key 13 ≡ some null
unfolding index
without_memory = refl

removed : index_tree_delete three_keys key 13 ≡ some two_keys
unfolding index
removed = refl

-- The keys that begin with "a", with a callback that collects.
starting : find_leading_and_call (λ p l. p ∷ l) three_keys (97 ∷ []) [] ≡ (2, 13 ∷ 11 ∷ [])
unfolding index
starting = refl

-- The leftmost of the right subtree, 45, takes the place of the root, 40: its grandparent 60 keeps the left depth 2,
-- where 50 is now a leaf.
abbrev deep : IndexTreeNode
deep =
    node (node (leaf 10) 1 (2 ∷ []) null 0 (20 ∷ [])) 2 (4 ∷ [])
      (node (node (leaf 45) 1 (5 ∷ []) null 0 (50 ∷ [])) 2 (6 ∷ []) (leaf 70) 1 (60 ∷ [])) 3
      (40 ∷ [])

deep-IsBalanced : IsBalanced deep
deep-IsBalanced = omega arith

stale :
    index_tree_delete deep (40 ∷ []) 4
    ≡ some (
        node
          (node (leaf 10) 1 (2 ∷ []) null 0 (20 ∷ []))
          2
          (1 ∷ [])
          (node (node null 0 (5 ∷ []) null 0 (50 ∷ [])) 2 (6 ∷ []) (leaf 70) 1 (60 ∷ []))
          3
          (45 ∷ []))
unfolding index
stale = refl

add_to_index-Refines_example :
    Returns
      (λ u.
        Bounded (1 + 3 * 2 + 3) u
        × (entries u ≡ add_entry key 13 (entries two_keys))
        × IsSorted (entries u))
      (add_to_index enough two_keys key 13)
add_to_index-Refines_example =
    add_to_index-Refines 1 two_keys key 13 two_keys-IsSorted two_keys-Bounded (omega arith)

index_tree_delete-Refines_example :
    Returns
      (λ u.
        Bounded (1 + 3 * 2 + 3) u
        × (entries u ≡ remove_entry (97 ∷ []) 11 (entries two_keys))
        × IsSorted (entries u))
      (index_tree_delete two_keys (97 ∷ []) 11)
index_tree_delete-Refines_example =
    index_tree_delete-Refines 1 two_keys (97 ∷ []) 11 two_keys-IsSorted two_keys-Bounded
      (omega arith)

add_to_index-Finds_example :
    Returns
      (λ u.
        (find_in_index u key ≡ 13 ∷ find_in_index two_keys key)
        × ((k : List ℕ) → k ≢ key → find_in_index u k ≡ find_in_index two_keys k))
      (add_to_index enough two_keys key 13)
add_to_index-Finds_example =
    add_to_index-Finds 1 two_keys key 13 two_keys-IsSorted two_keys-Bounded (omega arith)

abbrev collect : ℕ → List ℕ → List ℕ
collect p l = p ∷ l

find_leading_and_call-Finds_example : find_leading_and_call collect two_keys (97 ∷ []) [] ≡ (
  length (leading (97 ∷ []) (entries two_keys)),
  calls collect (leading (97 ∷ []) (entries two_keys)) [],
)
find_leading_and_call-Finds_example =
    find_leading_and_call-Finds collect two_keys (97 ∷ []) [] two_keys-IsSorted

find_and_call-Finds_example : find_and_call collect two_keys (98 ∷ []) [] ≡ (
  length (find_in_index two_keys (98 ∷ [])),
  calls collect (find_in_index two_keys (98 ∷ [])) [],
)
find_and_call-Finds_example = find_and_call-Finds collect two_keys (98 ∷ []) []

add_to_index-IsBalanced_example :
    Returns
      (λ u. IsBalanced u × (2 ≤ height u) × (height u ≤ 3) × (0 < height u))
      (add_to_index enough two_keys key 13)
add_to_index-IsBalanced_example =
    add_to_index-IsBalanced two_keys key 13 (omega arith) (omega arith)

absent : find_in_index two_keys key ≡ []
unfolding index
absent = refl

add_to_index-Fails_example :
    add_to_index record { for_node = true; for_value = false } two_keys key 13 ≡ some null
add_to_index-Fails_example =
    add_to_index-Fails record { for_node = true; for_value = false } two_keys key 13 refl
      two_keys-IsSorted absent

index_tree_delete-add_to_index_example :
    Returns (λ w. entries w ≡ entries two_keys) (index_tree_delete three_keys key 13)
index_tree_delete-add_to_index_example =
    index_tree_delete-add_to_index 1 two_keys three_keys key 13 two_keys-IsSorted two_keys-Bounded
      (omega arith) between
