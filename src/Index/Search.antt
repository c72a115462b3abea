-- ===== src/Index/Search.antt =====
-- find_in_index, value_set_call, find_and_call and find_leading_and_call of slpd/slpd_index.c. The callback
-- changes a state of its own, which stands for what its cookie points to.
use Prim.Native.Nat.Ordering.{lt, eq, gt}
use openslp.Base.{ℕ, ◌+◌, List, [], ◌∷◌}
use openslp.Index.{IndexTreeNode, null, node}
use openslp.Index.Compare.{compare_string, compare_string_leading}

unfoldable pub find_in_index : (root_node : IndexTreeNode) (value_str : List ℕ) → List ℕ
find_in_index null q = []
find_in_index (node l ld v r rd s) q = elim (compare_string q s) [
  | lt ↦ find_in_index l q
  | eq ↦ v
  | gt ↦ find_in_index r q
]

module _ {S : Type 0} (callback : (p : ℕ) → S → S) where
  -- Each returns the number of calls, with the state after them.
  unfoldable pub value_set_call : List ℕ → S → ℕ × S
  value_set_call [] cookie = (0, cookie)
  value_set_call (p ∷ rest) cookie =
      let (num_matches, after) = value_set_call rest (callback p cookie) in (1 + num_matches, after)

  unfoldable pub find_and_call : IndexTreeNode → (value_str : List ℕ) → S → ℕ × S
  find_and_call null q cookie = (0, cookie)
  find_and_call (node l ld v r rd s) q cookie = elim (compare_string q s) [
    | lt ↦ find_and_call l q cookie
    | eq ↦ value_set_call v cookie
    | gt ↦ find_and_call r q cookie
  ]

  unfoldable pub find_leading_and_call : IndexTreeNode → (value_str : List ℕ) → S → ℕ × S
  find_leading_and_call null q cookie = (0, cookie)
  find_leading_and_call (node l ld v r rd s) q cookie = elim (compare_string_leading q s) [
    | lt ↦ find_leading_and_call l q cookie
    | eq ↦
        let (on_left, after_left) = find_leading_and_call l q cookie in
        let (here, after_here) = value_set_call v after_left in
        let (on_right, after_right) = find_leading_and_call r q after_here in
        (on_left + here + on_right, after_right)
    | gt ↦ find_leading_and_call r q cookie
  ]
