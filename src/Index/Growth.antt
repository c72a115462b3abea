-- ===== src/Index/Growth.antt =====
-- add_to_index on a balanced tree.
use openslp.Base.{
  ℕ, suc, ◌+◌, ◌≤◌, ◌<◌, ◌≡◌, refl, inl, inr, List, [], ◌∷◌, Returns, returned, Returns-bind,
  Returns-mono, arith,
}
use openslp.Index.{
  IndexTreeNode, null, node, max, tree_depth, create_index_tree_node, index_value_insert,
  insert_left, insert_right, add_to_index,
}
use openslp.Index.Compare.{order}
use openslp.Index.Order.{Ordering-cases}
use openslp.Index.Bounded.{height, max-left, max-right}
use openslp.Index.Insert.{enough, add-left, add-here, add-right}
use openslp.Index.Balance.{IsBalanced, Balanced, depth-height, rebalance-IsBalanced}

-- A subtree that grew by one level at most makes its parent grow by one at most.
grown_left :
    (l l2 r u : ℕ)
    → l ≤ l2
    → l2 ≤ suc l
    → l ≤ r + 1
    → r ≤ l + 1
    → max l2 r ≤ u
    → u ≤ suc (max l2 r)
    → (l2 ≤ r + 1 → r ≤ l2 + 1 → u ≡ suc (max l2 r))
    → (suc (max l r) ≤ u) × (u ≤ suc (suc (max l r)))
grown_left l l2 r u a b c d low high same = grind arith

grown_right :
    (l r r2 u : ℕ)
    → r ≤ r2
    → r2 ≤ suc r
    → l ≤ r + 1
    → r ≤ l + 1
    → max l r2 ≤ u
    → u ≤ suc (max l r2)
    → (l ≤ r2 + 1 → r2 ≤ l + 1 → u ≡ suc (max l r2))
    → (suc (max l r) ≤ u) × (u ≤ suc (suc (max l r)))
grown_right l r r2 u a b c d low high same = grind arith

insert_left-IsBalanced :
    (l : IndexTreeNode) (v : List ℕ) (r : IndexTreeNode) (s : List ℕ) (t : IndexTreeNode)
    → height l ≤ height r + 1
    → height r ≤ height l + 1
    → height l < 2147483646
    → height r < 2147483647
    → IsBalanced r
    → IsBalanced t
    → height l ≤ height t
    → height t ≤ suc (height l)
    → 0 < height t
    → Returns
        (Balanced (suc (max (height l) (height r))) (suc (suc (max (height l) (height r)))))
        (insert_left v r (height r) s t)
unfolding insert_left
insert_left-IsBalanced l v r s null a b sl sr br bt low high pos = absurd (omega arith)
insert_left-IsBalanced l v r s (node l2 ld2 v2 r2 rd2 s2) a b sl sr br bt low high pos =
    let t = node l2 ld2 v2 r2 rd2 s2 in
    let depth : tree_depth t ≡ height t = depth-height t bt in
    rw depth (
      Returns-mono
        (rebalance-IsBalanced t (height t) v r (height r) s bt br refl refl (omega arith)
          (omega arith) (omega arith) (omega arith))
        (λ u (bu, lo, hi, same).
          let (g, k) =
            grown_left (height l) (height t) (height r) (height u) low high a b lo hi same in
          (bu, g, k)))

insert_right-IsBalanced :
    (l : IndexTreeNode) (v : List ℕ) (r : IndexTreeNode) (s : List ℕ) (t : IndexTreeNode)
    → height l ≤ height r + 1
    → height r ≤ height l + 1
    → height l < 2147483647
    → height r < 2147483646
    → IsBalanced l
    → IsBalanced t
    → height r ≤ height t
    → height t ≤ suc (height r)
    → 0 < height t
    → Returns
        (Balanced (suc (max (height l) (height r))) (suc (suc (max (height l) (height r)))))
        (insert_right l (height l) v s t)
unfolding insert_right
insert_right-IsBalanced l v r s null a b sl sr bl bt low high pos = absurd (omega arith)
insert_right-IsBalanced l v r s (node l2 ld2 v2 r2 rd2 s2) a b sl sr bl bt low high pos =
    let t = node l2 ld2 v2 r2 rd2 s2 in
    let depth : tree_depth t ≡ height t = depth-height t bt in
    rw depth (
      Returns-mono
        (rebalance-IsBalanced l (height l) v t (height t) s bl bt refl refl (omega arith)
          (omega arith) (omega arith) (omega arith))
        (λ u (bu, lo, hi, same).
          let (g, k) =
            grown_right (height l) (height r) (height t) (height u) low high a b lo hi same in
          (bu, g, k)))

tall :
    (a : ℕ) (u : IndexTreeNode)
    → Balanced (suc a) (suc (suc a)) u
    → IsBalanced u × (suc a ≤ height u) × (height u ≤ suc (suc a)) × (0 < height u)
tall a u (b, low, high) = (b, low, high, omega arith)

-- With memory, add_to_index leaves a balanced tree balanced, with every stored depth the height of its subtree, and
-- makes it higher by one level at most, if its height is below 2 to the 31 less 3.
pub add_to_index-IsBalanced :
    (t : IndexTreeNode) (q : List ℕ) (p : ℕ)
    → IsBalanced t
    → height t < 2147483645
    → Returns
        (λ u. IsBalanced u × (height t ≤ height u) × (height u ≤ suc (height t)) × (0 < height u))
        (add_to_index enough t q p)
add_to_index-IsBalanced null q p b small =
    unfold add_to_index create_index_tree_node in
    returned {a = node null 0 (p ∷ []) null 0 q}
      ((refl, refl, omega arith, omega arith, tt, tt), omega arith, omega arith, omega arith)
add_to_index-IsBalanced (node l ld v r rd s) q p (dl, dr, near_left, near_right, bl, br) small =
    let over_left = max-left (height l) (height r) in
    let over_right = max-right (height l) (height r) in
    elim (Ordering-cases (order q s)) [
      | inl e ↦
          rw (add-left enough l ld v r rd s q p e, dr)
            (Returns-bind (add_to_index-IsBalanced l q p bl (omega arith))
              (λ t (bt, low, high, pos).
                Returns-mono
                  (insert_left-IsBalanced l v r s t (omega arith) (omega arith) (omega arith)
                    (omega arith) br bt low high pos)
                  (tall (max (height l) (height r)))))
      | inr (inl e) ↦
          rw (add-here enough l ld v r rd s q p e, dl, dr)
            (Returns-mono
              (rebalance-IsBalanced l (height l) (index_value_insert enough v p) r (height r) s bl
                br refl refl (omega arith) (omega arith) (omega arith) (omega arith))
              (λ u (bu, low, high, same).
                let h = same (omega arith) (omega arith) in
                (bu, omega arith, omega arith, omega arith)))
      | inr (inr e) ↦
          rw (add-right enough l ld v r rd s q p e, dl)
            (Returns-bind (add_to_index-IsBalanced r q p br (omega arith))
              (λ t (bt, low, high, pos).
                Returns-mono
                  (insert_right-IsBalanced l v r s t (omega arith) (omega arith) (omega arith)
                    (omega arith) bl bt low high pos)
                  (tall (max (height l) (height r)))))
    ]
