-- ===== src/Index/Depths.antt =====
-- The stored depths that index_tree_delete leaves.
use openslp.Base.{
  ℕ, suc, ◌+◌, ◌*◌, ◌-◌, ◌≤◌, ◌<◌, ltb, ltb→lt, Bool-cases, Option-cases, inl, inr, List, [], ◌∷◌,
  Returns, returned, Returns-bind, Returns-mono, arith,
}
use openslp.Index.{
  IndexTreeNode, null, node, max, tree_depth, rebalance_tree, find_in_value_set,
  remove_from_value_set,
}
use openslp.Index.Compare.{order}
use openslp.Index.Order.{Ordering-cases}
use openslp.Index.Remove.{
  replace_by_rightmost, replace_by_leftmost, replace_by_right, replace_root, keep_root,
  index_tree_delete,
}
use openslp.Index.Bounded.{
  Bounded, Fits, Fits-mono, Bounded-mono, IsNode, height, max-left, max-right, tree_depth-Fits,
  rebalance-Bounded,
}
use openslp.Index.Extract.{extract_leftmost-Bounded, extract_rightmost-Bounded}
use openslp.Index.Stages.{delete-left, delete-right, delete-missing, delete-here}

rebalance_left-Bounded :
    (n m k : ℕ) (l : IndexTreeNode) (v : List ℕ) (r : IndexTreeNode) (rd : ℕ) (s : List ℕ)
    → n ≤ k
    → k + 3 ≤ m
    → m < 2147483648
    → Bounded k l
    → Fits n r rd
    → Bounded n r
    → Returns (Bounded m) (rebalance_tree (node l (tree_depth l) v r rd s))
rebalance_left-Bounded n m k l v r rd s le room small bl fr br =
    let up : n ≤ suc k = omega arith in
    Returns-mono
      (rebalance-Bounded (suc k) l (tree_depth l) v r rd s (omega arith) (
        tree_depth-Fits k l bl,
        Fits-mono n (suc k) r rd up fr,
        Bounded-mono k (suc k) l (omega arith) bl,
        Bounded-mono n (suc k) r up br,
      ))
      (λ u h. Bounded-mono (suc k + 2) m u (omega arith) h)

rebalance_right-Bounded :
    (n m k : ℕ) (l : IndexTreeNode) (ld : ℕ) (v : List ℕ) (r : IndexTreeNode) (s : List ℕ)
    → n ≤ k
    → k + 3 ≤ m
    → m < 2147483648
    → Fits n l ld
    → Bounded n l
    → Bounded k r
    → Returns (Bounded m) (rebalance_tree (node l ld v r (tree_depth r) s))
rebalance_right-Bounded n m k l ld v r s le room small fl bl br =
    let up : n ≤ suc k = omega arith in
    Returns-mono
      (rebalance-Bounded (suc k) l ld v r (tree_depth r) s (omega arith) (
        Fits-mono n (suc k) l ld up fl,
        tree_depth-Fits k r br,
        Bounded-mono n (suc k) l up bl,
        Bounded-mono k (suc k) r (omega arith) br,
      ))
      (λ u h. Bounded-mono (suc k + 2) m u (omega arith) h)

deeper-IsNode : (n : ℕ) (t : IndexTreeNode) (a b : ℕ) → Fits n t a → b < a → IsNode t
deeper-IsNode n null a b f h = absurd (omega (arith, f))
deeper-IsNode n (node l ld v r rd s) a b f h = tt

replace_right-Bounded :
    (n m k : ℕ) (l : IndexTreeNode) (ld : ℕ) (r : IndexTreeNode)
    → Fits n l ld
    → Bounded n l
    → Bounded n r
    → n + 3 * height r ≤ k
    → k + 3 ≤ m
    → m < 2147483648
    → Returns (Bounded m) (replace_by_right l ld r)
unfolding replace_by_right replace_by_leftmost
replace_right-Bounded n m k l ld null fl bl br le room small = returned tt
replace_right-Bounded n m k l ld (node l2 ld2 v2 r2 rd2 s2) fl bl br le room small =
    Returns-bind (extract_leftmost-Bounded n k (node l2 ld2 v2 r2 rd2 s2) tt br le (omega arith))
      (λ x (b, _).
        rebalance_right-Bounded n m k l ld x.values x.rest x.value_str (omega arith) room small fl
          bl b)

replace_root-Bounded :
    (n m : ℕ) (l : IndexTreeNode) (ld : ℕ) (r : IndexTreeNode) (rd : ℕ)
    → Fits n l ld
    → Fits n r rd
    → Bounded n l
    → Bounded n r
    → n + 3 * max (height l) (height r) + 6 ≤ m
    → m < 2147483648
    → Returns (Bounded m) (replace_root l ld r rd)
unfolding replace_root replace_by_rightmost replace_by_leftmost replace_by_right
replace_root-Bounded n m l ld r rd fl fr bl br le small =
    let k = m - 3 in
    let over_left = max-left (height l) (height r) in
    let over_right = max-right (height l) (height r) in
    elim (Bool-cases (ltb rd ld)) [
      | inl e ↦ rw e (
          Returns-bind
            (extract_rightmost-Bounded n k l (deeper-IsNode n l ld rd fl (ltb→lt rd ld e)) bl
              (omega arith) (omega arith))
            (λ x (b, _).
              rebalance_left-Bounded n m k x.rest x.values r rd x.value_str (omega arith)
                (omega arith) small b fr br))
      | inr e ↦ rw e (replace_right-Bounded n m k l ld r fl bl br (omega arith) (omega arith) small)
    ]

keep_root-Bounded :
    (n m : ℕ) (l : IndexTreeNode) (ld : ℕ) (v : List ℕ) (r : IndexTreeNode) (rd : ℕ) (s : List ℕ)
    → Fits n l ld
    → Fits n r rd
    → Bounded n l
    → Bounded n r
    → n + 3 * max (height l) (height r) + 6 ≤ m
    → m < 2147483648
    → Returns (Bounded m) (keep_root l ld v r rd s)
unfolding keep_root
keep_root-Bounded n m l ld [] r rd s fl fr bl br le small =
    replace_root-Bounded n m l ld r rd fl fr bl br le small
keep_root-Bounded n m l ld (x ∷ v) r rd s fl fr bl br le small =
    returned (Bounded-mono n m (node l ld (x ∷ v) r rd s) (omega arith) (fl, fr, bl, br))

pub delete-Bounded :
    (n m : ℕ) (t : IndexTreeNode) (q : List ℕ) (p : ℕ)
    → Bounded n t
    → n + 3 * height t + 3 ≤ m
    → m < 2147483648
    → Returns (Bounded m) (index_tree_delete t q p)
delete-Bounded n m null q p b le small = unfold index_tree_delete in returned tt
delete-Bounded n m (node l ld v r rd s) q p (fl, fr, bl, br) le small =
    let k = m - 3 in
    let over_left = max-left (height l) (height r) in
    let over_right = max-right (height l) (height r) in
    elim (Ordering-cases (order q s)) [
      | inl e ↦ rw (delete-left l ld v r rd s q p e) (
          Returns-bind (delete-Bounded n k l q p bl (omega arith) (omega arith)) (λ t b.
            rebalance_left-Bounded n m k t v r rd s (omega arith) (omega arith) small b fr br))
      | inr (inl e) ↦ elim (Option-cases (find_in_value_set v p)) [
        | inl f ↦
            rw (delete-missing l ld v r rd s q p e f)
              (returned (Bounded-mono n m (node l ld v r rd s) (omega arith) (fl, fr, bl, br)))
        | inr (i, f) ↦ rw (delete-here l ld v r rd s q p i e f) (
            keep_root-Bounded n m l ld (remove_from_value_set v i) r rd s fl fr bl br (omega arith)
              small)
      ]
      | inr (inr e) ↦ rw (delete-right l ld v r rd s q p e) (
          Returns-bind (delete-Bounded n k r q p br (omega arith) (omega arith)) (λ t b.
            rebalance_right-Bounded n m k l ld v t s (omega arith) (omega arith) small fl bl b))
    ]
