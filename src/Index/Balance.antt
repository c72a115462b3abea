-- ===== src/Index/Balance.antt =====
-- Balance, and what rebalance_tree does to it.
use openslp.Base.{
  ℕ, suc, ◌+◌, ◌≤◌, ◌<◌, ◌≡◌, refl, ltb, ltb→lt, ltb→le, ◌==◌, false, Bool-cases, inl, inr, List,
  bind, Returns, returned, Returns-mono, arith,
}
use openslp.Index.{
  IndexTreeNode, null, node, max, tree_depth, turn_pivot_left, turn_pivot_right, rotate_right,
  rotate_left, depth_difference, rebalance_tree,
}
use openslp.Index.Bounded.{height, difference_two}

-- The depths are the heights, and those of two subtrees differ by 1 at most.
abbrev pub IsBalanced : IndexTreeNode → Type 0
IsBalanced null = Unit
IsBalanced (node l ld v r rd s) =
    (ld ≡ height l) × (rd ≡ height r) × (ld ≤ rd + 1) × (rd ≤ ld + 1) × IsBalanced l × IsBalanced r

-- A result whose height is one of two.
abbrev pub Balanced : (low high : ℕ) → IndexTreeNode → Type 0
Balanced low high u = IsBalanced u × (low ≤ height u) × (height u ≤ high)

pub depth-height : (t : IndexTreeNode) → IsBalanced t → tree_depth t ≡ height t
unfolding tree_depth
depth-height null b = refl
depth-height (node l ld v r rd s) b = rw (b.0, b.1) (omega arith)

single_right :
    (l : IndexTreeNode) (ld : ℕ) (v : List ℕ) (m : IndexTreeNode) (md : ℕ) (s v2 : List ℕ)
    (r : IndexTreeNode) (rd : ℕ) (s2 : List ℕ)
    → IsBalanced l
    → IsBalanced m
    → IsBalanced r
    → ld ≡ height l
    → md ≡ height m
    → rd ≡ height r
    → md ≤ ld
    → ld ≤ md + 1
    → ld ≡ rd + 1
    → Balanced
        (suc ld)
        (suc (suc ld))
        (node l ld v (node m md v2 r rd s2) (tree_depth (node m md v2 r rd s2)) s)
unfolding tree_depth
single_right l ld v m md s v2 r rd s2 bl bm br hl hm hr a b c = ground arith

single_left :
    (l : IndexTreeNode) (ld : ℕ) (v : List ℕ) (m : IndexTreeNode) (md : ℕ) (s v2 : List ℕ)
    (r : IndexTreeNode) (rd : ℕ) (s2 : List ℕ)
    → IsBalanced l
    → IsBalanced m
    → IsBalanced r
    → ld ≡ height l
    → md ≡ height m
    → rd ≡ height r
    → md ≤ rd
    → rd ≤ md + 1
    → rd ≡ ld + 1
    → Balanced
        (suc rd)
        (suc (suc rd))
        (node (node l ld v m md s) (tree_depth (node l ld v m md s)) v2 r rd s2)
unfolding tree_depth
single_left l ld v m md s v2 r rd s2 bl bm br hl hm hr a b c = ground arith

double :
    (l : IndexTreeNode) (ld : ℕ) (v : List ℕ) (l2 : IndexTreeNode) (ld2 : ℕ) (v2 : List ℕ)
    (r2 : IndexTreeNode) (rd2 : ℕ) (s2 s v3 : List ℕ) (r : IndexTreeNode) (rd : ℕ) (s3 : List ℕ)
    → IsBalanced l
    → IsBalanced (node l2 ld2 v2 r2 rd2 s2)
    → IsBalanced r
    → ld ≡ height l
    → rd ≡ height r
    → ld ≡ rd
    → height (node l2 ld2 v2 r2 rd2 s2) ≡ rd + 1
    → Balanced (rd + 2) (rd + 2) (
        node
          (node l ld v l2 ld2 s)
          (tree_depth (node l ld v l2 ld2 s))
          v2
          (node r2 rd2 v3 r rd s3)
          (tree_depth (node r2 rd2 v3 r rd s3))
          s2)
unfolding tree_depth
double l ld v l2 ld2 v2 r2 rd2 s2 s v3 r rd s3 bl bm br hl hr a h = ground arith

rotated_right :
    (l : IndexTreeNode) (ld : ℕ) (v : List ℕ) (r : IndexTreeNode) (rd : ℕ) (s : List ℕ)
    → IsBalanced l
    → IsBalanced r
    → ld ≡ height l
    → rd ≡ height r
    → ld ≡ rd + 2
    → Returns (Balanced ld (suc ld)) (bind (turn_pivot_left l) (rotate_right v r rd s))
unfolding turn_pivot_left rotate_right
rotated_right null ld v r rd s bl br hl hr e = absurd (omega arith)
rotated_right (node l1 ld1 v1 null rd1 s1) ld v r rd s (a, b, c, d, x, y) br hl hr e =
    let top : ld ≡ suc ld1 = ground arith in
    rw top (
      returned
        (single_right l1 ld1 v1 null rd1 s1 v r rd s x y br a b hr (omega arith) c (omega arith)))
rotated_right (node l1 ld1 v1 (node l2 ld2 v2 r2 rd2 s2) rd1 s1) ld v r rd s (a, b, c, d, x, y) br
      hl hr e =
    let m = node l2 ld2 v2 r2 rd2 s2 in
    let d1 : tree_depth l1 ≡ height l1 = depth-height l1 x in
    let dm : tree_depth m ≡ height m = depth-height m y in
    elim (Bool-cases (ltb (tree_depth l1) (tree_depth m))) [
      | inl k ↦
          let less : tree_depth l1 < tree_depth m = ltb→lt (tree_depth l1) (tree_depth m) k in
          let top : ld ≡ suc (height m) = ground (arith, hl, less, d1, dm) in
          let inner : height m ≡ rd + 1 = omega arith in
          let outer : ld1 ≡ rd = omega arith in
          let (u, low, high) =
            double l1 ld1 v1 l2 ld2 v2 r2 rd2 s2 s1 v r rd s x y br a hr outer inner in
          rw k (returned (u, omega arith, omega arith))
      | inr k ↦
          let more : tree_depth m ≤ tree_depth l1 = ltb→le (tree_depth l1) (tree_depth m) k in
          let le : rd1 ≤ ld1 = omega arith in
          let top : ld ≡ suc ld1 = ground (arith, hl, le, a, b) in
          let outer : ld1 ≡ rd + 1 = omega arith in
          let (u, low, high) = single_right l1 ld1 v1 m rd1 s1 v r rd s x y br a b hr le c outer in
          rw k (returned (u, omega arith, omega arith))
    ]

rotated_left :
    (l : IndexTreeNode) (ld : ℕ) (v : List ℕ) (r : IndexTreeNode) (rd : ℕ) (s : List ℕ)
    → IsBalanced l
    → IsBalanced r
    → ld ≡ height l
    → rd ≡ height r
    → rd ≡ ld + 2
    → Returns (Balanced rd (suc rd)) (bind (turn_pivot_right r) (rotate_left l ld v s))
unfolding turn_pivot_right rotate_left
rotated_left l ld v null rd s bl br hl hr e = absurd (omega arith)
rotated_left l ld v (node null ld1 v1 r1 rd1 s1) rd s bl (a, b, c, d, x, y) hl hr e =
    let top : rd ≡ suc rd1 = ground arith in
    rw top (
      returned
        (single_left l ld v null ld1 s v1 r1 rd1 s1 bl x y hl a b (omega arith) d (omega arith)))
rotated_left l ld v (node (node l2 ld2 v2 r2 rd2 s2) ld1 v1 r1 rd1 s1) rd s bl (a, b, c, d, x, y) hl
      hr e =
    let m = node l2 ld2 v2 r2 rd2 s2 in
    let d1 : tree_depth r1 ≡ height r1 = depth-height r1 y in
    let dm : tree_depth m ≡ height m = depth-height m x in
    elim (Bool-cases (ltb (tree_depth r1) (tree_depth m))) [
      | inl k ↦
          let less : tree_depth r1 < tree_depth m = ltb→lt (tree_depth r1) (tree_depth m) k in
          let top : rd ≡ suc (height m) = ground (arith, hr, less, d1, dm) in
          let inner : height m ≡ rd1 + 1 = omega arith in
          let outer : ld ≡ rd1 = omega arith in
          let (u, low, high) =
            double l ld v l2 ld2 v2 r2 rd2 s2 s v1 r1 rd1 s1 bl x y hl b outer inner in
          rw k (returned (u, omega arith, omega arith))
      | inr k ↦
          let more : tree_depth m ≤ tree_depth r1 = ltb→le (tree_depth r1) (tree_depth m) k in
          let le : ld1 ≤ rd1 = omega arith in
          let top : rd ≡ suc rd1 = ground (arith, hr, le, a, b) in
          let outer : rd1 ≡ ld + 1 = omega arith in
          let (u, low, high) = single_left l ld v m ld1 s v1 r1 rd1 s1 bl x y hl a b le d outer in
          rw k (returned (u, omega arith, omega arith))
    ]

-- The height that a rebalanced tree may have.
abbrev pub Rebalanced : (ld rd : ℕ) → IndexTreeNode → Type 0
Rebalanced ld rd u =
    IsBalanced u
    × (max ld rd ≤ height u)
    × (height u ≤ suc (max ld rd))
    × (ld ≤ rd + 1 → rd ≤ ld + 1 → height u ≡ suc (max ld rd))

difference_near :
    (a b : ℕ)
    → a < 2147483648
    → b < 2147483648
    → a ≤ b + 2
    → (depth_difference a b == 2) ≡ false
    → a ≤ b + 1
difference_near a b ha hb le h = ground arith

pub rebalance-IsBalanced :
    (l : IndexTreeNode) (ld : ℕ) (v : List ℕ) (r : IndexTreeNode) (rd : ℕ) (s : List ℕ)
    → IsBalanced l
    → IsBalanced r
    → ld ≡ height l
    → rd ≡ height r
    → ld ≤ rd + 2
    → rd ≤ ld + 2
    → ld < 2147483648
    → rd < 2147483648
    → Returns (Rebalanced ld rd) (rebalance_tree (node l ld v r rd s))
unfolding rebalance_tree
rebalance-IsBalanced l ld v r rd s bl br hl hr le re sl sr =
    elim (Bool-cases (depth_difference ld rd == 2)) [
      | inl e ↦
          let two : ld ≡ rd + 2 = difference_two ld rd sl sr e in
          let top : max ld rd ≡ ld = ground arith in
          rw e (
            Returns-mono (rotated_right l ld v r rd s bl br hl hr two)
              (λ u (b, low, high). (b, omega arith, omega arith, λ c d. absurd (omega arith))))
      | inr e ↦ elim (Bool-cases (depth_difference rd ld == 2)) [
        | inl k ↦
            let two : rd ≡ ld + 2 = difference_two rd ld sr sl k in
            let top : max ld rd ≡ rd = ground arith in
            rw (e, k)
              (Returns-mono (rotated_left l ld v r rd s bl br hl hr two)
                (λ u (b, low, high). (b, omega arith, omega arith, λ c d. absurd (omega arith))))
        | inr k ↦
            let near : (ld ≤ rd + 1) × (rd ≤ ld + 1) =
              (difference_near ld rd sl sr le e, difference_near rd ld sr sl re k) in
            let same : suc (max (height l) (height r)) ≡ suc (max ld rd) = rw (hl, hr) refl in
            rw (e, k)
              (returned ((hl, hr, near.0, near.1, bl, br), omega arith, omega arith, λ c d. same))
      ]
    ]
