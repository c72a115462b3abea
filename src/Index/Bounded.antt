-- ===== src/Index/Bounded.antt =====
-- The stored depths that keep the rotations from reading through a null pointer. They are far below the range
-- of an `unsigned`.
use openslp.Base.{
  ℕ, suc, ◌+◌, ◌≤◌, ◌<◌, ◌≡◌, refl, true, Bool-cases, inl, inr, ltb, ◌==◌, arith, List, Returns,
  returned, Returns-bind, Returns-mono,
}
use openslp.Index.{
  IndexTreeNode, null, node, max, tree_depth, turn_pivot_left, turn_pivot_right, rotate_right,
  rotate_left, depth_difference, rebalance_tree,
}

-- A stored depth: 0 for an empty subtree, and for another positive and at most `n`.
abbrev pub Fits : (n : ℕ) → IndexTreeNode → (depth : ℕ) → Type 0
Fits n null depth = depth ≡ 0
Fits n (node l ld v r rd s) depth = (0 < depth) × (depth ≤ n)

abbrev pub Bounded : (n : ℕ) → IndexTreeNode → Type 0
Bounded n null = Unit
Bounded n (node l ld v r rd s) = Fits n l ld × Fits n r rd × Bounded n l × Bounded n r

pub Fits-le : (n : ℕ) (t : IndexTreeNode) (d : ℕ) → Fits n t d → d ≤ n
Fits-le n null d h = omega (arith, h)
Fits-le n (node l ld v r rd s) d h = h.1

pub Fits-mono : (n m : ℕ) (t : IndexTreeNode) (d : ℕ) → n ≤ m → Fits n t d → Fits m t d
Fits-mono n m null d le h = h
Fits-mono n m (node l ld v r rd s) d le h = (h.0, omega (arith, h.1))

pub Bounded-mono : (n m : ℕ) (t : IndexTreeNode) → n ≤ m → Bounded n t → Bounded m t
Bounded-mono n m null le h = tt
Bounded-mono n m (node l ld v r rd s) le h = (
  Fits-mono n m l ld le h.0,
  Fits-mono n m r rd le h.1,
  Bounded-mono n m l le h.2,
  Bounded-mono n m r le h.3,
)

pub tree_depth-Fits : (n : ℕ) (t : IndexTreeNode) → Bounded n t → Fits (suc n) t (tree_depth t)
unfolding tree_depth
tree_depth-Fits n null h = refl
tree_depth-Fits n (node l ld v r rd s) h = ground (arith, Fits-le n l ld h.0, Fits-le n r rd h.1)

-- A difference of 2 has a subtree on the deeper side.
pub difference_two :
    (a b : ℕ) → a < 2147483648 → b < 2147483648 → (depth_difference a b == 2) ≡ true → a ≡ b + 2
difference_two a b ha hb h = ground arith

-- The pivot's turn leaves a pivot.
abbrev pub IsNode : IndexTreeNode → Type 0
IsNode null = ⊥
IsNode (node l ld v r rd s) = Unit

turned_left :
    (n : ℕ) (l : IndexTreeNode) (ld : ℕ) (v : List ℕ) (l2 : IndexTreeNode) (ld2 : ℕ) (v2 : List ℕ)
    (r2 : IndexTreeNode) (rd2 : ℕ) (s2 s : List ℕ)
    → Fits n l ld
    → Bounded n l
    → Bounded n (node l2 ld2 v2 r2 rd2 s2)
    → Bounded (suc n) (node (node l ld v l2 ld2 s) (tree_depth (node l ld v l2 ld2 s)) v2 r2 rd2 s2)
turned_left n l ld v l2 ld2 v2 r2 rd2 s2 s fl bl (fl2, fr2, bl2, br2) =
    let inner : Bounded n (node l ld v l2 ld2 s) = (fl, fl2, bl, bl2) in
    (
      tree_depth-Fits n (node l ld v l2 ld2 s) inner,
      Fits-mono n (suc n) r2 rd2 (omega arith) fr2,
      Bounded-mono n (suc n) (node l ld v l2 ld2 s) (omega arith) inner,
      Bounded-mono n (suc n) r2 (omega arith) br2,
    )

turned_right :
    (n : ℕ) (l2 : IndexTreeNode) (ld2 : ℕ) (v2 : List ℕ) (r2 : IndexTreeNode) (rd2 : ℕ)
    (s2 v : List ℕ) (r : IndexTreeNode) (rd : ℕ) (s : List ℕ)
    → Fits n r rd
    → Bounded n r
    → Bounded n (node l2 ld2 v2 r2 rd2 s2)
    → Bounded (suc n) (node l2 ld2 v2 (node r2 rd2 v r rd s) (tree_depth (node r2 rd2 v r rd s)) s2)
turned_right n l2 ld2 v2 r2 rd2 s2 v r rd s fr br (fl2, fr2, bl2, br2) =
    let inner : Bounded n (node r2 rd2 v r rd s) = (fr2, fr, br2, br) in
    (
      Fits-mono n (suc n) l2 ld2 (omega arith) fl2,
      tree_depth-Fits n (node r2 rd2 v r rd s) inner,
      Bounded-mono n (suc n) l2 (omega arith) bl2,
      Bounded-mono n (suc n) (node r2 rd2 v r rd s) (omega arith) inner,
    )

turn_pivot_left-Bounded :
    (n : ℕ) (t : IndexTreeNode)
    → IsNode t
    → Bounded n t
    → Returns (λ u. IsNode u × Bounded (suc n) u) (turn_pivot_left t)
unfolding turn_pivot_left
turn_pivot_left-Bounded n null k b = absurd k
turn_pivot_left-Bounded n (node l ld v null rd s) k b =
    returned (tt, Bounded-mono n (suc n) (node l ld v null rd s) (omega arith) b)
turn_pivot_left-Bounded n (node l ld v (node l2 ld2 v2 r2 rd2 s2) rd s) k b =
    elim (Bool-cases (ltb (tree_depth l) (tree_depth (node l2 ld2 v2 r2 rd2 s2)))) [
      | inl e ↦ rw e (returned (tt, turned_left n l ld v l2 ld2 v2 r2 rd2 s2 s b.0 b.2 b.3))
      | inr e ↦ rw e (
          returned (
            tt,
            Bounded-mono n (suc n) (node l ld v (node l2 ld2 v2 r2 rd2 s2) rd s) (omega arith) b,
          ))
    ]

turn_pivot_right-Bounded :
    (n : ℕ) (t : IndexTreeNode)
    → IsNode t
    → Bounded n t
    → Returns (λ u. IsNode u × Bounded (suc n) u) (turn_pivot_right t)
unfolding turn_pivot_right
turn_pivot_right-Bounded n null k b = absurd k
turn_pivot_right-Bounded n (node null ld v r rd s) k b =
    returned (tt, Bounded-mono n (suc n) (node null ld v r rd s) (omega arith) b)
turn_pivot_right-Bounded n (node (node l2 ld2 v2 r2 rd2 s2) ld v r rd s) k b =
    elim (Bool-cases (ltb (tree_depth r) (tree_depth (node l2 ld2 v2 r2 rd2 s2)))) [
      | inl e ↦ rw e (returned (tt, turned_right n l2 ld2 v2 r2 rd2 s2 v r rd s b.1 b.3 b.2))
      | inr e ↦ rw e (
          returned (
            tt,
            Bounded-mono n (suc n) (node (node l2 ld2 v2 r2 rd2 s2) ld v r rd s) (omega arith) b,
          ))
    ]

rotate_right-Bounded :
    (n : ℕ) (v : List ℕ) (r : IndexTreeNode) (rd : ℕ) (s : List ℕ) (pivot : IndexTreeNode)
    → IsNode pivot
    → Bounded n pivot
    → Fits n r rd
    → Bounded n r
    → Returns (Bounded (suc n)) (rotate_right v r rd s pivot)
unfolding rotate_right
rotate_right-Bounded n v r rd s null k b f br = absurd k
rotate_right-Bounded n v r rd s (node pl pld pv pr prd ps) k b f br =
    returned (turned_right n pl pld pv pr prd ps v r rd s f br b)

rotate_left-Bounded :
    (n : ℕ) (l : IndexTreeNode) (ld : ℕ) (v s : List ℕ) (pivot : IndexTreeNode)
    → IsNode pivot
    → Bounded n pivot
    → Fits n l ld
    → Bounded n l
    → Returns (Bounded (suc n)) (rotate_left l ld v s pivot)
unfolding rotate_left
rotate_left-Bounded n l ld v s null k b f bl = absurd k
rotate_left-Bounded n l ld v s (node pl pld pv pr prd ps) k b f bl =
    returned (turned_left n l ld v pl pld pv pr prd ps s f bl b)

-- The side that is deeper by two has a node.
deeper-IsNode : (n : ℕ) (t : IndexTreeNode) (a b : ℕ) → Fits n t a → a ≡ b + 2 → IsNode t
deeper-IsNode n null a b f e = absurd (omega (arith, f, e))
deeper-IsNode n (node l ld v r rd s) a b f e = tt

pub rebalance-Bounded :
    (n : ℕ) (l : IndexTreeNode) (ld : ℕ) (v : List ℕ) (r : IndexTreeNode) (rd : ℕ) (s : List ℕ)
    → n < 2147483648
    → Bounded n (node l ld v r rd s)
    → Returns (Bounded (n + 2)) (rebalance_tree (node l ld v r rd s))
unfolding rebalance_tree
rebalance-Bounded n l ld v r rd s small (fl, fr, bl, br) =
    let left = Fits-le n l ld fl in
    let right = Fits-le n r rd fr in
    let up : n ≤ suc n = omega arith in
    elim (Bool-cases (depth_difference ld rd == 2)) [
      | inl e ↦ rw e (
          Returns-bind
            (turn_pivot_left-Bounded n l
              (deeper-IsNode n l ld rd fl (difference_two ld rd (omega arith) (omega arith) e)) bl)
            (λ pivot h.
              Returns-mono
                (rotate_right-Bounded (suc n) v r rd s pivot h.0 h.1
                  (Fits-mono n (suc n) r rd up fr) (Bounded-mono n (suc n) r up br))
                (λ u b. Bounded-mono (suc (suc n)) (n + 2) u (omega arith) b)))
      | inr e ↦ rw e (elim (Bool-cases (depth_difference rd ld == 2)) [
        | inl k ↦ rw k (
            Returns-bind
              (turn_pivot_right-Bounded n r
                (deeper-IsNode n r rd ld fr (difference_two rd ld (omega arith) (omega arith) k))
                br)
              (λ pivot h.
                Returns-mono
                  (rotate_left-Bounded (suc n) l ld v s pivot h.0 h.1
                    (Fits-mono n (suc n) l ld up fl) (Bounded-mono n (suc n) l up bl))
                  (λ u b. Bounded-mono (suc (suc n)) (n + 2) u (omega arith) b)))
        | inr k ↦
            rw k (
              returned (Bounded-mono n (n + 2) (node l ld v r rd s) (omega arith) (fl, fr, bl, br)))
      ])
    ]

-- The true height.
abbrev pub height : IndexTreeNode → ℕ
height null = 0
height (node l ld v r rd s) = suc (max (height l) (height r))

pub max-left : (a b : ℕ) → a ≤ max a b
max-left a b = ground arith

pub max-right : (a b : ℕ) → b ≤ max a b
max-right a b = ground arith
