-- ===== src/Index/Rotations.antt =====
-- The rotations of rebalance_tree and the entries of a tree.
use mathlib.Core.List.{append_assoc}
use openslp.Base.{
  ℕ, ◌≡◌, refl, sym, Bool-cases, inl, inr, ltb, ◌==◌, List, ◌∷◌, ◌++◌, subst, Keeps, stopped, kept,
  Keeps-bind,
}
use openslp.Index.{
  IndexTreeNode, null, node, tree_depth, turn_pivot_left, turn_pivot_right, rotate_right,
  rotate_left, depth_difference, rebalance_tree,
}
use openslp.Index.Entries.{Entry, entries}

assoc :
    (xs : List Entry) (e : Entry) (ys : List Entry) (f : Entry) (zs : List Entry)
    → (xs ++ (e ∷ ys)) ++ (f ∷ zs) ≡ xs ++ (e ∷ (ys ++ (f ∷ zs)))
assoc xs e ys f zs = append_assoc xs (e ∷ ys) (f ∷ zs)

turn_pivot_left-entries :
    (t : IndexTreeNode) → Keeps (λ u. entries u ≡ entries t) (turn_pivot_left t)
unfolding turn_pivot_left
turn_pivot_left-entries null = stopped
turn_pivot_left-entries (node l ld v null rd s) = kept refl
turn_pivot_left-entries (node l ld v (node l2 ld2 v2 r2 rd2 s2) rd s) =
    elim (Bool-cases (ltb (tree_depth l) (tree_depth (node l2 ld2 v2 r2 rd2 s2)))) [
      | inl e ↦ rw e (kept (assoc (entries l) (s, v) (entries l2) (s2, v2) (entries r2)))
      | inr e ↦ rw e (kept refl)
    ]

turn_pivot_right-entries :
    (t : IndexTreeNode) → Keeps (λ u. entries u ≡ entries t) (turn_pivot_right t)
unfolding turn_pivot_right
turn_pivot_right-entries null = stopped
turn_pivot_right-entries (node null ld v r rd s) = kept refl
turn_pivot_right-entries (node (node l2 ld2 v2 r2 rd2 s2) ld v r rd s) =
    elim (Bool-cases (ltb (tree_depth r) (tree_depth (node l2 ld2 v2 r2 rd2 s2)))) [
      | inl e ↦ rw e (kept (sym (assoc (entries l2) (s2, v2) (entries r2) (s, v) (entries r))))
      | inr e ↦ rw e (kept refl)
    ]

rotate_right-entries :
    (v : List ℕ) (r : IndexTreeNode) (rd : ℕ) (s : List ℕ) (pivot : IndexTreeNode)
    → Keeps (λ u. entries u ≡ entries pivot ++ ((s, v) ∷ entries r)) (rotate_right v r rd s pivot)
unfolding rotate_right
rotate_right-entries v r rd s null = stopped
rotate_right-entries v r rd s (node pl pld pv pr prd ps) =
    kept (sym (assoc (entries pl) (ps, pv) (entries pr) (s, v) (entries r)))

rotate_left-entries :
    (l : IndexTreeNode) (ld : ℕ) (v s : List ℕ) (pivot : IndexTreeNode)
    → Keeps (λ u. entries u ≡ entries l ++ ((s, v) ∷ entries pivot)) (rotate_left l ld v s pivot)
unfolding rotate_left
rotate_left-entries l ld v s null = stopped
rotate_left-entries l ld v s (node pl pld pv pr prd ps) =
    kept (assoc (entries l) (s, v) (entries pl) (ps, pv) (entries pr))

pub rebalance-entries : (t : IndexTreeNode) → Keeps (λ u. entries u ≡ entries t) (rebalance_tree t)
unfolding rebalance_tree
rebalance-entries null = stopped
rebalance-entries (node l ld v r rd s) = elim (Bool-cases (depth_difference ld rd == 2)) [
  | inl e ↦ rw e (
      Keeps-bind (turn_pivot_left-entries l) (λ pivot h.
        subst
          (λ x. Keeps (λ u. entries u ≡ x ++ ((s, v) ∷ entries r)) (rotate_right v r rd s pivot))
          (h) (rotate_right-entries v r rd s pivot)))
  | inr e ↦ rw e (elim (Bool-cases (depth_difference rd ld == 2)) [
    | inl k ↦ rw k (
        Keeps-bind (turn_pivot_right-entries r) (λ pivot h.
          subst
            (λ x. Keeps (λ u. entries u ≡ entries l ++ ((s, v) ∷ x)) (rotate_left l ld v s pivot))
            (h) (rotate_left-entries l ld v s pivot)))
    | inr k ↦ rw k (kept refl)
  ])
]
