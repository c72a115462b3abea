-- ===== src/Index/Extract.antt =====
-- extract_leftmost and extract_rightmost against the list of the entries.
use mathlib.Core.List.{append_assoc}
use openslp.Base.{
  ℕ, suc, ◌+◌, ◌*◌, ◌-◌, ◌≤◌, ◌<◌, ◌≡◌, refl, sym, ap, ◌∙◌, List, [], ◌∷◌, ◌++◌, Returns, returned,
  Returns-bind, Returns-mono, Keeps, kept, stopped, Keeps-bind, both, arith,
}
use openslp.Index.{IndexTreeNode, null, node, rebalance_tree}
use openslp.Index.Remove.{depth_above, extract_leftmost, extract_rightmost}
use openslp.Index.Entries.{Entry, entries}
use openslp.Index.Rotations.{rebalance-entries}
use openslp.Index.Bounded.{
  Bounded, Fits, Fits-mono, Bounded-mono, IsNode, height, max-left, max-right, tree_depth-Fits,
  rebalance-Bounded,
}

-- A tree with entries is a node.
full-IsNode :
    (u : IndexTreeNode) (xs : List Entry) (e : Entry) (ys : List Entry)
    → entries u ≡ xs ++ (e ∷ ys)
    → IsNode u
full-IsNode null [] e ys h = absurd (cc)
full-IsNode null (x ∷ xs) e ys h = absurd (cc)
full-IsNode (node l ld v r rd s) xs e ys h = tt

-- Behind a subtree's extraction a node is left, where the subtree had more than one.
abbrev LeavesNode : (outermost : IndexTreeNode) (rest : IndexTreeNode) → Type 0
LeavesNode null rest = Unit
LeavesNode (node l ld v r rd s) rest = IsNode rest

depth_above-Fits :
    (n k : ℕ) (outermost : IndexTreeNode) (depth : ℕ) (rest : IndexTreeNode)
    → n ≤ k
    → (0 < depth) × (depth ≤ n)
    → LeavesNode outermost rest
    → Bounded k rest
    → Fits (suc k) rest (depth_above outermost depth rest)
unfolding depth_above
depth_above-Fits n k null depth rest le d h b = tree_depth-Fits k rest b
depth_above-Fits n k (node l ld v r rd s) depth null le d h b = absurd h
depth_above-Fits n k (node l ld v r rd s) depth (node l2 ld2 v2 r2 rd2 s2) le d h b =
    (d.0, omega (arith, d.1))

pub extract_leftmost-entries :
    (t : IndexTreeNode)
    → Keeps (λ e. entries t ≡ (e.value_str, e.values) ∷ entries e.rest) (extract_leftmost t)
unfolding extract_leftmost
extract_leftmost-entries null = stopped
extract_leftmost-entries (node null ld v r rd s) = kept refl
extract_leftmost-entries (node (node l2 ld2 v2 r2 rd2 s2) ld v r rd s) =
    Keeps-bind (extract_leftmost-entries (node l2 ld2 v2 r2 rd2 s2)) (λ e h.
      Keeps-bind (rebalance-entries (node e.rest (depth_above l2 ld e.rest) v r rd s)) (λ u k.
        kept
          (ap (λ x. x ++ ((s, v) ∷ entries r)) h ∙ ap (λ x. (e.value_str, e.values) ∷ x) (sym k))))

pub extract_rightmost-entries :
    (t : IndexTreeNode)
    → Keeps
        (λ e. entries t ≡ entries e.rest ++ ((e.value_str, e.values) ∷ []))
        (extract_rightmost t)
unfolding extract_rightmost
extract_rightmost-entries null = stopped
extract_rightmost-entries (node l ld v null rd s) = kept refl
extract_rightmost-entries (node l ld v (node l2 ld2 v2 r2 rd2 s2) rd s) =
    Keeps-bind (extract_rightmost-entries (node l2 ld2 v2 r2 rd2 s2)) (λ e h.
      Keeps-bind (rebalance-entries (node l ld v e.rest (depth_above r2 rd e.rest) s)) (λ u k.
        kept (
          ap (λ x. entries l ++ ((s, v) ∷ x)) h
          ∙ sym (append_assoc (entries l) ((s, v) ∷ entries e.rest) ((e.value_str, e.values) ∷ []))
          ∙ ap (λ x. x ++ ((e.value_str, e.values) ∷ [])) (sym k))))

-- Rebalancing a node leaves a node.
rebalanced :
    (n : ℕ) (l : IndexTreeNode) (ld : ℕ) (v : List ℕ) (r : IndexTreeNode) (rd : ℕ) (s : List ℕ)
    → n < 2147483648
    → Bounded n (node l ld v r rd s)
    → Returns (λ u. Bounded (n + 2) u × IsNode u) (rebalance_tree (node l ld v r rd s))
rebalanced n l ld v r rd s small b =
    Returns-mono
      (both (rebalance-Bounded n l ld v r rd s small b) (rebalance-entries (node l ld v r rd s)))
      (λ u h. (h.0, full-IsNode u (entries l) (s, v) (entries r) h.1))

abbrev left_of : IndexTreeNode → IndexTreeNode
left_of null = null
left_of (node l ld v r rd s) = l

abbrev right_of : IndexTreeNode → IndexTreeNode
right_of null = null
right_of (node l ld v r rd s) = r

pub extract_leftmost-Bounded :
    (n m : ℕ) (t : IndexTreeNode)
    → IsNode t
    → Bounded n t
    → n + 3 * height t ≤ m
    → m < 2147483648
    → Returns (λ e. Bounded m e.rest × LeavesNode (left_of t) e.rest) (extract_leftmost t)
unfolding extract_leftmost
extract_leftmost-Bounded n m null k b le small = absurd k
extract_leftmost-Bounded n m (node null ld v r rd s) k (fl, fr, bl, br) le small =
    returned (Bounded-mono n m r (omega arith) br, tt)
extract_leftmost-Bounded n m (node (node l2 ld2 v2 r2 rd2 s2) ld v r rd s) k (fl, fr, bl, br) le
      small =
    let inner = node l2 ld2 v2 r2 rd2 s2 in
    let j = m - 3 in
    let below : n + 3 * height inner ≤ j = omega (arith, max-left (height inner) (height r)) in
    let up : n ≤ suc j = omega arith in
    Returns-bind (extract_leftmost-Bounded n j (node l2 ld2 v2 r2 rd2 s2) tt bl below (omega arith))
      (λ e (b, h).
        Returns-bind
          (rebalanced (suc j) e.rest (depth_above l2 ld e.rest) v r rd s (omega arith) (
            depth_above-Fits n j l2 ld e.rest (omega arith) fl h b,
            Fits-mono n (suc j) r rd up fr,
            Bounded-mono j (suc j) e.rest (omega arith) b,
            Bounded-mono n (suc j) r up br,
          ))
          (λ u (bu, ku). returned (Bounded-mono (suc j + 2) m u (omega arith) bu, ku)))

pub extract_rightmost-Bounded :
    (n m : ℕ) (t : IndexTreeNode)
    → IsNode t
    → Bounded n t
    → n + 3 * height t ≤ m
    → m < 2147483648
    → Returns (λ e. Bounded m e.rest × LeavesNode (right_of t) e.rest) (extract_rightmost t)
unfolding extract_rightmost
extract_rightmost-Bounded n m null k b le small = absurd k
extract_rightmost-Bounded n m (node l ld v null rd s) k (fl, fr, bl, br) le small =
    returned (Bounded-mono n m l (omega arith) bl, tt)
extract_rightmost-Bounded n m (node l ld v (node l2 ld2 v2 r2 rd2 s2) rd s) k (fl, fr, bl, br) le
      small =
    let inner = node l2 ld2 v2 r2 rd2 s2 in
    let j = m - 3 in
    let below : n + 3 * height inner ≤ j = omega (arith, max-right (height l) (height inner)) in
    let up : n ≤ suc j = omega arith in
    Returns-bind
      (extract_rightmost-Bounded n j (node l2 ld2 v2 r2 rd2 s2) tt br below (omega arith))
      (λ e (b, h).
        Returns-bind
          (rebalanced (suc j) l ld v e.rest (depth_above r2 rd e.rest) s (omega arith) (
            Fits-mono n (suc j) l ld up fl,
            depth_above-Fits n j r2 rd e.rest (omega arith) fr h b,
            Bounded-mono n (suc j) l up bl,
            Bounded-mono j (suc j) e.rest (omega arith) b,
          ))
          (λ u (bu, ku). returned (Bounded-mono (suc j + 2) m u (omega arith) bu, ku)))
