-- ===== src/Index/Insert.antt =====
-- add_to_index against the sorted list of the entries.
use Prim.Native.Nat.Ordering.{lt, eq, gt}
use openslp.Base.{
  subst, ℕ, suc, ◌+◌, ◌*◌, ◌-◌, ◌≤◌, ◌<◌, ◌≡◌, refl, sym, ap, ◌∙◌, true, inl, inr, List, [], ◌∷◌,
  ◌++◌, bind, Returns, returned, Returns-bind, Returns-mono, Keeps, kept, Keeps-bind, Keeps-mono,
  both, arith,
}
use openslp.Index.{
  IndexTreeNode, null, node, Memory, tree_depth, create_index_tree_node, index_value_insert,
  rebalance_tree, insert_left, insert_right, add_to_index,
}
use openslp.Index.Compare.{order, compare_string-order}
use openslp.Index.Order.{Ordering-cases}
use openslp.Index.Entries.{
  Entry, entries, IsSorted, IsSorted-split, Before-trans, Before-eq, add_entry, add_entry-IsSorted,
  add-eq, add-gt, add-Before, add-After,
}
use openslp.Index.Rotations.{rebalance-entries}
use openslp.Index.Bounded.{
  Bounded, Fits, Bounded-mono, Fits-mono, height, max-left, max-right, tree_depth-Fits,
  rebalance-Bounded,
}

module _ (memory : Memory) (l : IndexTreeNode) (ld : ℕ) (v : List ℕ) (r : IndexTreeNode) (rd : ℕ)
    (s q : List ℕ) (p : ℕ) where
  pub add-left :
      order q s ≡ lt
      → add_to_index memory (node l ld v r rd s) q p
        ≡ bind (add_to_index memory l q p) (insert_left v r rd s)
  unfolding add_to_index
  add-left e = rw (compare_string-order q s ∙ e, add_to_index) refl

  pub add-here :
      order q s ≡ eq
      → add_to_index memory (node l ld v r rd s) q p
        ≡ rebalance_tree (node l ld (index_value_insert memory v p) r rd s)
  unfolding add_to_index
  add-here e = rw (compare_string-order q s ∙ e, add_to_index) refl

  pub add-right :
      order q s ≡ gt
      → add_to_index memory (node l ld v r rd s) q p
        ≡ bind (add_to_index memory r q p) (insert_right l ld v s)
  unfolding add_to_index
  add-right e = rw (compare_string-order q s ∙ e, add_to_index) refl

-- An allocator that never fails.
abbrev pub enough : Memory
enough = record { for_node = true; for_value = true }

add_entry-nonempty : (q : List ℕ) (p : ℕ) (es : List Entry) → add_entry q p es ≡ [] → ⊥
unfolding add_entry
add_entry-nonempty q p [] h = absurd (cc)
add_entry-nonempty q p ((s, v) ∷ es) h = ground (arith, h)

insert_left-entries :
    (v : List ℕ) (r : IndexTreeNode) (rd : ℕ) (s q : List ℕ) (p : ℕ) (es : List Entry)
    (t : IndexTreeNode)
    → entries t ≡ add_entry q p es
    → Keeps (λ u. entries u ≡ add_entry q p es ++ ((s, v) ∷ entries r)) (insert_left v r rd s t)
unfolding insert_left
insert_left-entries v r rd s q p es null h = absurd (add_entry-nonempty q p es (sym h))
insert_left-entries v r rd s q p es (node l2 ld2 v2 r2 rd2 s2) h =
    let left = node l2 ld2 v2 r2 rd2 s2 in
    Keeps-mono (rebalance-entries (node left (tree_depth left) v r rd s))
      (λ u e. e ∙ ap (λ x. x ++ ((s, v) ∷ entries r)) h)

insert_right-entries :
    (l : IndexTreeNode) (ld : ℕ) (v s q : List ℕ) (p : ℕ) (es : List Entry) (t : IndexTreeNode)
    → entries t ≡ add_entry q p es
    → Keeps (λ u. entries u ≡ entries l ++ ((s, v) ∷ add_entry q p es)) (insert_right l ld v s t)
unfolding insert_right
insert_right-entries l ld v s q p es null h = absurd (add_entry-nonempty q p es (sym h))
insert_right-entries l ld v s q p es (node l2 ld2 v2 r2 rd2 s2) h =
    let right = node l2 ld2 v2 r2 rd2 s2 in
    Keeps-mono (rebalance-entries (node l ld v right (tree_depth right) s))
      (λ u e. e ∙ ap (λ x. entries l ++ ((s, v) ∷ x)) h)

add-entries :
    (t : IndexTreeNode) (q : List ℕ) (p : ℕ)
    → IsSorted (entries t)
    → Keeps (λ u. entries u ≡ add_entry q p (entries t)) (add_to_index enough t q p)
add-entries null q p h = unfold add_to_index create_index_tree_node add_entry in kept refl
add-entries (node l ld v r rd s) q p h =
    let (hl, before, after, full, hr) = IsSorted-split (entries l) (s, v) (entries r) h in
    elim (Ordering-cases (order q s)) [
      | inl e ↦
          rw (add-left enough l ld v r rd s q p e, add-After q p s v (entries l) (entries r) e)
            (Keeps-bind (add-entries l q p hl) (insert_left-entries v r rd s q p (entries l)))
      | inr (inl e) ↦
          rw
            (
              add-here enough l ld v r rd s q p e,
              add-Before q p (entries l) ((s, v) ∷ entries r) (Before-eq q s (entries l) e before),
              add-eq q p s v (entries r) e,
            )
            (unfold index_value_insert in (rebalance-entries (node l ld (p ∷ v) r rd s)))
      | inr (inr e) ↦
          rw
            (
              add-right enough l ld v r rd s q p e,
              add-Before q p (entries l) ((s, v) ∷ entries r)
                  (Before-trans q s (entries l) e before),
              add-gt q p s v (entries r) e,
            )
            (Keeps-bind (add-entries r q p hr) (insert_right-entries l ld v s q p (entries r)))
    ]

created-Bounded :
    (memory : Memory) (m : ℕ) (q : List ℕ) (p : ℕ) → Bounded m (create_index_tree_node memory q p)
unfolding create_index_tree_node
created-Bounded memory m q p = ground arith

-- No fault, whatever the allocator answers.
insert_left-Bounded :
    (n : ℕ) (v : List ℕ) (r : IndexTreeNode) (rd : ℕ) (s : List ℕ) (t : IndexTreeNode)
    → suc n < 2147483648
    → Bounded n t
    → Fits n r rd
    → Bounded n r
    → Returns (Bounded (n + 3)) (insert_left v r rd s t)
unfolding insert_left
insert_left-Bounded n v r rd s null small bt f b = returned tt
insert_left-Bounded n v r rd s (node l2 ld2 v2 r2 rd2 s2) small bt f b =
    let left = node l2 ld2 v2 r2 rd2 s2 in
    let up : n ≤ suc n = omega arith in
    Returns-mono
      (rebalance-Bounded (suc n) left (tree_depth left) v r rd s small (
        tree_depth-Fits n left bt,
        Fits-mono n (suc n) r rd up f,
        Bounded-mono n (suc n) left up bt,
        Bounded-mono n (suc n) r up b,
      ))
      (λ u h. Bounded-mono (suc n + 2) (n + 3) u (omega arith) h)

insert_right-Bounded :
    (n : ℕ) (l : IndexTreeNode) (ld : ℕ) (v s : List ℕ) (t : IndexTreeNode)
    → suc n < 2147483648
    → Bounded n t
    → Fits n l ld
    → Bounded n l
    → Returns (Bounded (n + 3)) (insert_right l ld v s t)
unfolding insert_right
insert_right-Bounded n l ld v s null small bt f b = returned tt
insert_right-Bounded n l ld v s (node l2 ld2 v2 r2 rd2 s2) small bt f b =
    let right = node l2 ld2 v2 r2 rd2 s2 in
    let up : n ≤ suc n = omega arith in
    Returns-mono
      (rebalance-Bounded (suc n) l ld v right (tree_depth right) s small (
        Fits-mono n (suc n) l ld up f,
        tree_depth-Fits n right bt,
        Bounded-mono n (suc n) l up b,
        Bounded-mono n (suc n) right up bt,
      ))
      (λ u h. Bounded-mono (suc n + 2) (n + 3) u (omega arith) h)

add-Bounded :
    (memory : Memory) (n m : ℕ) (t : IndexTreeNode) (q : List ℕ) (p : ℕ)
    → Bounded n t
    → n + 3 * height t + 3 ≤ m
    → m < 2147483648
    → Returns (Bounded m) (add_to_index memory t q p)
add-Bounded memory n m null q p b le small =
    unfold add_to_index in (returned (created-Bounded memory m q p))
add-Bounded memory n m (node l ld v r rd s) q p (fl, fr, bl, br) le small =
    let k = m - 3 in
    let up : n ≤ k = omega arith in
    let to_m =
      λ (u : IndexTreeNode) (h : Bounded (k + 3) u). Bounded-mono (k + 3) m u (omega arith) h in
    elim (Ordering-cases (order q s)) [
      | inl e ↦ rw (add-left memory l ld v r rd s q p e) (
          Returns-bind
            (add-Bounded memory n k l q p bl (omega (arith, max-left (height l) (height r)))
              (omega arith))
            (λ t h.
              Returns-mono
                (insert_left-Bounded k v r rd s t (omega arith) h (Fits-mono n k r rd up fr)
                  (Bounded-mono n k r up br))
                to_m))
      | inr (inl e) ↦ rw (add-here memory l ld v r rd s q p e) (
          Returns-mono
            (rebalance-Bounded n l ld (index_value_insert memory v p) r rd s (omega arith)
              (fl, fr, bl, br))
            (λ u h. Bounded-mono (n + 2) m u (omega arith) h))
      | inr (inr e) ↦ rw (add-right memory l ld v r rd s q p e) (
          Returns-bind
            (add-Bounded memory n k r q p br (omega (arith, max-right (height l) (height r)))
              (omega arith))
            (λ t h.
              Returns-mono
                (insert_right-Bounded k l ld v s t (omega arith) h (Fits-mono n k l ld up fl)
                  (Bounded-mono n k l up bl))
                to_m))
    ]

-- With memory, add_to_index returns a tree whose entries are those of the old one with the location added in its
-- place, sorted again, if the old ones are sorted, the depths of empty subtrees are 0 and the depths small.
pub add_to_index-Refines :
    (n : ℕ) (t : IndexTreeNode) (q : List ℕ) (p : ℕ)
    → IsSorted (entries t)
    → Bounded n t
    → n + 3 * height t + 3 < 2147483648
    → Returns
        (λ u.
          Bounded (n + 3 * height t + 3) u
          × (entries u ≡ add_entry q p (entries t))
          × IsSorted (entries u))
        (add_to_index enough t q p)
add_to_index-Refines n t q p h b small =
    Returns-mono
      (both (add-Bounded enough n (n + 3 * height t + 3) t q p b (omega arith) small)
        (add-entries t q p h))
      (λ u (bu, e). (bu, e, subst IsSorted (sym e) (add_entry-IsSorted q p (entries t) h)))
