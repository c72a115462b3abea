-- ===== src/Index/Delete.antt =====
-- index_tree_delete against the sorted list of the entries.
use mathlib.Core.List.{append_assoc}
use Prim.Native.Nat.Ordering.{eq}
use openslp.Base.{
  subst, ℕ, zero, suc, ◌+◌, ◌*◌, ◌≤◌, ◌<◌, ◌≡◌, refl, sym, ap, ◌∙◌, ltb, ltb→le, Bool-cases,
  Option-cases, inl, inr, List, [], ◌∷◌, ◌++◌, length, none, some, bind, Returns, Returns-mono,
  Keeps, kept, Keeps-bind, Keeps-mono, both, arith,
}
use openslp.Index.{IndexTreeNode, null, node, tree_depth, find_in_value_set, remove_from_value_set}
use openslp.Index.Compare.{order}
use openslp.Index.Order.{Ordering-cases}
use openslp.Index.Remove.{
  extract_leftmost, extract_rightmost, replace_by_rightmost, replace_by_leftmost, replace_by_right,
  replace_root, keep_root, index_tree_delete,
}
use openslp.Index.Entries.{
  Entry, entries, IsSorted, IsSorted-split, Before-trans, Before-eq, After-trans, without,
  with_values, remove_entry, remove-Before, remove-After, remove-eq, remove-gt,
  remove_entry-IsSorted,
}
use openslp.Index.Rotations.{rebalance-entries}
use openslp.Index.Bounded.{Bounded, Fits, height}
use openslp.Index.Extract.{extract_leftmost-entries, extract_rightmost-entries}
use openslp.Index.Stages.{delete-left, delete-right, delete-missing, delete-here}
use openslp.Index.Depths.{delete-Bounded}

without-none : (v : List ℕ) (p : ℕ) → find_in_value_set v p ≡ none → without p v ≡ v
unfolding find_in_value_set without
without-none [] p h = refl
without-none (x ∷ v) p h = elim (Option-cases (find_in_value_set v p)) [
  | inl e ↦ ground (arith, h, e, without-none v p e)
  | inr (i, e) ↦ ground (arith, h, e)
]

without-some :
    (v : List ℕ) (p i : ℕ)
    → find_in_value_set v p ≡ some i
    → remove_from_value_set v i ≡ without p v
unfolding find_in_value_set without remove_from_value_set
without-some [] p i h = absurd (cc)
without-some (x ∷ v) p zero h = elim (Option-cases (find_in_value_set v p)) [
  | inl e ↦ ground (arith, h, e)
  | inr (j, e) ↦ ground (arith, h, e)
]
without-some (x ∷ v) p (suc i) h = elim (Option-cases (find_in_value_set v p)) [
  | inl e ↦ ground (arith, h, e)
  | inr (j, e) ↦ ground (arith, h, e, without-some v p j e)
]

-- The two replacements of a root.
by_rightmost-entries :
    (l : IndexTreeNode) (r : IndexTreeNode) (rd : ℕ)
    → Keeps
        (λ u. entries u ≡ entries l ++ entries r)
        (bind (extract_rightmost l) (replace_by_rightmost r rd))
unfolding replace_by_rightmost
by_rightmost-entries l r rd = Keeps-bind (extract_rightmost-entries l) (λ e h.
    Keeps-mono (rebalance-entries (node e.rest (tree_depth e.rest) e.values r rd e.value_str))
      (λ u k.
        k
        ∙ sym (append_assoc (entries e.rest) ((e.value_str, e.values) ∷ []) (entries r))
        ∙ ap (λ x. x ++ entries r) (sym h)))

by_leftmost-entries :
    (l : IndexTreeNode) (ld : ℕ) (r : IndexTreeNode)
    → Keeps
        (λ u. entries u ≡ entries l ++ entries r)
        (bind (extract_leftmost r) (replace_by_leftmost l ld))
unfolding replace_by_leftmost
by_leftmost-entries l ld r = Keeps-bind (extract_leftmost-entries r) (λ e h.
    Keeps-mono (rebalance-entries (node l ld e.values e.rest (tree_depth e.rest) e.value_str))
      (λ u k. k ∙ ap (λ x. entries l ++ x) (sym h)))

replace_by_right-entries :
    (n : ℕ) (l : IndexTreeNode) (ld : ℕ) (r : IndexTreeNode) (rd : ℕ)
    → Fits n l ld
    → Fits n r rd
    → ld ≤ rd
    → Keeps (λ u. entries u ≡ entries l ++ entries r) (replace_by_right l ld r)
unfolding replace_by_right
replace_by_right-entries n null ld null rd fl fr le = kept refl
replace_by_right-entries n (node l2 ld2 v2 r2 rd2 s2) ld null rd fl fr le =
    absurd (omega (arith, fl.0, fr))
replace_by_right-entries n l ld (node l2 ld2 v2 r2 rd2 s2) rd fl fr le =
    by_leftmost-entries l ld (node l2 ld2 v2 r2 rd2 s2)

keep_root-entries :
    (n : ℕ) (l : IndexTreeNode) (ld : ℕ) (v : List ℕ) (r : IndexTreeNode) (rd : ℕ) (s : List ℕ)
    → Fits n l ld
    → Fits n r rd
    → Keeps (λ u. entries u ≡ entries l ++ with_values s v (entries r)) (keep_root l ld v r rd s)
unfolding keep_root replace_root
keep_root-entries n l ld (x ∷ v) r rd s fl fr = kept refl
keep_root-entries n l ld [] r rd s fl fr = elim (Bool-cases (ltb rd ld)) [
  | inl e ↦ rw e (by_rightmost-entries l r rd)
  | inr e ↦ rw e (replace_by_right-entries n l ld r rd fl fr (ltb→le rd ld e))
]

pub with_values-full :
    (s v : List ℕ) (es : List Entry) → 0 < length v → with_values s v es ≡ (s, v) ∷ es
with_values-full s [] es h = absurd (omega arith)
with_values-full s (x ∷ v) es h = refl

-- At the string's own node.
delete-at :
    (n : ℕ) (l : IndexTreeNode) (ld : ℕ) (v : List ℕ) (r : IndexTreeNode) (rd : ℕ) (s q : List ℕ)
    (p : ℕ)
    → order q s ≡ eq
    → 0 < length v
    → Fits n l ld
    → Fits n r rd
    → Keeps
        (λ u. entries u ≡ entries l ++ with_values s (without p v) (entries r))
        (index_tree_delete (node l ld v r rd s) q p)
delete-at n l ld v r rd s q p e full fl fr = elim (Option-cases (find_in_value_set v p)) [
  | inl f ↦
      rw
        (
          delete-missing l ld v r rd s q p e f,
          without-none v p f,
          with_values-full s v (entries r) full,
        )
        (kept refl)
  | inr (i, f) ↦
      rw (delete-here l ld v r rd s q p i e f, sym (without-some v p i f))
        (keep_root-entries n l ld (remove_from_value_set v i) r rd s fl fr)
]

delete-entries :
    (n : ℕ) (t : IndexTreeNode) (q : List ℕ) (p : ℕ)
    → IsSorted (entries t)
    → Bounded n t
    → Keeps (λ u. entries u ≡ remove_entry q p (entries t)) (index_tree_delete t q p)
delete-entries n null q p h b = unfold index_tree_delete remove_entry in kept refl
delete-entries n (node l ld v r rd s) q p h (fl, fr, bl, br) =
    let (hl, before, after, full, hr) = IsSorted-split (entries l) (s, v) (entries r) h in
    elim (Ordering-cases (order q s)) [
      | inl e ↦
          rw
            (
              delete-left l ld v r rd s q p e,
              remove-After q p (entries l) ((s, v) ∷ entries r)
                  (e, After-trans q s (entries r) e after),
            )
            (Keeps-bind (delete-entries n l q p hl bl) (λ t k.
              Keeps-mono (rebalance-entries (node t (tree_depth t) v r rd s))
                (λ u a. a ∙ ap (λ x. x ++ ((s, v) ∷ entries r)) k)))
      | inr (inl e) ↦
          rw
            (
              remove-Before q p (entries l) ((s, v) ∷ entries r)
                  (Before-eq q s (entries l) e before),
              remove-eq q p s v (entries r) e,
            )
            (delete-at n l ld v r rd s q p e full fl fr)
      | inr (inr e) ↦
          rw
            (
              delete-right l ld v r rd s q p e,
              remove-Before q p (entries l) ((s, v) ∷ entries r)
                  (Before-trans q s (entries l) e before),
              remove-gt q p s v (entries r) e,
            )
            (Keeps-bind (delete-entries n r q p hr br) (λ t k.
              Keeps-mono (rebalance-entries (node l ld v t (tree_depth t) s))
                (λ u a. a ∙ ap (λ x. entries l ++ ((s, v) ∷ x)) k)))
    ]

-- index_tree_delete returns a tree whose entries are those of the old one without the first such location under the
-- string, and without the string if that was its last location. They are sorted again. This needs what
-- add_to_index needs.
pub index_tree_delete-Refines :
    (n : ℕ) (t : IndexTreeNode) (q : List ℕ) (p : ℕ)
    → IsSorted (entries t)
    → Bounded n t
    → n + 3 * height t + 3 < 2147483648
    → Returns
        (λ u.
          Bounded (n + 3 * height t + 3) u
          × (entries u ≡ remove_entry q p (entries t))
          × IsSorted (entries u))
        (index_tree_delete t q p)
index_tree_delete-Refines n t q p h b small =
    Returns-mono
      (both (delete-Bounded n (n + 3 * height t + 3) t q p b (omega arith) small)
        (delete-entries n t q p h b))
      (λ u (bu, e). (bu, e, subst IsSorted (sym e) (remove_entry-IsSorted q p (entries t) h)))
