-- ===== src/Index/RoundTrip.antt =====
-- index_tree_delete after add_to_index.
use openslp.Base.{
  ℕ, ◌+◌, ◌*◌, ◌<◌, ◌≡◌, ap, ◌∙◌, inl, inr, List, [], ◌∷◌, some, Returns, Returns-mono, Returns-at,
  arith,
}
use openslp.Index.{IndexTreeNode, add_to_index}
use openslp.Index.Compare.{order}
use openslp.Index.Order.{Ordering-cases, order_refl}
use openslp.Index.Remove.{index_tree_delete}
use openslp.Index.Entries.{
  Entry, entries, IsSorted, without, with_values, add_entry, remove_entry, remove-eq, remove-gt,
}
use openslp.Index.Bounded.{Bounded, height}
use openslp.Index.Insert.{enough, add_to_index-Refines}
use openslp.Index.Delete.{with_values-full, index_tree_delete-Refines}

without-first : (p : ℕ) (v : List ℕ) → without p (p ∷ v) ≡ v
unfolding without
without-first p v = ground arith

remove-add :
    (q : List ℕ) (p : ℕ) (es : List Entry) → IsSorted es → remove_entry q p (add_entry q p es) ≡ es
unfolding add_entry
remove-add q p [] h =
    remove-eq q p q (p ∷ []) [] (order_refl q) ∙ ap (λ v. with_values q v []) (without-first p [])
remove-add q p ((s, v) ∷ es) h = elim (Ordering-cases (order q s)) [
  | inl e ↦
      rw (e, add_entry)
        (remove-eq q p q (p ∷ []) ((s, v) ∷ es) (order_refl q)
          ∙ ap (λ w. with_values q w ((s, v) ∷ es)) (without-first p []))
  | inr (inl e) ↦
      rw (e, add_entry)
        (remove-eq q p s (p ∷ v) es e
          ∙ ap (λ w. with_values s w es) (without-first p v)
          ∙ with_values-full s v es h.1)
  | inr (inr e) ↦
      rw (e, add_entry)
        (remove-gt q p s v (add_entry q p es) e ∙ ap (λ l. (s, v) ∷ l) (remove-add q p es h.2))
]

-- index_tree_delete of the location that add_to_index, with memory, has just added returns a tree with the entries
-- from before, if these were sorted, the depths of empty subtrees 0, and the depths and the heights small.
pub index_tree_delete-add_to_index :
    (n : ℕ) (t u : IndexTreeNode) (q : List ℕ) (p : ℕ)
    → IsSorted (entries t)
    → Bounded n t
    → n + 3 * height t + 3 * height u + 6 < 2147483648
    → add_to_index enough t q p ≡ some u
    → Returns (λ w. entries w ≡ entries t) (index_tree_delete u q p)
index_tree_delete-add_to_index n t u q p h b small made =
    let (bounded, added, sorted) =
      Returns-at _ u made (add_to_index-Refines n t q p h b (omega arith)) in
    Returns-mono
      (index_tree_delete-Refines (n + 3 * height t + 3) u q p sorted bounded (omega arith))
      (λ w (bw, e, sw). e ∙ ap (remove_entry q p) added ∙ remove-add q p (entries t) h)
