-- ===== src/Index/Lookup.antt =====
-- find_in_index after add_to_index and after index_tree_delete.
use Prim.Native.Nat.Ordering.{lt, eq, gt}
use openslp.Base.{
  subst, ℕ, ◌+◌, ◌*◌, ◌<◌, ◌≡◌, ◌≢◌, refl, sym, ap, ◌∙◌, inl, inr, List, [], ◌∷◌, Returns,
  Returns-mono, arith,
}
use openslp.Index.{IndexTreeNode, null, node, add_to_index}
use openslp.Index.Compare.{order, compare_string-order}
use openslp.Index.Order.{Ordering-cases, order-eq, order_refl}
use openslp.Index.Remove.{index_tree_delete}
use openslp.Index.Search.{find_in_index}
use openslp.Index.Entries.{
  Entry, entries, After, IsSorted, IsSorted-split, Before-trans, Before-eq, After-trans, without,
  with_values, add_entry, remove_entry, lookup, lookup-none, lookup-Before, lookup-After,
}
use openslp.Index.Bounded.{Bounded, height}
use openslp.Index.Insert.{enough, add_to_index-Refines}
use openslp.Index.Delete.{index_tree_delete-Refines}

lookup-lt :
    (q s v : List ℕ) (es : List Entry) → order q s ≡ lt → lookup q ((s, v) ∷ es) ≡ lookup q es
unfolding lookup
lookup-lt q s v es e = ground arith

lookup-eq : (q s v : List ℕ) (es : List Entry) → order q s ≡ eq → lookup q ((s, v) ∷ es) ≡ v
unfolding lookup
lookup-eq q s v es e = ground arith

lookup-gt :
    (q s v : List ℕ) (es : List Entry) → order q s ≡ gt → lookup q ((s, v) ∷ es) ≡ lookup q es
unfolding lookup
lookup-gt q s v es e = ground arith

-- The search in the tree is the one in the list.
pub find_in_index-lookup :
    (t : IndexTreeNode) (q : List ℕ)
    → IsSorted (entries t)
    → find_in_index t q ≡ lookup q (entries t)
unfolding find_in_index
find_in_index-lookup null q h = unfold lookup in refl
find_in_index-lookup (node l ld v r rd s) q h =
    let (hl, before, after, full, hr) = IsSorted-split (entries l) (s, v) (entries r) h in
    elim (Ordering-cases (order q s)) [
      | inl e ↦
          rw (compare_string-order q s ∙ e, find_in_index)
            (find_in_index-lookup l q hl
              ∙ sym (
                  lookup-After q (entries l) ((s, v) ∷ entries r)
                    (e, After-trans q s (entries r) e after)))
      | inr (inl e) ↦
          rw (compare_string-order q s ∙ e, find_in_index)
            (sym (
              lookup-Before q (entries l) ((s, v) ∷ entries r) (Before-eq q s (entries l) e before)
              ∙ lookup-eq q s v (entries r) e))
      | inr (inr e) ↦
          rw (compare_string-order q s ∙ e, find_in_index)
            (find_in_index-lookup r q hr
              ∙ sym (
                  lookup-Before q (entries l) ((s, v) ∷ entries r)
                    (Before-trans q s (entries l) e before)
                  ∙ lookup-gt q s v (entries r) e))
    ]

lookup-add-same :
    (q : List ℕ) (p : ℕ) (es : List Entry)
    → IsSorted es
    → lookup q (add_entry q p es) ≡ p ∷ lookup q es
unfolding add_entry
lookup-add-same q p [] h = unfold lookup in ground (arith, order_refl q)
lookup-add-same q p ((s, v) ∷ es) h = elim (Ordering-cases (order q s)) [
  | inl e ↦
      rw (e, add_entry)
        (lookup-eq q q (p ∷ []) ((s, v) ∷ es) (order_refl q)
          ∙ ap (λ x. p ∷ x) (sym (lookup-none q ((s, v) ∷ es) (e, After-trans q s es e h.0))))
  | inr (inl e) ↦
      rw (e, add_entry) (lookup-eq q s (p ∷ v) es e ∙ ap (λ x. p ∷ x) (sym (lookup-eq q s v es e)))
  | inr (inr e) ↦
      rw (e, add_entry)
        (lookup-gt q s v (add_entry q p es) e
          ∙ lookup-add-same q p es h.2
          ∙ ap (λ x. p ∷ x) (sym (lookup-gt q s v es e)))
]

lookup-add-other :
    (k q : List ℕ) (p : ℕ) (es : List Entry) → k ≢ q → lookup k (add_entry q p es) ≡ lookup k es
unfolding add_entry lookup
lookup-add-other k q p [] h = ground (arith, h, order-eq k q)
lookup-add-other k q p ((s, v) ∷ es) h =
    ground (arith, h, order-eq k q, order-eq k s, order-eq q s, lookup-add-other k q p es h)

lookup-with :
    (k s v : List ℕ) (es : List Entry) → k ≢ s → lookup k (with_values s v es) ≡ lookup k es
unfolding lookup
lookup-with k s [] es h = refl
lookup-with k s (x ∷ v) es h = ground (arith, h, order-eq k s)

lookup-with-same :
    (q s v : List ℕ) (es : List Entry)
    → order q s ≡ eq
    → After q es
    → lookup q (with_values s v es) ≡ v
lookup-with-same q s [] es e a = lookup-none q es a
lookup-with-same q s (x ∷ v) es e a = lookup-eq q s (x ∷ v) es e

lookup-remove-same :
    (q : List ℕ) (p : ℕ) (es : List Entry)
    → IsSorted es
    → lookup q (remove_entry q p es) ≡ without p (lookup q es)
unfolding remove_entry
lookup-remove-same q p [] h = unfold lookup without in refl
lookup-remove-same q p ((s, v) ∷ es) h = elim (Ordering-cases (order q s)) [
  | inl e ↦
      rw (e, remove_entry)
        (lookup-lt q s v (remove_entry q p es) e
          ∙ lookup-remove-same q p es h.2
          ∙ ap (without p) (sym (lookup-lt q s v es e)))
  | inr (inl e) ↦
      rw (e, remove_entry)
        (lookup-with-same q s (without p v) es e
            (subst (λ x. After x es) (sym (order-eq q s e)) h.0)
          ∙ ap (without p) (sym (lookup-eq q s v es e)))
  | inr (inr e) ↦
      rw (e, remove_entry)
        (lookup-gt q s v (remove_entry q p es) e
          ∙ lookup-remove-same q p es h.2
          ∙ ap (without p) (sym (lookup-gt q s v es e)))
]

lookup-remove-other :
    (k q : List ℕ) (p : ℕ) (es : List Entry) → k ≢ q → lookup k (remove_entry q p es) ≡ lookup k es
unfolding remove_entry lookup
lookup-remove-other k q p [] h = refl
lookup-remove-other k q p ((s, v) ∷ es) h = ground (
  arith,
  h,
  order-eq k s,
  order-eq q s,
  lookup-with k s (without p v) es,
  lookup-remove-other k q p es h,
)

-- After add_to_index, with memory, find_in_index finds the new location in front of those under its string, and
-- under every other string what it found before. This needs what the insertion needs.
pub add_to_index-Finds :
    (n : ℕ) (t : IndexTreeNode) (q : List ℕ) (p : ℕ)
    → IsSorted (entries t)
    → Bounded n t
    → n + 3 * height t + 3 < 2147483648
    → Returns
        (λ u.
          (find_in_index u q ≡ p ∷ find_in_index t q)
          × ((k : List ℕ) → k ≢ q → find_in_index u k ≡ find_in_index t k))
        (add_to_index enough t q p)
add_to_index-Finds n t q p h b small =
    Returns-mono (add_to_index-Refines n t q p h b small) (λ u (_, e, sorted). (
      find_in_index-lookup u q sorted
          ∙ ap (lookup q) e
          ∙ lookup-add-same q p (entries t) h
          ∙ ap (λ x. p ∷ x) (sym (find_in_index-lookup t q h)),
      λ k other.
          find_in_index-lookup u k sorted
          ∙ ap (lookup k) e
          ∙ lookup-add-other k q p (entries t) other
          ∙ sym (find_in_index-lookup t k h),
    ))

-- After index_tree_delete, find_in_index finds under the string what it found before without the first such
-- location, and under every other string what it found before. This needs what the deletion needs.
pub index_tree_delete-Finds :
    (n : ℕ) (t : IndexTreeNode) (q : List ℕ) (p : ℕ)
    → IsSorted (entries t)
    → Bounded n t
    → n + 3 * height t + 3 < 2147483648
    → Returns
        (λ u.
          (find_in_index u q ≡ without p (find_in_index t q))
          × ((k : List ℕ) → k ≢ q → find_in_index u k ≡ find_in_index t k))
        (index_tree_delete t q p)
index_tree_delete-Finds n t q p h b small =
    Returns-mono (index_tree_delete-Refines n t q p h b small) (λ u (_, e, sorted). (
      find_in_index-lookup u q sorted
          ∙ ap (lookup q) e
          ∙ lookup-remove-same q p (entries t) h
          ∙ ap (without p) (sym (find_in_index-lookup t q h)),
      λ k other.
          find_in_index-lookup u k sorted
          ∙ ap (lookup k) e
          ∙ lookup-remove-other k q p (entries t) other
          ∙ sym (find_in_index-lookup t k h),
    ))
