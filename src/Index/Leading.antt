-- ===== src/Index/Leading.antt =====
-- The searches that call a function, against the list of the entries.
use Prim.Native.Nat.Ordering.{lt, eq, gt}
use mathlib.Core.List.{append_assoc, append-nil}
use openslp.Base.{
  ℕ, suc, ◌+◌, ◌≡◌, refl, sym, ap, ◌∙◌, inl, inr, Bool, true, false, ◌&&◌, ◌==◌, if◌then◌else◌,
  List, [], ◌∷◌, ◌++◌, length, length-append, arith,
}
use openslp.Index.{IndexTreeNode, null, node}
use openslp.Index.Compare.{order_leading, compare_string, compare_string_leading-order}
use openslp.Index.Order.{Ordering-cases, leading_below, leading_above, order_unflip}
use openslp.Index.Search.{find_in_index, value_set_call, find_and_call, find_leading_and_call}
use openslp.Index.Entries.{Entry, entries, After, Before, IsSorted, IsSorted-split}

-- `s` begins with `q`.
unfoldable pub begins : (q s : List ℕ) → Bool
begins [] s = true
begins (a ∷ q) [] = false
begins (a ∷ q) (b ∷ s) = (a == b) && begins q s

-- The locations of all strings that begin with `q`, in the order of the strings.
abbrev pub leading : (q : List ℕ) → List Entry → List ℕ
leading q [] = []
leading q ((s, v) ∷ es) = (if begins q s then v else []) ++ leading q es

begins-eq : (q s : List ℕ) → order_leading q s ≡ eq → begins q s ≡ true
unfolding order_leading begins
begins-eq [] s h = refl
begins-eq (a ∷ q) [] h = absurd (cc)
begins-eq (a ∷ q) (b ∷ s) h = ground (arith, begins-eq q s)

begins-lt : (q s : List ℕ) → order_leading q s ≡ lt → begins q s ≡ false
unfolding order_leading begins
begins-lt [] s h = absurd (cc)
begins-lt (a ∷ q) [] h = refl
begins-lt (a ∷ q) (b ∷ s) h = ground (arith, begins-lt q s)

begins-gt : (q s : List ℕ) → order_leading q s ≡ gt → begins q s ≡ false
unfolding order_leading begins
begins-gt [] s h = absurd (cc)
begins-gt (a ∷ q) [] h = refl
begins-gt (a ∷ q) (b ∷ s) h = ground (arith, begins-gt q s)

leading-append :
    (q : List ℕ) (xs ys : List Entry) → leading q (xs ++ ys) ≡ leading q xs ++ leading q ys
leading-append q [] ys = refl
leading-append q ((s, v) ∷ xs) ys =
    ap (λ x. (if begins q s then v else []) ++ x) (leading-append q xs ys)
    ∙ sym (append_assoc (if begins q s then v else []) (leading q xs) (leading q ys))

leading-After :
    (q s : List ℕ) (es : List Entry) → order_leading q s ≡ lt → After s es → leading q es ≡ []
leading-After q s [] h a = refl
leading-After q s ((t, v) ∷ es) h a =
    rw (begins-lt q t (leading_below q s t h a.0)) (leading-After q s es h a.1)

leading-Before :
    (q s : List ℕ) (es : List Entry) → order_leading q s ≡ gt → Before s es → leading q es ≡ []
leading-Before q s [] h a = refl
leading-Before q s ((t, v) ∷ es) h a =
    rw (begins-gt q t (leading_above q s t h (order_unflip s t a.0))) (leading-Before q s es h a.1)

module _ {S : Type 0} (callback : (p : ℕ) → S → S) where
  -- The state after the calls, in order.
  abbrev pub calls : List ℕ → S → S
  calls [] cookie = cookie
  calls (p ∷ rest) cookie = calls rest (callback p cookie)

  calls-append : (xs ys : List ℕ) (c : S) → calls (xs ++ ys) c ≡ calls ys (calls xs c)
  calls-append [] ys c = refl
  calls-append (x ∷ xs) ys c = calls-append xs ys (callback x c)

  value_set_call-calls : (v : List ℕ) (c : S) → value_set_call callback v c ≡ (length v, calls v c)
  unfolding value_set_call
  value_set_call-calls [] c = refl
  value_set_call-calls (p ∷ v) c =
      rw (value_set_call-calls v (callback p c))
        (let e : 1 + length v ≡ suc (length v) = omega arith in rw e refl)

  -- find_and_call calls the function for each location that find_in_index finds, in their order, and returns their
  -- number.
  pub find_and_call-Finds :
      (t : IndexTreeNode) (q : List ℕ) (c : S)
      → find_and_call callback t q c ≡ (length (find_in_index t q), calls (find_in_index t q) c)
  unfolding find_and_call find_in_index
  find_and_call-Finds null q c = refl
  find_and_call-Finds (node l ld v r rd s) q c = elim (Ordering-cases (compare_string q s)) [
    | inl e ↦ rw (e, find_and_call, find_in_index) (find_and_call-Finds l q c)
    | inr (inl e) ↦ rw (e, find_and_call, find_in_index) (value_set_call-calls v c)
    | inr (inr e) ↦ rw (e, find_and_call, find_in_index) (find_and_call-Finds r q c)
  ]

  -- find_leading_and_call calls the function for each location of each string that begins with the given one, in the
  -- order of the strings, and returns their number, if the tree is sorted.
  pub find_leading_and_call-Finds :
      (t : IndexTreeNode) (q : List ℕ) (c : S)
      → IsSorted (entries t)
      → find_leading_and_call callback t q c
        ≡ (length (leading q (entries t)), calls (leading q (entries t)) c)
  unfolding find_leading_and_call
  find_leading_and_call-Finds null q c h = refl
  find_leading_and_call-Finds (node l ld v r rd s) q c h =
      let (hl, before, after, full, hr) = IsSorted-split (entries l) (s, v) (entries r) h in
      elim (Ordering-cases (order_leading q s)) [
        | inl e ↦
            rw
              (
                compare_string_leading-order q s ∙ e,
                find_leading_and_call,
                leading-append q (entries l) ((s, v) ∷ entries r),
                begins-lt q s e,
                leading-After q s (entries r) e after,
              )
              (let e : leading q (entries l) ++ [] ≡ leading q (entries l) =
                  append-nil (leading q (entries l)) in
                rw e (find_leading_and_call-Finds l q c hl))
        | inr (inl e) ↦
            rw
              (
                compare_string_leading-order q s ∙ e,
                find_leading_and_call,
                leading-append q (entries l) ((s, v) ∷ entries r),
                begins-eq q s e,
              )
              (let ll = leading q (entries l) in
                let lr = leading q (entries r) in
                let sizes : length ll + length v + length lr ≡ length (ll ++ (v ++ lr)) =
                  omega (arith, length-append ll (v ++ lr), length-append v lr) in
                rw
                  (
                    find_leading_and_call-Finds l q c hl,
                    value_set_call-calls v (calls ll c),
                    find_leading_and_call-Finds r q (calls v (calls ll c)) hr,
                    sizes,
                    calls-append ll (v ++ lr) c,
                    calls-append v lr (calls ll c),
                  )
                  refl)
        | inr (inr e) ↦
            rw
              (
                compare_string_leading-order q s ∙ e,
                find_leading_and_call,
                leading-append q (entries l) ((s, v) ∷ entries r),
                begins-gt q s e,
                leading-Before q s (entries l) e before,
              )
              (find_leading_and_call-Finds r q c hr)
      ]
