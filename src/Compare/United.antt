-- ===== src/Compare/United.antt =====
-- What SLPUnionStringList adds to its first list.
use openslp.Base.{
  append_assoc, append_nil, ℕ, ◌+◌, ◌≤◌, ◌<◌, ◌≡◌, refl, sym, ap, ◌∙◌, false, Bool-cases, inl, inr,
  ◌==◌, if◌then◌else◌, some, List, [], ◌∷◌, ◌++◌, length, length-append, arith,
}
use openslp.Compare.Contains.{is_found_in}
use openslp.Compare.Items.{contains_string_list, united, append_item, union_string_list}
use openslp.Compare.Text.{Copies}
use openslp.Compare.Unite.{unescaped_items, append_missing, union_string_list-append_missing}

-- The items that SLPContainsStringList does not find in the list, in their order.
abbrev pub missing_items : (copies : Copies) (list1 : List ℕ) → List (List ℕ) → List (List ℕ)
missing_items copies list1 [] = []
missing_items copies list1 (item ∷ rest) =
    if is_found_in copies list1 item
    then missing_items copies list1 rest
    else item ∷ missing_items copies list1 rest

-- The items as a text, each behind a comma.
abbrev pub with_commas : List (List ℕ) → List ℕ
with_commas [] = []
with_commas (item ∷ rest) = b',' ∷ (item ++ with_commas rest)

append_item-text :
    (copied item : List ℕ) → 0 < length copied → append_item copied item ≡ copied ++ (b',' ∷ item)
unfolding append_item
append_item-text copied item h =
    let full : (length copied == 0) ≡ false = ground (arith, h) in rw full refl

append_missing-missing_items :
    (copies : Copies) (list1 copied : List ℕ) (l : List (List ℕ))
    → 0 < length copied
    → append_missing copies list1 copied l ≡ copied ++ with_commas (missing_items copies list1 l)
append_missing-missing_items copies list1 copied [] h = sym (append_nil copied)
append_missing-missing_items copies list1 copied (item ∷ l) h =
    elim (Bool-cases (contains_string_list copies list1 item == 0)) [
      | inr found ↦ rw found (append_missing-missing_items copies list1 copied l h)
      | inl missing ↦
          let text = append_item-text copied item h in
          let longer = length-append copied (b',' ∷ item) in
          rw (missing, text)
            (append_missing-missing_items copies list1 (copied ++ (b',' ∷ item)) l
                (omega (arith, longer))
              ∙ append_assoc copied (b',' ∷ item) (with_commas (missing_items copies list1 l)))
    ]

-- A buffer of the size that SLPUnionStringList asks for is enough: the result for a first list that is not empty is
-- that list, and behind it, each after a comma, the items of the second, also repeated ones, that
-- SLPContainsStringList does not find in the first, in their order.
pub union_string_list-Appends :
    (copies : Copies) (before : ℕ) (list1 list2 : List ℕ) (size : ℕ)
    → 0 < length list1
    → length list1 + length list2 + 1 ≤ size
    → union_string_list copies before list1 list2 (some size)
      ≡ united (list1 ++ with_commas (missing_items copies list1 (unescaped_items before list2)))
union_string_list-Appends copies before list1 list2 size some_item room =
    union_string_list-append_missing copies before list1 list2 size room
    ∙ ap united
        (append_missing-missing_items copies list1 list1 (unescaped_items before list2) some_item)
