-- ===== src/Compare/Contains.antt =====
-- The list routines of common/slp_compare.c against lists of items.
use openslp.Base.{
  ℕ, zero, suc, ◌+◌, ◌≤◌, ◌≡◌, ◌↔◌, ◌<◌, ◌||◌, refl, sym, ap, Bool, false, not, Bool-cases, inl,
  inr, ◌==◌, if◌then◌else◌, List, [], ◌∷◌, length, take, drop, arith,
}
use openslp.Compare.Fold.{length-take_le, length-drop}
use openslp.Compare.Text.{Copies, compare_string}
use openslp.Compare.Items.{
  is_zero, seek_comma, contains_loop, contains_string_list, intersect_loop, intersect_string_list,
  count_commas, subset_string_list,
}

-- A character in front of a list of items goes to the first one.
abbrev pub onto_first : ℕ → List (List ℕ) → List (List ℕ)
onto_first c [] = (c ∷ []) ∷ []
onto_first c (item ∷ items) = (c ∷ item) ∷ items

-- The items between the commas. A comma at the end closes an item and opens none.
abbrev pub items : List ℕ → List (List ℕ)
items [] = []
items (c ∷ s) = if c == b',' then [] ∷ items s else onto_first c (items s)

-- The first item that compares equal, as 1 plus its offset; 0 without one.
abbrev pub find_item : (copies : Copies) (string : List ℕ) (offset : ℕ) → List (List ℕ) → ℕ
find_item copies string offset [] = 0
find_item copies string offset (item ∷ rest) =
    if is_zero (compare_string copies item string)
    then 1 + offset
    else find_item copies string (offset + length item + 1) rest

-- The items that a test accepts.
abbrev pub count_items : (List ℕ → Bool) → List (List ℕ) → ℕ
count_items test [] = 0
count_items test (item ∷ rest) =
    if test item then suc (count_items test rest) else count_items test rest

-- The seek passes no more than there is.
pub seek_comma_bound : (s : List ℕ) → seek_comma s ≤ length s
unfolding seek_comma
seek_comma_bound [] = omega arith
seek_comma_bound (c ∷ s) = ground (arith, seek_comma_bound s)

-- A list with a character in it has a first item, and the others follow its comma.
items-seek_comma :
    (c : ℕ) (s : List ℕ)
    → items (c ∷ s)
      ≡ take (seek_comma (c ∷ s)) (c ∷ s) ∷ items (drop (seek_comma (c ∷ s) + 1) (c ∷ s))
unfolding seek_comma
items-seek_comma c [] = elim (Bool-cases (c == b',')) [ inl e ↦ rw e refl | inr e ↦ rw e refl ]
items-seek_comma c (d ∷ s) = elim (Bool-cases (c == b',')) [
  | inl e ↦ rw e refl
  | inr e ↦
      let next : suc (seek_comma (d ∷ s)) + 1 ≡ suc (seek_comma (d ∷ s) + 1) = omega arith in
      rw (e, items-seek_comma d s, next) refl
]

contains_loop-Finds :
    (fuel : ℕ) (copies : Copies) (offset : ℕ) (rest string : List ℕ)
    → length rest ≤ fuel
    → contains_loop fuel copies offset rest string ≡ find_item copies string offset (items rest)
unfolding contains_loop
contains_loop-Finds zero copies offset [] string h = refl
contains_loop-Finds (suc fuel) copies offset [] string h = refl
contains_loop-Finds zero copies offset (c ∷ rest) string h = absurd (omega arith)
contains_loop-Finds (suc fuel) copies offset (c ∷ rest) string h =
    let n = seek_comma (c ∷ rest) in
    let bound = seek_comma_bound (c ∷ rest) in
    let later =
      contains_loop-Finds fuel copies (offset + n + 1) (drop (n + 1) (c ∷ rest)) string
        (omega (arith, h, length-drop (n + 1) (c ∷ rest))) in
    let split = ap (find_item copies string offset) (items-seek_comma c rest) in
    rw later (sym (rw (length-take_le n (c ∷ rest) bound) at split))

-- SLPContainsStringList returns 1 plus the offset of the first item of the list that SLPCompareString
-- finds equal to the string, and 0 if there is none; an empty item behind the last comma is not looked at.
pub contains_string_list-Finds :
    (copies : Copies) (list string : List ℕ)
    → contains_string_list copies list string ≡ find_item copies string 0 (items list)
unfolding contains_string_list
contains_string_list-Finds copies list string =
    contains_loop-Finds (length list) copies 0 list string (omega arith)

-- A test that the string list contains an item.
abbrev pub is_found_in : (copies : Copies) (list : List ℕ) → List ℕ → Bool
is_found_in copies list item = not (contains_string_list copies list item == 0)

intersect_loop-Counts :
    (fuel : ℕ) (copies : Copies) (result : ℕ) (rest list2 : List ℕ)
    → length rest ≤ fuel
    → intersect_loop fuel copies result rest list2
      ≡ result + count_items (is_found_in copies list2) (items rest)
unfolding intersect_loop
intersect_loop-Counts zero copies result [] list2 h = omega arith
intersect_loop-Counts (suc fuel) copies result [] list2 h = omega arith
intersect_loop-Counts zero copies result (c ∷ rest) list2 h = absurd (omega arith)
intersect_loop-Counts (suc fuel) copies result (c ∷ rest) list2 h =
    let n = seek_comma (c ∷ rest) in
    let found = contains_string_list copies list2 (take n (c ∷ rest)) in
    let split = ap (count_items (is_found_in copies list2)) (items-seek_comma c rest) in
    let later =
      intersect_loop-Counts fuel copies (if found == 0 then result else result + 1)
        (drop (n + 1) (c ∷ rest)) list2 (omega (arith, h, length-drop (n + 1) (c ∷ rest))) in
    ground (arith, split, later)

-- SLPIntersectStringList counts the items of the first list that SLPContainsStringList finds in the
-- second, an item that stands there twice two times.
pub intersect_string_list-Counts :
    (copies : Copies) (list1 list2 : List ℕ)
    → intersect_string_list copies list1 list2
      ≡ count_items (is_found_in copies list2) (items list1)
unfolding intersect_string_list
intersect_string_list-Counts copies list1 list2 =
    omega (arith, intersect_loop-Counts (length list1) copies 0 list1 list2 (omega arith))

-- The last character of the list is a comma.
abbrev pub ends_in_comma : List ℕ → Bool
ends_in_comma [] = false
ends_in_comma (c ∷ []) = c == b','
ends_in_comma (c ∷ d ∷ s) = ends_in_comma (d ∷ s)

length-onto_first : (c : ℕ) (l : List (List ℕ)) → 0 < length l → length (onto_first c l) ≡ length l
length-onto_first c [] h = absurd (omega arith)
length-onto_first c (item ∷ l) h = refl

-- There is an item more than commas.
length-items :
    (c : ℕ) (s : List ℕ)
    → ends_in_comma (c ∷ s) ≡ false
    → length (items (c ∷ s)) ≡ 1 + count_commas (c ∷ s)
unfolding count_commas
length-items c [] h = rw h refl
length-items c (d ∷ s) h =
    let rest = length-items d s h in
    elim (Bool-cases (c == b',')) [
      | inl e ↦ rw e (omega (arith, rest))
      | inr e ↦
          rw e (omega (arith, rest, length-onto_first c (items (d ∷ s)) (omega (arith, rest))))
    ]

-- SLPSubsetStringList answers 1 on a sub-list without a comma at its end exactly if neither list is empty and as many
-- items of the list are in the sub-list as the sub-list has items. An item that the list has twice counts two times.
pub subset_string_list-Counts :
    (copies : Copies) (list sublist : List ℕ)
    → ends_in_comma sublist ≡ false
    → (subset_string_list copies list sublist ≡ 1) ↔ (
        (0 < length list)
        × (0 < length sublist)
        × (count_items (is_found_in copies sublist) (items list) ≡ length (items sublist)))
unfolding subset_string_list
subset_string_list-Counts copies list [] whole =
    (λ h. absurd (omega (arith, h)), λ h. absurd (omega (arith, h.1)))
subset_string_list-Counts copies list (c ∷ s) whole =
    let sublist = c ∷ s in
    let sizes = length-items c s whole in
    let counted = intersect_string_list-Counts copies list sublist in
    elim (Bool-cases ((length sublist == 0) || (length list == 0))) [
      | inl empty ↦
          rw empty (λ h. absurd (omega (arith, h)), λ h. absurd (ground (arith, empty, h.0, h.1)))
      | inr full ↦
          elim (Bool-cases
            (intersect_string_list copies list sublist == 1 + count_commas sublist)) [
              | inl same ↦
                  rw (full, same)
                    (
                      λ _. (
                        ground (arith, full),
                        ground (arith, full),
                        ground (arith, same, counted, sizes),
                      ),
                      λ _. refl,
                    )
              | inr differ ↦
                  rw (full, differ)
                    (
                      λ h. absurd (omega (arith, h)),
                      λ h. absurd (ground (arith, differ, counted, sizes, h.2)),
                    )
            ]
    ]
