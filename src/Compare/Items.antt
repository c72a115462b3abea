-- ===== src/Compare/Items.antt =====
-- The string lists of common/slp_compare.c: SLPContainsStringList, SLPIntersectStringList,
-- SLPUnionStringList and SLPSubsetStringList. A pointer into a list is the characters left from there.
use openslp.Base.{
  ℕ, suc, ◌+◌, Bool, false, ◌&&◌, ◌||◌, not, ltb, ◌==◌, if◌then◌else◌, Option, some, none, List, [],
  ◌∷◌, ◌++◌, length, take, drop, ℤ, pos, negsuc,
}
use openslp.Compare.Text.{Copies, compare_string}

-- `result == 0`.
abbrev pub is_zero : ℤ → Bool
is_zero (pos n) = n == 0
is_zero (negsuc n) = false

-- `while (itemend != listend && itemend[0] != ',') itemend++;`, as the characters passed.
unfoldable pub seek_comma : List ℕ → ℕ
seek_comma [] = 0
seek_comma (c ∷ rest) = if c == b',' then 0 else suc (seek_comma rest)

-- The loop of SLPContainsStringList, `offset` characters into the list.
unfoldable pub contains_loop :
    (fuel : ℕ) (copies : Copies) (offset : ℕ) → (rest string : List ℕ) → ℕ
contains_loop (suc fuel) copies offset (c ∷ rest) string =
    let n = seek_comma (c ∷ rest) in
    let later = contains_loop fuel copies (offset + n + 1) (drop (n + 1) (c ∷ rest)) string in
    if is_zero (compare_string copies (take n (c ∷ rest)) string) then 1 + offset else later
contains_loop fuel copies offset rest string = 0

-- SLPContainsStringList: each round passes a character at least.
unfoldable pub contains_string_list : (copies : Copies) → (list string : List ℕ) → ℕ
contains_string_list copies list string = contains_loop (length list) copies 0 list string

-- SLPIntersectStringList, its loop on the characters left of `list1`.
unfoldable pub intersect_loop :
    (fuel : ℕ) (copies : Copies) (result : ℕ) → (rest list2 : List ℕ) → ℕ
intersect_loop (suc fuel) copies result (c ∷ rest) list2 =
    let n = seek_comma (c ∷ rest) in
    let found = contains_string_list copies list2 (take n (c ∷ rest)) in
    intersect_loop fuel copies (if found == 0 then result else result + 1) (drop (n + 1) (c ∷ rest))
      list2
intersect_loop fuel copies result rest list2 = result

unfoldable pub intersect_string_list : (copies : Copies) → (list1 list2 : List ℕ) → ℕ
intersect_string_list copies list1 list2 = intersect_loop (length list1) copies 0 list1 list2

-- The commas of SLPSubsetStringList.
unfoldable pub count_commas : List ℕ → ℕ
count_commas [] = 0
count_commas (c ∷ s) = if c == b',' then suc (count_commas s) else count_commas s

unfoldable pub subset_string_list : (copies : Copies) → (list sublist : List ℕ) → ℕ
subset_string_list copies list sublist =
    if (length sublist == 0) || (length list == 0)
    then 0
    else if intersect_string_list copies list sublist == 1 + count_commas sublist
    then 1
    else 0

-- The seek of SLPUnionStringList, past the commas behind a backslash; `before` is the byte in front.
unfoldable pub seek_unescaped : (before : ℕ) → List ℕ → ℕ
seek_unescaped before [] = 0
seek_unescaped before (c ∷ rest) =
    if (c == b',') && not (before == 0x5c) then 0 else suc (seek_unescaped c rest)

-- What SLPUnionStringList leaves: the bytes written and its result, or the size that it asks for.
pub data Union : Type 0 where
  united : (unionlist : List ℕ) → Union
  too_small : (required : ℕ) → Union

-- `unionlist[copiedlen] = ','`, if something stands there, and the item.
unfoldable pub append_item : (copied item : List ℕ) → List ℕ
append_item copied item = if length copied == 0 then item else (copied ++ (b',' ∷ item))

-- The loop of SLPUnionStringList; `size` is `*unionlistlen`, `copied` what is in the buffer.
unfoldable pub union_loop :
    (fuel : ℕ) (copies : Copies) (size required : ℕ) (list1 copied : List ℕ) (before : ℕ)
    → List ℕ
    → Union
union_loop (suc fuel) copies size required list1 copied before (c ∷ rest) =
    let n = seek_unescaped before (c ∷ rest) in
    let item = take n (c ∷ rest) in
    let next = drop (n + 1) (c ∷ rest) in
    let skipped = union_loop fuel copies size required list1 copied b',' next in
    let added = union_loop fuel copies size required list1 (append_item copied item) b',' next in
    if not (contains_string_list copies list1 item == 0)
    then skipped
    else if ltb size (length copied + length item + 1)
    then too_small required
    else added
union_loop fuel copies size required list1 copied before rest = united copied

-- SLPUnionStringList with a buffer of `size` bytes (none: no buffer); `before` is the byte in front of
-- `list2`, which the source reads when `list2` starts with a comma.
unfoldable pub union_string_list :
    (copies : Copies) (before : ℕ) → (list1 list2 : List ℕ) → (size : Option ℕ) → Union
union_string_list copies before list1 list2 none = too_small (length list1 + length list2 + 1)
union_string_list copies before list1 list2 (some size) =
    let required = length list1 + length list2 + 1 in
    if (size == 0) || ltb size (length list1)
    then too_small required
    else union_loop (length list2) copies size required list1 list1 before list2
