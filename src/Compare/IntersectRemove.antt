-- ===== src/Compare/IntersectRemove.antt =====
-- SLPIntersectRemoveStringList of common/slp_compare.c. The second list is a buffer of `*list2len` bytes, of which
-- those from `list2end` on are left over; the search looks at all of them, as in the source.
use openslp.Base.{
  ℕ, suc, ◌+◌, ◌-◌, ◌&&◌, ltb, ◌==◌, if◌then◌else◌, List, ◌∷◌, length, get_or, take, drop,
}
use openslp.Compare.Text.{Copies, memmove}
use openslp.Compare.Items.{contains_string_list, seek_unescaped}

-- The second list and the number of common entries so far.
pub record Intersected : Type 0 where
  pub list2 : List ℕ
  pub list2end : ℕ
  pub result : ℕ

-- The removal of an item of `itemlen` bytes at the offset `dest`: the bytes behind it and its comma move down.
unfoldable pub remove_item : (dest itemlen : ℕ) → Intersected → Intersected
remove_item dest itemlen l =
    let past = dest + itemlen in
    let src = if ltb past l.list2end && (get_or l.list2 past 0 == b',') then past + 1 else past in
    record {
      list2 = memmove l.list2 dest src (l.list2end - src);
      list2end = dest + (l.list2end - src);
      result = l.result + 1;
    }

-- The loop on the characters left of the first list; `before` is the byte in front of them.
unfoldable pub intersect_remove_loop :
    (fuel : ℕ) (copies : Copies) (before : ℕ) (rest : List ℕ) → Intersected → Intersected
intersect_remove_loop (suc fuel) copies before (c ∷ rest) l =
    let n = seek_unescaped before (c ∷ rest) in
    let position = contains_string_list copies l.list2 (take n (c ∷ rest)) in
    intersect_remove_loop fuel copies b',' (drop (n + 1) (c ∷ rest))
      (if position == 0 then l else remove_item (position - 1) n l)
intersect_remove_loop fuel copies before rest l = l

-- SLPIntersectRemoveStringList; `front` is the byte in front of the first list, which the search for a comma reads.
unfoldable pub intersect_remove_string_list :
    (copies : Copies) (front : ℕ) (list1 list2 : List ℕ) → Intersected
intersect_remove_string_list copies front list1 list2 =
    intersect_remove_loop (length list1) copies front list1
      record { list2 = list2; list2end = length list2; result = 0 }
