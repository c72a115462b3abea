-- ===== src/Compare/Unite.antt =====
-- SLPUnionStringList: what it writes, and the buffer that is enough for it.
use openslp.Base.{
  ℕ, zero, suc, ◌+◌, ◌≤◌, ◌<◌, ◌≡◌, refl, sym, ap, ◌∙◌, ◌||◌, true, false, not, ◌&&◌, Bool-cases,
  inl, inr, ltb, ◌==◌, if◌then◌else◌, some, List, [], ◌∷◌, length, length-append, take, drop, arith,
  le→ltb, ltb→le, ◌-◌,
}
use openslp.Compare.Contains.{onto_first, is_found_in}
use openslp.Compare.Fold.{length-take_le, length-drop}
use openslp.Compare.Text.{Copies}
use openslp.Compare.Items.{
  contains_string_list, seek_unescaped, Union, united, too_small, append_item, union_loop,
  union_string_list,
}

-- The items between the commas that do not stand behind a backslash.
abbrev pub unescaped_items : (before : ℕ) → List ℕ → List (List ℕ)
unescaped_items before [] = []
unescaped_items before (c ∷ s) =
    if (c == b',') && not (before == 0x5c)
    then [] ∷ unescaped_items b',' s
    else onto_first c (unescaped_items c s)

-- The items that the first list does not have, appended.
abbrev pub append_missing : (copies : Copies) → (list1 copied : List ℕ) → List (List ℕ) → List ℕ
append_missing copies list1 copied [] = copied
append_missing copies list1 copied (item ∷ rest) =
    append_missing copies list1
      (if is_found_in copies list1 item then copied else append_item copied item) rest

append_missing-missing :
    (copies : Copies) (list1 copied item : List ℕ) (rest : List (List ℕ))
    → (contains_string_list copies list1 item == 0) ≡ true
    → append_missing copies list1 copied (item ∷ rest)
      ≡ append_missing copies list1 (append_item copied item) rest
append_missing-missing copies list1 copied item rest e = rw e refl

append_missing-found :
    (copies : Copies) (list1 copied item : List ℕ) (rest : List (List ℕ))
    → (contains_string_list copies list1 item == 0) ≡ false
    → append_missing copies list1 copied (item ∷ rest) ≡ append_missing copies list1 copied rest
append_missing-found copies list1 copied item rest e = rw e refl

seek_unescaped_bound : (before : ℕ) (s : List ℕ) → seek_unescaped before s ≤ length s
unfolding seek_unescaped
seek_unescaped_bound before [] = omega arith
seek_unescaped_bound before (c ∷ s) = ground (arith, seek_unescaped_bound c s)

unescaped_items-seek :
    (before c : ℕ) (s : List ℕ)
    → unescaped_items before (c ∷ s)
      ≡ take (seek_unescaped before (c ∷ s)) (c ∷ s)
        ∷ unescaped_items b',' (drop (seek_unescaped before (c ∷ s) + 1) (c ∷ s))
unfolding seek_unescaped
unescaped_items-seek before c [] = elim (Bool-cases ((c == b',') && not (before == 0x5c))) [
  | inl e ↦ rw e refl
  | inr e ↦ rw e refl
]
unescaped_items-seek before c (d ∷ s) = elim (Bool-cases ((c == b',') && not (before == 0x5c))) [
  | inl e ↦ rw e refl
  | inr e ↦
      let next : suc (seek_unescaped c (d ∷ s)) + 1 ≡ suc (seek_unescaped c (d ∷ s) + 1) =
        omega arith in
      rw (e, unescaped_items-seek c d s, next) refl
]

length-append_item :
    (copied item : List ℕ) → length (append_item copied item) ≤ length copied + 1 + length item
unfolding append_item
length-append_item copied item = ground (arith, length-append copied (b',' ∷ item))

-- With room for what is left, the loop appends every missing item.
union_loop-Appends :
    (fuel : ℕ) (copies : Copies) (size required : ℕ) (list1 copied : List ℕ) (before : ℕ)
    (rest : List ℕ)
    → length rest ≤ fuel
    → (0 < length rest → length copied + length rest + 1 ≤ size)
    → union_loop fuel copies size required list1 copied before rest
      ≡ united (append_missing copies list1 copied (unescaped_items before rest))
unfolding union_loop
union_loop-Appends zero copies size required list1 copied before [] h room = refl
union_loop-Appends (suc fuel) copies size required list1 copied before [] h room = refl
union_loop-Appends zero copies size required list1 copied before (c ∷ rest) h room =
    absurd (omega arith)
union_loop-Appends (suc fuel) copies size required list1 copied before (c ∷ rest) h room =
    let go = λ (now : List ℕ) (small : length now ≤ length copied + 1 + n).
      union_loop-Appends fuel copies size required list1 now b',' (drop (n + 1) (c ∷ rest))
        (omega (arith, h, left)) (λ more. omega (arith, more, left, small, room (omega arith))) in
    rw (unescaped_items-seek before c rest)
      (elim (Bool-cases (contains_string_list copies list1 item == 0)) [
        | inl missing ↦
            let fits =
              le→ltb size (length copied + length item + 1)
                (omega (arith, room (omega arith), bound, sized)) in
            rw (missing, fits)
              (go (append_item copied item) (omega (arith, length-append_item copied item, sized))
                ∙ ap united (sym (append_missing-missing copies list1 copied item others missing)))
        | inr found ↦ rw found (
            go copied (omega arith)
            ∙ ap united (sym (append_missing-found copies list1 copied item others found)))
      ])
  where
    n : ℕ
    n = seek_unescaped before (c ∷ rest)

    others : List (List ℕ)
    others = unescaped_items b',' (drop (n + 1) (c ∷ rest))

    item : List ℕ
    item = take n (c ∷ rest)

    bound : n ≤ length (c ∷ rest)
    bound = seek_unescaped_bound before (c ∷ rest)

    sized : length item ≡ n
    sized = length-take_le n (c ∷ rest) bound

    left : length (drop (n + 1) (c ∷ rest)) ≡ length (c ∷ rest) - (n + 1)
    left = length-drop (n + 1) (c ∷ rest)

-- What a union leaves fits into the buffer, and a refusal asks for the two lengths and 1.
abbrev pub Fits : (size required : ℕ) → Union → Type 0
Fits size required (united u) = length u ≤ size
Fits size required (too_small asked) = asked ≡ required

union_loop-Fits :
    (fuel : ℕ) (copies : Copies) (size required : ℕ) (list1 copied : List ℕ) (before : ℕ)
    (rest : List ℕ)
    → length copied ≤ size
    → Fits size required (union_loop fuel copies size required list1 copied before rest)
unfolding union_loop
union_loop-Fits zero copies size required list1 copied before rest h = h
union_loop-Fits (suc fuel) copies size required list1 copied before [] h = h
union_loop-Fits (suc fuel) copies size required list1 copied before (c ∷ rest) h =
    let n = seek_unescaped before (c ∷ rest) in
    let item = take n (c ∷ rest) in
    let next = drop (n + 1) (c ∷ rest) in
    elim (Bool-cases (contains_string_list copies list1 item == 0)) [
      | inl missing ↦ elim (Bool-cases (ltb size (length copied + length item + 1))) [
        | inl full ↦ rw (missing, full) refl
        | inr fits ↦
            rw (missing, fits)
              (union_loop-Fits fuel copies size required list1 (append_item copied item) b',' next (
                omega (
                  arith,
                  ltb→le size (length copied + length item + 1) fits,
                  length-append_item copied item,
                )))
      ]
      | inr found ↦ rw found (union_loop-Fits fuel copies size required list1 copied b',' next h)
    ]

-- SLPUnionStringList never leaves more in the buffer than the buffer's size, and where the buffer is
-- missing or too small, the size that it asks for is that of both lists and 1.
pub union_string_list-Fits :
    (copies : Copies) (before : ℕ) (list1 list2 : List ℕ) (size : ℕ)
    → Fits size
        (length list1 + length list2 + 1)
        (union_string_list copies before list1 list2 (some size))
unfolding union_string_list
union_string_list-Fits copies before list1 list2 size =
    elim (Bool-cases ((size == 0) || ltb size (length list1))) [
      | inl small ↦ rw small refl
      | inr large ↦ rw large (
          union_loop-Fits (length list2) copies size (length list1 + length list2 + 1) list1 list1
            before list2 (ground (arith, large)))
    ]

pub union_string_list-append_missing :
    (copies : Copies) (before : ℕ) (list1 list2 : List ℕ) (size : ℕ)
    → length list1 + length list2 + 1 ≤ size
    → union_string_list copies before list1 list2 (some size)
      ≡ united (append_missing copies list1 list1 (unescaped_items before list2))
unfolding union_string_list
union_string_list-append_missing copies before list1 list2 size room =
    let start : ((size == 0) || ltb size (length list1)) ≡ false = ground (arith, room) in
    rw start (
      union_loop-Appends (length list2) copies size (length list1 + length list2 + 1) list1 list1
        before list2 (omega arith) (λ _. omega (arith, room)))
