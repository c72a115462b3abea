-- ===== src/Compare/Text.antt =====
-- SLPUnescapeInPlace, SLPFoldWhiteSpace, the comparison and SLPNormalizeString of
-- common/slp_compare.c.
use openslp.Base.{
  ℕ, zero, suc, ◌+◌, ◌-◌, ◌*◌, ◌%◌, Bool, ◌&&◌, ◌||◌, not, ltb, ◌==◌, if◌then◌else◌, List, [], ◌∷◌,
  ◌++◌, length, get_or, take, drop, ℤ, pos, negsuc, sub_ℕ,
}
use openslp.Compare.Chars.{is_space, tolower, ishex, hex2bin}

-- An escape is a backslash and two hexadecimal digits. The writes never pass the reads, so the result
-- is the list of the characters written.
unfoldable pub unescape_in_place : List ℕ → List ℕ
unescape_in_place (c ∷ a ∷ b ∷ s) =
    let escaped = ((hex2bin a * 16 + hex2bin b) % 256) ∷ unescape_in_place s in
    let plain = c ∷ unescape_in_place (a ∷ b ∷ s) in
    if (c == 0x5c) && (not (a == 0) && (ishex a && ishex b)) then escaped else plain
unescape_in_place s = s

-- `while (p < ep && isspace(*p)) p++;`, on the characters left.
unfoldable pub scan_space : (left p : ℕ) → List ℕ → ℕ
scan_space zero p buf = p
scan_space (suc left) p buf =
    let next = scan_space left (p + 1) buf in if is_space (get_or buf p 0) then next else p

-- `memmove(dst, src, n)` inside a buffer.
unfoldable pub memmove : List ℕ → (dst src n : ℕ) → List ℕ
memmove buf dst src n = take dst buf ++ (take n (drop src buf) ++ drop (dst + n) buf)

-- The loop of SLPFoldWhiteSpace, on its index `p`, the length and the buffer of `ep` bytes. As in the
-- source, `p` stays where the scan stopped, behind the text that `memmove` brought down, and `ep` stays.
unfoldable pub fold_loop : (fuel ep p len : ℕ) → List ℕ → ℕ × List ℕ
fold_loop zero ep p len buf = (len, buf)
fold_loop (suc fuel) ep p len buf =
    let ws2p = p + 1 in
    let stop = scan_space (ep - ws2p) ws2p buf in
    let folded =
      fold_loop fuel ep (stop + 1) (len - (stop - ws2p)) (memmove buf ws2p stop (ep - stop)) in
    let skipped = fold_loop fuel ep (p + 1) len buf in
    if ltb p ep then (if is_space (get_or buf p 0) then folded else skipped) else (len, buf)

-- SLPFoldWhiteSpace: `p` grows in each round, so `ep` rounds are enough.
unfoldable pub fold_white_space : List ℕ → List ℕ
fold_white_space s = let (len, buf) = fold_loop (length s) (length s) 0 (length s) s in take len buf

-- The test of the loop of slp_strncasecmp.
abbrev pub same_letter : (a b : ℕ) → Bool
same_letter a b = not (a == 0) && ((a == b) || (tolower a == tolower b))

-- slp_strncasecmp once its length has wrapped around below 0, which no string reaches; a NUL stands behind both.
unfoldable pub strncasecmp_wrapped : (s1 s2 : List ℕ) → ℤ
strncasecmp_wrapped [] [] = pos 0
strncasecmp_wrapped [] (b ∷ s2) = sub_ℕ 0 b
strncasecmp_wrapped (a ∷ s1) [] = pos a
strncasecmp_wrapped (a ∷ s1) (b ∷ s2) =
    let rest = strncasecmp_wrapped s1 s2 in if same_letter a b then rest else sub_ℕ a b

-- slp_strncasecmp, for a length that both strings have. At length 0 it answers 0 where the first characters differ
-- or a string ends, behind which a NUL stands, and else goes on without a bound.
unfoldable pub strncasecmp : (s1 s2 : List ℕ) (len : ℕ) → ℤ
strncasecmp (a ∷ s1) (b ∷ s2) (suc len) =
    let rest = strncasecmp s1 s2 len in
    if same_letter a b then (if len == 0 then pos 0 else rest) else sub_ℕ a b
strncasecmp (a ∷ s1) (b ∷ s2) zero = if same_letter a b then strncasecmp_wrapped s1 s2 else pos 0
strncasecmp s1 s2 len = pos 0

-- `while (len && isspace(*str)) str++, len--;`
unfoldable pub trim_front : List ℕ → List ℕ
trim_front [] = []
trim_front (c ∷ s) = if is_space c then trim_front s else c ∷ s

-- `while (len && isspace(str[len - 1])) len--;`
unfoldable pub trimmed_len : (len : ℕ) → List ℕ → ℕ
trimmed_len zero s = zero
trimmed_len (suc n) s = if is_space (get_or s n 0) then trimmed_len n s else suc n

unfoldable pub trim : List ℕ → List ℕ
trim s = let t = trim_front s in take (trimmed_len (length t) t) t

-- What is compared: the modified copies, or the trimmed strings where `xmemdup` failed.
unfoldable pub prepare : (copies : Bool) → List ℕ → List ℕ
prepare copies t = if copies then fold_white_space (unescape_in_place t) else t

-- The lengths first, then the characters.
unfoldable pub compare_prepared : (p1 p2 : List ℕ) → ℤ
compare_prepared p1 p2 =
    if length p1 == length p2
    then strncasecmp p1 p2 (length p1)
    else if ltb (length p2) (length p1)
    then negsuc 0
    else pos 1

-- The result for two trimmed strings, one of them empty at least.
unfoldable pub compare_empty : (t1 t2 : List ℕ) → ℤ
compare_empty t1 t2 =
    if length t1 == length t2
    then pos 0
    else if ltb (length t1) (length t2)
    then negsuc 0
    else pos 1

-- Whether the two calls of `xmemdup` for a comparison of the two strings succeed.
abbrev pub Copies : Type 0
Copies = List ℕ → List ℕ → Bool

-- SLPCompareString.
unfoldable pub compare_string : (copies : Copies) → (s1 s2 : List ℕ) → ℤ
compare_string copies s1 s2 =
    let t1 = trim s1 in
    let t2 = trim s2 in
    if (length t1 == 0) || (length t2 == 0)
    then compare_empty t1 t2
    else compare_prepared (prepare (copies s1 s2) t1) (prepare (copies s1 s2) t2)
