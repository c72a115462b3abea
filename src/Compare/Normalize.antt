-- ===== src/Compare/Normalize.antt =====
-- SLPNormalizeString of common/slp_compare.c, from one buffer into another.
use openslp.Base.{
  ℕ, zero, suc, ◌+◌, ◌-◌, ◌*◌, ◌%◌, ◌≤◌, ◌<◌, ◌≡◌, Bool, true, ◌&&◌, ◌||◌, not, ltb, ◌==◌,
  Bool-cases, if◌then◌else◌, inl, inr, List, [], ◌∷◌, ◌++◌, length, length-append, get_or, drop,
  arith,
}
use openslp.Compare.Chars.{is_space, tolower, ishex, hex2bin}
use openslp.Compare.Text.{scan_space}

-- A round of the loop: the characters that it appends, the length left, and the characters left. As in the source,
-- an escape does not move `srcstr`, and is decoded from the backslash and the first digit.
pub record Round : Type 0 where
  pub appended : List ℕ
  pub len : ℕ
  pub srcstr : List ℕ

unfoldable pub white_round : (is_first trim : Bool) (len : ℕ) (srcstr : List ℕ) → Round
white_round is_first trim len srcstr =
    let passed = scan_space len 0 srcstr in
    record {
      appended = if not trim || (not is_first && ltb 0 (len - passed)) then b' ' ∷ [] else [];
      len = len - passed;
      srcstr = drop passed srcstr;
    }

unfoldable pub copy_round : (c len : ℕ) (srcstr : List ℕ) → Round
copy_round c len srcstr = record { appended = c ∷ []; len = len - 1; srcstr = drop 1 srcstr }

unfoldable pub escape_round : (len : ℕ) (srcstr : List ℕ) → Round
escape_round len srcstr =
    if ltb len 3
    then copy_round b'\\' len srcstr
    else if ishex (get_or srcstr 1 0) && ishex (get_or srcstr 2 0)
    then record {
      appended = (hex2bin (get_or srcstr 0 0) * 16 + hex2bin (get_or srcstr 1 0)) % 256 ∷ [];
      len = len - 3;
      srcstr = srcstr;
    }
    else copy_round b'\\' len srcstr

unfoldable pub normalize_round : (is_first trim : Bool) (len : ℕ) (srcstr : List ℕ) → Round
normalize_round is_first trim len srcstr =
    let c = get_or srcstr 0 0 in
    if is_space c
    then white_round is_first trim len srcstr
    else if c == b'\\'
    then escape_round len srcstr
    else copy_round (tolower c) len srcstr

-- The loop; `is_first` says that nothing has been appended.
unfoldable pub normalize_loop :
    (fuel : ℕ) (is_first trim : Bool) (len : ℕ) (srcstr : List ℕ) → List ℕ
normalize_loop zero is_first trim len srcstr = []
normalize_loop (suc fuel) is_first trim len srcstr =
    let r = normalize_round is_first trim len srcstr in
    let later = normalize_loop fuel (is_first && (length r.appended == 0)) trim r.len r.srcstr in
    if (len == 0) || (get_or srcstr 0 0 == 0) then [] else r.appended ++ later

-- Each round passes a character at least.
unfoldable pub normalize_string : (srcstr : List ℕ) (trim : Bool) → List ℕ
normalize_string srcstr trim = normalize_loop (length srcstr) true trim (length srcstr) srcstr

scan-bounds :
    (left p : ℕ) (buf : List ℕ) → (p ≤ scan_space left p buf) × (scan_space left p buf ≤ p + left)
unfolding scan_space
scan-bounds zero p buf = (omega arith, omega arith)
scan-bounds (suc left) p buf = ground (arith, scan-bounds left (p + 1) buf)

scan-moves :
    (len : ℕ) (buf : List ℕ) → is_space (get_or buf 0 0) ≡ true → 0 < len → 0 < scan_space len 0 buf
unfolding scan_space
scan-moves zero buf e h = absurd (omega arith)
scan-moves (suc len) buf e h = rw (e, scan_space) (omega (arith, (scan-bounds len (0 + 1) buf).0))

-- A round appends no more than it takes from the length, and takes something.
round-Shrinks :
    (is_first trim : Bool) (len : ℕ) (srcstr : List ℕ)
    → 0 < len
    → (normalize_round is_first trim len srcstr).len < len
      × (length (normalize_round is_first trim len srcstr).appended
            + (normalize_round is_first trim len srcstr).len
          ≤ len)
unfolding normalize_round white_round copy_round escape_round
round-Shrinks is_first trim len srcstr h =
    ground (arith, scan-bounds len 0 srcstr, scan-moves len srcstr)

loop-Fits :
    (fuel : ℕ) (is_first trim : Bool) (len : ℕ) (srcstr : List ℕ)
    → length (normalize_loop fuel is_first trim len srcstr) ≤ len
unfolding normalize_loop
loop-Fits zero is_first trim len srcstr = omega arith
loop-Fits (suc fuel) is_first trim len srcstr =
    elim (Bool-cases ((len == 0) || (get_or srcstr 0 0 == 0))) [
      | inl e ↦ rw e (omega arith)
      | inr e ↦
          let some_left : 0 < len = ground (arith, e) in
          let r = normalize_round is_first trim len srcstr in
          let first_after = is_first && (length r.appended == 0) in
          let rest = loop-Fits fuel first_after trim r.len r.srcstr in
          let room = (round-Shrinks is_first trim len srcstr some_left).1 in
          rw e (
            omega (
              arith,
              rest,
              room,
              length-append r.appended (normalize_loop fuel first_after trim r.len r.srcstr),
            ))
    ]

-- What SLPNormalizeString writes is no longer than the string, so the buffer that slpd/slpd_database.c allocates for
-- it is large enough.
pub normalize_string-Fits :
    (srcstr : List ℕ) (trim : Bool) → length (normalize_string srcstr trim) ≤ length srcstr
unfolding normalize_string
normalize_string-Fits srcstr trim = loop-Fits (length srcstr) true trim (length srcstr) srcstr
