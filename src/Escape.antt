-- ===== src/Escape.antt =====
-- SLPEscape and SLPUnescape of libslp/libslp_parse.c. A C string is the list of the bytes in front of its
-- NUL.
pub mod Sizes
pub mod RoundTrip
pub mod Overflow
use openslp.Base.{
  ℕ, zero, suc, ◌+◌, ◌-◌, ◌*◌, ◌/◌, ◌%◌, ◌^◌, Bool, true, false, ◌&&◌, ◌||◌, leb, ◌==◌,
  if◌then◌else◌, Option, none, some, List, [], ◌∷◌, ◌++◌, length,
}

-- The results of the two calls.
pub data Code : Type 0 where
  slp_ok : Code
  slp_parse_error : Code
  slp_parameter_bad : Code
  slp_memory_alloc_failed : Code

-- What a call leaves: its result, the bytes written to the new buffer, and the buffer's size.
pub record Call : Type 0 where
  pub code : Code
  pub written : List ℕ
  pub allocated : ℕ

-- A call that ends before the allocation.
abbrev pub early : Code → Call
early code = record { code = code; written = []; allocated = 0 }

-- ATTRIBUTE_RESERVE_STRING, and the control characters. A byte of 0x80 or more is not in the ranges,
-- whether `char` is signed or not.
unfoldable pub is_reserved : ℕ → Bool
is_reserved c =
    (c == b'(')
    || (c == b')')
    || (c == b',')
    || (c == 0x5c)
    || (c == b'!')
    || (c == b'<')
    || (c == b'=')
    || (c == b'>')
    || (c == b'~')
    || leb c 0x1f
    || (c == 0x7f)

-- ATTRIBUTE_BAD_TAG.
unfoldable pub is_bad_tag : ℕ → Bool
is_bad_tag c = (c == 13) || (c == 10) || (c == 9) || (c == b'_')

-- The first loop of SLPEscape; none is its return of SLP_PARSE_ERROR.
unfoldable pub count_reserved : (is_tag : Bool) (amount : ℕ) → List ℕ → Option ℕ
count_reserved is_tag amount [] = some amount
count_reserved is_tag amount (c ∷ s) =
    if is_tag && is_bad_tag c
    then none
    else count_reserved is_tag (if is_reserved c then amount + 1 else amount) s

abbrev pub hex_char : ℕ → ℕ
hex_char hex_digit = if leb hex_digit 9 then hex_digit + b'0' else hex_digit + b'A' - 0x0a

-- The second loop: a reserved character becomes a backslash and two digits, the first of them
-- `(c & 0xF0) / 0x0F`.
unfoldable pub escape_text : List ℕ → List ℕ
escape_text [] = []
escape_text (c ∷ s) =
    let rest = escape_text s in
    if is_reserved c
    then 0x5c ∷ hex_char (c / 16 % 16 * 16 / 15) ∷ hex_char (c % 16) ∷ rest
    else c ∷ rest

-- SLPEscape behind its first loop; `memory` says whether `xmalloc` gives a number of bytes.
abbrev pub escape_counted : (memory : ℕ → Bool) → List ℕ → Option ℕ → Call
escape_counted memory inbuf none = early slp_parse_error
escape_counted memory inbuf (some amount) =
    let size = length inbuf + amount * 2 + 1 in
    if memory size
    then record { code = slp_ok; written = escape_text inbuf ++ (0 ∷ []); allocated = size }
    else early slp_memory_alloc_failed

-- SLPEscape.
unfoldable pub escape : (memory : ℕ → Bool) → Option (List ℕ) → (is_tag : Bool) → Call
escape memory none is_tag = early slp_parameter_bad
escape memory (some inbuf) is_tag = escape_counted memory inbuf (count_reserved is_tag 0 inbuf)

-- The first loop of SLPUnescape, on `output_buffer_size`, a `size_t`.
unfoldable pub count_output : (is_tag : Bool) (size : ℕ) → List ℕ → Option ℕ
count_output is_tag size [] = some size
count_output is_tag size (c ∷ s) =
    if is_tag && is_bad_tag c
    then none
    else count_output is_tag (if c == 0x5c then (size + 2 ^ 64 - 2) % 2 ^ 64 else size) s

-- A digit of an escape; none is the return of SLP_PARSE_ERROR.
unfoldable pub digit_value : ℕ → Option ℕ
digit_value d =
    if leb b'A' d && leb d b'F'
    then some (d - b'A' + 0x0a)
    else if leb b'0' d && leb d b'9'
    then some (d - b'0')
    else none

-- The bytes written, and whether the end was reached.
abbrev pub write : ℕ → List ℕ × Bool → List ℕ × Bool
write c (out, ended) = (c ∷ out, ended)

abbrev pub write_escaped : (first second : Option ℕ) → List ℕ × Bool → List ℕ × Bool
write_escaped (some d0) (some d1) rest = write (d1 + d0 * 0x10) rest
write_escaped first second rest = ([], false)

-- The second loop of SLPUnescape. Behind the last character stands the NUL, which is no digit.
unfoldable pub unescape_text : List ℕ → List ℕ × Bool
unescape_text [] = ([], true)
unescape_text (c ∷ []) = if c == 0x5c then ([], false) else (c ∷ [], true)
unescape_text (c ∷ a ∷ []) =
    let rest = unescape_text (a ∷ []) in if c == 0x5c then ([], false) else write c rest
unescape_text (c ∷ a ∷ b ∷ s) =
    let behind = unescape_text s in
    let rest = unescape_text (a ∷ b ∷ s) in
    if c == 0x5c then write_escaped (digit_value a) (digit_value b) behind else write c rest

-- The end of SLPUnescape: the NUL, or the error with what was written so far.
abbrev pub finish : ℕ → List ℕ × Bool → Call
finish size (out, true) = record { code = slp_ok; written = out ++ (0 ∷ []); allocated = size }
finish size (out, false) = record { code = slp_parse_error; written = out; allocated = size }

-- SLPUnescape behind its first loop, where `xmalloc` succeeds: the source tests the address of the result's
-- variable in place of the result.
abbrev pub unescape_counted : List ℕ → Option ℕ → Call
unescape_counted inbuf none = early slp_parse_error
unescape_counted inbuf (some size) = finish ((size + 1) % 2 ^ 64) (unescape_text inbuf)

-- SLPUnescape.
unfoldable pub unescape : Option (List ℕ) → (is_tag : Bool) → Call
unescape none is_tag = early slp_parameter_bad
unescape (some inbuf) is_tag = unescape_counted inbuf (count_output is_tag (length inbuf) inbuf)
