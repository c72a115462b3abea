-- ===== src/Escape/Overflow.antt =====
-- Where SLPUnescape writes past its buffer: its size counts two characters for each backslash, whether or
-- not digits follow.
use openslp.Base.{
  ℕ, ◌+◌, ◌-◌, ◌%◌, ◌^◌, ◌≤◌, ◌<◌, ◌≡◌, refl, ap, ◌∙◌, false, Bool-cases, inl, inr, ◌==◌,
  if◌then◌else◌, some, List, [], ◌∷◌, ◌++◌, length, length-append, arith,
}
use openslp.Escape.{
  slp_parse_error, Call, count_output, digit_value, write, unescape_text, unescape,
}
use openslp.Escape.Sizes.{backslashes, count_output-backslashes}
use openslp.Escape.RoundTrip.{unescape_text-plain}

-- Two backslashes at the end.
abbrev pub twice : List ℕ
twice = 0x5c ∷ 0x5c ∷ []

unescape_text-twice : unescape_text twice ≡ ([], false)
unfolding unescape_text digit_value
unescape_text-twice = refl

-- What the two loops make of a string without a backslash and of the two behind it.
unescape_text-append : (s : List ℕ) → backslashes s ≡ 0 → unescape_text (s ++ twice) ≡ (s, false)
unescape_text-append [] e = unescape_text-twice
unescape_text-append (c ∷ s) e = elim (Bool-cases (c == 0x5c)) [
  | inl escape ↦ let many = rw escape at e in absurd (omega (arith, many))
  | inr plain ↦
      unescape_text-plain c (s ++ twice) plain
      ∙ ap (write c) (unescape_text-append s (rw plain at e))
]

backslashes-append : (s : List ℕ) → backslashes s ≡ 0 → backslashes (s ++ twice) ≡ 2
backslashes-append [] e = refl
backslashes-append (c ∷ s) e = ground (arith, e, backslashes-append s)

count_output_total : (size : ℕ) (s : List ℕ) → (left : ℕ) × (count_output false size s ≡ some left)
unfolding count_output
count_output_total size [] = (size, refl)
count_output_total size (c ∷ s) =
    count_output_total (if c == 0x5c then (size + 2 ^ 64 - 2) % 2 ^ 64 else size) s

-- The call writes one byte more than it has allocated, and returns SLP_PARSE_ERROR.
abbrev pub Overflows : Call → Type 0
Overflows call = (call.code ≡ slp_parse_error) × (length call.written ≡ call.allocated + 1)

-- On a string of at least two characters without a backslash, followed by two backslashes, SLPUnescape
-- writes one byte past the buffer that it has allocated before it returns SLP_PARSE_ERROR; the string is
-- shorter than 2 ^ 63 bytes.
pub unescape-Overflows :
    (s : List ℕ)
    → backslashes s ≡ 0
    → 2 ≤ length s
    → length s < 2 ^ 63
    → Overflows (unescape (some (s ++ twice)) false)
unfolding unescape
unescape-Overflows s plain two bound =
    let (left, counted) = count_output_total (length (s ++ twice)) (s ++ twice) in
    let sized = length-append s twice in
    let many = backslashes-append s plain in
    let total =
      count_output-backslashes false (length (s ++ twice)) left (s ++ twice) (omega (arith, sized))
        (omega (arith, sized, many)) counted in
    rw (counted, unescape_text-append s plain) (refl, omega (arith, total, many, sized))
