-- ===== src/Escape/RoundTrip.antt =====
-- SLPUnescape takes back what SLPEscape did.
use openslp.Base.{
  ℕ, ◌+◌, ◌-◌, ◌*◌, ◌/◌, ◌%◌, ◌^◌, ◌<◌, ◌≡◌, refl, sym, ap, ◌∙◌, Bool, true, false, ◌&&◌,
  Bool-cases, Option-cases, inl, inr, ◌==◌, if◌then◌else◌, some, List, [], ◌∷◌, ◌++◌, length,
  length-append, arith,
}
use openslp.Escape.{
  slp_ok, is_reserved, is_bad_tag, count_reserved, escape_text, escape, count_output, digit_value,
  write, unescape_text, unescape, hex_char,
}
use openslp.Escape.Sizes.{unescape-Fills}

digit_value-hex_char : (d : ℕ) → d < 16 → digit_value (hex_char d) ≡ some d
unfolding digit_value
digit_value-hex_char d h = ground (arith, h)

reserved_bound : (c : ℕ) → is_reserved c ≡ true → c < 128
unfolding is_reserved
reserved_bound c e = ground (arith, e)

-- Below 0x80, dividing by 15 gives the first digit.
first_digit : (c : ℕ) → c < 128 → c / 16 % 16 * 16 / 15 ≡ c / 16
first_digit c h = omega (arith, h)

not_bad_char : (d : ℕ) → d < 16 → is_bad_tag (hex_char d) ≡ false
unfolding is_bad_tag
not_bad_char d h = ground (arith, h)

plain_char : (c : ℕ) → is_reserved c ≡ false → (c == 0x5c) ≡ false
unfolding is_reserved
plain_char c e = ground (arith, e)

pub unescape_text-plain :
    (c : ℕ) (t : List ℕ) → (c == 0x5c) ≡ false → unescape_text (c ∷ t) ≡ write c (unescape_text t)
unfolding unescape_text
unescape_text-plain c [] e = rw e refl
unescape_text-plain c (a ∷ []) e = rw e refl
unescape_text-plain c (a ∷ b ∷ t) e = rw e refl

unescape_text-escape_text : (s : List ℕ) → unescape_text (escape_text s) ≡ (s, true)
unfolding escape_text unescape_text
unescape_text-escape_text [] = refl
unescape_text-escape_text (c ∷ s) = elim (Bool-cases (is_reserved c)) [
  | inl reserved ↦
      let bound = reserved_bound c reserved in
      let joined : c % 16 + c / 16 * 16 ≡ c = omega arith in
      rw
        (
          reserved,
          first_digit c bound,
          digit_value-hex_char (c / 16) (omega (arith, bound)),
          digit_value-hex_char (c % 16) (omega arith),
          unescape_text-escape_text s,
          joined,
        )
        refl
  | inr plain ↦ rw plain (
      unescape_text-plain c (escape_text s) (plain_char c plain)
      ∙ ap (write c) (unescape_text-escape_text s))
]

-- The first loop of SLPUnescape does not refuse the string.
abbrev Accepted : (is_tag : Bool) → List ℕ → Type 0
Accepted is_tag s = (size : ℕ) → (left : ℕ) × (count_output is_tag size s ≡ some left)

Accepted-nothing : (is_tag : Bool) → Accepted is_tag []
unfolding count_output
Accepted-nothing is_tag size = (size, refl)

Accepted-cons :
    (is_tag : Bool) (c : ℕ) (s : List ℕ)
    → (is_tag && is_bad_tag c) ≡ false
    → Accepted is_tag s
    → Accepted is_tag (c ∷ s)
unfolding count_output
Accepted-cons is_tag c s good rest size =
    rw good (rest (if c == 0x5c then (size + 2 ^ 64 - 2) % 2 ^ 64 else size))

backslash_good : is_bad_tag 0x5c ≡ false
unfolding is_bad_tag
backslash_good = refl

-- A backslash and two digits are no bad characters of a tag.
Accepted-escaped :
    (is_tag : Bool) (d0 d1 : ℕ) (s : List ℕ)
    → d0 < 16
    → d1 < 16
    → Accepted is_tag s
    → Accepted is_tag (0x5c ∷ hex_char d0 ∷ hex_char d1 ∷ s)
Accepted-escaped is_tag d0 d1 s h0 h1 rest =
    Accepted-cons is_tag 0x5c (hex_char d0 ∷ hex_char d1 ∷ s) (passes 0x5c backslash_good) (
      Accepted-cons is_tag (hex_char d0) (hex_char d1 ∷ s)
        (passes (hex_char d0) (not_bad_char d0 h0))
        (Accepted-cons is_tag (hex_char d1) s (passes (hex_char d1) (not_bad_char d1 h1)) rest))
  where
    passes : (c : ℕ) → is_bad_tag c ≡ false → (is_tag && is_bad_tag c) ≡ false
    passes c e = rw e (ground arith)

-- A tag that SLPEscape does not refuse, SLPUnescape does not refuse.
escape_text-Accepted :
    (is_tag : Bool) (amount total : ℕ) (s : List ℕ)
    → count_reserved is_tag amount s ≡ some total
    → Accepted is_tag (escape_text s)
unfolding count_reserved escape_text
escape_text-Accepted is_tag amount total [] e = Accepted-nothing is_tag
escape_text-Accepted is_tag amount total (c ∷ s) e = elim (Bool-cases (is_tag && is_bad_tag c)) [
  | inl bad ↦ let stopped = rw bad at e in ground (arith, stopped)
  | inr good ↦ elim (Bool-cases (is_reserved c)) [
    | inl reserved ↦
        let bound = reserved_bound c reserved in
        let rest = escape_text-Accepted is_tag (amount + 1) total s (rw (good, reserved) at e) in
        rw (reserved, first_digit c bound)
          (Accepted-escaped is_tag (c / 16) (c % 16) (escape_text s) (omega (arith, bound))
            (omega arith) rest)
    | inr plain ↦
        let rest = escape_text-Accepted is_tag amount total s (rw (good, plain) at e) in
        rw plain (Accepted-cons is_tag c (escape_text s) good rest)
  ]
]

-- The string without its NUL.
abbrev without_nul : List ℕ → List ℕ
without_nul [] = []
without_nul (x ∷ []) = []
without_nul (x ∷ y ∷ l) = x ∷ without_nul (y ∷ l)

without_nul-append : (l : List ℕ) → without_nul (l ++ (0 ∷ [])) ≡ l
without_nul-append [] = refl
without_nul-append (x ∷ []) = refl
without_nul-append (x ∷ y ∷ l) = ap (◌∷◌ x) (without_nul-append (y ∷ l))

-- A successful call of SLPEscape went through its first loop and wrote the escaped string.
escape-Succeeded :
    (memory : ℕ → Bool) (inbuf : List ℕ) (is_tag : Bool) (text : List ℕ) (size : ℕ)
    → escape memory (some inbuf) is_tag
      ≡ record { code = slp_ok; written = text ++ (0 ∷ []); allocated = size }
    → ((amount : ℕ) × (count_reserved is_tag 0 inbuf ≡ some amount)) × (text ≡ escape_text inbuf)
unfolding escape
escape-Succeeded memory inbuf is_tag text size e =
    elim (Option-cases (count_reserved is_tag 0 inbuf)) [
      | inl refused ↦
          let stopped = ap (λ call. call.code) (rw refused at e) in ground (arith, stopped)
      | inr (amount, counted) ↦ elim (Bool-cases (memory (length inbuf + amount * 2 + 1))) [
        | inl given ↦ (
          (amount, counted),
          sym (without_nul-append text)
              ∙ sym (ap (λ call. without_nul call.written) (rw (counted, given) at e))
              ∙ without_nul-append (escape_text inbuf),
        )
        | inr full ↦
            let stopped = ap (λ call. call.code) (rw (counted, full) at e) in
            ground (arith, stopped)
      ]
    ]

-- What SLPEscape made of a string, tag or not, SLPUnescape turns into that string again, into a buffer of
-- exactly the string's size with its NUL, if the escaped text is shorter than 2 ^ 63 bytes.
pub unescape-escape :
    (memory : ℕ → Bool) (inbuf : List ℕ) (is_tag : Bool) (text : List ℕ) (size : ℕ)
    → length text < 2 ^ 63
    → escape memory (some inbuf) is_tag
      ≡ record { code = slp_ok; written = text ++ (0 ∷ []); allocated = size }
    → unescape (some text) is_tag
      ≡ record { code = slp_ok; written = inbuf ++ (0 ∷ []); allocated = length inbuf + 1 }
unfolding unescape
unescape-escape memory inbuf is_tag text size bound e =
    let ((amount, reserved), same) = escape-Succeeded memory inbuf is_tag text size e in
    let (left, counted) =
      escape_text-Accepted is_tag 0 amount inbuf reserved (length (escape_text inbuf)) in
    let fills =
      rw (counted, unescape_text-escape_text inbuf) at
        (rw same at (unescape-Fills text is_tag bound)) in
    let sized : (left + 1) % 2 ^ 64 ≡ length inbuf + 1 =
      omega (arith, fills refl, length-append inbuf (0 ∷ [])) in
    rw (same, counted, unescape_text-escape_text inbuf, sized) refl
