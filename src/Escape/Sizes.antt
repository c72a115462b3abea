-- ===== src/Escape/Sizes.antt =====
-- The buffers that SLPEscape and SLPUnescape allocate.
use openslp.Base.{
  ℕ, suc, ◌+◌, ◌-◌, ◌*◌, ◌%◌, ◌^◌, ◌≤◌, ◌<◌, ◌≡◌, refl, Bool, true, false, ◌&&◌, Bool-cases,
  Option-cases, inl, inr, ◌==◌, if◌then◌else◌, Option, none, some, List, [], ◌∷◌, ◌++◌, length,
  length-append, arith,
}
use openslp.Escape.{
  slp_ok, Call, is_reserved, is_bad_tag, count_reserved, escape_text, escape, count_output,
  digit_value, unescape_text, finish, unescape,
}

-- What was counted is what the second loop adds.
length-escape_text :
    (is_tag : Bool) (amount total : ℕ) (s : List ℕ)
    → count_reserved is_tag amount s ≡ some total
    → length (escape_text s) + 2 * amount ≡ length s + 2 * total
unfolding count_reserved escape_text
length-escape_text is_tag amount total [] e = ground (arith, e)
length-escape_text is_tag amount total (c ∷ s) e = elim (Bool-cases (is_tag && is_bad_tag c)) [
  | inl bad ↦ let stopped = rw bad at e in ground (arith, stopped)
  | inr good ↦ elim (Bool-cases (is_reserved c)) [
    | inl reserved ↦
        let counted = length-escape_text is_tag (amount + 1) total s (rw (good, reserved) at e) in
        rw reserved (omega (arith, counted))
    | inr plain ↦
        let counted = length-escape_text is_tag amount total s (rw (good, plain) at e) in
        rw plain (omega (arith, counted))
  ]
]

-- All of the buffer was written, and no more.
abbrev pub Fills : Call → Type 0
Fills call = length call.written ≡ call.allocated

-- SLPEscape writes all of the buffer that it has allocated and no more: the escaped string and its NUL, or
-- nothing where it returns before the allocation or without one.
pub escape-Fills :
    (memory : ℕ → Bool) (inbuf : Option (List ℕ)) (is_tag : Bool)
    → Fills (escape memory inbuf is_tag)
unfolding escape
escape-Fills memory none is_tag = refl
escape-Fills memory (some inbuf) is_tag = elim (Option-cases (count_reserved is_tag 0 inbuf)) [
  | inl refused ↦ rw refused refl
  | inr (amount, counted) ↦ elim (Bool-cases (memory (length inbuf + amount * 2 + 1))) [
    | inl given ↦ rw (counted, given) (sized amount counted)
    | inr full ↦ rw (counted, full) refl
  ]
]
  where
    sized :
        (amount : ℕ)
        → count_reserved is_tag 0 inbuf ≡ some amount
        → length (escape_text inbuf ++ (0 ∷ [])) ≡ length inbuf + amount * 2 + 1
    sized amount counted = omega (
      arith,
      length-append (escape_text inbuf) (0 ∷ []),
      length-escape_text is_tag 0 amount inbuf counted,
    )

-- A digit is no backslash.
pub digit_value-backslash : (c d : ℕ) → digit_value c ≡ some d → (c == 0x5c) ≡ false
unfolding digit_value
digit_value-backslash c d e = ground (arith, e)

abbrev pub backslashes : List ℕ → ℕ
backslashes [] = 0
backslashes (c ∷ s) = if c == 0x5c then suc (backslashes s) else backslashes s

-- A text that was unescaped to its end has lost two characters for each backslash.
pub length-unescape_text :
    (s : List ℕ)
    → (unescape_text s).1 ≡ true
    → length (unescape_text s).0 + 2 * backslashes s ≡ length s
unfolding unescape_text
length-unescape_text [] e = omega arith
length-unescape_text (c ∷ []) e = ground (arith, e)
length-unescape_text (c ∷ a ∷ []) e = elim (Bool-cases (c == 0x5c)) [
  | inl escape ↦ let stopped = rw escape at e in ground (arith, stopped)
  | inr plain ↦
      let sized = length-unescape_text (a ∷ []) (rw plain at e) in rw plain (omega (arith, sized))
]
length-unescape_text (c ∷ a ∷ b ∷ s) e = elim (Bool-cases (c == 0x5c)) [
  | inl escape ↦ elim (Option-cases (digit_value a)) [
    | inl bad ↦ let stopped = rw (escape, bad) at e in ground (arith, stopped)
    | inr (d0, first) ↦ elim (Option-cases (digit_value b)) [
      | inl bad ↦ let stopped = rw (escape, first, bad) at e in ground (arith, stopped)
      | inr (d1, second) ↦
          let sized = length-unescape_text s (rw (escape, first, second) at e) in
          rw
            (
              escape,
              first,
              second,
              digit_value-backslash a d0 first,
              digit_value-backslash b d1 second,
            )
            (omega (arith, sized))
    ]
  ]
  | inr plain ↦
      let sized = length-unescape_text (a ∷ b ∷ s) (rw plain at e) in
      rw plain (omega (arith, sized))
]

-- The first loop takes two from the size for each backslash, and does not wrap around as long as the size is
-- large enough.
pub count_output-backslashes :
    (is_tag : Bool) (size total : ℕ) (s : List ℕ)
    → size < 2 ^ 64
    → 2 * backslashes s ≤ size
    → count_output is_tag size s ≡ some total
    → total + 2 * backslashes s ≡ size
unfolding count_output
count_output-backslashes is_tag size total [] bound room e = ground (arith, e)
count_output-backslashes is_tag size total (c ∷ s) bound room e =
    elim (Bool-cases (is_tag && is_bad_tag c)) [
      | inl bad ↦ let stopped = rw bad at e in ground (arith, stopped)
      | inr good ↦ elim (Bool-cases (c == 0x5c)) [
        | inl escape ↦
            let less = rw escape at room in
            let less_two : (size + 2 ^ 64 - 2) % 2 ^ 64 ≡ size - 2 = omega (arith, less) in
            let counted =
              count_output-backslashes is_tag (size - 2) total s (omega arith) (omega (arith, less))
                (rw less_two at (rw (good, escape) at e)) in
            rw escape (omega (arith, counted, less))
        | inr plain ↦
            let counted =
              count_output-backslashes is_tag size total s bound (rw plain at room)
                (rw (good, plain) at e) in
            rw plain (omega (arith, counted))
      ]
    ]

finish-Fills :
    (size : ℕ) (run : List ℕ × Bool)
    → (run.1 ≡ true → length run.0 + 1 ≡ size)
    → (finish size run).code ≡ slp_ok
    → Fills (finish size run)
finish-Fills size (out, true) h = λ _. omega (arith, h refl, length-append out (0 ∷ []))
finish-Fills size (out, false) h = λ e. ground (arith, e)

-- Where SLPUnescape succeeds, the text with its NUL takes all of the buffer and no more; the string is
-- shorter than 2 ^ 63 bytes.
pub unescape-Fills :
    (inbuf : List ℕ) (is_tag : Bool)
    → length inbuf < 2 ^ 63
    → (unescape (some inbuf) is_tag).code ≡ slp_ok
    → Fills (unescape (some inbuf) is_tag)
unfolding unescape
unescape-Fills inbuf is_tag bound = elim (Option-cases (count_output is_tag (length inbuf) inbuf)) [
  | inl refused ↦ rw refused (λ _. refl)
  | inr (size, counted) ↦ elim (Bool-cases (unescape_text inbuf).1) [
    | inl ended ↦
        let sized = length-unescape_text inbuf ended in
        let total =
          count_output-backslashes is_tag (length inbuf) size inbuf (omega arith)
            (omega (arith, sized)) counted in
        rw counted (
          finish-Fills ((size + 1) % 2 ^ 64) (unescape_text inbuf)
            (λ _. omega (arith, sized, total)))
    | inr stopped ↦
        rw counted (
          finish-Fills ((size + 1) % 2 ^ 64) (unescape_text inbuf)
            (λ e. ground (arith, e, stopped)))
  ]
]
