-- ===== src/Compare/Decoded.antt =====
-- The unescaping and the folding of SLPCompareString against independent descriptions.
use openslp.Base.{
  take-drop, ℕ, zero, suc, ◌+◌, ◌-◌, ◌*◌, ◌%◌, ◌≤◌, ◌≡◌, refl, ap, Bool, true, false, ◌&&◌, not,
  leb, ltb, Bool-cases, inl, inr, ◌==◌, if◌then◌else◌, Option, none, some, List, [], ◌∷◌, length,
  get_or, take, drop, arith,
}
use openslp.Compare.Chars.{is_space, ishex, hex2bin}
use openslp.Compare.Text.{unescape_in_place, scan_space, memmove, fold_loop, fold_white_space}

-- The value of a hexadecimal digit.
abbrev pub hex_value : ℕ → Option ℕ
hex_value c =
    if leb b'0' c && leb c b'9'
    then some (c - 48)
    else if leb b'A' c && leb c b'F'
    then some (c - 55)
    else if leb b'a' c && leb c b'f'
    then some (c - 87)
    else none

-- The byte of two digits.
abbrev pub byte_of : Option ℕ → Option ℕ → Option ℕ
byte_of none low = none
byte_of (some high) none = none
byte_of (some high) (some low) = some (high * 16 + low)

-- The byte of a backslash and two digits.
abbrev pub escape_at : (c a b : ℕ) → Option ℕ
escape_at c a b = if c == 0x5c then byte_of (hex_value a) (hex_value b) else none

abbrev pub decode_one : Option ℕ → (plain behind : List ℕ) → List ℕ
decode_one none plain behind = plain
decode_one (some byte) plain behind = byte ∷ behind

-- The text with each backslash and two digits replaced by the byte that they stand for.
abbrev pub decoded : List ℕ → List ℕ
decoded (c ∷ a ∷ b ∷ s) =
    let plain = decoded (a ∷ b ∷ s) in
    let behind = decoded s in decode_one (escape_at c a b) (c ∷ plain) behind
decoded s = s

hex_value-hex2bin : (c : ℕ) → hex_value c ≡ (if ishex c then some (hex2bin c) else none)
unfolding ishex hex2bin
hex_value-hex2bin c = ground arith

hex2bin_bound : (c : ℕ) → ishex c ≡ true → hex2bin c ≤ 15
unfolding ishex hex2bin
hex2bin_bound c h = ground (arith, h)

ishex-pos : (c : ℕ) → ishex c ≡ true → (c == 0) ≡ false
unfolding ishex
ishex-pos c h = ground (arith, h)

byte_small : (a b : ℕ) → a ≤ 15 → b ≤ 15 → (a * 16 + b) % 256 ≡ a * 16 + b
byte_small a b h k = omega arith

and_false : (x : Bool) → (x && false) ≡ false
and_false false = refl
and_false true = refl

-- No two white-space characters stand side by side.
abbrev pub IsFolded : List ℕ → Type 0
IsFolded [] = Unit {0}
IsFolded (c ∷ []) = Unit {0}
IsFolded (c ∷ d ∷ s) = ((is_space c && is_space d) ≡ false) × IsFolded (d ∷ s)

get_or-IsFolded :
    (s : List ℕ) (p : ℕ)
    → IsFolded s
    → is_space (get_or s p 0) ≡ true
    → is_space (get_or s (suc p) 0) ≡ false
get_or-IsFolded [] p h e = refl
get_or-IsFolded (c ∷ []) zero h e = refl
get_or-IsFolded (c ∷ []) (suc p) h e = refl
get_or-IsFolded (c ∷ d ∷ s) zero (alone, h) e = rw e at alone
get_or-IsFolded (c ∷ d ∷ s) (suc p) (alone, h) e = get_or-IsFolded (d ∷ s) p h e

take_all : (n : ℕ) (s : List ℕ) → n ≡ length s → take n s ≡ s
take_all zero [] h = refl
take_all (suc n) [] h = refl
take_all zero (c ∷ s) h = absurd (omega arith)
take_all (suc n) (c ∷ s) h = ap (λ l. c ∷ l) (take_all n s (omega arith))

drop_nil : (n : ℕ) → drop {A = ℕ} n [] ≡ []
drop_nil zero = refl
drop_nil (suc n) = refl

-- A move onto itself.
memmove-same : (buf : List ℕ) (dst n : ℕ) → memmove buf dst dst n ≡ buf
unfolding memmove
memmove-same buf zero n = let e : 0 + n ≡ n = omega arith in rw e (take-drop n buf)
memmove-same [] (suc dst) zero = drop_nil (suc dst + 0)
memmove-same [] (suc dst) (suc n) = drop_nil (suc dst + suc n)
memmove-same (c ∷ buf) (suc dst) n =
    let e : suc dst + n ≡ suc (dst + n) = omega arith in
    rw e (ap (λ l. c ∷ l) (memmove-same buf dst n))

scan_space-stops :
    (left p : ℕ) (buf : List ℕ) → is_space (get_or buf p 0) ≡ false → scan_space left p buf ≡ p
unfolding scan_space
scan_space-stops zero p buf h = refl
scan_space-stops (suc left) p buf h = rw h refl

-- The loop leaves such a string alone.
fold_loop-IsFolded :
    (fuel ep p len : ℕ) (buf : List ℕ)
    → IsFolded buf
    → ep ≡ length buf
    → fold_loop fuel ep p len buf ≡ (len, buf)
unfolding fold_loop
fold_loop-IsFolded zero ep p len buf h size = refl
fold_loop-IsFolded (suc fuel) ep p len buf h size = elim (Bool-cases (ltb p ep)) [
  | inr outside ↦ rw outside refl
  | inl inside ↦ elim (Bool-cases (is_space (get_or buf p 0))) [
    | inr black ↦ rw (inside, black) (fold_loop-IsFolded fuel ep (p + 1) len buf h size)
    | inl white ↦
        let next : suc p ≡ p + 1 = omega arith in
        let stops =
          scan_space-stops (ep - (p + 1)) (p + 1) buf
            (rw next at (get_or-IsFolded buf p h white)) in
        let kept : len - (p + 1 - (p + 1)) ≡ len = omega arith in
        rw (inside, white, stops, memmove-same buf (p + 1) (ep - (p + 1)), kept)
          (fold_loop-IsFolded fuel ep (p + 1 + 1) len buf h size)
  ]
]

pub fold_white_space-IsFolded : (s : List ℕ) → IsFolded s → fold_white_space s ≡ s
unfolding fold_white_space
fold_white_space-IsFolded s h =
    rw (fold_loop-IsFolded (length s) (length s) 0 (length s) s h refl) (take_all (length s) s refl)

-- The test and the byte of the source.
escape_at-hex2bin :
    (c a b : ℕ)
    → escape_at c a b ≡ (
        if (c == 0x5c) && (not (a == 0) && (ishex a && ishex b))
        then some ((hex2bin a * 16 + hex2bin b) % 256)
        else none)
escape_at-hex2bin c a b = elim (Bool-cases (c == 0x5c)) [
  | inr other ↦ rw other refl
  | inl slash ↦
      rw (hex_value-hex2bin a, hex_value-hex2bin b)
        (elim (Bool-cases (ishex a)) [
          | inr plain ↦ rw (slash, plain, and_false (not (a == 0))) refl
          | inl high ↦ elim (Bool-cases (ishex b)) [
            | inr plain ↦ rw (slash, high, plain, and_false (not (a == 0))) refl
            | inl low ↦
                rw
                  (
                    slash,
                    high,
                    low,
                    ishex-pos a high,
                    byte_small (hex2bin a) (hex2bin b) (hex2bin_bound a high) (hex2bin_bound b low),
                  )
                  refl
          ]
        ])
]

pub unescape_in_place-decoded : (s : List ℕ) → unescape_in_place s ≡ decoded s
unfolding unescape_in_place
unescape_in_place-decoded [] = refl
unescape_in_place-decoded (c ∷ []) = refl
unescape_in_place-decoded (c ∷ a ∷ []) = refl
unescape_in_place-decoded (c ∷ a ∷ b ∷ s) =
    let plain = unescape_in_place-decoded (a ∷ b ∷ s) in
    let behind = unescape_in_place-decoded s in
    elim (Bool-cases ((c == 0x5c) && (not (a == 0) && (ishex a && ishex b)))) [
      | inl hit ↦ rw (hit, behind, decoded, escape_at-hex2bin c a b, hit) refl
      | inr miss ↦ rw (miss, plain, decoded, escape_at-hex2bin c a b, miss) refl
    ]
