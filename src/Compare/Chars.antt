-- ===== src/Compare/Chars.antt =====
-- Single characters of common/slp_compare.c, as bytes, with `isspace` and `tolower` of the C locale.
use openslp.Base.{ℕ, ◌+◌, ◌-◌, ◌*◌, ◌/◌, ◌%◌, Bool, ◌&&◌, ◌||◌, leb, ◌==◌, if◌then◌else◌}

abbrev pub is_space : ℕ → Bool
is_space c = (c == 32) || (leb 9 c && leb c 13)

abbrev pub tolower : ℕ → ℕ
tolower c = if leb b'A' c && leb c b'Z' then c + 32 else c

-- usaupr: `(c & 0xC0) == 0x40? c & ~0x20: c`.
abbrev pub usaupr : ℕ → ℕ
usaupr c = if c / 64 % 4 == 1 then c - c / 32 % 2 * 32 else c

-- ishex. A byte of 0x80 or more is a negative `char`, which no range test accepts either.
unfoldable pub ishex : ℕ → Bool
ishex c =
    (leb b'0' (usaupr c) && leb (usaupr c) b'9') || (leb b'A' (usaupr c) && leb (usaupr c) b'F')

-- hex2bin, on a character for which the difference is not negative.
unfoldable pub hex2bin : ℕ → ℕ
hex2bin c = usaupr c - (if leb (usaupr c) b'9' then b'0' else b'A' - 10)
