-- ===== src/Tests/Escape.antt =====
-- Runs of SLPEscape and SLPUnescape.
use openslp.Base.{ℕ, ◌+◌, ◌≡◌, refl, Bool, true, false, some, List, [], ◌∷◌, ◌++◌, length, arith}
use openslp.Escape.{
  slp_ok, slp_parse_error, early, is_reserved, is_bad_tag, count_reserved, escape_text, escape,
  count_output, digit_value, unescape_text, unescape,
}
use openslp.Escape.Sizes.{Fills, escape-Fills, unescape-Fills}
use openslp.Escape.RoundTrip.{unescape-escape}
use openslp.Escape.Overflow.{twice, Overflows, unescape-Overflows}

-- What the runs unfold.
escapes : Unit {0}
unfolding is_reserved is_bad_tag count_reserved escape_text escape count_output digit_value
    unescape_text unescape
escapes = tt

abbrev plenty_of_memory : ℕ → Bool
plenty_of_memory n = true

-- "a,b" and "a\2Cb".
abbrev with_comma : List ℕ
with_comma = b'a' ∷ b',' ∷ b'b' ∷ []

abbrev escaped_comma : List ℕ
escaped_comma = b'a' ∷ 0x5c ∷ b'2' ∷ b'C' ∷ b'b' ∷ []

escape_run :
    escape plenty_of_memory (some with_comma) true
    ≡ record { code = slp_ok; written = escaped_comma ++ (0 ∷ []); allocated = 6 }
unfolding escapes
escape_run = refl

-- A line feed is no character of a tag.
bad_tag_run : escape plenty_of_memory (some (b'a' ∷ 10 ∷ [])) true ≡ early slp_parse_error
unfolding escapes
bad_tag_run = refl

unescape-escape_example :
    unescape (some escaped_comma) true
    ≡ record { code = slp_ok; written = with_comma ++ (0 ∷ []); allocated = length with_comma + 1 }
unescape-escape_example =
    unescape-escape plenty_of_memory with_comma true escaped_comma 6 (omega arith) escape_run

escape-Fills_example : Fills (escape plenty_of_memory (some with_comma) true)
escape-Fills_example = escape-Fills plenty_of_memory (some with_comma) true

comma_code : (unescape (some escaped_comma) false).code ≡ slp_ok
unfolding escapes
comma_code = refl

unescape-Fills_example : Fills (unescape (some escaped_comma) false)
unescape-Fills_example = unescape-Fills escaped_comma false (omega arith) comma_code

unescape-Overflows_example : Overflows (unescape (some (with_comma ++ twice)) false)
unescape-Overflows_example = unescape-Overflows with_comma refl (omega arith) (omega arith)
