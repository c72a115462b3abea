-- ===== src/Tests/Url.antt =====
-- Service URLs in the shapes of the test table of slp_parse.c.
use openslp.Base.{ℕ, ◌≡◌, refl, true, some, List, [], ◌∷◌, ◌++◌, inl, inr, ℤ, pos}
use openslp.Url.{
  einval, up_to_nul, strchr, strstr, bracketed, parse_located, parse_srv_url, api_code,
}
use openslp.Url.RoundTrip.{location_text, parsed, parse_srv_url-located}

abbrev length_of : List ℕ → ℤ
length_of [] = pos 0
length_of (c ∷ []) = pos 1
length_of s = pos 2

abbrev service : List ℕ
service = b'a' ∷ b':' ∷ b'b' ∷ []

abbrev numbers : List ℕ
numbers = b'1' ∷ b':' ∷ b':' ∷ b'2' ∷ []

-- "a:b://[1::2]:7/p".
abbrev address : List ℕ
address =
    service
    ++ (b':' ∷ b'/' ∷ b'/' ∷ location_text true numbers (some (b'7' ∷ [])) (some (b'p' ∷ [])))

url_run : Unit {0}
unfolding up_to_nul strchr strstr bracketed parse_located parse_srv_url api_code
url_run = tt

in_brackets :
    parse_srv_url length_of (λ n. true) 40 address
    ≡ inr record {
      srvtype = service;
      host = numbers;
      port = pos 1;
      family = b'v' ∷ b'6' ∷ [];
      remainder = b'p' ∷ [];
    }
unfolding url_run
in_brackets = refl

-- A bracket that is not closed belongs to the host.
open_bracket :
    parse_srv_url length_of (λ n. true) 40 (b'a' ∷ b':' ∷ b'/' ∷ b'/' ∷ b'[' ∷ [])
    ≡ inr
        record { srvtype = b'a' ∷ []; host = b'[' ∷ []; port = pos 0; family = []; remainder = [] }
unfolding url_run
open_bracket = refl

no_host : parse_srv_url length_of (λ n. true) 40 service ≡ inl einval
unfolding url_run
no_host = refl

memory : (n : ℕ) → true ≡ true
memory n = refl

parse_srv_url-located_example :
    parse_srv_url length_of (λ n. true) 40 address
    ≡ inr (parsed length_of service true numbers (some (b'7' ∷ [])) (some (b'p' ∷ [])))
parse_srv_url-located_example =
    parse_srv_url-located length_of (λ n. true) 40 service true numbers (some (b'7' ∷ []))
      (some (b'p' ∷ [])) memory
      (
        refl,
        (
          refl,
          (
            refl,
            (
              refl,
              (
                refl,
                (
                  refl,
                  (
                    refl,
                    (refl, (refl, (refl, (refl, (refl, (refl, (refl, (refl, (refl, tt))))))))),
                  ),
                ),
              ),
            ),
          ),
        ),
      )
      (refl, (refl, (refl, tt))) (refl, (refl, (refl, (refl, tt)))) (refl, tt)
