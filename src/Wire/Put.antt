-- ===== src/Wire/Put.antt =====
-- The writers of common/slp_message.c and libslp/libslp_parse.c. A writer fills its buffer from the
-- position on, without gaps, so it is modelled by the bytes that it appends.
use openslp.Base.{ℕ, ◌+◌, ◌/◌, ◌%◌, ◌^◌, List, [], ◌∷◌, ◌++◌, length, if◌then◌else◌, ◌==◌}

-- TO_UINT16, TO_UINT24 and TO_UINT32: the low 16, 24 or 32 bits of the value, high byte first.
unfoldable pub put_uint16 : ℕ → List ℕ
put_uint16 v = (v / 2 ^ 8 % 256) ∷ (v % 256) ∷ []

unfoldable pub put_uint24 : ℕ → List ℕ
put_uint24 v = (v / 2 ^ 16 % 256) ∷ (v / 2 ^ 8 % 256) ∷ (v % 256) ∷ []

unfoldable pub put_uint32 : ℕ → List ℕ
put_uint32 v = (v / 2 ^ 24 % 256) ∷ (v / 2 ^ 16 % 256) ∷ (v / 2 ^ 8 % 256) ∷ (v % 256) ∷ []

-- PutL16String.
unfoldable pub put_l16_string : List ℕ → List ℕ
put_l16_string str = put_uint16 (length str) ++ str

-- SizeofURLEntry.
unfoldable pub sizeof_url_entry : (urllen urlauthlen : ℕ) → ℕ
sizeof_url_entry urllen urlauthlen = 1 + 2 + 2 + urllen + 2 + urlauthlen

-- slp_PutURLEntry.
unfoldable pub put_url_entry : (lifetime : ℕ) (url urlauth : List ℕ) → List ℕ
put_url_entry lifetime url urlauth =
    0
    ∷ (put_uint16 lifetime
        ++ (put_uint16 (length url)
            ++ (url ++ (if length urlauth == 0 then 0 ∷ [] else 1 ∷ urlauth))))
