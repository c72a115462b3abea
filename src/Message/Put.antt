-- ===== src/Message/Put.antt =====
-- The SLPv2 header that the writers of libslp/libslp_network.c and slpd/slpd_process.c lay out.
use openslp.Base.{ℕ, ◌+◌, ◌≡◌, List, ◌∷◌, ◌++◌, length, arith}
use openslp.Wire.Put.{put_uint16, put_uint24}

-- A SLPv2 header, as every writer of the program lays it out.
unfoldable pub put_header : (functionid size flags extoffset xid : ℕ) (langtag : List ℕ) → List ℕ
put_header functionid size flags extoffset xid langtag =
    2
    ∷ functionid
    ∷ (put_uint24 size
        ++ (put_uint16 flags
            ++ (put_uint24 extoffset
                ++ (put_uint16 xid ++ (put_uint16 (length langtag) ++ langtag)))))

pub length-put_header :
    (functionid size flags extoffset xid : ℕ) (langtag : List ℕ)
    → length (put_header functionid size flags extoffset xid langtag) ≡ 14 + length langtag
unfolding put_header put_uint16 put_uint24
length-put_header functionid size flags extoffset xid langtag = omega arith
