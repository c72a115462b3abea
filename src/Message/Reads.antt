-- ===== src/Message/Reads.antt =====
-- Parsing known bytes: the rules for counted strings and the header.
use openslp.Base.{
  ℕ, ◌+◌, ◌%◌, ◌^◌, ◌≤◌, ◌<◌, ◌≡◌, none, some, List, ◌++◌, length, length-append, get_or, ltb, ◌==◌,
  not, ◌||◌, Bool, false, arith, le→ltb,
}
use mathlib.Core.List.{append_assoc}
use openslp.Wire.{Buffer}
use openslp.Wire.Ensures.{Ensures, returns, bind}
use openslp.Wire.Put.{put_uint16, put_uint24, put_l16_string}
use openslp.Wire.Reads.{
  Reads, Never, get_byte-Reads, get_uint16-Reads, get_uint24-Reads, get_str_ptr-Reads,
}
use openslp.Message.Types.{Str, Header}
use openslp.Message.Fields.{require, check_end, get_string}
use openslp.Message.Parse.{refuse_if, require_size, check_header, parse_v2_header}
use openslp.Message.Put.{put_header, length-put_header}

-- The string has the length of `str`, and its bytes in the memory are those of `str`.
abbrev pub Content : (ℕ → ℕ) → List ℕ → Str → Type 0
Content mem str s =
    (s.len ≡ length str)
    × (elim s.ptr [ none ↦ ⊥ | some p ↦ (i : ℕ) → i < length str → mem (p + i) ≡ get_or str i 0 ])

module _ {mem : ℕ → ℕ} {size : ℕ} {l : List ℕ} where
  pub require-Reads :
      (n : ℕ) {b : Buffer}
      → n ≤ length l
      → Reads mem size l b
      → Ensures Never (λ _. Reads mem size l) (require n b)
  unfolding require
  require-Reads n {b} enough h =
      let e : ltb b.size (b.curpos + n) ≡ false = le→ltb _ _ (omega (arith, h.pos, h.same_size)) in
      rw e (returns h)

  pub check_end-Reads :
      {b : Buffer} → Reads mem size l b → Ensures Never (λ _. Reads mem size l) (check_end b)
  unfolding check_end
  check_end-Reads {b} h =
      let e : ltb b.size b.curpos ≡ false = le→ltb _ _ (omega (arith, h.pos, h.same_size)) in
      rw e (returns h)

  require_size-Reads :
      (n : ℕ) {b : Buffer}
      → n ≤ size
      → Reads mem size l b
      → Ensures Never (λ _. Reads mem size l) (require_size n b)
  unfolding require_size
  require_size-Reads n {b} enough h =
      let e : ltb b.size n ≡ false = le→ltb _ _ (omega (arith, h.same_size)) in rw e (returns h)

  refuse_if-Reads :
      (t : Bool) {b : Buffer}
      → t ≡ false
      → Reads mem size l b
      → Ensures Never (λ _. Reads mem size l) (refuse_if t b)
  unfolding refuse_if
  refuse_if-Reads t e h = rw e (returns h)

  pub get_string-Reads :
      (str : List ℕ) {b : Buffer}
      → length str < 2 ^ 16
      → Reads mem size (put_l16_string str ++ l) b
      → Ensures Never (λ s b'. Content mem str s × Reads mem size l b') (get_string b)
  unfolding get_string put_l16_string
  get_string-Reads str {b} small h =
      bind (get_uint16-Reads (length str) small (rw append_assoc at h)) λ len b1 (e, h1).
        bind (get_str_ptr-Reads str len e h1)
          λ p b2 (bytes, h2). bind (check_end-Reads h2) λ _ b3 h3. returns ((e, bytes), h3)

-- The header as it was written, with its language tag in the memory.
pub record HeaderIs (mem : ℕ → ℕ) (functionid size flags extoffset xid : ℕ) (langtag : List ℕ)
    (h : Header) : Type 0 where
  pub version : h.version ≡ 2
  pub functionid_eq : h.functionid ≡ functionid
  pub length_eq : h.length ≡ size
  pub flags_eq : h.flags ≡ flags
  pub extoffset_eq : h.extoffset ≡ extoffset
  pub xid_eq : h.xid ≡ xid
  pub langtag_is : Content mem langtag h.langtag

-- What a written header needs to be accepted.
pub record IsHeader (functionid size flags extoffset xid : ℕ) (langtag : List ℕ) : Type 0 where
  pub low : 1 ≤ functionid
  pub high : functionid ≤ 11
  pub size_small : size < 2 ^ 24
  pub flags_small : flags < 2 ^ 16
  pub reserved : flags % 2 ^ 13 ≡ 0
  pub ext : extoffset ≤ size
  pub xid_small : xid < 2 ^ 16
  pub tag_small : length langtag < 2 ^ 16

module _ {mem : ℕ → ℕ} {size : ℕ} {l : List ℕ} where
  check_header-Reads :
      (h : Header) {b : Buffer}
      → 1 ≤ h.functionid
      → h.functionid ≤ 11
      → h.flags % 2 ^ 13 ≡ 0
      → h.extoffset ≤ size
      → Reads mem size l b
      → Ensures Never (λ _. Reads mem size l) (check_header h b)
  unfolding check_header
  check_header-Reads h low high reserved ext at =
      bind (refuse_if-Reads (ltb h.functionid 1 || ltb 11 h.functionid) (ground arith) at)
        λ _ b1 h1.
          bind (refuse_if-Reads (not (h.flags % 2 ^ 13 == 0)) (ground arith) h1)
            λ _ b2 h2. require_size-Reads h.extoffset ext h2

  -- SLPv2MessageParseHeader reads back the header that the writers lay out.
  pub parse_v2_header-Reads :
      (functionid flags extoffset xid : ℕ) (langtag : List ℕ) {b : Buffer}
      → IsHeader functionid size flags extoffset xid langtag
      → 4 ≤ length langtag + length l
      → Reads mem size (put_header functionid size flags extoffset xid langtag ++ l) b
      → Ensures Never
          (λ h b'. HeaderIs mem functionid size flags extoffset xid langtag h × Reads mem size l b')
          (parse_v2_header b)
  unfolding parse_v2_header put_header put_uint24 put_uint16
  parse_v2_header-Reads functionid flags extoffset xid langtag ok long h =
      bind (require_size-Reads 18 big h) λ _ b1 h1.
        bind (get_byte-Reads 2 h1) λ version b2 (e2, h2).
          bind (get_byte-Reads functionid h2) λ f b3 (e3, h3).
            bind (get_uint24-Reads size ok.size_small h3) λ size' b4 (e4, h4).
              bind (get_uint16-Reads flags ok.flags_small h4) λ fl b5 (e5, h5).
                bind (get_uint24-Reads extoffset (omega (arith, ok.ext, ok.size_small)) h5)
                  λ ext b6 (e6, h6). bind (get_uint16-Reads xid ok.xid_small h6) λ x b7 (e7, h7).
                    bind (get_uint16-Reads _ ok.tag_small h7) λ len b8 (e8, h8).
                      bind (get_str_ptr-Reads langtag len e8 h8) λ p b9 (bytes, h9).
                        bind (check_end-Reads h9) λ _ b10 h10.
                          bind
                            (check_header-Reads _ (omega (arith, e3, ok.low))
                              (omega (arith, e3, ok.high)) (omega (arith, e5, ok.reserved))
                              (omega (arith, e6, ok.ext)) h10)
                            λ _ b11 h11. returns (
                              record {
                                version = e2;
                                functionid_eq = e3;
                                length_eq = e4;
                                flags_eq = e5;
                                extoffset_eq = e6;
                                xid_eq = e7;
                                langtag_is = (e8, bytes);
                              },
                              h11,
                            )
    where
      big : 18 ≤ size
      big = omega (
        arith,
        h.pos,
        length-append (put_header functionid size flags extoffset xid langtag) l,
        length-put_header functionid size flags extoffset xid langtag,
      )
