-- ===== src/Request/SrvTypes.antt =====
-- What SLPFindSrvTypes sends, the daemon parses.
use openslp.Base.{
  ℕ, ◌+◌, ◌^◌, ◌≤◌, ◌<◌, ◌≡◌, refl, Bool, true, false, Option, none, some, List, [], ◌∷◌, ◌++◌,
  length, length-append, get_or, ◌||◌, ◌==◌, if◌then◌else◌, arith,
}
use mathlib.Core.List.{append-nil}
use openslp.Wire.{Buffer}
use openslp.Wire.Ensures.{Ensures, returns, bind, chosen, passed}
use openslp.Wire.Put.{put_uint16, put_l16_string}
use openslp.Wire.Reads.{Reads, Never, get_uint16-Reads, get_str_ptr-Reads}
use openslp.Message.Types.{
  Body, Message, Platform, Sockaddr, SrvTypeRqst, Str, srvtyperqst, funct_srvtyperqst,
}
use openslp.Message.Bodies.{get_naming_auth, naming_auth_ptr, parse_srv_type_rqst}
use openslp.Message.Parse.{as_body, parse_body, parse_buffer}
use openslp.Message.Reads.{Content, HeaderIs, check_end-Reads, require-Reads, get_string-Reads}
use openslp.Request.{put_request, put_srv_type_rqst, request_flags}
use openslp.Request.Size.{length-put_l16_string}
use openslp.Request.Parsed.{IsFilled, Short, parse_buffer-Reads, sized}

-- A pointer to these bytes.
abbrev BytesAt : (ℕ → ℕ) → List ℕ → Option ℕ → Type 0
BytesAt mem str p = elim p [
  | none ↦ ⊥
  | some q ↦ (i : ℕ) → i < length str → mem (q + i) ≡ get_or str i 0
]

-- A naming authority as it is sent: 0xffff for any, 0 for IANA, and otherwise a string.
abbrev pub NamingIs : (mem : ℕ → ℕ) (wildcard : Bool) (namingauth : List ℕ) → Str → Type 0
NamingIs mem true namingauth s = s ≡ record { len = 0xffff; ptr = none }
NamingIs mem false [] s = s ≡ record { len = 0; ptr = none }
NamingIs mem false (c ∷ namingauth) s = Content mem (c ∷ namingauth) s

pub record SrvTypeRqstIs (mem : ℕ → ℕ) (prlist : List ℕ) (wildcard : Bool)
    (namingauth scopelist : List ℕ) (r : SrvTypeRqst) : Type 0 where
  pub prlist_is : Content mem prlist r.prlist
  pub naming_is : NamingIs mem wildcard namingauth r.namingauth
  pub scopelist_is : Content mem scopelist r.scopelist

abbrev pub IsSrvTypeRqst :
    (mem : ℕ → ℕ) (prlist : List ℕ) (wildcard : Bool) (namingauth scopelist : List ℕ)
    → Body
    → Type 0
IsSrvTypeRqst mem prlist wildcard namingauth scopelist (srvtyperqst r) =
    SrvTypeRqstIs mem prlist wildcard namingauth scopelist r
IsSrvTypeRqst mem prlist wildcard namingauth scopelist _ = ⊥

module _ {mem : ℕ → ℕ} {size : ℕ} where
  -- The naming authority is read as it was sent.
  get_naming_auth-Reads :
      (wildcard : Bool) (namingauth : List ℕ) {l : List ℕ} {b : Buffer}
      → length namingauth < 0xffff
      → Reads mem size ((if wildcard then put_uint16 0xffff else put_l16_string namingauth) ++ l) b
      → Ensures Never
          (λ s b'. NamingIs mem wildcard namingauth s × Reads mem size l b')
          (get_naming_auth b)
  unfolding get_naming_auth naming_auth_ptr put_l16_string put_uint16
  get_naming_auth-Reads true namingauth {l} small h =
      bind (get_uint16-Reads 0xffff (omega arith) h) λ len b1 (e, h1).
        bind {P = λ p b2. (p ≡ none) × Reads mem size l b2}
          (chosen ((len == 0) || (len == 0xffff)) _ _ b1 (ground (arith, e)) (returns (refl, h1)))
          λ p b2 (none_p, h2).
            bind (check_end-Reads h2) λ _ b3 h3. returns (ground (arith, e, none_p), h3)
  get_naming_auth-Reads false [] {l} small h =
      bind (get_uint16-Reads 0 (omega arith) h) λ len b1 (e, h1).
        bind {P = λ p b2. (p ≡ none) × Reads mem size l b2}
          (chosen ((len == 0) || (len == 0xffff)) _ _ b1 (ground (arith, e)) (returns (refl, h1)))
          λ p b2 (none_p, h2).
            bind (check_end-Reads h2) λ _ b3 h3. returns (ground (arith, e, none_p), h3)
  get_naming_auth-Reads false (c ∷ namingauth) {l} small h =
      bind (get_uint16-Reads (length (c ∷ namingauth)) (omega arith) h) λ len b1 (e, h1).
        bind {P = λ p b2. BytesAt mem (c ∷ namingauth) p × Reads mem size l b2}
          (passed ((len == 0) || (len == 0xffff)) _ _ b1 (ground (arith, e, small)) (
            bind (get_str_ptr-Reads (c ∷ namingauth) len e h1)
              λ p b2 got. returns {a = some p} got))
          λ p b2 (bytes, h2). bind (check_end-Reads h2) λ _ b3 h3. returns ((e, bytes), h3)

  parse_srv_type_rqst-Reads :
      (prlist : List ℕ) (wildcard : Bool) (namingauth scopelist : List ℕ) {b : Buffer}
      → Short prlist
      → length namingauth < 0xffff
      → Short scopelist
      → Reads mem size (put_l16_string prlist ++ put_srv_type_rqst wildcard namingauth scopelist) b
      → Ensures Never
          (λ r b'. SrvTypeRqstIs mem prlist wildcard namingauth scopelist r × (b'.mem ≡ mem))
          (parse_srv_type_rqst b)
  unfolding parse_srv_type_rqst put_srv_type_rqst put_uint16
  parse_srv_type_rqst-Reads prlist wildcard namingauth scopelist s1 s2 s3 h =
      bind (require-Reads 6 (long wildcard) h) λ _ b1 h1.
        bind (get_string-Reads prlist s1 h1) λ a1 b2 (c1, h2).
          bind (get_naming_auth-Reads wildcard namingauth s2 h2) λ a2 b3 (c2, h3).
            bind
              (get_string-Reads scopelist s3 (rw (← append-nil (put_l16_string scopelist)) at h3))
              λ a3 b4 (c3, h4).
                returns (record { prlist_is = c1; naming_is = c2; scopelist_is = c3 }, h4.same_mem)
    where
      long :
          (w : Bool)
          → 6 ≤ length (put_l16_string prlist ++ put_srv_type_rqst w namingauth scopelist)
      long true = simp (length-append, length-put_l16_string) (omega arith)
      long false = simp (length-append, length-put_l16_string) (omega arith)

parse_body_srvtyperqst :
    {Q : SrvTypeRqst → Buffer → Type 0} {P : Body → Buffer → Type 0} (platform : Platform)
    (old : Body) (b : Buffer)
    → Ensures Never Q (parse_srv_type_rqst b)
    → ((r : SrvTypeRqst) (b' : Buffer) → Q r b' → P (srvtyperqst r) b')
    → Ensures Never P (parse_body platform funct_srvtyperqst old b)
unfolding parse_body as_body
parse_body_srvtyperqst platform old b e next = bind e λ r b' q. returns (next r b' q)

-- What NetworkRqstRply sends for SLPFindSrvTypes, SLPMessageParseBuffer parses: the scope list and the
-- responder list, and the naming authority as any, IANA or its string, which is below 0xffff bytes.
pub parse_buffer-put_srv_type_rqst :
    (platform : Platform) (peeraddr localaddr : Option Sockaddr) (mp : Message) (b : Buffer)
    (mcast : Bool) (xid : ℕ) (langtag prlist : List ℕ) (wildcard : Bool)
    (namingauth scopelist : List ℕ)
    → xid < 2 ^ 16
    → b.size < 2 ^ 24
    → Short langtag
    → Short prlist
    → length namingauth < 0xffff
    → Short scopelist
    → IsFilled
        (put_request funct_srvtyperqst mcast 0 xid langtag prlist
          (put_srv_type_rqst wildcard namingauth scopelist))
        b
    → Ensures Never
        (λ m b'.
          HeaderIs b.mem funct_srvtyperqst b.size
            (request_flags funct_srvtyperqst mcast)
            0
            xid
            langtag
            m.header
          × IsSrvTypeRqst b.mem prlist wildcard namingauth scopelist m.body
          × (b'.mem ≡ b.mem))
        (parse_buffer platform peeraddr localaddr mp b)
unfolding put_srv_type_rqst
parse_buffer-put_srv_type_rqst platform peeraddr localaddr mp b mcast xid langtag prlist wildcard
      namingauth scopelist sx sb s0 s1 s2 s3 filled =
    parse_buffer-Reads platform peeraddr localaddr mp funct_srvtyperqst _ xid langtag _
      (IsSrvTypeRqst b.mem prlist wildcard namingauth scopelist) b
      (record {
        low = omega arith;
        high = omega arith;
        size_small = sb;
        flags_small = ground arith;
        reserved = ground arith;
        ext = omega arith;
        xid_small = sx;
        tag_small = s0;
      })
      (simp (length-append, length-put_l16_string) (omega arith))
      (sized funct_srvtyperqst mcast xid langtag prlist _ b filled)
      λ b1 h1.
        parse_body_srvtyperqst platform _ b1
          (parse_srv_type_rqst-Reads prlist wildcard namingauth scopelist s1 s2 s3 h1) λ r b' q. q
