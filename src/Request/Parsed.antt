-- ===== src/Request/Parsed.antt =====
-- A message that a writer laid out, through SLPMessageParseBuffer: the header and a rule for the body
-- give the rule for the message.
use openslp.Base.{
  ℕ, ◌+◌, ◌^◌, ◌≤◌, ◌<◌, ◌≡◌, refl, sym, subst, ap, ◌∙◌, Bool, false, Option, List, [], ◌++◌,
  length, get_or, ◌==◌, if◌then◌else◌, arith,
}
use openslp.Wire.{Buffer}
use openslp.Wire.Ensures.{Ensures, returns, bind, chosen}
use openslp.Wire.Put.{put_l16_string}
use openslp.Wire.Reads.{Reads, Never}
use openslp.Message.Types.{Header, Body, Message, Platform, Sockaddr}
use openslp.Message.Put.{put_header}
use openslp.Message.Fields.{seek}
use openslp.Message.Parse.{
  parse_body, parse_rest, parse_v2_message, parse_versioned, peek_version, parse_buffer, free_body,
}
use openslp.Message.Reads.{HeaderIs, IsHeader, parse_v2_header-Reads}
use openslp.Request.{calc_buffer_size, put_request, request_flags, has_prlist}
use openslp.Request.Size.{length-put_request}

-- The buffer holds exactly these bytes.
pub record IsFilled (bytes : List ℕ) (b : Buffer) : Type 0 where
  pub size : b.size ≡ length bytes
  pub bytes_eq : (i : ℕ) → i < length bytes → b.mem i ≡ get_or bytes i 0

-- Each string fits the 16 bits of its length.
abbrev pub Short : List ℕ → Type 0
Short str = length str < 2 ^ 16

-- The parser before the bytes of a filled buffer.
start-Reads :
    {bytes : List ℕ} {b : Buffer} (reach : ℕ)
    → IsFilled bytes b
    → Reads b.mem b.size bytes (record b { curpos = 0; reach = reach })
start-Reads {b} reach f = record {
  same_mem = refl;
  same_size = refl;
  pos = omega (arith, f.size);
  ahead = λ i lt. (let e : 0 + i ≡ i = omega arith in ap b.mem e) ∙ f.bytes_eq i lt;
}

-- Without an extension the body is left as it is.
parse_rest-none :
    {Q : Body → Buffer → Type 0} (platform : Platform) (h : Header) (body : Body) (b : Buffer)
    → h.extoffset ≡ 0
    → Q body b
    → Ensures Never Q (parse_rest platform h body b)
unfolding parse_rest
parse_rest-none platform h body b e q =
    chosen (h.extoffset == 0) _ _ b (ground (arith, e)) (returns q)

version_two :
    (functionid size flags ext xid : ℕ) (langtag body : List ℕ) {b : Buffer}
    → IsFilled (put_header functionid size flags ext xid langtag ++ body) b
    → b.mem 0 ≡ 2
unfolding put_header
version_two functionid size flags ext xid langtag body f = f.bytes_eq 0 (omega arith)

-- A message of a header and a body that is parsed as `P` says, through SLPMessageParseBuffer.
pub parse_buffer-Reads :
    (platform : Platform) (peeraddr localaddr : Option Sockaddr) (mp : Message)
    (functionid flags xid : ℕ) (langtag body : List ℕ) (P : Body → Type 0) (b : Buffer)
    → IsHeader functionid b.size flags 0 xid langtag
    → 4 ≤ length langtag + length body
    → IsFilled (put_header functionid b.size flags 0 xid langtag ++ body) b
    → ((b1 : Buffer)
        → Reads b.mem b.size body b1
        → Ensures Never
            (λ r b2. P r × (b2.mem ≡ b.mem))
            (parse_body platform functionid (free_body mp.body) b1))
    → Ensures Never
        (λ m b'.
          HeaderIs b.mem functionid b.size flags 0 xid langtag m.header
          × P m.body
          × (b'.mem ≡ b.mem))
        (parse_buffer platform peeraddr localaddr mp b)
unfolding parse_buffer seek peek_version parse_versioned parse_v2_message
parse_buffer-Reads platform peeraddr localaddr mp functionid flags xid langtag body P b ok long
      filled rule =
    chosen (b.mem 0 == 2) _ _ _ (ground (arith, version_two _ _ _ _ _ langtag body filled)) (
      bind
        (bind
          (parse_v2_header-Reads functionid flags 0 xid langtag ok (omega (arith, long))
            (start-Reads _ filled))
          λ h b1 (is, h1). bind (with_id h.functionid is.functionid_eq b1 h1) λ r b2 (p2, m2).
            bind {P = λ r' b3. P r' × (b3.mem ≡ b.mem)}
              (parse_rest-none platform h r b2 is.extoffset_eq (p2, m2))
              λ r' b3 (p3, m3). returns {a = (h, r')} (is, p3, m3))
        λ hr b4 got. returns got)
  where
    with_id :
        (f : ℕ)
        → f ≡ functionid
        → (b1 : Buffer) → Reads b.mem b.size body b1
        → Ensures Never
            (λ r b2. P r × (b2.mem ≡ b.mem))
            (parse_body platform f (free_body mp.body) b1)
    with_id f e b1 h1 =
        subst
          (λ k.
            Ensures Never (λ r b2. P r × (b2.mem ≡ b.mem))
              (parse_body platform k (free_body mp.body) b1))
          (sym e) (rule b1 h1)

-- The bytes that fill a buffer begin with a header that has the buffer's size.
pub sized :
    (buftype : ℕ) (mcast : Bool) (xid : ℕ) (langtag prlist buf : List ℕ) (b : Buffer)
    → IsFilled (put_request buftype mcast 0 xid langtag prlist buf) b
    → IsFilled
        (put_header buftype b.size (request_flags buftype mcast) 0 xid langtag
          ++ ((if has_prlist buftype then put_l16_string prlist else []) ++ buf))
        b
sized buftype mcast xid langtag prlist buf b f = subst (λ l. IsFilled l b) (same b.size e) f
  where
    e : calc_buffer_size false buftype (length langtag) (length prlist) (length buf) ≡ b.size
    e = sym (f.size ∙ length-put_request buftype mcast 0 xid langtag prlist buf)

    same :
        (n : ℕ)
        → calc_buffer_size false buftype (length langtag) (length prlist) (length buf) ≡ n
        → put_request buftype mcast 0 xid langtag prlist buf
          ≡ put_header buftype n (request_flags buftype mcast) 0 xid langtag
            ++ ((if has_prlist buftype then put_l16_string prlist else []) ++ buf)
    same n p =
        unfold put_request in
        (ap
          (λ k.
            put_header buftype k (request_flags buftype mcast) 0 xid langtag
            ++ ((if has_prlist buftype then put_l16_string prlist else []) ++ buf))
          p)
