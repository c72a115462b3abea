-- ===== src/Daemon/Ack.antt =====
-- The acknowledgement that the daemon writes, through the parser of the library.
use openslp.Base.{
  ℕ, ◌+◌, ◌^◌, ◌≤◌, ◌<◌, ◌≡◌, refl, sym, subst, Option, List, [], ◌++◌, length, length-append,
  arith,
}
use openslp.Wire.{Buffer}
use openslp.Wire.Ensures.{Ensures, returns, bind}
use openslp.Wire.Put.{put_uint16}
use openslp.Wire.Reads.{Reads, Never, get_uint16-Reads}
use openslp.Message.Types.{Body, srvack, Message, Platform, Sockaddr, funct_srvack}
use openslp.Message.Put.{put_header, length-put_header}
use openslp.Message.Bodies.{parse_srv_ack}
use openslp.Message.Parse.{as_body, parse_body, parse_buffer}
use openslp.Message.Reads.{HeaderIs}
use openslp.Request.Parsed.{IsFilled, Short, parse_buffer-Reads}
use openslp.Daemon.{put_srv_ack}

-- A body that acknowledges with this code.
abbrev pub IsSrvAck : (errorcode : ℕ) → Body → Type 0
IsSrvAck errorcode (srvack r) = r.errorcode ≡ errorcode
IsSrvAck errorcode _ = ⊥

parse_body-IsSrvAck :
    {mem : ℕ → ℕ} {size : ℕ} (platform : Platform) (old : Body) (errorcode : ℕ) {b : Buffer}
    → errorcode < 2 ^ 16
    → Reads mem size (put_uint16 errorcode ++ []) b
    → Ensures Never
        (λ r b'. IsSrvAck errorcode r × (b'.mem ≡ mem))
        (parse_body platform funct_srvack old b)
unfolding parse_body as_body parse_srv_ack
parse_body-IsSrvAck {mem} platform old errorcode small h =
    bind {P = λ r b'. (r.errorcode ≡ errorcode) × (b'.mem ≡ mem)}
      (bind (get_uint16-Reads errorcode small h) λ code b1 (e, h1). returns (e, h1.same_mem))
      λ r b1 q. returns q

-- What the daemon answers to a registration or de-registration, SLPMessageParseBuffer parses to the id, the
-- language tag and the error code of the answer, if the language tag has two characters at least and the
-- numbers fit their fields.
pub parse_buffer-put_srv_ack :
    (platform : Platform) (peeraddr localaddr : Option Sockaddr) (mp : Message) (b : Buffer)
    (xid : ℕ) (langtag : List ℕ) (errorcode : ℕ)
    → xid < 2 ^ 16
    → 2 ≤ length langtag
    → Short langtag
    → errorcode < 2 ^ 16
    → IsFilled (put_srv_ack xid langtag errorcode) b
    → Ensures Never
        (λ m b'.
          HeaderIs b.mem funct_srvack b.size 0 0 xid langtag m.header
          × IsSrvAck errorcode m.body
          × (b'.mem ≡ b.mem))
        (parse_buffer platform peeraddr localaddr mp b)
unfolding put_srv_ack put_uint16
parse_buffer-put_srv_ack platform peeraddr localaddr mp b xid langtag errorcode sx two st se
      filled =
    parse_buffer-Reads platform peeraddr localaddr mp funct_srvack 0 xid langtag
      (put_uint16 errorcode) (IsSrvAck errorcode) b
      (record {
        low = omega arith;
        high = omega arith;
        size_small = omega (arith, size, st);
        flags_small = omega arith;
        reserved = refl;
        ext = omega arith;
        xid_small = sx;
        tag_small = st;
      })
      (omega (arith, two))
      (subst (λ n. IsFilled (put_header funct_srvack n 0 0 xid langtag ++ put_uint16 errorcode) b)
        (sym size) filled)
      λ b1 h1. parse_body-IsSrvAck platform _ errorcode se h1
  where
    size : b.size ≡ length langtag + 16
    size = omega (
      arith,
      filled.size,
      length-append (put_header funct_srvack (length langtag + 16) 0 0 xid langtag)
          (put_uint16 errorcode),
      length-put_header funct_srvack (length langtag + 16) 0 0 xid langtag,
    )
