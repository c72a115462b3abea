-- ===== src/Message/Parse.antt =====
-- The header, the extensions and the whole message: SLPv2MessageParseHeader, v2ParseExtension and
-- SLPv2MessageParseBuffer of common/slp_v2message.c, SLPMessageFreeInternals, SLPMessageParseHeader
-- and SLPMessageParseBuffer of common/slp_message.c, as built without ENABLE_SLPv1.
use openslp.Base.{
  ℕ, suc, ◌+◌, ◌%◌, ◌^◌, Bool, ◌&&◌, ◌||◌, not, ltb, leb, ◌==◌, if◌then◌else◌, [], Option, some,
}
use openslp.Wire.{
  Parser, done, fail, pure, ◌>>=◌, ◌>>◌, get_byte, get_uint16, get_uint24, get_uint32, get_str_ptr,
  later,
}
use openslp.Message.Types.{
  parse_error, ver_not_supported, option_not_understood, message_not_supported, funct_srvrqst,
  funct_srvrply, funct_srvreg, funct_srvdereg, funct_srvack, funct_attrrqst, funct_attrrply,
  funct_daadvert, funct_srvtyperqst, funct_srvtyperply, funct_saadvert, extension_id_reg_pid,
  extension_id_reg_pid_exp, Header, UrlEntry, Body, srvrqst, srvrply, srvreg, srvdereg, srvack,
  daadvert, attrrqst, attrrply, srvtyperqst, srvtyperply, saadvert, Sockaddr, Message, Platform,
}
use mathlib.Core.Option.{get_or}
use openslp.Message.Fields.{check_end, seek}
use openslp.Message.Bodies.{
  parse_srv_rqst, parse_srv_rply, parse_srv_reg, parse_srv_de_reg, parse_srv_ack, parse_attr_rqst,
  parse_attr_rply, parse_da_advert, parse_srv_type_rqst, parse_srv_type_rply, parse_sa_advert,
}

-- `if (test) return SLP_ERROR_PARSE_ERROR;`
unfoldable pub refuse_if : Bool → Parser (Unit {0})
refuse_if test b = if test then fail parse_error b else done tt b

-- `if (buffer->end - buffer->start < n) return SLP_ERROR_PARSE_ERROR;`
unfoldable pub require_size : ℕ → Parser (Unit {0})
require_size n b = if ltb b.size n then fail parse_error b else done tt b

-- The checks of a header that was read: function id, reserved flags, extension offset.
unfoldable pub check_header : Header → Parser (Unit {0})
check_header h = do
  refuse_if (ltb h.functionid funct_srvrqst || ltb funct_saadvert h.functionid)
  refuse_if (not (h.flags % 2 ^ 13 == 0))
  require_size h.extoffset

unfoldable pub parse_v2_header : Parser Header
parse_v2_header = do
  require_size 18
  version ← get_byte
  functionid ← get_byte
  length ← get_uint24
  flags ← get_uint16
  extoffset ← get_uint24
  xid ← get_uint16
  langtaglen ← get_uint16
  langtag ← get_str_ptr langtaglen
  check_end
  let h : Header = record {
    version = version;
    functionid = functionid;
    length = length;
    flags = flags;
    encoding = 0;
    extoffset = extoffset;
    xid = xid;
    langtag = record { len = langtaglen; ptr = some langtag };
  }
  check_header h
  pure h

-- `msg->body.srvreg.pid = pid`
abbrev pub set_pid : ℕ → Body → Body
set_pid pid (srvreg r) = srvreg (record r { pid = pid })
set_pid pid b = b

-- `if (buffer->curpos + n > buffer->end) return SLP_ERROR_PARSE_ERROR;`
unfoldable pub require_ahead : ℕ → Parser (Unit {0})
require_ahead n b = if ltb b.size (b.curpos + n) then fail parse_error b else done tt b

-- SLP_EXTENSION_ID_REG_PID: only a SrvReg takes the process id.
unfoldable pub apply_reg_pid : ℕ → Body → Parser Body
apply_reg_pid functionid body =
    if functionid == funct_srvreg
    then (do require_ahead 4; pid ← get_uint32; pure (set_pid pid body))
    else pure body

-- The switch on `extid`: the body with the extension applied.
unfoldable pub apply_extension : (functionid extid : ℕ) → Body → Parser Body
apply_extension functionid extid body =
    if (extid == extension_id_reg_pid) || (extid == extension_id_reg_pid_exp)
    then apply_reg_pid functionid body
    else if leb 0x4000 extid && leb extid 0x7fff
    then fail option_not_understood
    else pure body

-- One round of the loop after the test of `bufsz`: the next offset and the body.
unfoldable pub extension_round : (functionid nextoffset : ℕ) → Body → Parser (ℕ × Body)
extension_round functionid nextoffset body = do
  seek nextoffset
  require_ahead 5
  extid ← get_uint16
  next ← get_uint24
  body' ← apply_extension functionid extid body
  pure (next, body')

-- `while (nextoffset)`, on `bufsz`: each round takes 5 from it and fails if nothing is left.
unfoldable pub parse_extensions : (bufsz functionid nextoffset : ℕ) → Body → Parser Body
parse_extensions (suc (suc (suc (suc (suc (suc left)))))) functionid nextoffset body =
    if nextoffset == 0 then pure body else do
      (next, body') ← extension_round functionid nextoffset body
      parse_extensions (suc left) functionid next body'
parse_extensions _ functionid nextoffset body =
    if nextoffset == 0 then pure body else fail parse_error

-- v2ParseExtension.
unfoldable pub parse_extension : Header → Body → Parser Body
parse_extension h body b = parse_extensions b.size h.functionid h.extoffset body b

-- `xfree(urlarray[i].autharray); urlarray[i].autharray = 0;`
abbrev pub free_url_entry : UrlEntry → UrlEntry
free_url_entry u = record u { autharray = [] }

-- SLPMessageFreeInternals, where the header's function id names the member that the union holds.
unfoldable pub free_body : Body → Body
free_body (srvrply r) = srvrply (record r { urlarray = [] })
free_body (srvreg r) = srvreg (record r { urlentry = free_url_entry r.urlentry; autharray = [] })
free_body (srvdereg r) = srvdereg (record r { urlentry = free_url_entry r.urlentry })
free_body (attrrply r) = attrrply (record r { autharray = [] })
free_body (daadvert r) = daadvert (record r { autharray = [] })
free_body (saadvert r) = saadvert (record r { autharray = [] })
free_body b = b

-- What the fields `pid` and `source` of the union hold.
abbrev pub held_pid : Platform → Body → ℕ
held_pid platform (srvreg r) = r.pid
held_pid platform b = platform.stale_pid b

abbrev pub held_source : Platform → Body → ℕ
held_source platform (srvreg r) = r.source
held_source platform b = platform.stale_source b

unfoldable pub as_body : {R : Type 0} → (R → Body) → Parser R → Parser Body
as_body member parser = do r ← parser; pure (member r)

module _ (platform : Platform) where
  -- The switch on the function id; `old` is what the union held.
  unfoldable pub parse_body : (functionid : ℕ) (old : Body) → Parser Body
  parse_body functionid old =
      if functionid == funct_srvrqst
      then as_body srvrqst parse_srv_rqst
      else if functionid == funct_srvrply
      then as_body srvrply (parse_srv_rply platform)
      else if functionid == funct_srvreg
      then as_body srvreg
          (parse_srv_reg platform (held_pid platform old) (held_source platform old))
      else if functionid == funct_srvdereg
      then as_body srvdereg (parse_srv_de_reg platform)
      else if functionid == funct_srvack
      then as_body srvack parse_srv_ack
      else if functionid == funct_attrrqst
      then as_body attrrqst parse_attr_rqst
      else if functionid == funct_attrrply
      then as_body attrrply (parse_attr_rply platform)
      else if functionid == funct_daadvert
      then as_body daadvert (parse_da_advert platform)
      else if functionid == funct_srvtyperqst
      then as_body srvtyperqst parse_srv_type_rqst
      else if functionid == funct_srvtyperply
      then as_body srvtyperply parse_srv_type_rply
      else if functionid == funct_saadvert
      then as_body saadvert (parse_sa_advert platform)
      else fail message_not_supported

  -- `if (result == 0 && msg->header.extoffset) result = v2ParseExtension(buffer, msg);`
  unfoldable pub parse_rest : Header → Body → Parser Body
  parse_rest h body = if h.extoffset == 0 then pure body else parse_extension h body

  -- SLPv2MessageParseBuffer: the header and the body.
  unfoldable pub parse_v2_message : (old : Body) → Parser (Header × Body)
  parse_v2_message old = do
    h ← parse_v2_header
    body ← parse_body h.functionid old
    body' ← parse_rest h body
    pure (h, body')

  -- `switch (*buffer->curpos)`: the byte is read, and the position stays.
  unfoldable pub peek_version : Parser ℕ
  peek_version b = done (b.mem b.curpos) (record b { reach = later b.reach (b.curpos + 1) })

  -- The message with its addresses: one that is NULL leaves the message's own.
  unfoldable pub parse_versioned : (peeraddr localaddr : Option Sockaddr) → Message → Parser Message
  parse_versioned peeraddr localaddr mp = do
    (h, body) ← parse_v2_message (free_body mp.body)
    pure (record {
      peer = get_or peeraddr mp.peer;
      localaddr = get_or localaddr mp.localaddr;
      header = h;
      body = body;
    })

  -- SLPMessageParseBuffer.
  unfoldable pub parse_buffer : (peeraddr localaddr : Option Sockaddr) → Message → Parser Message
  parse_buffer peeraddr localaddr mp = do
    seek 0
    version ← peek_version
    if version == 2 then parse_versioned peeraddr localaddr mp else fail ver_not_supported
