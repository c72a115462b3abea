-- ===== src/Request.antt =====
-- The requests that the library writes: NetworkRqstRply of libslp/libslp_network.c (its SLPv2 header,
-- previous-responder list and body) and the bodies of ProcessSrvRqst, ProcessAttrRqst,
-- ProcessSrvTypeRqst, ProcessSrvDeReg and ProcessSrvReg of libslp/libslp_findsrvs.c,
-- libslp_findattrs.c, libslp_findsrvtypes.c, libslp_dereg.c and libslp_reg.c. A string is the list of
-- its bytes.
pub mod Size
pub mod Parsed
pub mod RoundTrip
pub mod Attrs
pub mod SrvTypes
use openslp.Base.{ℕ, ◌+◌, Bool, false, ◌||◌, List, [], ◌∷◌, ◌++◌, length, if◌then◌else◌, ◌==◌}
use openslp.Wire.Put.{put_uint16, put_uint24, put_uint32, put_l16_string, put_url_entry}
use openslp.Message.Put.{put_header}
use openslp.Message.Types.{
  funct_srvrqst, funct_srvreg, funct_attrrqst, funct_srvtyperqst, extension_id_reg_pid_exp,
}

-- The message types that carry a previous-responder list.
abbrev pub has_prlist : ℕ → Bool
has_prlist buftype =
    (buftype == funct_srvrqst) || ((buftype == funct_attrrqst) || (buftype == funct_srvtyperqst))

-- CalcBufferSize.
unfoldable pub calc_buffer_size : (v1 : Bool) (buftype langsize prlistlen bufsize : ℕ) → ℕ
calc_buffer_size v1 buftype langsize prlistlen bufsize =
    (if v1 then 12 else 14 + langsize) + bufsize + (if has_prlist buftype then 2 + prlistlen else 0)

-- The flags: SLP_FLAG_MCAST towards a multicast address, SLP_FLAG_FRESH in a registration.
abbrev pub request_flags : (buftype : ℕ) (mcast : Bool) → ℕ
request_flags buftype mcast =
    (if mcast then 0x2000 else 0) + (if buftype == funct_srvreg then 0x4000 else 0)

-- The extension offset, which the caller gives relative to its body.
abbrev pub fixed_extoffset : (extoffset langtaglen : ℕ) → ℕ
fixed_extoffset extoffset langtaglen = if extoffset == 0 then 0 else extoffset + langtaglen + 14

-- The send buffer of NetworkRqstRply for SLPv2.
unfoldable pub put_request :
    (buftype : ℕ) (mcast : Bool) (extoffset xid : ℕ) (langtag prlist buf : List ℕ) → List ℕ
put_request buftype mcast extoffset xid langtag prlist buf =
    let size = calc_buffer_size false buftype (length langtag) (length prlist) (length buf) in
    put_header buftype size (request_flags buftype mcast)
      (fixed_extoffset extoffset (length langtag)) xid langtag
    ++ ((if has_prlist buftype then put_l16_string prlist else []) ++ buf)

-- The body of ProcessSrvRqst.
unfoldable pub put_srv_rqst : (srvtype scopelist predicate spistr : List ℕ) → List ℕ
put_srv_rqst srvtype scopelist predicate spistr =
    put_l16_string srvtype
    ++ (put_l16_string scopelist ++ (put_l16_string predicate ++ put_l16_string spistr))

-- The body of ProcessAttrRqst.
unfoldable pub put_attr_rqst : (url scopelist taglist spistr : List ℕ) → List ℕ
put_attr_rqst url scopelist taglist spistr =
    put_l16_string url
    ++ (put_l16_string scopelist ++ (put_l16_string taglist ++ put_l16_string spistr))

-- The body of ProcessSrvTypeRqst; `wildcard` says that the naming authority is "*".
unfoldable pub put_srv_type_rqst : (wildcard : Bool) (namingauth scopelist : List ℕ) → List ℕ
put_srv_type_rqst wildcard namingauth scopelist =
    (if wildcard then put_uint16 0xffff else put_l16_string namingauth) ++ put_l16_string scopelist

-- The body of ProcessSrvDeReg: an URL entry without a lifetime and an empty tag list.
unfoldable pub put_srv_de_reg : (scopelist url urlauth : List ℕ) → List ℕ
put_srv_de_reg scopelist url urlauth =
    put_l16_string scopelist ++ (put_url_entry 0 url urlauth ++ put_l16_string [])

-- The body of ProcessSrvReg up to the extension; `attrauth` is empty where there is none.
unfoldable pub put_reg_fields :
    (lifetime : ℕ) (url urlauth srvtype scopelist attrlist attrauth : List ℕ) → List ℕ
put_reg_fields lifetime url urlauth srvtype scopelist attrlist attrauth =
    put_url_entry lifetime url urlauth
    ++ (put_l16_string srvtype
        ++ (put_l16_string scopelist
            ++ (put_l16_string attrlist ++ ((if length attrauth == 0 then 0 else 1) ∷ attrauth))))

-- The extension SLP_EXTENSION_ID_REG_PID_EXP, with no extension after it.
unfoldable pub put_reg_pid : (pid : ℕ) → List ℕ
put_reg_pid pid = put_uint16 extension_id_reg_pid_exp ++ (put_uint24 0 ++ put_uint32 pid)

-- The body of ProcessSrvReg; `watch` says whether the process id is to be watched.
unfoldable pub put_srv_reg :
    (lifetime : ℕ) (url urlauth srvtype scopelist attrlist attrauth : List ℕ) (watch : Bool)
    (pid : ℕ)
    → List ℕ
put_srv_reg lifetime url urlauth srvtype scopelist attrlist attrauth watch pid =
    put_reg_fields lifetime url urlauth srvtype scopelist attrlist attrauth
    ++ (if watch then put_reg_pid pid else [])
