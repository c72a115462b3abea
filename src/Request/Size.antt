-- ===== src/Request/Size.antt =====
-- The sizes that the writers allocate.
use openslp.Base.{
  ℕ, ◌+◌, ◌≡◌, Bool, true, false, List, [], ◌∷◌, refl, length, length-append, if◌then◌else◌, arith,
}
use openslp.Wire.Put.{
  put_uint16, put_uint24, put_uint32, put_l16_string, put_url_entry, sizeof_url_entry,
}
use openslp.Message.Put.{length-put_header}
use openslp.Request.{calc_buffer_size, put_request, put_reg_fields, put_reg_pid, put_srv_reg}

pub length-put_l16_string : (str : List ℕ) → length (put_l16_string str) ≡ 2 + length str
unfolding put_l16_string put_uint16
length-put_l16_string str = omega arith

-- The responder list, where the type carries one.
length-optional :
    (t : Bool) (str : List ℕ)
    → length (if t then put_l16_string str else []) ≡ (if t then 2 + length str else 0)
length-optional true str = length-put_l16_string str
length-optional false str = refl

-- NetworkRqstRply allocates exactly what it writes: for every message type, address, offset, id,
-- language tag, responder list and body, CalcBufferSize is the number of bytes that are written.
pub length-put_request :
    (buftype : ℕ) (mcast : Bool) (extoffset xid : ℕ) (langtag prlist buf : List ℕ)
    → length (put_request buftype mcast extoffset xid langtag prlist buf)
      ≡ calc_buffer_size false buftype (length langtag) (length prlist) (length buf)
unfolding put_request calc_buffer_size
length-put_request buftype mcast extoffset xid langtag prlist buf =
    simp (length-append, length-put_header, length-optional) (omega arith)

-- PutURLEntry writes one byte less than SizeofURLEntry counts.
pub length-put_url_entry :
    (lifetime : ℕ) (url urlauth : List ℕ)
    → length (put_url_entry lifetime url urlauth) + 1
      ≡ sizeof_url_entry (length url) (length urlauth)
unfolding put_url_entry sizeof_url_entry put_uint16
length-put_url_entry lifetime url [] = simp length-append (omega arith)
length-put_url_entry lifetime url (x ∷ urlauth) = simp length-append (ground arith)

length-put_reg_pid : (pid : ℕ) → length (put_reg_pid pid) ≡ 9
unfolding put_reg_pid put_uint16 put_uint24 put_uint32
length-put_reg_pid pid = refl

length-put_reg_fields :
    (lifetime : ℕ) (url urlauth srvtype scopelist attrlist attrauth : List ℕ)
    → length (put_reg_fields lifetime url urlauth srvtype scopelist attrlist attrauth) + 1
      ≡ sizeof_url_entry (length url) (length urlauth)
        + 2
        + length srvtype
        + 2
        + length scopelist
        + 2
        + length attrlist
        + 1
        + length attrauth
unfolding put_reg_fields
length-put_reg_fields lifetime url urlauth srvtype scopelist attrlist attrauth =
    simp (length-append, length-put_l16_string)
      (omega (arith, length-put_url_entry lifetime url urlauth))

-- What ProcessSrvReg of the library writes, with the process id extension or without, leaves one byte
-- of what it allocates.
pub length-put_srv_reg :
    (lifetime : ℕ) (url urlauth srvtype scopelist attrlist attrauth : List ℕ) (watch : Bool)
    (pid : ℕ)
    → length (put_srv_reg lifetime url urlauth srvtype scopelist attrlist attrauth watch pid) + 1
      ≡ sizeof_url_entry (length url) (length urlauth)
        + 2
        + length srvtype
        + 2
        + length scopelist
        + 2
        + length attrlist
        + 1
        + length attrauth
        + (if watch then 2 + 3 + 4 else 0)
unfolding put_srv_reg
length-put_srv_reg lifetime url urlauth srvtype scopelist attrlist attrauth true pid =
    simp length-append (
      omega (
        arith,
        length-put_reg_pid pid,
        length-put_reg_fields lifetime url urlauth srvtype scopelist attrlist attrauth,
      ))
length-put_srv_reg lifetime url urlauth srvtype scopelist attrlist attrauth false pid =
    simp length-append (
      omega (arith, length-put_reg_fields lifetime url urlauth srvtype scopelist attrlist attrauth))
