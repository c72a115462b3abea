-- ===== src/Message/Within.antt =====
-- What a parsed message points at: every string and block lies inside the buffer.
use openslp.Base.{ℕ, ◌+◌, ◌≤◌, none, some, All}
use openslp.Message.Types.{
  Str, AuthBlock, UrlEntry, Header, Body, srvrqst, srvrply, srvreg, srvdereg, srvack, daadvert,
  attrrqst, attrrply, srvtyperqst, srvtyperply, saadvert, Message,
}

-- The bytes of the string are below offset `n`.
abbrev pub StrWithin : ℕ → Str → Type 0
StrWithin n s = elim s.ptr [ none ↦ Unit {0} | some p ↦ p + s.len ≤ n ]

pub record AuthWithin (n : ℕ) (a : AuthBlock) : Type 0 where
  pub spistr : StrWithin n a.spistr
  pub authstruct : a.authstruct ≤ n
  pub opaque : a.opaque + a.opaquelen ≤ n

-- The block of the whole entry may take in the terminator, which its number of authentication blocks is read from
-- where the URL ends the buffer.
pub record UrlWithin (n : ℕ) (u : UrlEntry) : Type 0 where
  pub url : StrWithin n u.url
  pub opaque : u.opaque + u.opaquelen ≤ n + 1
  pub autharray : All (AuthWithin n) u.autharray

abbrev pub BodyWithin : ℕ → Body → Type 0
BodyWithin n (srvrqst r) =
    StrWithin n r.prlist
    × StrWithin n r.srvtype
    × StrWithin n r.scopelist
    × StrWithin n r.predicate
    × StrWithin n r.spistr
BodyWithin n (srvrply r) = All (UrlWithin n) r.urlarray
BodyWithin n (srvreg r) =
    UrlWithin n r.urlentry
    × StrWithin n r.srvtype
    × StrWithin n r.scopelist
    × StrWithin n r.attrlist
    × All (AuthWithin n) r.autharray
BodyWithin n (srvdereg r) = StrWithin n r.scopelist × UrlWithin n r.urlentry × StrWithin n r.taglist
BodyWithin n (srvack r) = Unit {0}
BodyWithin n (daadvert r) =
    StrWithin n r.url
    × StrWithin n r.scopelist
    × StrWithin n r.attrlist
    × StrWithin n r.spilist
    × All (AuthWithin n) r.autharray
BodyWithin n (attrrqst r) =
    StrWithin n r.prlist
    × StrWithin n r.url
    × StrWithin n r.scopelist
    × StrWithin n r.taglist
    × StrWithin n r.spistr
BodyWithin n (attrrply r) = StrWithin n r.attrlist × All (AuthWithin n) r.autharray
BodyWithin n (srvtyperqst r) =
    StrWithin n r.prlist × StrWithin n r.namingauth × StrWithin n r.scopelist
BodyWithin n (srvtyperply r) = StrWithin n r.srvtypelist
BodyWithin n (saadvert r) =
    StrWithin n r.url
    × StrWithin n r.scopelist
    × StrWithin n r.attrlist
    × All (AuthWithin n) r.autharray

-- A header, its language tag and its extension offset.
pub record HeaderWithin (n : ℕ) (h : Header) : Type 0 where
  pub langtag : StrWithin n h.langtag
  pub extoffset : h.extoffset ≤ n

pub record MessageWithin (n : ℕ) (m : Message) : Type 0 where
  pub header : HeaderWithin n m.header
  pub body : BodyWithin n m.body
