-- ===== src/Message/Types.antt =====
-- The constants and structures of common/slp_message.h.
use openslp.Base.{ℕ, Bool, Option, none, List}

-- SLP Protocol Error codes.
abbrev pub parse_error : ℕ
parse_error = 2

abbrev pub ver_not_supported : ℕ
ver_not_supported = 9

abbrev pub internal_error : ℕ
internal_error = 10

abbrev pub option_not_understood : ℕ
option_not_understood = 12

abbrev pub message_not_supported : ℕ
message_not_supported = 14

-- SLP Function ID constants.
abbrev pub funct_srvrqst : ℕ
funct_srvrqst = 1

abbrev pub funct_srvrply : ℕ
funct_srvrply = 2

abbrev pub funct_srvreg : ℕ
funct_srvreg = 3

abbrev pub funct_srvdereg : ℕ
funct_srvdereg = 4

abbrev pub funct_srvack : ℕ
funct_srvack = 5

abbrev pub funct_attrrqst : ℕ
funct_attrrqst = 6

abbrev pub funct_attrrply : ℕ
funct_attrrply = 7

abbrev pub funct_daadvert : ℕ
funct_daadvert = 8

abbrev pub funct_srvtyperqst : ℕ
funct_srvtyperqst = 9

abbrev pub funct_srvtyperply : ℕ
funct_srvtyperply = 10

abbrev pub funct_saadvert : ℕ
funct_saadvert = 11

-- SLP Extension IDs.
abbrev pub extension_id_reg_pid : ℕ
extension_id_reg_pid = 0x4001

abbrev pub extension_id_reg_pid_exp : ℕ
extension_id_reg_pid_exp = 0x9799

-- A counted string: the source's fields `xlen` and `x`, the pointer as its offset from
-- `buffer->start`, `none` for NULL.
pub record Str : Type 0 where
  pub len : ℕ
  pub ptr : Option ℕ

abbrev pub null_str : Str
null_str = record { len = 0; ptr = none }

pub record Header : Type 0 where
  pub version : ℕ
  pub functionid : ℕ
  pub length : ℕ
  pub flags : ℕ
  pub encoding : ℕ
  pub extoffset : ℕ
  pub xid : ℕ
  pub langtag : Str

-- `opaque` and `authstruct` are offsets.
pub record AuthBlock : Type 0 where
  pub bsd : ℕ
  pub length : ℕ
  pub timestamp : ℕ
  pub spistr : Str
  pub authstruct : ℕ
  pub opaquelen : ℕ
  pub opaque : ℕ

-- An array that was allocated is the list of its elements, and the NULL array is `[]`.
pub record UrlEntry : Type 0 where
  pub reserved : ℕ
  pub lifetime : ℕ
  pub url : Str
  pub authcount : ℕ
  pub autharray : List AuthBlock
  pub opaquelen : ℕ
  pub opaque : ℕ

pub record SrvRqst : Type 0 where
  pub prlist : Str
  pub srvtype : Str
  pub scopelist : Str
  pub predicatever : ℕ
  pub predicate : Str
  pub spistr : Str

pub record SrvRply : Type 0 where
  pub errorcode : ℕ
  pub urlcount : ℕ
  pub urlarray : List UrlEntry

pub record SrvReg : Type 0 where
  pub urlentry : UrlEntry
  pub srvtype : Str
  pub scopelist : Str
  pub attrlist : Str
  pub authcount : ℕ
  pub autharray : List AuthBlock
  pub pid : ℕ
  pub source : ℕ

pub record SrvDeReg : Type 0 where
  pub scopelist : Str
  pub urlentry : UrlEntry
  pub taglist : Str

pub record SrvAck : Type 0 where
  pub errorcode : ℕ

pub record DaAdvert : Type 0 where
  pub errorcode : ℕ
  pub bootstamp : ℕ
  pub url : Str
  pub scopelist : Str
  pub attrlist : Str
  pub spilist : Str
  pub authcount : ℕ
  pub autharray : List AuthBlock

pub record AttrRqst : Type 0 where
  pub prlist : Str
  pub url : Str
  pub scopelist : Str
  pub taglist : Str
  pub spistr : Str

pub record AttrRply : Type 0 where
  pub errorcode : ℕ
  pub attrlist : Str
  pub authcount : ℕ
  pub autharray : List AuthBlock

pub record SrvTypeRqst : Type 0 where
  pub prlist : Str
  pub namingauth : Str
  pub scopelist : Str

pub record SrvTypeRply : Type 0 where
  pub errorcode : ℕ
  pub srvtypelist : Str

pub record SaAdvert : Type 0 where
  pub url : Str
  pub scopelist : Str
  pub attrlist : Str
  pub authcount : ℕ
  pub autharray : List AuthBlock

-- The union `body`, with the member that was written last.
pub data Body : Type 0 where
  srvrqst : SrvRqst → Body
  srvrply : SrvRply → Body
  srvreg : SrvReg → Body
  srvdereg : SrvDeReg → Body
  srvack : SrvAck → Body
  daadvert : DaAdvert → Body
  attrrqst : AttrRqst → Body
  attrrply : AttrRply → Body
  srvtyperqst : SrvTypeRqst → Body
  srvtyperply : SrvTypeRply → Body
  saadvert : SaAdvert → Body

-- The bytes of a `struct sockaddr_storage`.
abbrev pub Sockaddr : Type 0
Sockaddr = List ℕ

pub record Message : Type 0 where
  pub peer : Sockaddr
  pub localaddr : Sockaddr
  pub header : Header
  pub body : Body

-- What the parser depends on outside the sources: whether the k-th call of `xmalloc` for n bytes
-- succeeds, the sizes of two structures, and what the fields `pid` and `source` of a SLPSrvReg read
-- when the union last held another body: the parser writes neither of them.
pub record Platform : Type 0 where
  pub xmalloc : ℕ → ℕ → Bool
  pub sizeof_auth_block : ℕ
  pub sizeof_url_entry : ℕ
  pub stale_pid : Body → ℕ
  pub stale_source : Body → ℕ
