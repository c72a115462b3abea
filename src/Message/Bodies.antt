-- ===== src/Message/Bodies.antt =====
-- The parsers of the eleven message bodies (common/slp_v2message.c).
use openslp.Base.{ℕ, zero, suc, ◌*◌, ◌||◌, ◌==◌, if◌then◌else◌, List, [], Option, none, some}
use openslp.Wire.{Parser, pure, ◌>>=◌, ◌>>◌, get_byte, get_uint16, get_uint32, get_str_ptr}
use openslp.Message.Types.{
  Str, null_str, Platform, UrlEntry, SrvRqst, SrvRply, SrvReg, SrvDeReg, SrvAck, DaAdvert, AttrRqst,
  AttrRply, SrvTypeRqst, SrvTypeRply, SaAdvert,
}
use openslp.Message.Fields.{
  require, get_string, check_end, terminate, allocate, parse_auth_array, parse_url_entry,
  parse_url_entries,
}

unfoldable pub parse_srv_rqst : Parser SrvRqst
parse_srv_rqst = do
  require 10
  prlist ← get_string
  srvtype ← get_string
  scopelist ← get_string
  predicate ← get_string
  spistr ← get_string
  pure (record {
    prlist = prlist;
    srvtype = srvtype;
    scopelist = scopelist;
    predicatever = 2;
    predicate = predicate;
    spistr = spistr;
  })

unfoldable pub parse_srv_ack : Parser SrvAck
parse_srv_ack = do errorcode ← get_uint16; pure (record { errorcode = errorcode })

unfoldable pub parse_attr_rqst : Parser AttrRqst
parse_attr_rqst = do
  require 10
  prlist ← get_string
  url ← get_string
  scopelist ← get_string
  taglist ← get_string
  spistr ← get_string
  pure (record {
    prlist = prlist;
    url = url;
    scopelist = scopelist;
    taglist = taglist;
    spistr = spistr;
  })

-- The naming authority: a length of 0 means IANA and 0xffff any, and no string follows.
unfoldable pub naming_auth_ptr : ℕ → Parser (Option ℕ)
naming_auth_ptr len =
    if (len == 0) || (len == 0xffff) then pure none else do p ← get_str_ptr len; pure (some p)

unfoldable pub get_naming_auth : Parser Str
get_naming_auth = do
  len ← get_uint16
  p ← naming_auth_ptr len
  check_end
  pure (record { len = len; ptr = p })

unfoldable pub parse_srv_type_rqst : Parser SrvTypeRqst
parse_srv_type_rqst = do
  require 6
  prlist ← get_string
  namingauth ← get_naming_auth
  scopelist ← get_string
  pure (record { prlist = prlist; namingauth = namingauth; scopelist = scopelist })

-- What a reply with an error code holds besides it: `memset(srvtyperply, 0, ...)`.
abbrev failed_srv_type_rply : ℕ → SrvTypeRply
failed_srv_type_rply errorcode = record { errorcode = errorcode; srvtypelist = null_str }

-- The rest of the reply, after an error code of 0.
unfoldable pub parse_srv_type_list : Parser SrvTypeRply
parse_srv_type_list = do
  srvtypelist ← get_string
  terminate srvtypelist
  pure (record { errorcode = 0; srvtypelist = srvtypelist })

unfoldable pub parse_srv_type_rply : Parser SrvTypeRply
parse_srv_type_rply = do
  require 4
  errorcode ← get_uint16
  if errorcode == 0 then parse_srv_type_list else pure (failed_srv_type_rply errorcode)

abbrev failed_da_advert : ℕ → DaAdvert
failed_da_advert errorcode = record {
  errorcode = errorcode;
  bootstamp = 0;
  url = null_str;
  scopelist = null_str;
  attrlist = null_str;
  spilist = null_str;
  authcount = 0;
  autharray = [];
}

abbrev failed_srv_rply : ℕ → SrvRply
failed_srv_rply errorcode = record { errorcode = errorcode; urlcount = 0; urlarray = [] }

abbrev failed_attr_rply : ℕ → AttrRply
failed_attr_rply errorcode = record {
  errorcode = errorcode;
  attrlist = null_str;
  authcount = 0;
  autharray = [];
}

module _ (platform : Platform) where
  -- The array of URL entries, allocated when the count is not 0.
  unfoldable pub parse_url_array : ℕ → Parser (List UrlEntry)
  parse_url_array zero = pure []
  parse_url_array (suc n) =
      allocate platform (suc n * platform.sizeof_url_entry) >> parse_url_entries platform (suc n)

  unfoldable pub parse_urls : Parser SrvRply
  parse_urls = do
    urlcount ← get_uint16
    urlarray ← parse_url_array urlcount
    pure (record { errorcode = 0; urlcount = urlcount; urlarray = urlarray })

  unfoldable pub parse_srv_rply : Parser SrvRply
  parse_srv_rply = do
    require 4
    errorcode ← get_uint16
    if errorcode == 0 then parse_urls else pure (failed_srv_rply errorcode)

  -- `pid` and `source` are what the two fields held before, and the parser writes neither.
  unfoldable pub parse_srv_reg : (pid source : ℕ) → Parser SrvReg
  parse_srv_reg pid source = do
    urlentry ← parse_url_entry platform
    srvtype ← get_string
    scopelist ← get_string
    attrlist ← get_string
    authcount ← get_byte
    autharray ← parse_auth_array platform authcount
    pure (record {
      urlentry = urlentry;
      srvtype = srvtype;
      scopelist = scopelist;
      attrlist = attrlist;
      authcount = authcount;
      autharray = autharray;
      pid = pid;
      source = source;
    })

  unfoldable pub parse_srv_de_reg : Parser SrvDeReg
  parse_srv_de_reg = do
    require 4
    scopelist ← get_string
    urlentry ← parse_url_entry platform
    taglist ← get_string
    pure (record { scopelist = scopelist; urlentry = urlentry; taglist = taglist })

  unfoldable pub parse_attrs : Parser AttrRply
  parse_attrs = do
    attrlist ← get_string
    authcount ← get_byte
    autharray ← parse_auth_array platform authcount
    terminate attrlist
    pure (record {
      errorcode = 0;
      attrlist = attrlist;
      authcount = authcount;
      autharray = autharray;
    })

  unfoldable pub parse_attr_rply : Parser AttrRply
  parse_attr_rply = do
    require 5
    errorcode ← get_uint16
    if errorcode == 0 then parse_attrs else pure (failed_attr_rply errorcode)

  unfoldable pub parse_da : Parser DaAdvert
  parse_da = do
    bootstamp ← get_uint32
    url ← get_string
    scopelist ← get_string
    attrlist ← get_string
    spilist ← get_string
    authcount ← get_byte
    autharray ← parse_auth_array platform authcount
    terminate url
    pure (record {
      errorcode = 0;
      bootstamp = bootstamp;
      url = url;
      scopelist = scopelist;
      attrlist = attrlist;
      spilist = spilist;
      authcount = authcount;
      autharray = autharray;
    })

  unfoldable pub parse_da_advert : Parser DaAdvert
  parse_da_advert = do
    require 15
    errorcode ← get_uint16
    if errorcode == 0 then parse_da else pure (failed_da_advert errorcode)

  unfoldable pub parse_sa_advert : Parser SaAdvert
  parse_sa_advert = do
    require 7
    url ← get_string
    scopelist ← get_string
    attrlist ← get_string
    authcount ← get_byte
    autharray ← parse_auth_array platform authcount
    terminate url
    pure (record {
      url = url;
      scopelist = scopelist;
      attrlist = attrlist;
      authcount = authcount;
      autharray = autharray;
    })
