-- ===== src/Message/Fields.antt =====
-- The parts of a message that several bodies share: counted strings, authentication blocks and URL
-- entries (common/slp_v2message.c).
use openslp.Base.{ℕ, zero, suc, ◌+◌, ◌*◌, ◌-◌, ltb, if◌then◌else◌, List, [], ◌∷◌, none, some}
use openslp.Wire.{
  Parser, done, fail, pure, ◌>>=◌, ◌>>◌, store, get_byte, get_uint16, get_uint32, get_str_ptr,
}
use openslp.Message.Types.{parse_error, internal_error, Str, AuthBlock, UrlEntry, Platform}

-- `if (buffer->end - buffer->curpos < n) return SLP_ERROR_PARSE_ERROR;`
unfoldable pub require : ℕ → Parser (Unit {0})
require n b = if ltb b.size (b.curpos + n) then fail parse_error b else done tt b

-- `if (buffer->curpos > buffer->end) return SLP_ERROR_PARSE_ERROR;`
unfoldable pub check_end : Parser (Unit {0})
check_end b = if ltb b.size b.curpos then fail parse_error b else done tt b

-- `buffer->curpos`
unfoldable pub tell : Parser ℕ
tell b = done b.curpos b

-- `buffer->curpos = start + p`
unfoldable pub seek : ℕ → Parser (Unit {0})
seek p b = done tt (record b { curpos = p })

-- The three statements that read every counted string: its length, its pointer and the check.
unfoldable pub get_string : Parser Str
get_string = do
  len ← get_uint16
  p ← get_str_ptr len
  check_end
  pure (record { len = len; ptr = some p })

-- `if (s) ((uint8_t *)s)[slen] = 0;`
unfoldable pub terminate : Str → Parser (Unit {0})
terminate s b = elim s.ptr [
  | none ↦ done tt b
  | some p ↦ done tt (record b { mem = store b.mem (p + s.len) 0 })
]

unfoldable pub parse_auth_block : Parser AuthBlock
parse_auth_block = do
  require 10
  opaque ← tell
  bsd ← get_uint16
  length ← get_uint16
  timestamp ← get_uint32
  spistr ← get_string
  authstruct ← tell
  seek (opaque + length)
  check_end
  pure (record {
    bsd = bsd;
    length = length;
    timestamp = timestamp;
    spistr = spistr;
    authstruct = authstruct;
    opaquelen = length;
    opaque = opaque;
  })

-- `for (i = 0; i < count; i++)` over v2ParseAuthBlock, with its early return.
unfoldable pub parse_auth_blocks : ℕ → Parser (List AuthBlock)
parse_auth_blocks zero = pure []
parse_auth_blocks (suc n) = do a ← parse_auth_block; rest ← parse_auth_blocks n; pure (a ∷ rest)

module _ (platform : Platform) where
  -- `p = xmalloc(n); if (p == 0) return SLP_ERROR_INTERNAL_ERROR;`
  unfoldable pub allocate : ℕ → Parser (Unit {0})
  allocate n b =
      let b' = record b { allocs = b.allocs + 1 } in
      if platform.xmalloc b.allocs n then done tt b' else fail internal_error b'

  -- `if (authcount) { ... }`: the array of `count` authentication blocks.
  unfoldable pub parse_auth_array : ℕ → Parser (List AuthBlock)
  parse_auth_array zero = pure []
  parse_auth_array (suc n) =
      allocate (suc n * platform.sizeof_auth_block) >> parse_auth_blocks (suc n)

  unfoldable pub parse_url_entry : Parser UrlEntry
  parse_url_entry = do
    require 6
    opaque ← tell
    reserved ← get_byte
    lifetime ← get_uint16
    url ← get_string
    authcount ← get_byte
    autharray ← parse_auth_array authcount
    endpos ← tell
    terminate url
    pure (record {
      reserved = reserved;
      lifetime = lifetime;
      url = url;
      authcount = authcount;
      autharray = autharray;
      opaquelen = endpos - opaque;
      opaque = opaque;
    })

  -- `for (i = 0; i < urlcount; i++)` over v2ParseUrlEntry, with its early return.
  unfoldable pub parse_url_entries : ℕ → Parser (List UrlEntry)
  parse_url_entries zero = pure []
  parse_url_entries (suc n) = do u ← parse_url_entry; rest ← parse_url_entries n; pure (u ∷ rest)
