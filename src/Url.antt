-- ===== src/Url.antt =====
-- SLPParseSrvUrl of common/slp_parse.c and SLPParseSrvURL of libslp/libslp_parse.c. A string that ends in NUL is the
-- list of the bytes in front of it.
pub mod RoundTrip
use openslp.Base.{
  ℕ, ◌+◌, Bool, true, false, ◌&&◌, ◌==◌, if◌then◌else◌, Option, none, some, List, [], ◌∷◌, drop,
  length, ◌⊎◌, inl, inr, ℤ, pos, negsuc,
}

-- SLPParsedSrvUrl.
pub record ParsedSrvUrl : Type 0 where
  pub srvtype : List ℕ
  pub host : List ℕ
  pub port : ℤ
  pub family : List ℕ
  pub remainder : List ℕ

-- The error numbers that SLPParseSrvUrl returns.
pub data Errno : Type 0 where
  enomem : Errno
  einval : Errno

abbrev nf_ipv6 : List ℕ
nf_ipv6 = b'v' ∷ b'6' ∷ []

-- What the string copied from a counted one holds.
unfoldable pub up_to_nul : List ℕ → List ℕ
up_to_nul [] = []
up_to_nul (c ∷ s) = if c == 0 then [] else c ∷ up_to_nul s

-- A place in a string: what is in front of it, and what is behind.
abbrev pub Place : Type 0
Place = Option (List ℕ × List ℕ)

abbrev pub further : ℕ → Place → Place
further c none = none
further c (some (front, behind)) = some (c ∷ front, behind)

-- `strchr`.
unfoldable pub strchr : List ℕ → ℕ → Place
strchr [] sought = none
strchr (c ∷ s) sought = if c == sought then some ([], s) else further c (strchr s sought)

abbrev pub at_delimiter : List ℕ → Bool
at_delimiter (a ∷ b ∷ c ∷ s) = (a == b':') && (b == b'/') && (c == b'/')
at_delimiter s = false

-- `strstr` for "://".
unfoldable pub strstr : List ℕ → Place
strstr [] = none
strstr (c ∷ s) = if at_delimiter (c ∷ s) then some ([], drop 2 s) else further c (strstr s)

-- The string once a NUL is written at the place, and what follows it.
abbrev pub terminated : List ℕ → Place → List ℕ
terminated s none = s
terminated s (some (front, behind)) = front

abbrev pub behind_or : List ℕ → Place → List ℕ
behind_or s none = s
behind_or s (some (front, behind)) = behind

-- A host in brackets, with what follows it.
unfoldable pub bracketed : List ℕ → Place
bracketed [] = none
bracketed (c ∷ s) = if c == b'[' then strchr s b']' else none

module _ (atoi : List ℕ → ℤ) where
  abbrev pub port_at : Place → ℤ
  port_at none = pos 0
  port_at (some (front, behind)) = atoi behind

  -- From the host on, by the place of the closing bracket.
  unfoldable pub parse_located : (srvtype location : List ℕ) → Place → ParsedSrvUrl
  parse_located srvtype location none =
      let path = strchr location b'/' in
      let colon = strchr (terminated location path) b':' in
      record {
        srvtype = srvtype;
        host = terminated (terminated location path) colon;
        port = port_at colon;
        family = [];
        remainder = behind_or [] path;
      }
  parse_located srvtype location (some (host, rest)) =
      let path = strchr rest b'/' in
      record {
        srvtype = srvtype;
        host = host;
        port = port_at (strchr (terminated rest path) b':');
        family = nf_ipv6;
        remainder = behind_or [] path;
      }

  abbrev pub parse_typed : Place → Errno ⊎ ParsedSrvUrl
  parse_typed none = inl einval
  parse_typed (some (srvtype, location)) = inr (parse_located srvtype location (bracketed location))

  -- SLPParseSrvUrl; `structure` is the size of the structure, and "ipx" with its NUL takes 4 bytes.
  unfoldable pub parse_srv_url :
      (xmalloc : ℕ → Bool) (structure : ℕ) (srvurl : List ℕ) → Errno ⊎ ParsedSrvUrl
  parse_srv_url xmalloc structure srvurl =
      if xmalloc (structure + 4 + length srvurl + 1)
      then parse_typed (strstr (up_to_nul srvurl))
      else inl enomem

-- The switch of SLPParseSrvURL: SLP_MEMORY_ALLOC_FAILED, SLP_PARSE_ERROR and SLP_OK.
unfoldable pub api_code : Errno ⊎ ParsedSrvUrl → ℤ
api_code (inl enomem) = negsuc 20
api_code (inl einval) = negsuc 1
api_code (inr url) = pos 0
