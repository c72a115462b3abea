-- ===== src/Tests/Message.antt =====
-- Runs of the message parser.
use openslp.Base.{ℕ, ◌+◌, ◌≡◌, refl, none, some, List, [], ◌∷◌}
use openslp.Wire.{
  Buffer, done, fail, get_byte, get_uint16, get_uint24, get_uint32, get_str_ptr, as_uint16,
  as_uint24, as_uint32,
}
use openslp.Wire.Ensures.{Ensures}
use openslp.Wire.Safe.{IsSafe}
use openslp.Message.Types.{Header, srvack}
use openslp.Message.Fields.{
  require, check_end, tell, seek, get_string, terminate, parse_auth_block, parse_auth_blocks,
  allocate, parse_auth_array, parse_url_entry,
}
use openslp.Message.Bodies.{parse_srv_ack, parse_srv_reg}
use openslp.Message.Parse.{
  refuse_if, require_size, check_header, parse_v2_header, require_ahead, apply_reg_pid,
  apply_extension, extension_round, parse_extensions, parse_extension, as_body, parse_body,
  parse_rest, parse_v2_message, parse_versioned, peek_version, parse_buffer, free_body,
}
use openslp.Message.Within.{MessageWithin}
use openslp.Message.Safe.Whole.{parse_buffer-IsSafe}
use openslp.Message.Overread.{Overreads, parse_v2_message-Overreads}
use openslp.Tests.Buffers.{of_bytes, plenty, blank}

-- A SrvAck with the language tag "en" and the error code 3.
abbrev ack : List ℕ
ack = 2 ∷ 5 ∷ 0 ∷ 0 ∷ 18 ∷ 0 ∷ 0 ∷ 0 ∷ 0 ∷ 0 ∷ 0 ∷ 9 ∷ 0 ∷ 2 ∷ b'e' ∷ b'n' ∷ 0 ∷ 3 ∷ []

-- A SrvAck whose language tag takes the error code's place.
abbrev cut_ack : List ℕ
cut_ack = 2 ∷ 5 ∷ 0 ∷ 0 ∷ 18 ∷ 0 ∷ 0 ∷ 0 ∷ 0 ∷ 0 ∷ 0 ∷ 9 ∷ 0 ∷ 4 ∷ b'e' ∷ b'n' ∷ b'-' ∷ b'x' ∷ []

-- What the runs unfold.
parsers : Unit {0}
unfolding get_byte get_uint16 get_uint24 get_uint32 get_str_ptr as_uint16 as_uint24 as_uint32
    require check_end tell seek get_string terminate parse_auth_block parse_auth_blocks allocate
    parse_auth_array parse_url_entry parse_srv_ack parse_srv_reg refuse_if require_size check_header
    parse_v2_header require_ahead apply_reg_pid apply_extension extension_round parse_extensions
    parse_extension as_body parse_body parse_rest parse_v2_message parse_versioned peek_version
    parse_buffer free_body
parsers = tt

-- The error code of a SrvAck that was parsed.
ack_code : List ℕ → ℕ
unfolding parsers
ack_code l = elim (parse_buffer plenty none none blank (of_bytes l)) [
  | done m b ↦ elim m.body [ srvack r ↦ r.errorcode | _ ↦ 100 ]
  | fail e b ↦ 100 + e
]

ack_runs : ack_code ack ≡ 3
unfolding ack_code
ack_runs = refl

-- Version 1 is refused with SLP_ERROR_VER_NOT_SUPPORTED.
version_one : ack_code (1 ∷ []) ≡ 109
unfolding ack_code
version_one = refl

parse_buffer-IsSafe_example :
    Ensures
      (IsSafe (of_bytes ack))
      (λ m b'. IsSafe (of_bytes ack) b' × MessageWithin 18 m)
      (parse_buffer plenty none none blank (of_bytes ack))
parse_buffer-IsSafe_example = parse_buffer-IsSafe plenty none none blank (of_bytes ack) refl

abbrev cut_header : Header
cut_header = record {
  version = 2;
  functionid = 5;
  length = 18;
  flags = 0;
  encoding = 0;
  extoffset = 0;
  xid = 9;
  langtag = record { len = 4; ptr = some 14 };
}

abbrev after_cut_header : Buffer
after_cut_header = record (of_bytes cut_ack) { curpos = 18; reach = 14 }

cut_header_parsed : parse_v2_header (of_bytes cut_ack) ≡ done cut_header after_cut_header
unfolding parsers
cut_header_parsed = refl

parse_v2_message-Overreads_example :
    Overreads (parse_v2_message plenty (srvack (record { errorcode = 0 })) (of_bytes cut_ack))
parse_v2_message-Overreads_example =
    parse_v2_message-Overreads plenty (srvack (record { errorcode = 0 })) (of_bytes cut_ack)
      after_cut_header cut_header cut_header_parsed refl refl refl
