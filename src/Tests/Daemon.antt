-- ===== src/Tests/Daemon.antt =====
-- The daemon's handlers at concrete inputs.
use openslp.Base.{
  ℕ, ◌+◌, ◌≡◌, refl, true, false, not, ◌&&◌, ◌==◌, if◌then◌else◌, none, some, List, [], ◌∷◌, arith,
}
use openslp.Wire.Put.{put_uint16, put_uint24}
use openslp.Wire.Ensures.{Ensures}
use openslp.Wire.Reads.{Never}
use openslp.Message.Types.{Str, null_str, UrlEntry, SrvReg, SrvDeReg}
use openslp.Message.Put.{put_header}
use openslp.Message.Parse.{parse_buffer}
use openslp.Message.Reads.{HeaderIs}
use openslp.Daemon.{
  Daemon, put_srv_ack, process_srv_reg, process_srv_de_reg, with_source, has_mcast,
}
use openslp.Daemon.Ack.{IsSrvAck, parse_buffer-put_srv_ack}
use openslp.Daemon.Guards.{
  Answers, by_multicast, common_scopes, process_srv_reg-Guarded, process_srv_de_reg-Guarded,
}
use openslp.Tests.Buffers.{of_bytes, plenty, blank}

abbrev en : List ℕ
en = b'e' ∷ b'n' ∷ []

abbrev refused : List ℕ
refused = put_srv_ack 77 en 4

parse_buffer-put_srv_ack_example :
    Ensures Never
      (λ m b'.
        HeaderIs (of_bytes refused).mem 5 (of_bytes refused).size 0 0 77 en m.header
        × IsSrvAck 4 m.body
        × (b'.mem ≡ (of_bytes refused).mem))
      (parse_buffer plenty none none blank (of_bytes refused))
unfolding put_srv_ack put_header put_uint16 put_uint24
parse_buffer-put_srv_ack_example =
    parse_buffer-put_srv_ack plenty none none blank (of_bytes refused) 77 en 4 (omega arith)
      (omega arith) (omega arith) (omega arith) (record { size = refl; bytes_eq = λ i h. refl })

-- A database that counts its calls, and a daemon that serves the scope "A".
abbrev daemon : Daemon ℕ
daemon = record {
  database_reg = λ r d. (d + 1, 0);
  database_de_reg = λ r d. (d + 100, 0);
  is_mcast = λ p. false;
  is_loopback = λ p. true;
  use_scopes = b'A' ∷ [];
  realloc = λ n. true;
  copies = λ s1 s2. true;
}

-- The memory holds the letter "a" everywhere.
abbrev pub letters : ℕ → ℕ
letters p = b'a'

abbrev pub scope : Str
scope = record { len = 1; ptr = some 0 }

abbrev pub entry : UrlEntry
entry = record {
  reserved = 0;
  lifetime = 60;
  url = scope;
  authcount = 0;
  autharray = [];
  opaquelen = 7;
  opaque = 0;
}

abbrev pub registration : SrvReg
registration = record {
  urlentry = entry;
  srvtype = scope;
  scopelist = scope;
  attrlist = null_str;
  authcount = 0;
  autharray = [];
  pid = 0;
  source = 0;
}

abbrev removal : SrvDeReg
removal = record { scopelist = scope; urlentry = entry; taglist = null_str }

process_srv_reg-Guarded_example :
    Answers daemon letters
      (by_multicast daemon letters blank)
      true
      blank
      (process_srv_reg daemon letters blank registration 5 0)
    × ((process_srv_reg daemon letters blank registration 5 0).database ≡ (
        if (0 == 0)
          && (not (by_multicast daemon letters blank)
              && not (common_scopes daemon letters registration.scopelist == 0))
        then (daemon.database_reg (with_source daemon letters blank registration) 5).0
        else 5))
process_srv_reg-Guarded_example = process_srv_reg-Guarded daemon letters blank registration 5 0

process_srv_de_reg-Guarded_example :
    Answers daemon letters
      (by_multicast daemon letters blank)
      true
      blank
      (process_srv_de_reg daemon letters blank removal 5 0)
    × ((process_srv_de_reg daemon letters blank removal 5 0).database ≡ (
        if (0 == 0)
          && (not (has_mcast blank.header.flags)
              && not (common_scopes daemon letters removal.scopelist == 0))
        then (daemon.database_de_reg removal 5).0
        else 5))
process_srv_de_reg-Guarded_example = process_srv_de_reg-Guarded daemon letters blank removal 5 0
