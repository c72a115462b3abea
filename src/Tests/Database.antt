-- ===== src/Tests/Database.antt =====
-- The daemon's database at concrete registrations.
use openslp.Base.{
  ℕ, suc, ◌*◌, ◌<◌, ◌≤◌, ◌≡◌, refl, true, false, List, [], ◌∷◌, ◌++◌, length, All, Returns, arith,
}
use openslp.Compare.Chars.{ishex, hex2bin}
use openslp.Compare.Text.{
  compare_string, compare_empty, compare_prepared, prepare, trim, trim_front, trimmed_len,
  strncasecmp, fold_white_space, fold_loop, scan_space, memmove, unescape_in_place,
}
use openslp.Compare.Items.{
  seek_comma, contains_loop, contains_string_list, intersect_loop, intersect_string_list,
}
use openslp.Compare.SrvType.{compare_srv_type, compare_skipped, memchr, skip_service}
use openslp.Database.{
  DatabaseEntry, DeRegistration, Database, Settings, remove_service, has_equals,
  check_attribute_list_syntax, same_bytes, fixed_lifetime, is_identical, is_other_source,
  take_identical, srvtype_used, listen, stored, add, add_scanned, database_reg, stop_listening,
  strncpy, overrun, remove_scanned, database_de_reg, age_entry, age_entries, database_age,
}
use openslp.Daemon.{process_srv_reg, respond, handles_scope, with_source}
use openslp.Daemon.Service.{Host, daemon_of, entry_of, process_srv_reg-Found}
use openslp.Tests.Buffers.{blank}
use openslp.Tests.Daemon.{letters, registration}
use openslp.Database.Requests.{Request, test_entry, start_scan, start_loop, srv_rqst_start}
use openslp.Database.Finds.{matches, Finds, srv_rqst_start-Finds}
use openslp.Database.Replaces.{
  Registered, DeRegistered, IsCopied, database_reg-Registered, database_de_reg-DeRegistered,
}
use openslp.Database.Lifetimes.{IsStored, registers, ages, here, next, Reach-IsStored}
use openslp.Database.Aging.{Permanent, age_rounds, age_rounds-Permanent}

abbrev pub settings : Settings
settings = record {
  copies = λ s1 s2. true;
  opens = true;
  reopens = true;
  normalises = true;
  creates = true;
  check_source_addr = true;
  is_ipv6 = false;
  pid_exists = λ p. true;
  is_loopback = λ a. false;
  is_inet = λ a. true;
  is_inet6 = λ a. false;
  sin_addr = λ a. a;
  sin6_addr = λ a. a;
}

-- A service "a" at "u", in the scope "s".
abbrev pub printer : DatabaseEntry
printer = record {
  url = b'u' ∷ [];
  lifetime = 100;
  srvtype = b'a' ∷ [];
  scopelist = b's' ∷ [];
  attrlist = [];
  pid = 0;
  source = 0;
  peer = 1 ∷ [];
}

abbrev empty : Database
empty = record { entries = []; urlcount = 256; events = [] }

abbrev request : Request
request = record { srvtype = b'a' ∷ []; scopelist = b's' ∷ [] }

-- What the runs unfold.
database : Unit {0}
unfolding ishex hex2bin compare_string compare_empty compare_prepared prepare trim trim_front
    trimmed_len strncasecmp fold_white_space fold_loop scan_space memmove unescape_in_place
    seek_comma contains_loop contains_string_list intersect_loop intersect_string_list memchr
    skip_service compare_skipped compare_srv_type stored fixed_lifetime test_entry start_scan
    start_loop listen srvtype_used add add_scanned take_identical is_identical is_other_source
    same_bytes check_attribute_list_syntax has_equals database_reg stop_listening strncpy overrun
    remove_scanned database_de_reg age_entry age_entries database_age
database = tt

matching : test_entry settings request (stored settings printer) ≡ true
unfolding database
matching = refl

-- Registered from another address, it is refused.
abbrev one_entry : Database
one_entry = record { entries = stored settings printer ∷ []; urlcount = 256; events = [] }

first : database_reg settings printer empty ≡ (one_entry, 0)
unfolding database
first = refl

other_source : database_reg settings (record printer { peer = 2 ∷ [] }) one_entry ≡ (one_entry, 7)
unfolding database
other_source = refl

gone :
    database_de_reg settings
      record { url = b'U' ∷ []; scopelist = b's' ∷ []; peer = 1 ∷ [] }
      one_entry
    ≡ (record { entries = []; urlcount = 256; events = remove_service (b'a' ∷ []) ∷ [] }, 0)
unfolding database
gone = refl

timed_out : (database_age settings 115 false one_entry).entries ≡ []
unfolding database
timed_out = refl

-- A registration in two scopes replaces one of two entries with its URL only.
abbrev two_entries : Database
two_entries = record {
  entries = printer ∷ (record printer { scopelist = b't' ∷ [] }) ∷ [];
  urlcount = 256;
  events = [];
}

left_over :
    (database_reg settings
      (record printer { scopelist = b's' ∷ b',' ∷ b't' ∷ [] })
      two_entries).0.entries
    ≡ (record printer { scopelist = b't' ∷ [] })
      ∷ stored settings (record printer { scopelist = b's' ∷ b',' ∷ b't' ∷ [] })
      ∷ []
unfolding database
left_over = refl

database_reg-Registered_example :
    Registered settings printer two_entries (database_reg settings printer two_entries)
database_reg-Registered_example =
    database_reg-Registered settings printer two_entries refl refl refl

abbrev by_printer : DeRegistration
by_printer = record { url = b'u' ∷ []; scopelist = b's' ∷ []; peer = 1 ∷ [] }

copied : All (IsCopied settings) two_entries.entries
copied = ((omega arith, (refl, tt)), ((omega arith, (refl, tt)), tt))

database_de_reg-DeRegistered_example :
    DeRegistered settings by_printer two_entries (database_de_reg settings by_printer two_entries)
database_de_reg-DeRegistered_example =
    database_de_reg-DeRegistered settings by_printer two_entries refl refl copied

always : (n : ℕ) → true ≡ true
always n = refl

one_match : length (matches settings request two_entries.entries) < 2
unfolding database
one_match = omega arith

one_match_fits : 2 * length (matches settings request two_entries.entries) ≤ 2147483647
unfolding database
one_match_fits = omega arith

srv_rqst_start-Finds_example :
    Returns
      (Finds settings request true 2147483647 two_entries.entries)
      (srv_rqst_start settings request (λ n. true) 2 1 two_entries.entries)
srv_rqst_start-Finds_example =
    srv_rqst_start-Finds settings request (λ n. true) 1 1 2147483647 two_entries.entries always
      (omega arith) one_match (omega arith) one_match_fits (omega arith)

short : All (λ e. e.lifetime ≤ 65535) one_entry.entries
unfolding database
short = (omega arith, tt)

age_rounds-Permanent_example :
    All (Permanent false) (age_rounds settings 4369 15 false one_entry).entries
age_rounds-Permanent_example =
    age_rounds-Permanent settings 4368 15 false one_entry refl (omega arith) short

Reach-IsStored_example :
    All (IsStored) (database_age settings 15 false (database_reg settings printer empty).0).entries
Reach-IsStored_example =
    Reach-IsStored settings {db = empty} tt
      (next (next here (registers printer (omega arith))) (ages 15 false))

accepted : (database_reg settings printer empty).1 ≡ 0
unfolding database
accepted = refl

-- A registration of "a" in the scope "a", from a host that the daemon serves.
abbrev host : Host
host = record { is_mcast = λ a. false; use_scopes = b'a' ∷ []; realloc = λ n. true }

abbrev scope_a : Request
scope_a = record { srvtype = b'a' ∷ []; scopelist = b'a' ∷ [] }

answered :
    (process_srv_reg
      (daemon_of host settings letters blank.peer)
      letters
      blank
      registration
      empty
      0).errorcode
    ≡ 0
unfolding database process_srv_reg respond handles_scope with_source
answered = refl

found_later :
    test_entry settings scope_a (
      stored settings (
        entry_of letters blank.peer
          (with_source (daemon_of host settings letters blank.peer) letters blank registration)))
    ≡ true
unfolding database with_source
found_later = refl

registered_fits :
    2
      * length
          (process_srv_reg
            (daemon_of host settings letters blank.peer)
            letters
            blank
            registration
            empty
            0).database.entries
    ≤ 2147483647
unfolding database process_srv_reg respond handles_scope with_source
registered_fits = omega arith

process_srv_reg-Found_example :
    Returns
      (λ s.
        (s.errorcode ≡ 0)
        × ((front : List DatabaseEntry) × (s.urlarray
              ≡ front
                ++ (stored settings (
                      entry_of letters blank.peer (
                        with_source
                          (daemon_of host settings letters blank.peer)
                          letters
                          blank
                          registration))
                    ∷ []))))
      (start_loop settings scope_a
        (λ n. true)
        (suc (
          length
            (process_srv_reg
              (daemon_of host settings letters blank.peer)
              letters
              blank
              registration
              empty
              0).database.entries))
        256
        (process_srv_reg
          (daemon_of host settings letters blank.peer)
          letters
          blank
          registration
          empty
          0).database.entries)
process_srv_reg-Found_example =
    process_srv_reg-Found host settings letters blank registration empty scope_a (λ n. true) 256
      refl answered refl refl refl found_later always (omega arith) (omega arith) registered_fits
