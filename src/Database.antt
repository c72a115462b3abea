-- ===== src/Database.antt =====
-- The registrations of slpd/slpd_database.c, as built without ENABLE_PREDICATES and ENABLE_SLPv2_SECURITY and with
-- net.slp.indexSrvtype off, its default. An entry holds of its message what the database reads, a string with
-- its length is a list of bytes. What is asked of the sockets and of the directory agents is a list of events.
pub mod Requests
pub mod Types
pub mod Listing
pub mod Lists
pub mod Finds
pub mod Malformed
pub mod Identical
pub mod Replaces
pub mod Aging
pub mod Lifetimes
pub mod Found
use openslp.Base.{
  ℕ, zero, suc, ◌+◌, ◌-◌, Bool, true, false, ◌&&◌, ◌||◌, not, ltb, leb, ◌==◌, if◌then◌else◌, List,
  [], ◌∷◌, ◌++◌, length,
}
use openslp.Message.Types.{internal_error, Sockaddr}
use openslp.Compare.Text.{Copies, compare_string}
use openslp.Compare.Items.{is_zero, intersect_string_list}

-- SLP_ERROR_INVALID_REGISTRATION and SLP_ERROR_AUTHENTICATION_FAILED
abbrev pub invalid_registration : ℕ
invalid_registration = 3

abbrev pub authentication_failed : ℕ
authentication_failed = 7

-- SLP_LIFETIME_MAXIMUM and SLPD_AGE_INTERVAL
abbrev pub lifetime_maximum : ℕ
lifetime_maximum = 0xffff

abbrev pub age_interval : ℕ
age_interval = 15

-- SLP_REG_SOURCE_UNKNOWN, _REMOTE, _LOCAL and _STATIC
abbrev pub reg_source_unknown : ℕ
reg_source_unknown = 0

abbrev pub reg_source_remote : ℕ
reg_source_remote = 1

abbrev pub reg_source_local : ℕ
reg_source_local = 2

abbrev pub reg_source_static : ℕ
reg_source_static = 3

pub record DatabaseEntry : Type 0 where
  pub url : List ℕ
  pub lifetime : ℕ
  pub srvtype : List ℕ
  pub scopelist : List ℕ
  pub attrlist : List ℕ
  pub pid : ℕ
  pub source : ℕ
  pub peer : Sockaddr

-- A de-registration.
pub record DeRegistration : Type 0 where
  pub url : List ℕ
  pub scopelist : List ℕ
  pub peer : Sockaddr

-- SLPDIncomingAddService, for the interfaces of the daemon, SLPDIncomingRemoveService and
-- SLPDKnownDADeRegisterWithAllDas; and bytes written behind the array `srvtype` of SLPDDatabaseDeReg.
pub data Event : Type 0 where
  add_service : (srvtype : List ℕ) → Event
  remove_service : (srvtype : List ℕ) → Event
  de_register_with_all_das : DatabaseEntry → Event
  overruns : (bytes : ℕ) → Event

-- G_SlpdDatabase, with the events so far.
pub record Database : Type 0 where
  pub entries : List DatabaseEntry
  pub urlcount : ℕ
  pub events : List Event

-- What the database asks of its surroundings: whether the copies of a comparison, a handle, a second handle, a
-- normalised service type and an entry get their memory, the property net.slp.checkSourceAddr, whether there is
-- IPv6, and what the system says of processes and addresses.
pub record Settings : Type 0 where
  pub copies : Copies
  pub opens : Bool
  pub reopens : Bool
  pub normalises : Bool
  pub creates : Bool
  pub check_source_addr : Bool
  pub is_ipv6 : Bool
  pub pid_exists : ℕ → Bool
  pub is_loopback : Sockaddr → Bool
  pub is_inet : Sockaddr → Bool
  pub is_inet6 : Sockaddr → Bool
  pub sin_addr : Sockaddr → List ℕ
  pub sin6_addr : Sockaddr → List ℕ

-- SLPCheckAttributeListSyntax, which answers 1 for a parenthesis with no equals sign behind it.
unfoldable pub has_equals : List ℕ → Bool
has_equals [] = false
has_equals (c ∷ rest) = let later = has_equals rest in if c == b'=' then true else later

unfoldable pub check_attribute_list_syntax : List ℕ → ℕ
check_attribute_list_syntax [] = 0
check_attribute_list_syntax (c ∷ rest) =
    let later = check_attribute_list_syntax rest in
    if c == b'(' then (if has_equals (c ∷ rest) then 0 else 1) else later

-- The lifetime that is stored.
unfoldable pub fixed_lifetime : ℕ → ℕ
fixed_lifetime lifetime =
    if ltb 0 lifetime && ltb lifetime lifetime_maximum
    then if leb (lifetime_maximum - age_interval) lifetime
      then lifetime_maximum - 1
      else lifetime + age_interval
    else lifetime

-- `memcmp` answers 0.
unfoldable pub same_bytes : List ℕ → List ℕ → Bool
same_bytes [] [] = true
same_bytes (a ∷ s) (b ∷ t) = (a == b) && same_bytes s t
same_bytes s t = false

-- MAX_HOST_NAME
abbrev pub max_host_name : ℕ
max_host_name = 512

unfoldable pub zeros : List ℕ → List ℕ
zeros [] = []
zeros (c ∷ s) = 0 ∷ zeros s

-- The bytes that `strncpy` writes for a string with its length: zeros from the first NUL on.
unfoldable pub strncpy : List ℕ → List ℕ
strncpy [] = []
strncpy (c ∷ s) = if c == 0 then 0 ∷ zeros s else c ∷ strncpy s

-- What the search for an identical entry ends with: none, one from another source, or one that is taken out.
pub data Scan : Type 0 where
  missing : Scan
  refused : Scan
  taken : (entry : DatabaseEntry) (rest : List DatabaseEntry) → Scan

abbrev pub behind : DatabaseEntry → Scan → Scan
behind e missing = missing
behind e refused = refused
behind e (taken entry rest) = taken entry (e ∷ rest)

-- What SLPDDatabaseAge does to an entry.
pub data Aged : Type 0 where
  stays : DatabaseEntry → Aged
  leaves : List Event → Aged

module _ (settings : Settings) where
  unfoldable pub is_other_source : (peer1 peer2 : Sockaddr) → Bool
  is_other_source peer1 peer2 =
      (settings.is_inet peer1
        && (settings.is_inet peer2
            && not (same_bytes (settings.sin_addr peer1) (settings.sin_addr peer2))))
      || (settings.is_inet6 peer1
          && (settings.is_inet6 peer2
              && not (same_bytes (settings.sin6_addr peer1) (settings.sin6_addr peer2))))

  -- The URLs are equal and the scope lists have a scope in common.
  unfoldable pub is_identical : (url scopelist : List ℕ) → DatabaseEntry → Bool
  is_identical url scopelist e =
      is_zero (compare_string settings.copies e.url url)
      && not (intersect_string_list settings.copies e.scopelist scopelist == 0)

  unfoldable pub take_identical :
      (url scopelist : List ℕ) (peer : Sockaddr) → List DatabaseEntry → Scan
  take_identical url scopelist peer [] = missing
  take_identical url scopelist peer (e ∷ rest) =
      let later = take_identical url scopelist peer rest in
      if is_identical url scopelist e
      then if settings.check_source_addr && is_other_source e.peer peer
        then refused
        else taken e rest
      else behind e later

  -- SLPDDatabaseSrvtypeUsed.
  unfoldable pub srvtype_used : (srvtype : List ℕ) → List DatabaseEntry → Bool
  srvtype_used srvtype [] = false
  srvtype_used srvtype (e ∷ rest) =
      is_zero (compare_string settings.copies e.srvtype srvtype) || srvtype_used srvtype rest

  -- The sockets for a service type that is new.
  unfoldable pub listen : (srvtype : List ℕ) → Database → Database
  listen srvtype db =
      if settings.is_ipv6 && not (srvtype_used srvtype db.entries)
      then record db { events = db.events ++ (add_service srvtype ∷ []) }
      else db

  -- The entry that is stored.
  unfoldable pub stored : DatabaseEntry → DatabaseEntry
  stored r = record r {
    lifetime = fixed_lifetime r.lifetime;
    source =
        if r.source == reg_source_unknown
        then (if settings.is_loopback r.peer then reg_source_local else reg_source_remote)
        else r.source;
  }

  unfoldable pub add : DatabaseEntry → (entries : List DatabaseEntry) → Database → Database × ℕ
  add r entries db =
      if settings.creates
      then (record db { entries = entries ++ (stored r ∷ []) }, 0)
      else (record db { entries = entries }, internal_error)

  unfoldable pub add_scanned : DatabaseEntry → Scan → Database → Database × ℕ
  add_scanned r missing db = add r db.entries db
  add_scanned r refused db = (db, authentication_failed)
  add_scanned r (taken entry rest) db = add r rest db

  -- SLPDDatabaseReg; SLPCheckServiceUrlSyntax always answers 0.
  unfoldable pub database_reg : DatabaseEntry → Database → Database × ℕ
  database_reg r db =
      let listening = listen r.srvtype db in
      if not (check_attribute_list_syntax r.attrlist == 0)
      then (db, invalid_registration)
      else if not settings.opens
      then (listening, 0)
      else if not settings.normalises
      then (listening, internal_error)
      else add_scanned r (take_identical r.url r.scopelist r.peer listening.entries) listening

  -- Behind the removal: no socket is needed for a type that no entry has any more.
  unfoldable pub stop_listening : (srvtype : List ℕ) → Database → Database
  stop_listening srvtype db =
      if settings.reopens && not (srvtype_used srvtype db.entries)
      then record db { events = db.events ++ (remove_service srvtype ∷ []) }
      else db

  -- The copy of a service type of so many bytes.
  unfoldable pub overrun : (srvtypelen : ℕ) → Database → Database
  overrun srvtypelen db =
      if ltb max_host_name srvtypelen
      then record db { events = db.events ++ (overruns (srvtypelen - max_host_name) ∷ []) }
      else db

  unfoldable pub remove_scanned : Scan → Database → Database × ℕ
  remove_scanned missing db = (db, invalid_registration)
  remove_scanned refused db = (db, authentication_failed)
  remove_scanned (taken entry rest) db = (
    stop_listening (strncpy entry.srvtype)
        (overrun (length entry.srvtype) (record db { entries = rest })),
    0,
  )

  -- SLPDDatabaseDeReg.
  unfoldable pub database_de_reg : DeRegistration → Database → Database × ℕ
  database_de_reg d db =
      if settings.opens
      then remove_scanned (take_identical d.url d.scopelist d.peer db.entries) db
      else (db, 0)

  -- A lifetime less the seconds that is 0 or less ends an entry.
  unfoldable pub age_entry : (seconds : ℕ) (ageall : Bool) → DatabaseEntry → Aged
  age_entry seconds ageall e =
      if (e.source == reg_source_local) && (not (e.pid == 0) && not (settings.pid_exists e.pid))
      then leaves (de_register_with_all_das e ∷ remove_service e.srvtype ∷ [])
      else if (e.lifetime == lifetime_maximum)
          && (not ageall || ((e.source == reg_source_static) || (e.source == reg_source_local)))
      then stays e
      else if leb e.lifetime seconds
      then leaves (remove_service e.srvtype ∷ [])
      else stays (record e { lifetime = e.lifetime - seconds })

  abbrev pub after_aged : Aged → List DatabaseEntry × List Event → List DatabaseEntry × List Event
  after_aged (stays e) later = (e ∷ later.0, later.1)
  after_aged (leaves events) later = (later.0, events ++ later.1)

  unfoldable pub age_entries :
      (seconds : ℕ) (ageall : Bool) → List DatabaseEntry → List DatabaseEntry × List Event
  age_entries seconds ageall [] = ([], [])
  age_entries seconds ageall (e ∷ rest) =
      after_aged (age_entry seconds ageall e) (age_entries seconds ageall rest)

  -- SLPDDatabaseAge.
  unfoldable pub database_age : (seconds : ℕ) (ageall : Bool) → Database → Database
  database_age seconds ageall db =
      let (entries, events) = age_entries seconds ageall db.entries in
      if settings.opens then record db { entries = entries; events = db.events ++ events } else db
