-- ===== src/Daemon/Service.antt =====
-- The handlers of slpd/slpd_process.c over the database of slpd/slpd_database.c.
use openslp.Base.{
  ℕ, suc, ◌*◌, ◌≤◌, ◌<◌, ◌≡◌, sym, ap, ◌∙◌, Bool, true, false, ◌||◌, Bool-cases, inl, inr, List, [],
  ◌∷◌, ◌++◌, length, Returns, arith,
}
use openslp.Message.Types.{Sockaddr, SrvReg, SrvDeReg, Message}
use openslp.Daemon.{
  Daemon, string_bytes, has_mcast, respond, handles_scope, with_source, process_srv_reg,
  scope_not_supported,
}
use openslp.Database.{
  DatabaseEntry, DeRegistration, Database, Settings, stored, database_reg, database_de_reg,
}
use openslp.Database.Requests.{Request, test_entry, start_loop}
use openslp.Database.Found.{database_reg-Found}

-- What the database reads of a parsed message.
abbrev pub entry_of : (mem : ℕ → ℕ) (peer : Sockaddr) → SrvReg → DatabaseEntry
entry_of mem peer r = record {
  url = string_bytes mem r.urlentry.url;
  lifetime = r.urlentry.lifetime;
  srvtype = string_bytes mem r.srvtype;
  scopelist = string_bytes mem r.scopelist;
  attrlist = string_bytes mem r.attrlist;
  pid = r.pid;
  source = r.source;
  peer = peer;
}

abbrev pub de_registration_of : (mem : ℕ → ℕ) (peer : Sockaddr) → SrvDeReg → DeRegistration
de_registration_of mem peer d = record {
  url = string_bytes mem d.urlentry.url;
  scopelist = string_bytes mem d.scopelist;
  peer = peer;
}

-- The daemon's surroundings besides its database: multicast addresses, its scopes, and memory for an answer.
pub record Host : Type 0 where
  pub is_mcast : Sockaddr → Bool
  pub use_scopes : List ℕ
  pub realloc : ℕ → Bool

-- The database behind the interface of the handlers, for a message from `peer`.
abbrev pub daemon_of : Host → Settings → (mem : ℕ → ℕ) (peer : Sockaddr) → Daemon Database
daemon_of host settings mem peer = record {
  database_reg = λ r db. database_reg settings (entry_of mem peer r) db;
  database_de_reg = λ d db. database_de_reg settings (de_registration_of mem peer d) db;
  is_mcast = host.is_mcast;
  is_loopback = settings.is_loopback;
  use_scopes = host.use_scopes;
  realloc = host.realloc;
  copies = settings.copies;
}

module _ {D : Type 0} (daemon : Daemon D) (mem : ℕ → ℕ) where
  respond-database :
      (message : Message) (database : D) (errorcode : ℕ)
      → (respond daemon mem message database errorcode).database ≡ database
  unfolding respond
  respond-database message database errorcode = ground arith

  respond-code :
      (message : Message) (database : D) (errorcode : ℕ)
      → (respond daemon mem message database errorcode).errorcode ≡ 0
      → errorcode ≡ 0
  unfolding respond
  respond-code message database errorcode h = ground (arith, h)

  -- A unicast registration that was parsed, by its scopes.
  served :
      (message : Message) (r : SrvReg) (database : D)
      → (has_mcast message.header.flags || daemon.is_mcast message.peer) ≡ false
      → handles_scope daemon mem r.scopelist ≡ true
      → process_srv_reg daemon mem message r database 0
        ≡ respond daemon mem message
            (daemon.database_reg (with_source daemon mem message r) database).0
            (daemon.database_reg (with_source daemon mem message r) database).1
  unfolding process_srv_reg
  served message r database u s = ground (arith, u, s)

  unserved :
      (message : Message) (r : SrvReg) (database : D)
      → (has_mcast message.header.flags || daemon.is_mcast message.peer) ≡ false
      → handles_scope daemon mem r.scopelist ≡ false
      → process_srv_reg daemon mem message r database 0
        ≡ respond daemon mem message database scope_not_supported
  unfolding process_srv_reg
  unserved message r database u s = ground (arith, u, s)

  -- A registration that ProcessSrvReg answers with 0 went into the database, and that answered 0.
  accepted :
      (message : Message) (r : SrvReg) (database : D)
      → (has_mcast message.header.flags || daemon.is_mcast message.peer) ≡ false
      → (process_srv_reg daemon mem message r database 0).errorcode ≡ 0
      → ((daemon.database_reg (with_source daemon mem message r) database).1 ≡ 0)
        × ((process_srv_reg daemon mem message r database 0).database
            ≡ (daemon.database_reg (with_source daemon mem message r) database).0)
  accepted message r database u ok = elim (Bool-cases (handles_scope daemon mem r.scopelist)) [
    | inl s ↦
        let (after, code) = daemon.database_reg (with_source daemon mem message r) database in
        let e = served message r database u s in
        (
          respond-code message after code (ap (λ h. h.errorcode) (sym e) ∙ ok),
          ap (λ h. h.database) e ∙ respond-database message after code,
        )
    | inr s ↦
        let e = unserved message r database u s in
        let bad =
          respond-code message database scope_not_supported (ap (λ h. h.errorcode) (sym e) ∙ ok) in
        absurd (omega (arith, bad))
  ]

-- A parsed unicast registration that ProcessSrvReg answers with 0 is found from then on: a service request that the
-- stored entry matches ends with code 0 and has the entry as its last result, if there is memory and the array's
-- first size and twice the entries fit an int.
pub process_srv_reg-Found :
    (host : Host) (settings : Settings) (mem : ℕ → ℕ) (message : Message) (r : SrvReg)
    (db : Database) (request : Request) (realloc : ℕ → Bool) (urlcount : ℕ)
    → (has_mcast message.header.flags || host.is_mcast message.peer) ≡ false
    → (process_srv_reg (daemon_of host settings mem message.peer) mem message r db 0).errorcode ≡ 0
    → settings.opens ≡ true
    → settings.normalises ≡ true
    → settings.creates ≡ true
    → test_entry settings request (
        stored settings (
          entry_of mem message.peer
            (with_source (daemon_of host settings mem message.peer) mem message r)))
      ≡ true
    → ((n : ℕ) → realloc n ≡ true)
    → 0 < urlcount
    → urlcount ≤ 2147483647
    → 2
        * length
            (process_srv_reg
              (daemon_of host settings mem message.peer)
              mem
              message
              r
              db
              0).database.entries
      ≤ 2147483647
    → Returns
        (λ s.
          (s.errorcode ≡ 0)
          × ((front : List DatabaseEntry) × (s.urlarray
                ≡ front
                  ++ (stored settings (
                        entry_of mem message.peer
                          (with_source (daemon_of host settings mem message.peer) mem message r))
                      ∷ []))))
        (start_loop settings request realloc
          (suc (
            length
              (process_srv_reg
                (daemon_of host settings mem message.peer)
                mem
                message
                r
                db
                0).database.entries))
          urlcount
          (process_srv_reg
            (daemon_of host settings mem message.peer)
            mem
            message
            r
            db
            0).database.entries)
process_srv_reg-Found host settings mem message r db request realloc urlcount u ok o n c t memory
      pos int ints =
    let daemon = daemon_of host settings mem message.peer in
    let (code, e) = accepted daemon mem message r db u ok in
    let fit = rw e at ints in
    rw e (
      database_reg-Found settings request
        (entry_of mem message.peer (with_source daemon mem message r)) db realloc urlcount o n c
        code t memory pos int fit)
