-- ===== src/Daemon.antt =====
-- ProcessSrvReg, ProcessSrvDeReg and ProcessSrvAck of slpd/slpd_process.c, as built without
-- ENABLE_SLPv2_SECURITY. The database is a parameter.
pub mod Ack
pub mod Guards
pub mod Service
use openslp.Base.{
  ℕ, zero, suc, ◌+◌, ◌/◌, ◌%◌, Bool, ◌&&◌, ◌||◌, not, ◌==◌, if◌then◌else◌, none, some, List, [],
  ◌∷◌, ◌++◌, length,
}
use openslp.Wire.Put.{put_uint16}
use openslp.Message.Types.{
  internal_error, funct_srvack, Str, Header, SrvReg, SrvDeReg, Sockaddr, Message,
}
use openslp.Message.Put.{put_header}
use openslp.Compare.Text.{Copies}
use openslp.Compare.Items.{intersect_string_list}

-- SLP_ERROR_SCOPE_NOT_SUPPORTED
abbrev pub scope_not_supported : ℕ
scope_not_supported = 4

-- SLP_REG_SOURCE_REMOTE and SLP_REG_SOURCE_LOCAL
abbrev pub source_remote : ℕ
source_remote = 1

abbrev pub source_local : ℕ
source_local = 2

-- The `n` bytes of a memory from `p` on, and the bytes of a counted string.
abbrev pub bytes_at : (mem : ℕ → ℕ) (p n : ℕ) → List ℕ
bytes_at mem p zero = []
bytes_at mem p (suc n) = mem p ∷ bytes_at mem (p + 1) n

abbrev pub string_bytes : (mem : ℕ → ℕ) → Str → List ℕ
string_bytes mem s = elim s.ptr [ none ↦ [] | some p ↦ bytes_at mem p s.len ]

-- What the handlers ask of their surroundings: the database's two routines, the two tests of an address, the
-- property net.slp.useScopes, and whether SLPBufferRealloc and the copies of a comparison succeed.
pub record Daemon (D : Type 0) : Type 0 where
  pub database_reg : SrvReg → D → D × ℕ
  pub database_de_reg : SrvDeReg → D → D × ℕ
  pub is_mcast : Sockaddr → Bool
  pub is_loopback : Sockaddr → Bool
  pub use_scopes : List ℕ
  pub realloc : ℕ → Bool
  pub copies : Copies

-- `*sendbuf` at the end: null, the empty buffer, or the bytes of a message.
pub data Reply : Type 0 where
  no_buffer : Reply
  silent : Reply
  sent : List ℕ → Reply

-- What a handler leaves.
pub record Handled (D : Type 0) : Type 0 where
  pub database : D
  pub reply : Reply
  pub errorcode : ℕ

-- `message->header.flags & SLP_FLAG_MCAST`
abbrev pub has_mcast : (flags : ℕ) → Bool
has_mcast flags = flags / 0x2000 % 2 == 1

-- The SrvAck that the two handlers write.
unfoldable pub put_srv_ack : (xid : ℕ) (langtag : List ℕ) (errorcode : ℕ) → List ℕ
put_srv_ack xid langtag errorcode =
    put_header funct_srvack (length langtag + 16) 0 0 xid langtag ++ put_uint16 errorcode

module _ {D : Type 0} (daemon : Daemon D) (mem : ℕ → ℕ) where
  -- Behind RESPOND: nothing goes out for a multicast message.
  unfoldable pub respond : Message → (database : D) (errorcode : ℕ) → Handled D
  respond message database errorcode =
      let h = message.header in
      let langtag = string_bytes mem h.langtag in
      if has_mcast h.flags || daemon.is_mcast message.peer
      then record { database = database; reply = silent; errorcode = errorcode }
      else if daemon.realloc (h.langtag.len + 16)
      then record {
        database = database;
        reply = sent (put_srv_ack h.xid langtag errorcode);
        errorcode = errorcode;
      }
      else record { database = database; reply = no_buffer; errorcode = internal_error }

  -- The test of the scopes.
  unfoldable pub handles_scope : Str → Bool
  handles_scope scopelist =
      not (intersect_string_list daemon.copies (string_bytes mem scopelist) daemon.use_scopes == 0)

  -- `message->body.srvreg.source = ...`
  unfoldable pub with_source : Message → SrvReg → SrvReg
  with_source message r = record r {
    source = if daemon.is_loopback message.peer then source_local else source_remote;
  }

  -- ProcessSrvReg.
  unfoldable pub process_srv_reg : Message → SrvReg → (database : D) (errorcode : ℕ) → Handled D
  process_srv_reg message r database errorcode =
      let (registered, code) = daemon.database_reg (with_source message r) database in
      if not (errorcode == 0) || (has_mcast message.header.flags || daemon.is_mcast message.peer)
      then respond message database errorcode
      else if handles_scope r.scopelist
      then respond message registered code
      else respond message database scope_not_supported

  -- ProcessSrvDeReg, which does not look at the peer before it asks the database.
  unfoldable pub process_srv_de_reg :
      Message → SrvDeReg → (database : D) (errorcode : ℕ) → Handled D
  process_srv_de_reg message r database errorcode =
      let (removed, code) = daemon.database_de_reg r database in
      if not (errorcode == 0) || has_mcast message.header.flags
      then respond message database errorcode
      else if handles_scope r.scopelist
      then respond message removed code
      else respond message database scope_not_supported

-- ProcessSrvAck.
unfoldable pub process_srv_ack : {D : Type 0} (database : D) → Handled D
process_srv_ack database = record { database = database; reply = silent; errorcode = 0 }
