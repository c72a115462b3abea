-- ===== src/Daemon/Guards.antt =====
-- When the handlers of the daemon touch the database, and what they answer.
use openslp.Base.{
  ℕ, ◌+◌, ◌≡◌, refl, ap, Bool, true, false, ◌&&◌, ◌||◌, not, Bool-cases, inl, inr, ◌==◌,
  if◌then◌else◌,
}
use openslp.Message.Types.{Message, SrvReg, SrvDeReg, Str, internal_error}
use openslp.Compare.Contains.{items, count_items, is_found_in, intersect_string_list-Counts}
use openslp.Daemon.{
  Daemon, Handled, sent, silent, no_buffer, has_mcast, string_bytes, put_srv_ack, respond,
  handles_scope, with_source, process_srv_reg, process_srv_de_reg, scope_not_supported,
}

module _ {D : Type 0} (daemon : Daemon D) (mem : ℕ → ℕ) where
  -- A message that came by multicast.
  abbrev pub by_multicast : Message → Bool
  by_multicast message = has_mcast message.header.flags || daemon.is_mcast message.peer

  -- The scopes of a list that the daemon serves.
  abbrev pub common_scopes : Str → ℕ
  common_scopes scopelist =
      count_items (is_found_in daemon.copies daemon.use_scopes) (items (string_bytes mem scopelist))

  -- The answer by the way the message came and by the memory: none to a multicast message, the acknowledgement
  -- with the handler's own code to another, and no buffer and an internal error where there is no memory.
  abbrev pub Answers : (multicast room : Bool) → Message → Handled D → Type 0
  Answers true room message handled = handled.reply ≡ silent
  Answers false true message handled =
      handled.reply
      ≡ sent (
          put_srv_ack message.header.xid (string_bytes mem message.header.langtag)
            handled.errorcode)
  Answers false false message handled =
      (handled.reply ≡ no_buffer) × (handled.errorcode ≡ internal_error)

  respond-Answers :
      (message : Message) (database : D) (errorcode : ℕ)
      → Answers
          (by_multicast message)
          (daemon.realloc (message.header.langtag.len + 16))
          message
          (respond daemon mem message database errorcode)
        × ((respond daemon mem message database errorcode).database ≡ database)
  unfolding respond
  respond-Answers message database errorcode = elim (Bool-cases (by_multicast message)) [
    | inl multicast ↦ rw multicast (refl, refl)
    | inr unicast ↦ elim (Bool-cases (daemon.realloc (message.header.langtag.len + 16))) [
      | inl room ↦ rw (unicast, room) (refl, refl)
      | inr full ↦ rw (unicast, full) ((refl, refl), refl)
    ]
  ]

  -- The scopes are tested by their number.
  handles_scope-common_scopes :
      (scopelist : Str) → handles_scope daemon mem scopelist ≡ not (common_scopes scopelist == 0)
  unfolding handles_scope
  handles_scope-common_scopes scopelist =
      ap (λ n. not (n == 0))
        (intersect_string_list-Counts daemon.copies (string_bytes mem scopelist) daemon.use_scopes)

  -- ProcessSrvReg hands a registration to the database exactly if it was parsed, did not come by multicast and
  -- has a scope that the daemon serves; otherwise the database stays as it is. It answers nothing by multicast,
  -- and otherwise the acknowledgement with the code that it returns, if there is memory for it.
  pub process_srv_reg-Guarded :
      (message : Message) (r : SrvReg) (database : D) (errorcode : ℕ)
      → Answers
          (by_multicast message)
          (daemon.realloc (message.header.langtag.len + 16))
          message
          (process_srv_reg daemon mem message r database errorcode)
        × ((process_srv_reg daemon mem message r database errorcode).database ≡ (
            if (errorcode == 0)
              && (not (by_multicast message) && not (common_scopes r.scopelist == 0))
            then (daemon.database_reg (with_source daemon mem message r) database).0
            else database))
  unfolding process_srv_reg
  process_srv_reg-Guarded message r database errorcode = elim (Bool-cases (errorcode == 0)) [
    | inr failed ↦ rw failed (respond-Answers message database errorcode)
    | inl parsed ↦ elim (Bool-cases (by_multicast message)) [
      | inl multicast ↦
          rw (parsed, multicast) (rw multicast at (respond-Answers message database errorcode))
      | inr unicast ↦ elim (Bool-cases (common_scopes r.scopelist == 0)) [
        | inl none ↦
            rw (parsed, unicast, handles_scope-common_scopes r.scopelist, none)
              (rw unicast at (respond-Answers message database scope_not_supported))
        | inr some ↦
            rw (parsed, unicast, handles_scope-common_scopes r.scopelist, some)
              (rw unicast at (
                respond-Answers message
                  (daemon.database_reg (with_source daemon mem message r) database).0
                  (daemon.database_reg (with_source daemon mem message r) database).1))
      ]
    ]
  ]

  -- ProcessSrvDeReg asks the database to remove a registration exactly if the message was parsed, does not
  -- carry the multicast flag and has a scope that the daemon serves, even if it came from a multicast address;
  -- otherwise the database stays as it is. It answers as ProcessSrvReg does.
  pub process_srv_de_reg-Guarded :
      (message : Message) (r : SrvDeReg) (database : D) (errorcode : ℕ)
      → Answers
          (by_multicast message)
          (daemon.realloc (message.header.langtag.len + 16))
          message
          (process_srv_de_reg daemon mem message r database errorcode)
        × ((process_srv_de_reg daemon mem message r database errorcode).database ≡ (
            if (errorcode == 0)
              && (not (has_mcast message.header.flags) && not (common_scopes r.scopelist == 0))
            then (daemon.database_de_reg r database).0
            else database))
  unfolding process_srv_de_reg
  process_srv_de_reg-Guarded message r database errorcode = elim (Bool-cases (errorcode == 0)) [
    | inr failed ↦ rw failed (respond-Answers message database errorcode)
    | inl parsed ↦ elim (Bool-cases (has_mcast message.header.flags)) [
      | inl multicast ↦
          rw (parsed, multicast) (rw multicast at (respond-Answers message database errorcode))
      | inr unicast ↦ elim (Bool-cases (common_scopes r.scopelist == 0)) [
        | inl none ↦
            rw (parsed, unicast, handles_scope-common_scopes r.scopelist, none)
              (rw unicast at (respond-Answers message database scope_not_supported))
        | inr some ↦
            rw (parsed, unicast, handles_scope-common_scopes r.scopelist, some)
              (rw unicast at (
                respond-Answers message (daemon.database_de_reg r database).0
                  (daemon.database_de_reg r database).1))
      ]
    ]
  ]
