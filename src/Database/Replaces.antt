-- ===== src/Database/Replaces.antt =====
-- SLPDDatabaseReg and SLPDDatabaseDeReg: what they leave.
use openslp.Base.{
  Lacks, subst, ℕ, ◌≡◌, ◌≤◌, refl, ap, true, false, ◌&&◌, ◌==◌, if◌then◌else◌, inl, inr, List, [],
  ◌∷◌, ◌++◌, length, All, arith,
}
use openslp.Message.Types.{Sockaddr}
use openslp.Database.{
  DatabaseEntry, DeRegistration, Database, Settings, remove_service, Scan, missing, refused, taken,
  is_other_source, take_identical, srvtype_used, listen, stored, add, add_scanned, database_reg,
  stop_listening, remove_scanned, database_de_reg, overrun, strncpy, check_attribute_list_syntax,
  invalid_registration, authentication_failed,
}
use openslp.Database.Malformed.{IsMalformed, check_attribute_list_syntax-IsMalformed}
use openslp.Database.Identical.{NoneIdentical, FirstIdentical, Scanned, take_identical-Scanned}

module _ (settings : Settings) where
  -- The entries without the first identical one, if there is one and its source may replace it.
  pub data Replaced (url scopelist : List ℕ) (peer : Sockaddr) (entries kept : List DatabaseEntry)
      : Type 0 where
    none_identical :
        NoneIdentical settings url scopelist entries
        → kept ≡ entries
        → Replaced url scopelist peer entries kept
    first_identical :
        (e : DatabaseEntry)
        → FirstIdentical settings url scopelist e entries kept
        → (settings.check_source_addr && is_other_source settings e.peer peer) ≡ false
        → Replaced url scopelist peer entries kept

  -- What a registration may come to.
  pub data Registered (r : DatabaseEntry) (db : Database) (result : Database × ℕ) : Type 0 where
    malformed :
        IsMalformed r.attrlist → result ≡ (db, invalid_registration) → Registered r db result
    stores :
        (kept : List DatabaseEntry)
        → (IsMalformed r.attrlist → ⊥)
        → Replaced r.url r.scopelist r.peer db.entries kept
        → result.0.entries ≡ kept ++ (stored settings r ∷ [])
        → result.1 ≡ 0
        → Registered r db result
    refuses :
        (e : DatabaseEntry) (kept : List DatabaseEntry)
        → (IsMalformed r.attrlist → ⊥)
        → FirstIdentical settings r.url r.scopelist e db.entries kept
        → (settings.check_source_addr && is_other_source settings e.peer r.peer) ≡ true
        → result.0.entries ≡ db.entries
        → result.1 ≡ authentication_failed
        → Registered r db result

  -- What a de-registration may come to.
  pub data DeRegistered (d : DeRegistration) (db : Database) (result : Database × ℕ) : Type 0 where
    unknown :
        NoneIdentical settings d.url d.scopelist db.entries
        → result ≡ (db, invalid_registration)
        → DeRegistered d db result
    denies :
        (e : DatabaseEntry) (kept : List DatabaseEntry)
        → FirstIdentical settings d.url d.scopelist e db.entries kept
        → (settings.check_source_addr && is_other_source settings e.peer d.peer) ≡ true
        → result ≡ (db, authentication_failed)
        → DeRegistered d db result
    removes :
        (e : DatabaseEntry) (kept : List DatabaseEntry)
        → FirstIdentical settings d.url d.scopelist e db.entries kept
        → (settings.check_source_addr && is_other_source settings e.peer d.peer) ≡ false
        → result.0.entries ≡ kept
        → result.0.events ≡ (
            if srvtype_used settings e.srvtype kept
            then db.events
            else db.events ++ (remove_service e.srvtype ∷ []))
        → result.1 ≡ 0
        → DeRegistered d db result

  listen-entries :
      (srvtype : List ℕ) (db : Database) → (listen settings srvtype db).entries ≡ db.entries
  unfolding listen
  listen-entries srvtype db = ground arith

  add-created :
      (r : DatabaseEntry) (entries : List DatabaseEntry) (db : Database)
      → settings.creates ≡ true
      → add settings r entries db ≡ (record db { entries = entries ++ (stored settings r ∷ []) }, 0)
  unfolding add
  add-created r entries db c = ground (arith, c)

  reg-malformed :
      (r : DatabaseEntry) (db : Database)
      → (check_attribute_list_syntax r.attrlist == 0) ≡ false
      → database_reg settings r db ≡ (db, invalid_registration)
  unfolding database_reg
  reg-malformed r db bad = ground (arith, bad)

  reg-scanned :
      (r : DatabaseEntry) (db : Database)
      → (check_attribute_list_syntax r.attrlist == 0) ≡ true
      → settings.opens ≡ true
      → settings.normalises ≡ true
      → database_reg settings r db
        ≡ add_scanned settings r
            (take_identical settings r.url r.scopelist r.peer
              (listen settings r.srvtype db).entries)
            (listen settings r.srvtype db)
  unfolding database_reg
  reg-scanned r db ok o n = ground (arith, ok, o, n)

  de_reg-scanned :
      (d : DeRegistration) (db : Database)
      → settings.opens ≡ true
      → database_de_reg settings d db
        ≡ remove_scanned settings (take_identical settings d.url d.scopelist d.peer db.entries) db
  unfolding database_de_reg
  de_reg-scanned d db o = ground (arith, o)

  add_scanned-Registered :
      (r : DatabaseEntry) (s : Scan) (db listening : Database)
      → settings.creates ≡ true
      → (IsMalformed r.attrlist → ⊥)
      → listening.entries ≡ db.entries
      → Scanned settings r.url r.scopelist r.peer db.entries s
      → Registered r db (add_scanned settings r s listening)
  unfolding add_scanned
  add_scanned-Registered r missing db listening c formed e h =
      rw (add-created r listening.entries listening c) (
        stores db.entries formed (none_identical h refl) (ap (λ l. l ++ (stored settings r ∷ [])) e)
          refl)
  add_scanned-Registered r refused db listening c formed e (x, kept, f, other) =
      refuses x kept formed f other e refl
  add_scanned-Registered r (taken x kept) db listening c formed e (f, same) =
      rw (add-created r kept listening c) (stores kept formed (first_identical x f same) refl refl)

  -- If there is memory, SLPDDatabaseReg refuses a malformed attribute list with SLP_ERROR_INVALID_REGISTRATION and
  -- changes nothing, refuses to replace the first identical entry (an equal URL and a scope in common) from another
  -- source, where sources are checked, with SLP_ERROR_AUTHENTICATION_FAILED and keeps all entries, and otherwise
  -- answers 0 and stores the new entry behind the old ones, without the first identical one if there is one.
  pub database_reg-Registered :
      (r : DatabaseEntry) (db : Database)
      → settings.opens ≡ true
      → settings.normalises ≡ true
      → settings.creates ≡ true
      → Registered r db (database_reg settings r db)
  database_reg-Registered r db o n c = elim (check_attribute_list_syntax-IsMalformed r.attrlist) [
    | inr (formed, ok) ↦
        let kept = listen-entries r.srvtype db in
        let listening = listen settings r.srvtype db in
        let s = take_identical settings r.url r.scopelist r.peer listening.entries in
        rw (reg-scanned r db ok o n) (
          add_scanned-Registered r s db listening c formed kept (
            subst (λ l. Scanned settings r.url r.scopelist r.peer l s) (kept)
              (take_identical-Scanned settings r.url r.scopelist r.peer listening.entries)))
    | inl (bad, code) ↦ malformed bad (reg-malformed r db code)
  ]

  -- The type of an entry fits into the array of SLPDDatabaseDeReg and has no NUL.
  abbrev pub IsCopied : DatabaseEntry → Type 0
  IsCopied e = (length e.srvtype ≤ 512) × Lacks 0 e.srvtype

  strncpy-Lacks : (s : List ℕ) → Lacks 0 s → strncpy s ≡ s
  unfolding strncpy
  strncpy-Lacks [] h = refl
  strncpy-Lacks (c ∷ s) (e, h) = rw (e, strncpy-Lacks s h) refl

  overrun-none : (n : ℕ) (db : Database) → n ≤ 512 → overrun settings n db ≡ db
  unfolding overrun
  overrun-none n db h = ground (arith, h)

  All-middle :
      (front behind : List DatabaseEntry) (e : DatabaseEntry)
      → All IsCopied (front ++ (e ∷ behind))
      → IsCopied e
  All-middle [] behind e h = h.0
  All-middle (x ∷ front) behind e h = All-middle front behind e h.1

  stop-entries :
      (srvtype : List ℕ) (db : Database) → (stop_listening settings srvtype db).entries ≡ db.entries
  unfolding stop_listening
  stop-entries srvtype db = ground arith

  stop-events :
      (srvtype : List ℕ) (db : Database)
      → settings.reopens ≡ true
      → (stop_listening settings srvtype db).events ≡ (
          if srvtype_used settings srvtype db.entries
          then db.events
          else db.events ++ (remove_service srvtype ∷ []))
  unfolding stop_listening
  stop-events srvtype db o = ground (arith, o)

  remove_scanned-DeRegistered :
      (d : DeRegistration) (s : Scan) (db : Database)
      → settings.reopens ≡ true
      → All IsCopied db.entries
      → Scanned settings d.url d.scopelist d.peer db.entries s
      → DeRegistered d db (remove_scanned settings s db)
  unfolding remove_scanned
  remove_scanned-DeRegistered d missing db o copied h = unknown h refl
  remove_scanned-DeRegistered d refused db o copied (x, kept, f, other) = denies x kept f other refl
  remove_scanned-DeRegistered d (taken x kept) db o copied (f, same) =
      let fits = All-middle f.before f.after x (subst (All IsCopied) f.split copied) in
      let left : Database = record db { entries = kept } in
      rw (strncpy-Lacks x.srvtype fits.1, overrun-none (length x.srvtype) left fits.0)
        (removes x kept f same (stop-entries x.srvtype left) (stop-events x.srvtype left o) refl)

  -- If there is memory, and every stored service type has at most 512 bytes and no NUL, SLPDDatabaseDeReg answers
  -- SLP_ERROR_INVALID_REGISTRATION and changes nothing if no entry is identical, answers
  -- SLP_ERROR_AUTHENTICATION_FAILED and changes nothing if the first identical entry has another source, where
  -- sources are checked, and otherwise answers 0, takes out the first identical entry only, and stops listening for
  -- its service type exactly if no other entry has that.
  pub database_de_reg-DeRegistered :
      (d : DeRegistration) (db : Database)
      → settings.opens ≡ true
      → settings.reopens ≡ true
      → All IsCopied db.entries
      → DeRegistered d db (database_de_reg settings d db)
  database_de_reg-DeRegistered d db o again copied = rw (de_reg-scanned d db o) (
      remove_scanned-DeRegistered d (take_identical settings d.url d.scopelist d.peer db.entries) db
        again copied (take_identical-Scanned settings d.url d.scopelist d.peer db.entries))
