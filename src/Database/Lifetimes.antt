-- ===== src/Database/Lifetimes.antt =====
-- The lifetimes and the sources that the database stores.
use openslp.Base.{ℕ, ◌≤◌, ◌<◌, ◌≡◌, ◌∙◌, sym, subst, Bool, List, [], ◌∷◌, ◌++◌, length, All, arith}
use openslp.Message.Types.{Sockaddr}
use openslp.Database.{
  DatabaseEntry, DeRegistration, Database, Settings, Event, Scan, missing, refused, taken, behind,
  Aged, stays, leaves, fixed_lifetime, take_identical, listen, stored, add, add_scanned,
  database_reg, stop_listening, remove_scanned, database_de_reg, overrun, strncpy, age_entry,
  after_aged, age_entries, database_age,
}

-- A stored entry: a lifetime of 16 bits and a known source.
abbrev pub IsStored : DatabaseEntry → Type 0
IsStored e = (e.lifetime ≤ 65535) × (0 < e.source)

-- What the daemon does to its database: registrations, as parsed from the wire, de-registrations and agings.
pub data Step (settings : Settings) (db : Database) : Database → Type 0 where
  registers :
      (r : DatabaseEntry) → r.lifetime ≤ 65535 → Step settings db (database_reg settings r db).0
  de_registers : (d : DeRegistration) → Step settings db (database_de_reg settings d db).0
  ages : (seconds : ℕ) (ageall : Bool) → Step settings db (database_age settings seconds ageall db)

pub data Reach (settings : Settings) (db : Database) : Database → Type 0 where
  here : Reach settings db db
  next :
      {db1 db2 : Database} → Reach settings db db1 → Step settings db1 db2 → Reach settings db db2

module _ (settings : Settings) where
  stored-IsStored : (r : DatabaseEntry) → r.lifetime ≤ 65535 → IsStored (stored settings r)
  unfolding stored fixed_lifetime
  stored-IsStored r h = ground arith

  All-append :
      (xs ys : List DatabaseEntry) → All IsStored xs → All IsStored ys → All IsStored (xs ++ ys)
  All-append [] ys a b = b
  All-append (x ∷ xs) ys a b = (a.0, All-append xs ys a.1 b)

  -- The entries that a search leaves.
  abbrev Kept : Scan → Type 0
  Kept missing = Unit
  Kept refused = Unit
  Kept (taken e rest) = All IsStored rest

  behind-Kept : (e : DatabaseEntry) (s : Scan) → IsStored e → Kept s → Kept (behind e s)
  behind-Kept e missing h k = tt
  behind-Kept e refused h k = tt
  behind-Kept e (taken x rest) h k = (h, k)

  take_identical-Kept :
      (url scopelist : List ℕ) (peer : Sockaddr) (es : List DatabaseEntry)
      → All IsStored es
      → Kept (take_identical settings url scopelist peer es)
  unfolding take_identical
  take_identical-Kept url scopelist peer [] h = tt
  take_identical-Kept url scopelist peer (e ∷ es) h = ground (
    arith,
    behind-Kept e (take_identical settings url scopelist peer es) h.0
        (take_identical-Kept url scopelist peer es h.1),
    h.1,
  )

  listen-entries :
      (srvtype : List ℕ) (db : Database) → (listen settings srvtype db).entries ≡ db.entries
  unfolding listen
  listen-entries srvtype db = ground arith

  stop-entries :
      (srvtype : List ℕ) (db : Database) → (stop_listening settings srvtype db).entries ≡ db.entries
  unfolding stop_listening
  stop-entries srvtype db = ground arith

  overrun-entries : (n : ℕ) (db : Database) → (overrun settings n db).entries ≡ db.entries
  unfolding overrun
  overrun-entries n db = ground arith

  add-IsStored :
      (r : DatabaseEntry) (es : List DatabaseEntry) (db : Database)
      → r.lifetime ≤ 65535
      → All IsStored es
      → All IsStored (add settings r es db).0.entries
  unfolding add
  add-IsStored r es db h a =
      ground (arith, a, All-append es (stored settings r ∷ []) a (stored-IsStored r h, tt))

  add_scanned-IsStored :
      (r : DatabaseEntry) (s : Scan) (db : Database)
      → r.lifetime ≤ 65535
      → All IsStored db.entries
      → Kept s
      → All IsStored (add_scanned settings r s db).0.entries
  unfolding add_scanned
  add_scanned-IsStored r missing db h a k = add-IsStored r db.entries db h a
  add_scanned-IsStored r refused db h a k = a
  add_scanned-IsStored r (taken e rest) db h a k = add-IsStored r rest db h k

  reg-IsStored :
      (r : DatabaseEntry) (db : Database)
      → r.lifetime ≤ 65535
      → All IsStored db.entries
      → All IsStored (database_reg settings r db).0.entries
  unfolding database_reg
  reg-IsStored r db h a =
      let listening = listen settings r.srvtype db in
      let b : All IsStored listening.entries =
        subst (All IsStored) (sym (listen-entries r.srvtype db)) a in
      ground (
        arith,
        a,
        b,
        add_scanned-IsStored r (take_identical settings r.url r.scopelist r.peer listening.entries)
            listening h b (take_identical-Kept r.url r.scopelist r.peer listening.entries b),
      )

  remove_scanned-IsStored :
      (s : Scan) (db : Database)
      → All IsStored db.entries
      → Kept s
      → All IsStored (remove_scanned settings s db).0.entries
  unfolding remove_scanned
  remove_scanned-IsStored missing db a k = a
  remove_scanned-IsStored refused db a k = a
  remove_scanned-IsStored (taken e rest) db a k =
      let left : Database = record db { entries = rest } in
      let copied = overrun-entries (length e.srvtype) left in
      let stopped = stop-entries (strncpy e.srvtype) (overrun settings (length e.srvtype) left) in
      subst (All IsStored) (sym (stopped ∙ copied)) k

  de_reg-IsStored :
      (d : DeRegistration) (db : Database)
      → All IsStored db.entries
      → All IsStored (database_de_reg settings d db).0.entries
  unfolding database_de_reg
  de_reg-IsStored d db a = ground (
    arith,
    a,
    remove_scanned-IsStored (take_identical settings d.url d.scopelist d.peer db.entries) db a
        (take_identical-Kept d.url d.scopelist d.peer db.entries a),
  )

  -- An entry that stays.
  abbrev Stays : Aged → Type 0
  Stays (stays e) = IsStored e
  Stays (leaves events) = Unit

  age_entry-Stays :
      (seconds : ℕ) (ageall : Bool) (e : DatabaseEntry)
      → IsStored e
      → Stays (age_entry settings seconds ageall e)
  unfolding age_entry
  age_entry-Stays seconds ageall e h = ground arith

  after_aged-IsStored :
      (a : Aged) (later : List DatabaseEntry × List Event)
      → Stays a
      → All IsStored later.0
      → All IsStored (after_aged settings a later).0
  after_aged-IsStored (stays e) later h k = (h, k)
  after_aged-IsStored (leaves events) later h k = k

  age_entries-IsStored :
      (seconds : ℕ) (ageall : Bool) (es : List DatabaseEntry)
      → All IsStored es
      → All IsStored (age_entries settings seconds ageall es).0
  unfolding age_entries
  age_entries-IsStored seconds ageall [] h = tt
  age_entries-IsStored seconds ageall (e ∷ es) h =
      after_aged-IsStored (age_entry settings seconds ageall e)
        (age_entries settings seconds ageall es) (age_entry-Stays seconds ageall e h.0)
        (age_entries-IsStored seconds ageall es h.1)

  age-IsStored :
      (seconds : ℕ) (ageall : Bool) (db : Database)
      → All IsStored db.entries
      → All IsStored (database_age settings seconds ageall db).entries
  unfolding database_age
  age-IsStored seconds ageall db h =
      ground (arith, h, age_entries-IsStored seconds ageall db.entries h)

  Step-IsStored :
      {db after : Database}
      → Step settings db after
      → All IsStored db.entries
      → All IsStored after.entries
  Step-IsStored {db} (registers r h) a = reg-IsStored r db h a
  Step-IsStored {db} (de_registers d) a = de_reg-IsStored d db a
  Step-IsStored {db} (ages seconds ageall) a = age-IsStored seconds ageall db a

  -- However a database is reached from one whose entries have a lifetime of 16 bits and a known source, by
  -- registrations with a lifetime of 16 bits, de-registrations and agings, its entries are such again.
  pub Reach-IsStored :
      {db after : Database}
      → All IsStored db.entries
      → Reach settings db after
      → All IsStored after.entries
  Reach-IsStored h here = h
  Reach-IsStored h (next r st) = Step-IsStored st (Reach-IsStored h r)
