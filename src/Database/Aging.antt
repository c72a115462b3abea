-- ===== src/Database/Aging.antt =====
-- SLPDDatabaseAge: entry by entry, and round after round.

use openslp.Base.{
  ℕ, zero, suc, ◌-◌, ◌*◌, ◌≤◌, ◌<◌, ◌≡◌, sym, subst, Bool, true, false, ◌⊎◌, inr, List, [], ◌∷◌,
  All, arith,
}
use openslp.Database.{
  DatabaseEntry, Database, Settings, Event, Aged, stays, leaves, reg_source_static,
  reg_source_local, age_entry, after_aged, age_entries, database_age,
}

-- What is never aged: the maximal lifetime, unless all are aged and it came from another host.
abbrev pub Permanent : (ageall : Bool) → DatabaseEntry → Type 0
Permanent ageall e =
    (e.lifetime ≡ 65535)
    × ((ageall ≡ false) ⊎ ((e.source ≡ reg_source_static) ⊎ (e.source ≡ reg_source_local)))

abbrev Within : (ageall : Bool) (n : ℕ) → DatabaseEntry → Type 0
Within ageall n e = Permanent ageall e ⊎ (e.lifetime ≤ n)

abbrev Left : (ageall : Bool) (n : ℕ) → DatabaseEntry → Type 0
Left ageall n e = Permanent ageall e ⊎ ((0 < e.lifetime) × (e.lifetime ≤ n))

abbrev StaysLeft : (ageall : Bool) (n : ℕ) → Aged → Type 0
StaysLeft ageall n (stays e) = Left ageall n e
StaysLeft ageall n (leaves events) = Unit

module _ (settings : Settings) where
  -- Rounds of SLPDDatabaseAge.
  abbrev pub age_rounds : (rounds seconds : ℕ) (ageall : Bool) → Database → Database
  age_rounds zero seconds ageall db = db
  age_rounds (suc n) seconds ageall db =
      age_rounds n seconds ageall (database_age settings seconds ageall db)

  age_entry-Left :
      (n seconds : ℕ) (ageall : Bool) (e : DatabaseEntry)
      → Within ageall n e
      → StaysLeft ageall (n - seconds) (age_entry settings seconds ageall e)
  unfolding age_entry
  age_entry-Left n seconds ageall e h = ground (arith, h)

  after_aged-Left :
      (n : ℕ) (ageall : Bool) (a : Aged) (later : List DatabaseEntry × List Event)
      → StaysLeft ageall n a
      → All (Left ageall n) later.0
      → All (Left ageall n) (after_aged settings a later).0
  after_aged-Left n ageall (stays e) later h k = (h, k)
  after_aged-Left n ageall (leaves events) later h k = k

  age_entries-Left :
      (n seconds : ℕ) (ageall : Bool) (es : List DatabaseEntry)
      → All (Within ageall n) es
      → All (Left ageall (n - seconds)) (age_entries settings seconds ageall es).0
  unfolding age_entries
  age_entries-Left n seconds ageall [] h = tt
  age_entries-Left n seconds ageall (e ∷ es) h =
      after_aged-Left (n - seconds) ageall (age_entry settings seconds ageall e)
        (age_entries settings seconds ageall es) (age_entry-Left n seconds ageall e h.0)
        (age_entries-Left n seconds ageall es h.1)

  age-entries :
      (seconds : ℕ) (ageall : Bool) (db : Database)
      → settings.opens ≡ true
      → (database_age settings seconds ageall db).entries
        ≡ (age_entries settings seconds ageall db.entries).0
  unfolding database_age
  age-entries seconds ageall db o = ground (arith, o)

  age-Left :
      (n seconds : ℕ) (ageall : Bool) (db : Database)
      → settings.opens ≡ true
      → All (Within ageall n) db.entries
      → All (Left ageall (n - seconds)) (database_age settings seconds ageall db).entries
  age-Left n seconds ageall db o h =
      subst (All (Left ageall (n - seconds))) (sym (age-entries seconds ageall db o))
        (age_entries-Left n seconds ageall db.entries h)

  Left-Within :
      (n : ℕ) (ageall : Bool) (es : List DatabaseEntry)
      → All (Left ageall n) es
      → All (Within ageall n) es
  Left-Within n ageall [] h = tt
  Left-Within n ageall (e ∷ es) h = ground (arith, h.0, Left-Within n ageall es h.1)

  Left-Permanent :
      (ageall : Bool) (es : List DatabaseEntry) → All (Left ageall 0) es → All (Permanent ageall) es
  Left-Permanent ageall [] h = tt
  Left-Permanent ageall (e ∷ es) h = ground (arith, h.0, Left-Permanent ageall es h.1)

  short-Within :
      (ageall : Bool) (es : List DatabaseEntry)
      → All (λ e. e.lifetime ≤ 65535) es
      → All (Within ageall 65535) es
  short-Within ageall [] h = tt
  short-Within ageall (e ∷ es) h = (inr h.0, short-Within ageall es h.1)

  rounds-Permanent :
      (rounds n seconds : ℕ) (ageall : Bool) (db : Database)
      → settings.opens ≡ true
      → n ≤ rounds * seconds
      → All (Left ageall n) db.entries
      → All (Permanent ageall) (age_rounds rounds seconds ageall db).entries
  rounds-Permanent zero n seconds ageall db o le h =
      let none_left : n ≡ 0 = omega arith in
      Left-Permanent ageall db.entries (subst (λ m. All (Left ageall m) db.entries) (none_left) h)
  rounds-Permanent (suc rounds) n seconds ageall db o le h =
      rounds-Permanent rounds (n - seconds) seconds ageall (database_age settings seconds ageall db)
        o (omega arith) (age-Left n seconds ageall db o (Left-Within n ageall db.entries h))

  -- After rounds of SLPDDatabaseAge that last as long as the longest lifetime, with memory for a handle, only those
  -- entries are left that are never aged.
  pub age_rounds-Permanent :
      (rounds seconds : ℕ) (ageall : Bool) (db : Database)
      → settings.opens ≡ true
      → 65535 ≤ suc rounds * seconds
      → All (λ e. e.lifetime ≤ 65535) db.entries
      → All (Permanent ageall) (age_rounds (suc rounds) seconds ageall db).entries
  age_rounds-Permanent rounds seconds ageall db o le h =
      rounds-Permanent rounds (65535 - seconds) seconds ageall
        (database_age settings seconds ageall db) o (omega arith)
        (age-Left 65535 seconds ageall db o (short-Within ageall db.entries h))
