-- ===== src/Database/Identical.antt =====
-- The identical entry that SLPDDatabaseReg and SLPDDatabaseDeReg look for.
use openslp.Base.{
  ℕ, ◌≡◌, refl, ap, true, false, ◌&&◌, Bool-cases, inl, inr, List, [], ◌∷◌, ◌++◌, All,
}
use openslp.Message.Types.{Sockaddr}
use openslp.Database.{
  DatabaseEntry, Settings, Scan, missing, refused, taken, behind, is_other_source, is_identical,
  take_identical,
}

module _ (settings : Settings) where
  -- No entry is identical.
  abbrev pub NoneIdentical : (url scopelist : List ℕ) → List DatabaseEntry → Type 0
  NoneIdentical url scopelist = All (λ e. is_identical settings url scopelist e ≡ false)

  -- The first identical entry, between the others.
  pub record FirstIdentical (url scopelist : List ℕ) (e : DatabaseEntry)
      (entries kept : List DatabaseEntry) : Type 0 where
    pub before : List DatabaseEntry
    pub after : List DatabaseEntry
    pub split : entries ≡ before ++ (e ∷ after)
    pub rest : kept ≡ before ++ after
    pub none_before : NoneIdentical url scopelist before
    pub identical : is_identical settings url scopelist e ≡ true

  -- What the search says of the entries.
  abbrev pub Scanned :
      (url scopelist : List ℕ) (peer : Sockaddr) → List DatabaseEntry → Scan → Type 0
  Scanned url scopelist peer entries missing = NoneIdentical url scopelist entries
  Scanned url scopelist peer entries refused =
      (e : DatabaseEntry) × (kept : List DatabaseEntry) × FirstIdentical url scopelist e entries
        kept
      × ((settings.check_source_addr && is_other_source settings e.peer peer) ≡ true)
  Scanned url scopelist peer entries (taken e kept) =
      FirstIdentical url scopelist e entries kept
      × ((settings.check_source_addr && is_other_source settings e.peer peer) ≡ false)

  later-first :
      (url scopelist : List ℕ) (x e : DatabaseEntry) (entries kept : List DatabaseEntry)
      → is_identical settings url scopelist x ≡ false
      → FirstIdentical url scopelist e entries kept
      → FirstIdentical url scopelist e (x ∷ entries) (x ∷ kept)
  later-first url scopelist x e entries kept fails f = record {
    before = x ∷ f.before;
    after = f.after;
    split = ap (λ l. x ∷ l) f.split;
    rest = ap (λ l. x ∷ l) f.rest;
    none_before = (fails, f.none_before);
    identical = f.identical;
  }

  at_head :
      (url scopelist : List ℕ) (e : DatabaseEntry) (entries : List DatabaseEntry)
      → is_identical settings url scopelist e ≡ true
      → FirstIdentical url scopelist e (e ∷ entries) entries
  at_head url scopelist e entries hit = record {
    before = [];
    after = entries;
    split = refl;
    rest = refl;
    none_before = tt;
    identical = hit;
  }

  behind-Scanned :
      (url scopelist : List ℕ) (peer : Sockaddr) (x : DatabaseEntry) (entries : List DatabaseEntry)
      (s : Scan)
      → is_identical settings url scopelist x ≡ false
      → Scanned url scopelist peer entries s
      → Scanned url scopelist peer (x ∷ entries) (behind x s)
  behind-Scanned url scopelist peer x entries missing fails h = (fails, h)
  behind-Scanned url scopelist peer x entries refused fails (e, kept, f, o) =
      (e, x ∷ kept, later-first url scopelist x e entries kept fails f, o)
  behind-Scanned url scopelist peer x entries (taken e kept) fails (f, o) =
      (later-first url scopelist x e entries kept fails f, o)

  pub take_identical-Scanned :
      (url scopelist : List ℕ) (peer : Sockaddr) (entries : List DatabaseEntry)
      → Scanned url scopelist peer entries (take_identical settings url scopelist peer entries)
  unfolding take_identical
  take_identical-Scanned url scopelist peer [] = tt
  take_identical-Scanned url scopelist peer (e ∷ entries) =
      elim (Bool-cases (is_identical settings url scopelist e)) [
        | inl hit ↦
            elim (Bool-cases (settings.check_source_addr && is_other_source settings e.peer peer)) [
              | inl other ↦
                  rw (hit, take_identical, other)
                    (e, entries, at_head url scopelist e entries hit, other)
              | inr same ↦
                  rw (hit, take_identical, same) (at_head url scopelist e entries hit, same)
            ]
        | inr differs ↦
            rw (differs, take_identical)
              (behind-Scanned url scopelist peer e entries
                (take_identical settings url scopelist peer entries) differs
                (take_identical-Scanned url scopelist peer entries))
      ]
