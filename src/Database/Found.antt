-- ===== src/Database/Found.antt =====
-- A service request after a registration.
use openslp.Base.{
  ℕ, suc, ◌*◌, ◌≤◌, ◌<◌, ◌≡◌, refl, sym, ap, ◌∙◌, Bool, true, Bool-cases, inl, inr, List, [], ◌∷◌,
  ◌++◌, length, Returns, Returns-mono, arith,
}
use openslp.Database.{DatabaseEntry, Database, Settings, stored, database_reg}
use openslp.Database.Requests.{Request, test_entry, start_loop}
use openslp.Database.Finds.{is_match, matches, matches-yes, start_loop-Finds}
use openslp.Database.Replaces.{Registered, malformed, stores, refuses, database_reg-Registered}

module _ (settings : Settings) (request : Request) where
  matches-append :
      (xs ys : List DatabaseEntry)
      → matches settings request (xs ++ ys)
        ≡ matches settings request xs ++ matches settings request ys
  matches-append [] ys = refl
  matches-append (x ∷ xs) ys = elim (Bool-cases (is_match settings request x)) [
    | inl t ↦ rw t (ap (λ l. x ∷ l) (matches-append xs ys))
    | inr f ↦ rw f (matches-append xs ys)
  ]

  length-matches : (xs : List DatabaseEntry) → length (matches settings request xs) ≤ length xs
  length-matches [] = omega arith
  length-matches (x ∷ xs) = ground (arith, length-matches xs)

  only-match :
      (r : DatabaseEntry)
      → test_entry settings request (stored settings r) ≡ true
      → matches settings request (stored settings r ∷ []) ≡ stored settings r ∷ []
  only-match r t = matches-yes settings request (stored settings r) [] t

  Registered-matches :
      (r : DatabaseEntry) (db : Database) (result : Database × ℕ)
      → Registered settings r db result
      → result.1 ≡ 0
      → test_entry settings request (stored settings r) ≡ true
      → (front : List DatabaseEntry) × (matches settings request result.0.entries
          ≡ front ++ (stored settings r ∷ []))
  Registered-matches r db result (malformed bad e) ok t =
      absurd (omega (arith, sym ok ∙ ap (λ x. x.1) e))
  Registered-matches r db result (refuses e kept formed f other same code) ok t =
      absurd (omega (arith, sym ok ∙ code))
  Registered-matches r db result (stores kept formed replaced e code) ok t = (
    matches settings request kept,
    ap (matches settings request) e
        ∙ matches-append kept (stored settings r ∷ [])
        ∙ ap (λ l. matches settings request kept ++ l) (only-match r t),
  )

  -- A service that SLPDDatabaseReg accepted with code 0 is found: a request that the stored entry matches ends with
  -- code 0 and has the entry as its last result, if there is memory, in as many rounds as there are entries and one,
  -- and the array's first size and twice the entries fit an int.
  pub database_reg-Found :
      (r : DatabaseEntry) (db : Database) (realloc : ℕ → Bool) (urlcount : ℕ)
      → settings.opens ≡ true
      → settings.normalises ≡ true
      → settings.creates ≡ true
      → (database_reg settings r db).1 ≡ 0
      → test_entry settings request (stored settings r) ≡ true
      → ((n : ℕ) → realloc n ≡ true)
      → 0 < urlcount
      → urlcount ≤ 2147483647
      → 2 * length (database_reg settings r db).0.entries ≤ 2147483647
      → Returns
          (λ s.
            (s.errorcode ≡ 0)
            × ((front : List DatabaseEntry) × (s.urlarray ≡ front ++ (stored settings r ∷ []))))
          (start_loop settings request realloc
            (suc (length (database_reg settings r db).0.entries))
            urlcount
            (database_reg settings r db).0.entries)
  database_reg-Found r db realloc urlcount o n c ok t memory pos int ints =
      let es = (database_reg settings r db).0.entries in
      let (front, e) =
        Registered-matches r db (database_reg settings r db)
          (database_reg-Registered settings r db o n c) ok t in
      let small = length-matches es in
      Returns-mono
        (start_loop-Finds settings request realloc (length es) urlcount 2147483647 es memory pos
          (omega (arith, small)) int (omega (arith, small, ints)) (omega arith))
        (λ s (_, listed, code, _, _). (code, (front, listed ∙ e)))
