-- ===== src/Database/Lists.antt =====
-- SLPDDatabaseSrvTypeRqstStart against its listing.
use openslp.Base.{
  ℕ, zero, suc, ◌+◌, ◌*◌, ◌%◌, ◌^◌, ◌≤◌, ◌<◌, ◌≡◌, ◌⊎◌, refl, ◌∙◌, Bool, true, false, ◌&&◌, ltb,
  ltb→lt, ltb→le, Bool-cases, ◌==◌, if◌then◌else◌, inl, inr, Option, some, List, [], ◌∷◌, ◌++◌,
  length, All, arith, Returns, returned,
}
use openslp.Database.{DatabaseEntry, Settings}
use openslp.Database.Types.{
  TypeRequest, TypesStarted, full, listed, authority_of, test_type, type_scan, types_loop,
  srv_type_rqst_start,
}
use openslp.Database.Listing.{
  comma_separated, NonEmpty, append_type-comma_separated, Readable, has_authority, shares_scope,
  is_new, listing, test_type-is_new, All-append_one, length-comma_separated,
}

module _ (settings : Settings) (address : DatabaseEntry → ℕ) (request : TypeRequest) where
  abbrev chosen : List (List ℕ) → DatabaseEntry → Bool
  chosen types e =
      has_authority settings address request e
      && (shares_scope settings address request e && is_new settings address request types e)

  chosen-code :
      (types : List (List ℕ)) (e : DatabaseEntry) (n : ℕ)
      → authority_of settings address request e ≡ some n
      → ((n == 0) && test_type settings address request (comma_separated types) e) ≡ chosen types e
  chosen-code types e n r =
      let same : has_authority settings address request e ≡ (n == 0) = rw (r, has_authority) refl in
      rw (test_type-is_new settings address request types e, same) refl

  scan-chosen :
      (limit : ℕ) (types : List (List ℕ)) (e : DatabaseEntry) (es : List DatabaseEntry)
      → Readable settings address request e
      → All NonEmpty types
      → chosen types e ≡ true
      → type_scan settings address request limit (comma_separated types) (e ∷ es) ≡ (
          if ltb limit (length (comma_separated types) + length e.srvtype + 1)
          then full
          else type_scan settings address request limit
              (comma_separated (types ++ (e.srvtype ∷ [])))
              es)
  unfolding type_scan
  scan-chosen limit types e es ((n, r), pos) h hit =
      let code = chosen-code types e n r ∙ hit in
      rw (r, type_scan, code, append_type-comma_separated types e.srvtype h) refl

  scan-passed :
      (limit : ℕ) (types : List (List ℕ)) (e : DatabaseEntry) (es : List DatabaseEntry)
      → Readable settings address request e
      → chosen types e ≡ false
      → type_scan settings address request limit (comma_separated types) (e ∷ es)
        ≡ type_scan settings address request limit (comma_separated types) es
  unfolding type_scan
  scan-passed limit types e es ((n, r), pos) miss =
      let code = chosen-code types e n r ∙ miss in rw (r, type_scan, code) refl

  listing-grows :
      (types : List (List ℕ)) (es : List DatabaseEntry)
      → length (comma_separated types)
        ≤ length (comma_separated (listing settings address request types es))
  listing-grows types [] = omega arith
  listing-grows types (e ∷ es) = elim (Bool-cases (chosen types e)) [
    | inl hit ↦
        let size = length-comma_separated types e.srvtype in
        rw hit (omega (arith, size, listing-grows (types ++ (e.srvtype ∷ [])) es))
    | inr miss ↦ rw miss (listing-grows types es)
  ]

  -- A round either lists all types within its text, or they do not fit with a place to spare.
  scan-lists :
      (limit : ℕ) (types : List (List ℕ)) (es : List DatabaseEntry)
      → All (Readable settings address request) es
      → All NonEmpty types
      → length (comma_separated types) ≤ limit
      → ((type_scan settings address request limit (comma_separated types) es ≡ full)
          × (limit ≤ length (comma_separated (listing settings address request types es))))
        ⊎ ((type_scan settings address request limit (comma_separated types) es
              ≡ listed (comma_separated (listing settings address request types es)))
            × (length (comma_separated (listing settings address request types es)) ≤ limit))
  scan-lists limit types [] r some_text h = inr (unfold type_scan in refl, h)
  scan-lists limit types (e ∷ es) (r, rs) t h = elim (Bool-cases (chosen types e)) [
    | inr miss ↦ rw (scan-passed limit types e es r miss, miss) (scan-lists limit types es rs t h)
    | inl hit ↦
        let size = length-comma_separated types e.srvtype in
        let more = types ++ (e.srvtype ∷ []) in
        let needed = length (comma_separated types) + length e.srvtype + 1 in
        elim (Bool-cases (ltb limit needed)) [
          | inl small ↦
              let less = ltb→lt limit needed small in
              rw (scan-chosen limit types e es r t hit, hit, small)
                (inl (refl, omega (arith, less, size, listing-grows more es)))
          | inr fits ↦
              let room = ltb→le limit needed fits in
              rw (scan-chosen limit types e es r t hit, hit, fits)
                (scan-lists limit more es rs (All-append_one types e.srvtype t r.1)
                  (omega (arith, room, size)))
        ]
  ]

  -- The text that is listed.
  abbrev pub listed_text : List DatabaseEntry → List ℕ
  listed_text es = comma_separated (listing settings address request [] es)

  -- What a request ends with, by whether the database gives a handle.
  abbrev pub Lists : (opens : Bool) (bound : ℕ) → List DatabaseEntry → TypesStarted → Type 0
  Lists false bound es s = (s.allocated ≡ false) × (s.srvtypelist ≡ []) × (s.errorcode ≡ 0)
  Lists true bound es s =
      (s.allocated ≡ true)
      × (s.srvtypelist ≡ listed_text es)
      × (s.errorcode ≡ 0)
      × (length s.srvtypelist ≤ s.srvtypelistlen)
      × (s.srvtypelistlen ≤ bound)

  doubled : (limit bound : ℕ) → limit * 2 ≤ bound → bound < 2 ^ 64 → limit * 2 % 2 ^ 64 ≡ limit * 2
  doubled limit bound h k = omega arith

  types_loop-Lists :
      (realloc : ℕ → Bool) (fuel limit bound : ℕ) (es : List DatabaseEntry)
      → ((n : ℕ) → realloc n ≡ true)
      → All (Readable settings address request) es
      → 0 < limit
      → length (listed_text es) < limit + fuel
      → limit ≤ bound
      → 2 * length (listed_text es) ≤ bound
      → bound < 2 ^ 64
      → Returns
          (Lists true bound es)
          (types_loop settings address request realloc (suc fuel) limit es)
  unfolding types_loop
  types_loop-Lists realloc zero limit bound es memory r pos enough le twice size_t =
      elim (scan-lists limit [] es r tt (omega arith)) [
        | inr (lists, fits) ↦ rw (memory limit, lists) (returned (refl, refl, refl, fits, le))
        | inl (small, much) ↦ absurd (omega (arith, much, enough))
      ]
  types_loop-Lists realloc (suc fuel) limit bound es memory r pos enough le twice size_t =
      elim (scan-lists limit [] es r tt (omega arith)) [
        | inr (lists, fits) ↦ rw (memory limit, lists) (returned (refl, refl, refl, fits, le))
        | inl (small, much) ↦
            rw (memory limit, small, doubled limit bound (omega (arith, much, twice)) size_t)
              (types_loop-Lists realloc fuel (limit * 2) bound es memory r (omega arith)
                (omega arith) (omega (arith, much)) twice size_t)
      ]

  by_handle :
      (opens : Bool) (bound limit : ℕ) (es : List DatabaseEntry) (loop : Option TypesStarted)
      → Returns (Lists true bound es) loop
      → Returns (Lists opens bound es) (
          if opens
          then loop
          else some
              record { allocated = false; srvtypelist = []; srvtypelistlen = limit; errorcode = 0 })
  by_handle false bound limit es loop h = returned (refl, refl, refl)
  by_handle true bound limit es loop h = h

  -- SLPDDatabaseSrvTypeRqstStart ends, if its text always gets memory and has a place at first, the comparisons of the
  -- naming authority read nothing astray, no stored type is empty and twice the listed text fits a size_t, as soon as
  -- the rounds and the first size are more than the length of that text. If the database gives a handle, it answers 0
  -- with the types of the entries of the authority that have a scope in common, each that is not among those before
  -- it, with commas between them; they fit into the text, which has never been doubled beyond a bound on its first
  -- size and on twice their length. Without a handle it answers 0 too, and there is no result.
  pub srv_type_rqst_start-Lists :
      (realloc : ℕ → Bool) (fuel limit bound : ℕ) (es : List DatabaseEntry)
      → ((n : ℕ) → realloc n ≡ true)
      → All (Readable settings address request) es
      → 0 < limit
      → length (listed_text es) < limit + fuel
      → limit ≤ bound
      → 2 * length (listed_text es) ≤ bound
      → bound < 2 ^ 64
      → Returns
          (Lists settings.opens bound es)
          (srv_type_rqst_start settings address request realloc (suc fuel) limit es)
  unfolding srv_type_rqst_start
  srv_type_rqst_start-Lists realloc fuel limit bound es memory r pos enough le twice size_t =
      by_handle settings.opens bound limit es
        (types_loop settings address request realloc (suc fuel) limit es)
        (types_loop-Lists realloc fuel limit bound es memory r pos enough le twice size_t)
