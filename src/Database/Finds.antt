-- ===== src/Database/Finds.antt =====
-- SLPDDatabaseSrvRqstStart against a filter.
use openslp.Base.{
  ℕ, zero, suc, ◌+◌, ◌*◌, ◌≤◌, ◌<◌, ◌≡◌, refl, sym, ap, ◌∙◌, Bool, true, false, ◌&&◌, not, ◌==◌,
  ltb, le→ltb, ltb→lt, ltb→le, Bool-cases, if◌then◌else◌, inl, inr, Option, none, some, List, [],
  ◌∷◌, length, arith, Returns, returned,
}
use openslp.Database.{DatabaseEntry, Settings}
use openslp.Compare.Items.{is_zero}
use openslp.Compare.SrvType.{compare_srv_type}
use openslp.Compare.Contains.{items, count_items, is_found_in, intersect_string_list-Counts}
use openslp.Database.Requests.{
  Request, Started, found, test_entry, start_scan, start_loop, srv_rqst_start,
}

-- The requested type compares equal, and an item of the entry's scopes is among the request's.
abbrev pub is_match : Settings → Request → DatabaseEntry → Bool
is_match settings request e =
    is_zero (compare_srv_type request.srvtype e.srvtype)
    && ltb 0 (count_items (is_found_in settings.copies request.scopelist) (items e.scopelist))

-- The entries that match, in their order.
abbrev pub matches : Settings → Request → List DatabaseEntry → List DatabaseEntry
matches settings request [] = []
matches settings request (e ∷ rest) =
    if is_match settings request e
    then e ∷ matches settings request rest
    else matches settings request rest

positive : (n : ℕ) → not (n == 0) ≡ ltb 0 n
positive n = ground arith

module _ (settings : Settings) (request : Request) where
  pub test_entry-is_match :
      (e : DatabaseEntry) → test_entry settings request e ≡ is_match settings request e
  unfolding test_entry
  test_entry-is_match e =
      rw
        (
          intersect_string_list-Counts settings.copies e.scopelist request.scopelist,
          positive
              (count_items (is_found_in settings.copies request.scopelist) (items e.scopelist)),
        )
        refl

  scan-yes :
      (limit n : ℕ) (e : DatabaseEntry) (es : List DatabaseEntry)
      → test_entry settings request e ≡ true
      → start_scan settings request limit n (e ∷ es) ≡ (
          if ltb limit (n + 1)
          then none
          else found e (start_scan settings request limit (n + 1) es))
  unfolding start_scan
  scan-yes limit n e es t = rw (t, start_scan) refl

  scan-no :
      (limit n : ℕ) (e : DatabaseEntry) (es : List DatabaseEntry)
      → test_entry settings request e ≡ false
      → start_scan settings request limit n (e ∷ es) ≡ start_scan settings request limit n es
  unfolding start_scan
  scan-no limit n e es t = rw (t, start_scan) refl

  pub matches-yes :
      (e : DatabaseEntry) (es : List DatabaseEntry)
      → test_entry settings request e ≡ true
      → matches settings request (e ∷ es) ≡ e ∷ matches settings request es
  matches-yes e es t = rw (sym (test_entry-is_match e) ∙ t) refl

  pub matches-no :
      (e : DatabaseEntry) (es : List DatabaseEntry)
      → test_entry settings request e ≡ false
      → matches settings request (e ∷ es) ≡ matches settings request es
  matches-no e es t = rw (sym (test_entry-is_match e) ∙ t) refl

  scan-fits :
      (limit n : ℕ) (es : List DatabaseEntry)
      → n + length (matches settings request es) ≤ limit
      → start_scan settings request limit n es ≡ some (matches settings request es)
  scan-fits limit n [] h = unfold start_scan in refl
  scan-fits limit n (e ∷ es) h = elim (Bool-cases (test_entry settings request e)) [
    | inl t ↦
        let size = ap length (matches-yes e es t) in
        let room : n + 1 + length (matches settings request es) ≤ limit = omega (arith, size, h) in
        rw
          (
            scan-yes limit n e es t,
            matches-yes e es t,
            le→ltb limit (n + 1) (omega (arith, room)),
            scan-fits limit (n + 1) es room,
          )
          refl
    | inr f ↦
        rw (scan-no limit n e es f, matches-no e es f)
          (scan-fits limit n es (omega (arith, ap length (matches-no e es f), h)))
  ]

  scan-full :
      (limit n : ℕ) (es : List DatabaseEntry)
      → n ≤ limit
      → limit < n + length (matches settings request es)
      → start_scan settings request limit n es ≡ none
  scan-full limit n [] le h = absurd (omega arith)
  scan-full limit n (e ∷ es) le h = elim (Bool-cases (test_entry settings request e)) [
    | inl t ↦
        let size = ap length (matches-yes e es t) in
        elim (Bool-cases (ltb limit (n + 1))) [
          | inl full ↦ rw (scan-yes limit n e es t, full) refl
          | inr room ↦
              rw
                (
                  scan-yes limit n e es t,
                  room,
                  scan-full limit (n + 1) es (ltb→le limit (n + 1) room) (omega (arith, size, h)),
                )
                refl
        ]
    | inr f ↦
        rw (scan-no limit n e es f)
          (scan-full limit n es le (omega (arith, ap length (matches-no e es f), h)))
  ]

  -- The loop ends as soon as the rounds and the first size are more than the matches.
  pub start_loop-Finds :
      (realloc : ℕ → Bool) (fuel urlcount bound : ℕ) (es : List DatabaseEntry)
      → ((n : ℕ) → realloc n ≡ true)
      → 0 < urlcount
      → length (matches settings request es) < urlcount + fuel
      → urlcount ≤ bound
      → 2 * length (matches settings request es) ≤ bound
      → bound ≤ 2147483647
      → Returns
          (λ s.
            (s.allocated ≡ true)
            × (s.urlarray ≡ matches settings request es)
            × (s.errorcode ≡ 0)
            × (length (matches settings request es) ≤ s.urlcount)
            × (s.urlcount ≤ bound))
          (start_loop settings request realloc (suc fuel) urlcount es)
  unfolding start_loop
  start_loop-Finds realloc zero urlcount bound es memory pos enough le twice int =
      let room : length (matches settings request es) ≤ urlcount = omega arith in
      rw (memory urlcount, scan-fits urlcount 0 es (omega (arith, room)))
        (returned (refl, refl, refl, room, le))
  start_loop-Finds realloc (suc fuel) urlcount bound es memory pos enough le twice int =
      elim (Bool-cases (ltb urlcount (length (matches settings request es)))) [
        | inr fits ↦
            let room = ltb→le urlcount (length (matches settings request es)) fits in
            rw (memory urlcount, scan-fits urlcount 0 es (omega (arith, room)))
              (returned (refl, refl, refl, room, le))
        | inl small ↦
            let less = ltb→lt urlcount (length (matches settings request es)) small in
            let holds = le→ltb 2147483647 (urlcount * 2) (omega (arith, less)) in
            rw (memory urlcount, scan-full urlcount 0 es (omega arith) (omega (arith, less)), holds)
              (start_loop-Finds realloc fuel (urlcount * 2) bound es memory (omega arith)
                (omega arith) (omega arith) twice int)
      ]

  -- What a request ends with, by whether the database gives a handle.
  abbrev pub Finds : (opens : Bool) (bound : ℕ) → List DatabaseEntry → Started → Type 0
  Finds false bound es s = (s.allocated ≡ false) × (s.urlarray ≡ []) × (s.errorcode ≡ 0)
  Finds true bound es s =
      (s.allocated ≡ true)
      × (s.urlarray ≡ matches settings request es)
      × (s.errorcode ≡ 0)
      × (length (matches settings request es) ≤ s.urlcount)
      × (s.urlcount ≤ bound)

  by_handle :
      (opens : Bool) (bound urlcount : ℕ) (es : List DatabaseEntry) (loop : Option Started)
      → Returns (Finds true bound es) loop
      → Returns (Finds opens bound es) (
          if opens
          then loop
          else some record { allocated = false; urlarray = []; urlcount = urlcount; errorcode = 0 })
  by_handle false bound urlcount es loop h = returned (refl, refl, refl)
  by_handle true bound urlcount es loop h = h

  -- SLPDDatabaseSrvRqstStart ends, if its array always gets memory and has a place at first, and twice the matches fit
  -- an int, as soon as the rounds and the first size are more than the matches. If the database gives a handle, its
  -- result is all entries whose type the request asks for and that have a scope of the request's, in the database's
  -- order, with code 0, and the array has room for them and has never been doubled beyond a bound on its first size
  -- and on twice the matches. Without a handle it answers 0 too, and there is no result.
  pub srv_rqst_start-Finds :
      (realloc : ℕ → Bool) (fuel urlcount bound : ℕ) (es : List DatabaseEntry)
      → ((n : ℕ) → realloc n ≡ true)
      → 0 < urlcount
      → length (matches settings request es) < urlcount + fuel
      → urlcount ≤ bound
      → 2 * length (matches settings request es) ≤ bound
      → bound ≤ 2147483647
      → Returns
          (Finds settings.opens bound es)
          (srv_rqst_start settings request realloc (suc fuel) urlcount es)
  unfolding srv_rqst_start
  srv_rqst_start-Finds realloc fuel urlcount bound es memory pos enough le twice int =
      by_handle settings.opens bound urlcount es
        (start_loop settings request realloc (suc fuel) urlcount es)
        (start_loop-Finds realloc fuel urlcount bound es memory pos enough le twice int)
