-- ===== src/Database/Requests.antt =====
-- SLPDDatabaseSrvRqstStart of slpd/slpd_database.c by a scan: the results are collected into an array of
-- `urlcount` places, which is doubled until they fit.
use openslp.Base.{
  ℕ, zero, suc, ◌+◌, ◌*◌, Bool, true, false, ◌&&◌, not, ltb, ◌==◌, if◌then◌else◌, Option, none,
  some, List, [], ◌∷◌,
}
use openslp.Message.Types.{internal_error}
use openslp.Compare.Items.{is_zero, intersect_string_list}
use openslp.Compare.SrvType.{compare_srv_type}
use openslp.Database.{DatabaseEntry, Settings}

-- A service request.
pub record Request : Type 0 where
  pub srvtype : List ℕ
  pub scopelist : List ℕ

-- Whether there is a result, its entries, the array's size afterwards and the code.
pub record Started : Type 0 where
  pub allocated : Bool
  pub urlarray : List DatabaseEntry
  pub urlcount : ℕ
  pub errorcode : ℕ

abbrev pub found : DatabaseEntry → Option (List DatabaseEntry) → Option (List DatabaseEntry)
found e none = none
found e (some later) = some (e ∷ later)

abbrev pub started_or :
    Option (List DatabaseEntry) → (urlcount : ℕ) → Option Started → Option Started
started_or none urlcount again = again
started_or (some results) urlcount again =
    some record { allocated = true; urlarray = results; urlcount = urlcount; errorcode = 0 }

module _ (settings : Settings) (request : Request) where
  -- SLPDDatabaseSrvRqstTestEntry.
  unfoldable pub test_entry : DatabaseEntry → Bool
  test_entry e =
      is_zero (compare_srv_type request.srvtype e.srvtype)
      && not (intersect_string_list settings.copies e.scopelist request.scopelist == 0)

  -- SLPDDatabaseSrvRqstStartScan with `urlcount` results so far; `none` is a result array that is too small.
  unfoldable pub start_scan :
      (limit urlcount : ℕ) → List DatabaseEntry → Option (List DatabaseEntry)
  start_scan limit urlcount [] = some []
  start_scan limit urlcount (e ∷ rest) =
      let later = start_scan limit (if test_entry e then urlcount + 1 else urlcount) rest in
      if test_entry e then (if ltb limit (urlcount + 1) then none else found e later) else later

  -- The loop of SLPDDatabaseSrvRqstStart; `realloc` says whether an array of so many places gets its memory, and
  -- `none` is a loop that is still doubling the array, or a size that no int holds any more.
  unfoldable pub start_loop :
      (realloc : ℕ → Bool) (fuel urlcount : ℕ) → List DatabaseEntry → Option Started
  start_loop realloc zero urlcount entries = none
  start_loop realloc (suc fuel) urlcount entries =
      let again = start_loop realloc fuel (urlcount * 2) entries in
      if realloc urlcount
      then started_or (start_scan urlcount 0 entries) urlcount
          (if ltb 2147483647 (urlcount * 2) then none else again)
      else some record {
        allocated = false;
        urlarray = [];
        urlcount = urlcount;
        errorcode = internal_error;
      }

  -- SLPDDatabaseSrvRqstStart. Without a handle it answers 0 and leaves no result.
  unfoldable pub srv_rqst_start :
      (realloc : ℕ → Bool) (fuel urlcount : ℕ) → List DatabaseEntry → Option Started
  srv_rqst_start realloc fuel urlcount entries =
      if settings.opens
      then start_loop realloc fuel urlcount entries
      else some record { allocated = false; urlarray = []; urlcount = urlcount; errorcode = 0 }
