-- ===== src/Database/Types.antt =====
-- SLPDDatabaseSrvTypeRqstStart of slpd/slpd_database.c: the service types are collected into a text of
-- `srvtypelistlen` places, which is doubled until they fit.
use openslp.Base.{
  ℕ, zero, suc, ◌+◌, ◌*◌, ◌%◌, ◌^◌, Bool, true, false, ◌&&◌, not, ltb, ◌==◌, if◌then◌else◌, Option,
  none, some, List, [], ◌∷◌, ◌++◌, length,
}
use openslp.Message.Types.{internal_error}
use openslp.Compare.Items.{contains_string_list, intersect_string_list}
use openslp.Compare.NamingAuth.{compare_naming_auth}
use openslp.Database.{DatabaseEntry, Settings}

-- A service type request; the length 0xffff of the naming authority stands for all of them.
pub record TypeRequest : Type 0 where
  pub namingauthlen : ℕ
  pub namingauth : List ℕ
  pub scopelist : List ℕ

-- What one round over the entries comes to: a read outside all objects, a text that is too small, or the types.
pub data TypeScan : Type 0 where
  astray : TypeScan
  full : TypeScan
  listed : List ℕ → TypeScan

-- Whether there is a result, its types, the text's size afterwards and the code.
pub record TypesStarted : Type 0 where
  pub allocated : Bool
  pub srvtypelist : List ℕ
  pub srvtypelistlen : ℕ
  pub errorcode : ℕ

-- A type behind the others, with a comma if there are any.
unfoldable pub append_type : (srvtypelist srvtype : List ℕ) → List ℕ
append_type [] srvtype = srvtype
append_type (c ∷ srvtypelist) srvtype = (c ∷ srvtypelist) ++ (b',' ∷ srvtype)

-- `address` says where the service type of an entry stands.
module _ (settings : Settings) (address : DatabaseEntry → ℕ) (request : TypeRequest) where
  -- The naming authority's comparison.
  abbrev pub authority_of : DatabaseEntry → Option ℕ
  authority_of e =
      compare_naming_auth (address e) e.srvtype request.namingauthlen request.namingauth

  -- The tests behind it: a scope in common, and a type that is not listed yet.
  unfoldable pub test_type : (srvtypelist : List ℕ) → DatabaseEntry → Bool
  test_type srvtypelist e =
      not (intersect_string_list settings.copies request.scopelist e.scopelist == 0)
      && (contains_string_list settings.copies srvtypelist e.srvtype == 0)

  -- The inner loop.
  unfoldable pub type_scan : (limit : ℕ) (srvtypelist : List ℕ) → List DatabaseEntry → TypeScan
  type_scan limit srvtypelist [] = listed srvtypelist
  type_scan limit srvtypelist (e ∷ rest) = elim (authority_of e) [
    | none ↦ astray
    | some n ↦
        let hit = (n == 0) && test_type srvtypelist e in
        let later =
          type_scan limit (if hit then append_type srvtypelist e.srvtype else srvtypelist) rest in
        if hit && ltb limit (length srvtypelist + length e.srvtype + 1) then full else later
  ]

  abbrev pub types_started : TypeScan → (limit : ℕ) → Option TypesStarted → Option TypesStarted
  types_started astray limit again = none
  types_started full limit again = again
  types_started (listed l) limit again =
      some record { allocated = true; srvtypelist = l; srvtypelistlen = limit; errorcode = 0 }

  -- The outer loop; `none` is a read astray or a loop that is still doubling the text. The size is a size_t.
  unfoldable pub types_loop :
      (realloc : ℕ → Bool) (fuel limit : ℕ) → List DatabaseEntry → Option TypesStarted
  types_loop realloc zero limit entries = none
  types_loop realloc (suc fuel) limit entries =
      if realloc limit
      then types_started (type_scan limit [] entries) limit
          (types_loop realloc fuel (limit * 2 % 2 ^ 64) entries)
      else some record {
        allocated = false;
        srvtypelist = [];
        srvtypelistlen = limit;
        errorcode = internal_error;
      }

  -- SLPDDatabaseSrvTypeRqstStart, on a result that is null at first. Without a handle it answers 0 and leaves it.
  unfoldable pub srv_type_rqst_start :
      (realloc : ℕ → Bool) (fuel limit : ℕ) → List DatabaseEntry → Option TypesStarted
  srv_type_rqst_start realloc fuel limit entries =
      if settings.opens
      then types_loop realloc fuel limit entries
      else some
          record { allocated = false; srvtypelist = []; srvtypelistlen = limit; errorcode = 0 }
