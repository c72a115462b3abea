-- ===== src/MessageDatabase.antt =====
-- The database of common/slp_database.c: a list of entries, and a handle that stands at one of them. An entry is the
-- address of its list item, and what the allocator answers is left to the callers.
pub mod Sweep
use openslp.Base.{ℕ, zero, suc, Bool, ◌==◌, if◌then◌else◌, Option, none, some, List, [], ◌∷◌}
use openslp.Linked.{Store, unlink, link_tail}

-- struct _SLPDatabaseHandle, with the list that it points to.
pub record DatabaseHandle : Type 0 where
  pub database : Store
  pub current : ℕ

-- SLPDatabaseOpen, with memory for the handle, and SLPDatabaseRewind.
unfoldable pub database_open : Store → DatabaseHandle
database_open s = record { database = s; current = s.head }

unfoldable pub database_rewind : DatabaseHandle → DatabaseHandle
database_rewind dh = record dh { current = dh.database.head }

-- SLPDatabaseEnum: the entry, or 0, and the handle moved on.
unfoldable pub database_enum : DatabaseHandle → ℕ × DatabaseHandle
database_enum dh = (
  dh.current,
  if dh.current == 0 then dh else record dh { current = dh.database.next dh.current },
)

-- SLPDatabaseRemove and SLPDatabaseAdd.
unfoldable pub database_remove : (entry : ℕ) → DatabaseHandle → DatabaseHandle
database_remove entry dh = record dh { database = unlink entry dh.database }

unfoldable pub database_add : (entry : ℕ) → DatabaseHandle → DatabaseHandle
database_add entry dh = record dh { database = link_tail entry dh.database }

-- SLPDatabaseCount.
unfoldable pub database_count : DatabaseHandle → ℕ
database_count dh = dh.database.count

-- SLPDatabaseDeinit, with the entries that it destroys; `none` is a loop that goes on.
abbrev pub destroyed : ℕ → Option (List ℕ × Store) → Option (List ℕ × Store)
destroyed entry none = none
destroyed entry (some (later, s)) = some (entry ∷ later, s)

abbrev pub cleared : Store → Store
cleared s = record s { head = 0; tail = 0; count = 0 }

unfoldable pub database_deinit : (fuel : ℕ) → Store → Option (List ℕ × Store)
database_deinit zero s = none
database_deinit (suc fuel) s =
    let rest = database_deinit fuel (unlink s.head s) in
    if s.count == 0 then some ([], cleared s) else destroyed s.head rest

-- SLPDatabaseInit: a list with entries is destroyed, and an empty one stays as it is.
unfoldable pub database_init : (fuel : ℕ) → Store → Option (List ℕ × Store)
database_init fuel s = if s.head == 0 then some ([], s) else database_deinit fuel s

-- The loop of SLPDDatabaseAge in slpd/slpd_database.c: each entry is enumerated, and removed if it ends.
unfoldable pub sweep : (fuel : ℕ) (ends : ℕ → Bool) → DatabaseHandle → Option DatabaseHandle
sweep zero ends dh = none
sweep (suc fuel) ends dh =
    let (entry, moved) = database_enum dh in
    let rest = sweep fuel ends (if ends entry then database_remove entry moved else moved) in
    if entry == 0 then some moved else rest
