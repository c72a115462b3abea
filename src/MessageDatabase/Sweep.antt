-- ===== src/MessageDatabase/Sweep.antt =====
-- Enumerations and removals on a list of entries.
use mathlib.Core.List.{append_assoc}
use openslp.Base.{
  ℕ, zero, suc, ◌^◌, ◌<◌, ◌≡◌, ◌≢◌, refl, sym, ap, subst, Bool, true, false, ◌==◌, Bool-cases,
  if◌then◌else◌, inl, inr, Option, some, List, [], ◌∷◌, ◌++◌, length, Returns, returned,
  Returns-mono, arith,
}
use openslp.Linked.{Store, unlink}
use openslp.Linked.Links.{first, Links-split}
use openslp.Linked.Refines.{Holds}
use openslp.Linked.Unlink.{unlink-Holds}
use openslp.MessageDatabase.{
  DatabaseHandle, database_open, database_enum, database_remove, destroyed, cleared,
  database_deinit, sweep,
}

-- The entries that do not end.
abbrev pub kept_of : (ends : ℕ → Bool) → List ℕ → List ℕ
kept_of ends [] = []
kept_of ends (x ∷ l) = if ends x then kept_of ends l else x ∷ kept_of ends l

-- In a list, an item is not null and points to the next one.
item-next :
    (s : Store) (kept : List ℕ) (x : ℕ) (rest : List ℕ)
    → Holds s (kept ++ (x ∷ rest))
    → (s.next x ≡ first rest 0) × (x ≢ 0)
item-next s kept x rest h =
    let (before, (p, n, live, after)) = Links-split s.previous s.next 0 0 kept (x ∷ rest) h.links in
    (n, live)

abbrev at : Store → (current : ℕ) → DatabaseHandle
at s current = record { database = s; current = current }

sweep-end :
    (fuel : ℕ) (ends : ℕ → Bool) (s : Store) → sweep (suc fuel) ends (at s 0) ≡ some (at s 0)
unfolding sweep database_enum
sweep-end fuel ends s = refl

sweep-entry :
    (fuel : ℕ) (ends : ℕ → Bool) (s : Store) (x : ℕ)
    → x ≢ 0
    → sweep (suc fuel) ends (at s x)
      ≡ sweep fuel ends (if ends x then at (unlink x s) (s.next x) else at s (s.next x))
unfolding sweep database_enum database_remove
sweep-entry fuel ends s x live = let z : (x == 0) ≡ false = ground arith in rw z refl

sweep-Holds :
    (fuel : ℕ) (ends : ℕ → Bool) (s : Store) (kept rest : List ℕ)
    → Holds s (kept ++ rest)
    → length rest < fuel
    → Returns
        (λ dh. Holds dh.database (kept ++ kept_of ends rest))
        (sweep fuel ends (at s (first rest 0)))
sweep-Holds zero ends s kept rest h enough = absurd (omega arith)
sweep-Holds (suc fuel) ends s kept [] h enough = rw (sweep-end fuel ends s) (returned h)
sweep-Holds (suc fuel) ends s kept (x ∷ rest) h enough =
    let (n, live) = item-next s kept x rest h in
    elim (Bool-cases (ends x)) [
      | inl e ↦
          rw (sweep-entry fuel ends s x live, e, n)
            (sweep-Holds fuel ends (unlink x s) kept rest (unlink-Holds x kept rest s h)
              (omega arith))
      | inr e ↦
          let longer : Holds s ((kept ++ (x ∷ [])) ++ rest) =
            subst (Holds s) (sym (append_assoc kept (x ∷ []) rest)) h in
          rw (sweep-entry fuel ends s x live, e, n)
            (Returns-mono (sweep-Holds fuel ends s (kept ++ (x ∷ [])) rest longer (omega arith))
              (λ dh r.
                subst (Holds dh.database) (append_assoc kept (x ∷ []) (kept_of ends rest)) r))
    ]

-- An enumeration that removes entries on its way ends, in a round for each entry and one more: it has visited all
-- entries of the list, and has taken out exactly those that end, with the others in their order.
pub sweep-Visits :
    (ends : ℕ → Bool) (s : Store) (l : List ℕ)
    → Holds s l
    → Returns
        (λ dh. Holds dh.database (kept_of ends l))
        (sweep (suc (length l)) ends (database_open s))
unfolding database_open
sweep-Visits ends s l h =
    subst
      (λ c.
        Returns (λ dh. Holds dh.database (kept_of ends l)) (sweep (suc (length l)) ends (at s c)))
      (sym h.head) (sweep-Holds (suc (length l)) ends s [] l h (omega arith))

count-zero : (s : Store) (l : List ℕ) → Holds s l → length l < 2 ^ 32 → s.count ≡ length l
count-zero s l h small = omega (arith, h.count)

deinit-more :
    (fuel : ℕ) (s : Store) (x : ℕ)
    → s.head ≡ x
    → s.count ≢ 0
    → database_deinit (suc fuel) s ≡ destroyed x (database_deinit fuel (unlink x s))
unfolding database_deinit
deinit-more fuel s x e some_left =
    let z : (s.count == 0) ≡ false = ground (arith, some_left) in
    subst (λ y. database_deinit (suc fuel) s ≡ destroyed y (database_deinit fuel (unlink y s))) (e)
      (rw z refl)

-- What a destruction ends with.
abbrev pub Destroyed : (l : List ℕ) → List ℕ × Store → Type 0
Destroyed l r = (r.0 ≡ l) × Holds r.1 []

destroyed-first :
    (x : ℕ) (l : List ℕ) {o : Option (List ℕ × Store)}
    → Returns (Destroyed l) o
    → Returns (Destroyed (x ∷ l)) (destroyed x o)
destroyed-first x l (returned (e, r)) = returned (ap (λ d. x ∷ d) e, r)

deinit-end :
    (fuel : ℕ) (s : Store) → s.count ≡ 0 → database_deinit (suc fuel) s ≡ some ([], cleared s)
unfolding database_deinit
deinit-end fuel s e = let z : (s.count == 0) ≡ true = ground (arith, e) in rw z refl

cleared-Holds : (s : Store) → Holds (cleared s) []
cleared-Holds s = record { links = tt; head = refl; tail = refl; distinct = tt; count = refl }

-- SLPDatabaseDeinit of a list of fewer than 2 to the 32 entries ends, in a round for each entry and one more: it has
-- destroyed each entry once, in their order, and leaves an empty list.
pub database_deinit-Destroyed :
    (l : List ℕ) (fuel : ℕ) (s : Store)
    → Holds s l
    → length l < 2 ^ 32
    → length l < fuel
    → Returns (Destroyed l) (database_deinit fuel s)
database_deinit-Destroyed [] (suc fuel) s h small enough =
    rw (deinit-end fuel s (omega (arith, h.count))) (returned (refl, cleared-Holds s))
database_deinit-Destroyed l zero s h small enough = absurd (omega arith)
database_deinit-Destroyed (x ∷ l) (suc fuel) s h small enough =
    rw (deinit-more fuel s x h.head (omega (arith, count-zero s (x ∷ l) h small))) (
      destroyed-first x l (
        database_deinit-Destroyed l fuel (unlink x s) (unlink-Holds x [] l s h) (omega arith)
          (omega arith)))
