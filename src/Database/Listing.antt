-- ===== src/Database/Listing.antt =====
-- The types that SLPDDatabaseSrvTypeRqstStart lists, against a fold over the entries.
use openslp.Base.{
  append_assoc, append_nil, ℕ, ◌+◌, ◌≤◌, ◌<◌, ◌≡◌, refl, sym, ap, ◌∙◌, Bool, false, ◌&&◌, not, ltb,
  Bool-cases, ◌==◌, if◌then◌else◌, inl, inr, none, some, List, [], ◌∷◌, ◌++◌, length, length-append,
  All, arith,
}
use openslp.Compare.Text.{Copies, compare_string}
use openslp.Compare.Items.{is_zero}
use openslp.Compare.Contains.{
  items, count_items, find_item, is_found_in, contains_string_list-Finds,
  intersect_string_list-Counts,
}
use openslp.Compare.United.{with_commas}
use openslp.Database.{DatabaseEntry, Settings}
use openslp.Database.Types.{TypeRequest, append_type, authority_of, test_type}

-- The types as a text, with a comma between two.
abbrev pub comma_separated : List (List ℕ) → List ℕ
comma_separated [] = []
comma_separated (t ∷ types) = t ++ with_commas types

abbrev pub NonEmpty : List ℕ → Type 0
NonEmpty t = 0 < length t

with_commas-append :
    (types : List (List ℕ)) (t : List ℕ)
    → with_commas (types ++ (t ∷ [])) ≡ with_commas types ++ (b',' ∷ t)
with_commas-append [] t = ap (λ l. b',' ∷ l) (append_nil t)
with_commas-append (u ∷ types) t =
    ap (λ l. b',' ∷ (u ++ l)) (with_commas-append types t)
    ∙ ap (λ l. b',' ∷ l) (sym (append_assoc u (with_commas types) (b',' ∷ t)))

append_type-text : (l t : List ℕ) → 0 < length l → append_type l t ≡ l ++ (b',' ∷ t)
unfolding append_type
append_type-text [] t h = absurd (omega arith)
append_type-text (c ∷ l) t h = refl

-- The text of one type more.
pub append_type-comma_separated :
    (types : List (List ℕ)) (t : List ℕ)
    → All NonEmpty types
    → append_type (comma_separated types) t ≡ comma_separated (types ++ (t ∷ []))
unfolding append_type
append_type-comma_separated [] t h = sym (append_nil t)
append_type-comma_separated (u ∷ types) t (pos, h) =
    append_type-text (u ++ with_commas types) t
      (omega (arith, pos, length-append u (with_commas types)))
    ∙ append_assoc u (with_commas types) (b',' ∷ t)
    ∙ ap (λ l. u ++ l) (sym (with_commas-append types t))

-- One type more makes the text longer by itself, and by a comma at most.
pub length-comma_separated :
    (types : List (List ℕ)) (t : List ℕ)
    → (length (comma_separated types) + length t ≤ length (comma_separated (types ++ (t ∷ []))))
      × (length (comma_separated (types ++ (t ∷ [])))
          ≤ length (comma_separated types) + length t + 1)
length-comma_separated [] t = rw (append_nil t) (omega arith, omega arith)
length-comma_separated (u ∷ types) t =
    let longer = length-append u (with_commas types) in
    let all = length-append u (with_commas (types ++ (t ∷ []))) in
    let text = ap length (with_commas-append types t) in
    let behind = length-append (with_commas types) (b',' ∷ t) in
    (omega (arith, longer, all, text, behind), omega (arith, longer, all, text, behind))

-- Nothing is found exactly if nothing is counted.
find_item-count_items :
    (copies : Copies) (string : List ℕ) (offset : ℕ) (l : List (List ℕ))
    → (find_item copies string offset l == 0)
      ≡ (count_items (λ item. is_zero (compare_string copies item string)) l == 0)
find_item-count_items copies string offset [] = refl
find_item-count_items copies string offset (item ∷ l) =
    elim (Bool-cases (is_zero (compare_string copies item string))) [
      | inl e ↦ rw e (ground arith)
      | inr e ↦ rw e (find_item-count_items copies string (offset + length item + 1) l)
    ]

pub All-append_one :
    (types : List (List ℕ)) (t : List ℕ)
    → All NonEmpty types
    → 0 < length t
    → All NonEmpty (types ++ (t ∷ []))
All-append_one [] t h pos = (pos, tt)
All-append_one (u ∷ types) t h pos = (h.0, All-append_one types t h.1 pos)

module _ (settings : Settings) (address : DatabaseEntry → ℕ) (request : TypeRequest) where
  -- The comparison of the naming authority reads nothing astray, and the type is not empty.
  abbrev pub Readable : DatabaseEntry → Type 0
  Readable e =
      ((n : ℕ) × (authority_of settings address request e ≡ some n)) × (0 < length e.srvtype)

  -- The entry's authority is the request's.
  abbrev pub has_authority : DatabaseEntry → Bool
  has_authority e = elim (authority_of settings address request e) [
    | none ↦ false
    | some n ↦ n == 0
  ]

  -- An item of the request's scopes is among the entry's.
  abbrev pub shares_scope : DatabaseEntry → Bool
  shares_scope e =
      ltb 0 (count_items (is_found_in settings.copies e.scopelist) (items request.scopelist))

  -- No item of the text of the types compares equal to the entry's type.
  abbrev pub is_new : (types : List (List ℕ)) → DatabaseEntry → Bool
  is_new types e =
      count_items (λ item. is_zero (compare_string settings.copies item e.srvtype))
        (items (comma_separated types))
      == 0

  -- The types of the request's authority and scopes, each that is new when its entry is reached.
  abbrev pub listing : (types : List (List ℕ)) → List DatabaseEntry → List (List ℕ)
  listing types [] = types
  listing types (e ∷ es) =
      listing
        (if has_authority e && (shares_scope e && is_new types e)
          then types ++ (e.srvtype ∷ [])
          else types)
        es

  positive : (n : ℕ) → not (n == 0) ≡ ltb 0 n
  positive n = ground arith

  pub test_type-is_new :
      (types : List (List ℕ)) (e : DatabaseEntry)
      → test_type settings address request (comma_separated types) e
        ≡ (shares_scope e && is_new types e)
  unfolding test_type
  test_type-is_new types e =
      rw
        (
          intersect_string_list-Counts settings.copies request.scopelist e.scopelist,
          positive
              (count_items (is_found_in settings.copies e.scopelist) (items request.scopelist)),
          contains_string_list-Finds settings.copies (comma_separated types) e.srvtype,
          find_item-count_items settings.copies e.srvtype 0 (items (comma_separated types)),
        )
        refl
