-- ===== src/Tests/Compare.antt =====
-- Runs of the string comparison and of the string lists.
use openslp.Base.{
  ℕ, ◌≡◌, ◌≢◌, ◌<◌, none, ◌↔◌, refl, true, some, List, [], ◌∷◌, ◌++◌, ap, length, length-append,
  take, pos, arith,
}
use openslp.Compare.Chars.{ishex, hex2bin}
use openslp.Compare.Text.{
  Copies, compare_string, compare_empty, compare_prepared, prepare, trim, trim_front, trimmed_len,
  strncasecmp, fold_white_space, fold_loop, scan_space, memmove, unescape_in_place,
}
use openslp.Compare.Canon.{lower_to_nul}
use openslp.Compare.Trimmed.{IsTrimmed}
use openslp.Compare.Canonical.{canonical, compare_string-Canonical}
use openslp.Compare.Items.{
  seek_comma, contains_loop, contains_string_list, intersect_loop, intersect_string_list,
  count_commas, subset_string_list, seek_unescaped, united, append_item, union_loop,
  union_string_list,
}
use openslp.Compare.Contains.{
  items, find_item, count_items, is_found_in, contains_string_list-Finds,
  intersect_string_list-Counts, subset_string_list-Counts,
}
use openslp.Compare.SrvType.{compare_srv_type, compare_skipped, memchr, skip_service, asked}
use openslp.Compare.Untagged.{IsUntagged, tagged, plain, compare_srv_type-Asked}
use openslp.Compare.Normalize.{
  normalize_string, normalize_loop, normalize_round, white_round, copy_round, escape_round,
}
use openslp.Compare.IntersectRemove.{
  intersect_remove_string_list, intersect_remove_loop, remove_item,
}
use openslp.Compare.NamingAuth.{
  compare_naming_auth, authority, Matches, compare_naming_auth-Matches,
}
use openslp.Compare.United.{missing_items, with_commas, union_string_list-Appends}
use openslp.Compare.Unite.{unescaped_items, Fits, union_string_list-Fits}

-- What the runs unfold.
comparisons : Unit {0}
unfolding ishex hex2bin compare_string compare_empty compare_prepared prepare trim trim_front
    trimmed_len strncasecmp fold_white_space fold_loop scan_space memmove unescape_in_place
    seek_comma contains_loop contains_string_list intersect_loop intersect_string_list count_commas
    subset_string_list seek_unescaped append_item union_loop union_string_list memchr skip_service
    compare_skipped compare_srv_type
comparisons = tt

-- All copies get their memory.
abbrev always : Copies
always s1 s2 = true

-- " A\2cb" and "a,B" are equal.
abbrev escaped : List ℕ
escaped = 32 ∷ b'A' ∷ 0x5c ∷ b'2' ∷ b'c' ∷ b'b' ∷ []

abbrev plain_text : List ℕ
plain_text = b'a' ∷ b',' ∷ b'B' ∷ []

equal_run : compare_string always escaped plain_text ≡ pos 0
unfolding comparisons
equal_run = refl

-- The second run of white space stays: "x  y  z" becomes "x y  z", not "x y z".
fold_run :
    fold_white_space (b'x' ∷ 32 ∷ 32 ∷ b'y' ∷ 32 ∷ 32 ∷ b'z' ∷ [])
    ≡ b'x' ∷ 32 ∷ b'y' ∷ 32 ∷ 32 ∷ b'z' ∷ []
unfolding comparisons
fold_run = refl

-- The lists "a,b" and "b,a,a".
abbrev ab : List ℕ
ab = b'a' ∷ b',' ∷ b'b' ∷ []

abbrev baa : List ℕ
baa = b'b' ∷ b',' ∷ b'A' ∷ b',' ∷ b'a' ∷ []

contains_run : contains_string_list always baa (b'a' ∷ []) ≡ 3
unfolding comparisons
contains_run = refl

-- "a,a" has two items in "a,b", which passes it off as the superset of "b,a".
subset_run : subset_string_list always (b'a' ∷ b',' ∷ b'a' ∷ []) (b'b' ∷ b',' ∷ b'a' ∷ []) ≡ 1
unfolding comparisons
subset_run = refl

union_run : union_string_list always 0 ab baa (some 20) ≡ united ab
unfolding comparisons
union_run = refl

-- "service:LPR" and "lpr:net".
abbrev service_lpr : List ℕ
service_lpr = b's' ∷ b'e' ∷ b'r' ∷ b'v' ∷ b'i' ∷ b'c' ∷ b'e' ∷ b':' ∷ b'L' ∷ b'P' ∷ b'R' ∷ []

abbrev lpr_net : List ℕ
lpr_net = b'l' ∷ b'p' ∷ b'r' ∷ b':' ∷ b'n' ∷ b'e' ∷ b't' ∷ []

srv_type_run :
    (compare_srv_type service_lpr lpr_net ≡ pos 0) × (compare_srv_type lpr_net service_lpr ≡ pos 1)
unfolding comparisons
srv_type_run = (refl, refl)

abbrev upper_lpr : List ℕ
upper_lpr = b'L' ∷ b'P' ∷ b'R' ∷ []

-- "service:LPR" has the tag, "lpr:net" is too short for it.
service_lpr-IsUntagged : IsUntagged service_lpr upper_lpr
service_lpr-IsUntagged =
    tagged (b's' ∷ b'e' ∷ b'r' ∷ b'v' ∷ b'i' ∷ b'c' ∷ b'e' ∷ b':' ∷ []) refl refl refl

lpr_net-IsUntagged : IsUntagged lpr_net lpr_net
lpr_net-IsUntagged =
    plain
      (λ tag rest split size _.
        let sizes = ap length split in omega (arith, sizes, size, length-append tag rest))
      refl

compare_srv_type-Asked_example : (compare_srv_type service_lpr lpr_net ≡ pos 0) ↔ (
    (length upper_lpr ≡ length (asked upper_lpr lpr_net))
    × (lower_to_nul upper_lpr ≡ lower_to_nul (asked upper_lpr lpr_net)))
compare_srv_type-Asked_example =
    compare_srv_type-Asked service_lpr lpr_net upper_lpr lpr_net service_lpr-IsUntagged
      lpr_net-IsUntagged (omega arith)

-- "A\2cb", without the blank in front.
abbrev inner : List ℕ
inner = b'A' ∷ 0x5c ∷ b'2' ∷ b'c' ∷ b'b' ∷ []

escaped-IsTrimmed : IsTrimmed escaped inner
escaped-IsTrimmed = record {
  front = 32 ∷ [];
  back = [];
  split = refl;
  front_space = (refl, tt);
  back_space = tt;
  starts = refl;
  ends = refl;
}

plain_text-IsTrimmed : IsTrimmed plain_text plain_text
plain_text-IsTrimmed = record {
  front = [];
  back = [];
  split = refl;
  front_space = tt;
  back_space = tt;
  starts = refl;
  ends = refl;
}

compare_string-Canonical_example : (compare_string always escaped plain_text ≡ pos 0) ↔ (
    (length (canonical true inner) ≡ length (canonical true plain_text))
    × (lower_to_nul (canonical true inner) ≡ lower_to_nul (canonical true plain_text)))
compare_string-Canonical_example =
    compare_string-Canonical always escaped plain_text inner plain_text escaped-IsTrimmed
      plain_text-IsTrimmed (refl, (refl, tt)) (refl, (refl, tt))

contains_string_list-Finds_example :
    contains_string_list always baa (b'a' ∷ []) ≡ find_item always (b'a' ∷ []) 0 (items baa)
contains_string_list-Finds_example = contains_string_list-Finds always baa (b'a' ∷ [])

intersect_string_list-Counts_example :
    intersect_string_list always baa ab ≡ count_items (is_found_in always ab) (items baa)
intersect_string_list-Counts_example = intersect_string_list-Counts always baa ab

subset_string_list-Counts_example : (subset_string_list always ab baa ≡ 1) ↔ (
    (0 < length ab)
    × (0 < length baa)
    × (count_items (is_found_in always baa) (items ab) ≡ length (items baa)))
subset_string_list-Counts_example = subset_string_list-Counts always ab baa refl

union_string_list-Fits_example : Fits 4 9 (union_string_list always 0 ab baa (some 4))
union_string_list-Fits_example = union_string_list-Fits always 0 ab baa 4

union_string_list-Appends_example :
    union_string_list always 0 ab (b'c' ∷ b',' ∷ b'c' ∷ []) (some 9)
    ≡ united
        (ab ++ with_commas (missing_items always ab (unescaped_items 0 (b'c' ∷ b',' ∷ b'c' ∷ []))))
union_string_list-Appends_example =
    union_string_list-Appends always 0 ab (b'c' ∷ b',' ∷ b'c' ∷ []) 9 (omega arith) (omega arith)

-- An item that the second list has twice is appended twice.
repeated :
    union_string_list always 0 (b'a' ∷ []) (b'b' ∷ b',' ∷ b'b' ∷ []) (some 9)
    ≡ united (b'a' ∷ b',' ∷ b'b' ∷ b',' ∷ b'b' ∷ [])
unfolding comparisons
repeated = refl

-- The service type "a.X" and the naming authority "x".
abbrev a_x : List ℕ
a_x = b'a' ∷ b'.' ∷ b'X' ∷ []

naming_run : compare_naming_auth 70000 a_x 1 (b'x' ∷ []) ≡ some 0
unfolding comparisons compare_naming_auth
naming_run = refl

compare_naming_auth-Matches_example :
    (compare_naming_auth 70000 a_x 1 (b'x' ∷ []) ≢ none)
    × ((compare_naming_auth 70000 a_x 1 (b'x' ∷ []) ≡ some 0) ↔ Matches (authority a_x) (b'x' ∷ []))
compare_naming_auth-Matches_example =
    compare_naming_auth-Matches 70000 a_x (b'x' ∷ []) (omega arith) (omega arith) (omega arith)

-- "\t A  b " is trimmed, folded and put in lower case.
normalized :
    normalize_string (9 ∷ 32 ∷ b'A' ∷ 32 ∷ 32 ∷ b'b' ∷ 32 ∷ []) true ≡ b'a' ∷ 32 ∷ b'b' ∷ []
unfolding comparisons normalize_string normalize_loop normalize_round white_round copy_round
normalized = refl

-- "\41", an escaped "A", becomes the byte that the backslash and the "4" make.
garbled : normalize_string (b'\\' ∷ b'4' ∷ b'1' ∷ []) true ≡ 84 ∷ []
unfolding comparisons normalize_string normalize_loop normalize_round escape_round
garbled = refl

-- "c" and "a" leave "b," of "a,b,c".
intersected :
    let l =
      intersect_remove_string_list always 0
        (b'c' ∷ b',' ∷ b'a' ∷ [])
        (b'a' ∷ b',' ∷ b'b' ∷ b',' ∷ b'c' ∷ []) in
    (l.result ≡ 2) × (take l.list2end l.list2 ≡ b'b' ∷ b',' ∷ [])
unfolding comparisons intersect_remove_string_list intersect_remove_loop remove_item
intersected = (refl, refl)
