-- ===== src/Compare/Canonical.antt =====
-- SLPCompareString decides equality of a canonical form.
use openslp.Base.{ℕ, ◌≡◌, ◌↔◌, Bool, true, false, if◌then◌else◌, List, length, pos}
use openslp.Compare.Canon.{compared, lower_to_nul, compare_string_zero}
use openslp.Compare.Decoded.{
  decoded, IsFolded, fold_white_space-IsFolded, unescape_in_place-decoded,
}
use openslp.Compare.Text.{Copies, prepare, compare_string}
use openslp.Compare.Trimmed.{IsTrimmed, trim-IsTrimmed}

-- The trimmed string, with its escapes decoded where the copies could be made.
abbrev pub canonical : (copied : Bool) → List ℕ → List ℕ
canonical copied t = if copied then decoded t else t

compared-canonical :
    (copied : Bool) (s t : List ℕ)
    → IsTrimmed s t
    → IsFolded (decoded t)
    → compared copied s ≡ canonical copied t
unfolding compared prepare
compared-canonical false s t h folded = trim-IsTrimmed s t h
compared-canonical true s t h folded =
    rw (trim-IsTrimmed s t h, unescape_in_place-decoded t)
      (fold_white_space-IsFolded (decoded t) folded)

-- Two strings that have, without the white space around them and with their escapes decoded, no two white-space
-- characters side by side: SLPCompareString answers 0 on them exactly if their decoded texts (the undecoded ones if
-- a copy gets no memory) agree in length and, up to the first NUL and without regard to the case of letters, in
-- characters.
pub compare_string-Canonical :
    (copies : Copies) (s1 s2 t1 t2 : List ℕ)
    → IsTrimmed s1 t1
    → IsTrimmed s2 t2
    → IsFolded (decoded t1)
    → IsFolded (decoded t2)
    → (compare_string copies s1 s2 ≡ pos 0) ↔ (
        (length (canonical (copies s1 s2) t1) ≡ length (canonical (copies s1 s2) t2))
        × (lower_to_nul (canonical (copies s1 s2) t1) ≡ lower_to_nul (canonical (copies s1 s2) t2)))
compare_string-Canonical copies s1 s2 t1 t2 h1 h2 f1 f2 =
    rw
      (compared-canonical (copies s1 s2) s1 t1 h1 f1, compared-canonical (copies s1 s2) s2 t2 h2 f2)
      at (compare_string_zero copies s1 s2)
