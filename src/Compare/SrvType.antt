-- ===== src/Compare/SrvType.antt =====
-- SLPCompareSrvType and SLPCompareNamingAuth of common/slp_compare.c.
use openslp.Base.{
  ℕ, suc, ◌≡◌, ◌↔◌, ◌⊎◌, refl, sym, ap, ◌∙◌, Bool, true, false, ◌&&◌, Bool-cases, inl, inr, leb,
  ◌==◌, if◌then◌else◌, Option, none, some, List, [], ◌∷◌, length, drop, ℤ, pos, arith,
}
use openslp.Compare.Canon.{lower_to_nul, strncasecmp_zero}
use openslp.Compare.Text.{strncasecmp}
use openslp.Compare.Items.{is_zero}

abbrev one_more : Option ℕ → Option ℕ
one_more none = none
one_more (some n) = some (suc n)

-- `memchr(s, c, length)`, as the number of bytes in front of the character.
unfoldable pub memchr : (c : ℕ) → List ℕ → Option ℕ
memchr c [] = none
memchr c (x ∷ s) = if x == c then some 0 else one_more (memchr c s)

-- SERVICE_TAG.
abbrev pub service_tag : List ℕ
service_tag = b's' ∷ b'e' ∷ b'r' ∷ b'v' ∷ b'i' ∷ b'c' ∷ b'e' ∷ b':' ∷ []

-- `Skip "service:"`.
unfoldable pub skip_service : List ℕ → List ℕ
skip_service s = if leb 8 (length s) && is_zero (strncasecmp s service_tag 8) then drop 8 s else s

-- The three comparisons, by the colon found in each; `strncasecmp` has as many characters as its length.
abbrev pub compare_found : (left right : Option ℕ) → (lsrvtype rsrvtype : List ℕ) → ℤ
compare_found (some n) right l r =
    if length l == length r then strncasecmp l r (length l) else pos 1
compare_found none (some colon) l r =
    if length l == colon then strncasecmp l r (length l) else pos 1
compare_found none none l r = if length l == length r then strncasecmp l r (length l) else pos 1

-- Both service types without "service:".
unfoldable pub compare_skipped : (lsrvtype rsrvtype : List ℕ) → ℤ
compare_skipped l r = compare_found (memchr b':' l) (memchr b':' r) l r

-- SLPCompareSrvType.
unfoldable pub compare_srv_type : (lsrvtype rsrvtype : List ℕ) → ℤ
compare_srv_type l r = compare_skipped (skip_service l) (skip_service r)

-- The abstract type: what stands in front of the first colon.
abbrev pub abstract_part : List ℕ → List ℕ
abstract_part [] = []
abstract_part (c ∷ s) = if c == b':' then [] else c ∷ abstract_part s

abbrev pub is_concrete : List ℕ → Bool
is_concrete [] = false
is_concrete (c ∷ s) = if c == b':' then true else is_concrete s

-- What of `r` a service type `l` asks for: all of it if `l` is concrete, the abstract type if not.
abbrev pub asked : (l r : List ℕ) → List ℕ
asked l r = if is_concrete l then r else abstract_part r

-- What `memchr` finds, against the abstract type.
pub Concrete : List ℕ → Type 0
Concrete s = (memchr b':' s ≡ some (length (abstract_part s))) × (is_concrete s ≡ true)

pub Abstract : List ℕ → Type 0
Abstract s = (memchr b':' s ≡ none) × (is_concrete s ≡ false) × (abstract_part s ≡ s)

memchr_colon-cons :
    (c : ℕ) (s : List ℕ)
    → (c == b':') ≡ false
    → Concrete s ⊎ Abstract s
    → Concrete (c ∷ s) ⊎ Abstract (c ∷ s)
unfolding memchr Concrete Abstract
memchr_colon-cons c s e (inl (m, k)) = inl (rw (e, m) refl, rw e k)
memchr_colon-cons c s e (inr (m, k, p)) = inr (rw (e, m) refl, rw e k, rw e (ap (◌∷◌ c) p))

pub memchr_colon : (s : List ℕ) → Concrete s ⊎ Abstract s
unfolding memchr Concrete Abstract
memchr_colon [] = inr (refl, refl, refl)
memchr_colon (c ∷ s) = elim (Bool-cases (c == b':')) [
  | inl e ↦ inl (rw e refl, rw e refl)
  | inr e ↦ memchr_colon-cons c s e (memchr_colon s)
]

-- The comparison stops at the colon.
strncasecmp-abstract_part :
    (l r : List ℕ)
    → length l ≡ length (abstract_part r)
    → strncasecmp l r (length l) ≡ strncasecmp l (abstract_part r) (length l)
unfolding strncasecmp
strncasecmp-abstract_part [] r e = refl
strncasecmp-abstract_part (a ∷ l) [] e = absurd (omega arith)
strncasecmp-abstract_part (a ∷ l) (b ∷ r) e = elim (Bool-cases (b == b':')) [
  | inl colon ↦ let cut = rw colon at e in absurd (omega (arith, cut))
  | inr other ↦
      let rest = rw other at e in
      let same = strncasecmp-abstract_part l r (omega (arith, rest)) in rw (other, same) refl
]

-- A comparison behind a test of the lengths.
guarded_zero :
    (l r : List ℕ) (run : ℤ)
    → (length l ≡ length r → run ≡ strncasecmp l r (length l))
    → ((if length l == length r then run else pos 1) ≡ pos 0)
      ↔ ((length l ≡ length r) × (lower_to_nul l ≡ lower_to_nul r))
guarded_zero l r run is_run = elim (Bool-cases (length l == length r)) [
  | inl same ↦
      let sizes : length l ≡ length r = ground (arith, same) in
      let zero_iff = strncasecmp_zero l r sizes in
      (
        λ h. (sizes, zero_iff.0 (sym (is_run sizes) ∙ (rw same at h))),
        λ h. rw same (is_run sizes ∙ zero_iff.1 h.1),
      )
  | inr differ ↦ (λ h. ground (arith, differ, h), λ h. ground (arith, differ, h.0))
]

pub compare_skipped-Asked :
    (l r : List ℕ)
    → Concrete l ⊎ Abstract l
    → Concrete r ⊎ Abstract r
    → (compare_skipped l r ≡ pos 0)
      ↔ ((length l ≡ length (asked l r)) × (lower_to_nul l ≡ lower_to_nul (asked l r)))
unfolding compare_skipped Concrete Abstract
compare_skipped-Asked l r (inl (m, k)) right =
    rw (m, k) (guarded_zero l r (strncasecmp l r (length l)) (λ _. refl))
compare_skipped-Asked l r (inr (m, k, p)) (inl (m2, k2)) =
    rw (m, m2, k)
      (guarded_zero l (abstract_part r) (strncasecmp l r (length l))
        (strncasecmp-abstract_part l r))
compare_skipped-Asked l r (inr (m, k, p)) (inr (m2, k2, p2)) =
    rw (m, m2, k, p2) (guarded_zero l r (strncasecmp l r (length l)) (λ _. refl))
