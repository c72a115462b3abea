-- ===== src/Compare/NamingAuth.antt =====
-- SLPCompareNamingAuth of common/slp_compare.c.
use openslp.Base.{
  ℕ, suc, ◌+◌, ◌-◌, ◌%◌, ◌^◌, ◌≤◌, ◌<◌, ◌≡◌, ◌≢◌, ◌↔◌, ◌⊎◌, refl, true, false, Bool-cases, inl, inr,
  ◌==◌, if◌then◌else◌, Option, none, some, List, [], ◌∷◌, length, drop, ℤ, pos, negsuc, arith,
}
use openslp.Compare.Canon.{lower_to_nul, strncasecmp_zero}
use openslp.Compare.Fold.{length-drop}
use openslp.Compare.Items.{is_zero}
use openslp.Compare.SrvType.{memchr}
use openslp.Compare.Text.{strncasecmp}

-- `return dot? 1: 0;`
abbrev pub has_dot : Option ℕ → ℕ
has_dot none = 0
has_dot (some n) = 1

-- Behind the test for the IANA authority, by the dot found. Without a dot the source computes with a null
-- pointer: the length wraps around with the service type's own `address`, and if it should be the naming
-- authority's, the comparison reads at address 1, which is none here.
abbrev pub compare_authority :
    (address : ℕ)
    → (srvtype : List ℕ) (namingauthlen : ℕ) (namingauth : List ℕ) → (dot : Option ℕ) → Option ℕ
compare_authority address srvtype namingauthlen namingauth none =
    if (length srvtype + address + (2 ^ 64 - 1)) % 2 ^ 64 == namingauthlen then none else some 1
compare_authority address srvtype namingauthlen namingauth (some n) =
    let authority = drop (n + 1) srvtype in
    if length srvtype - (n + 1) == namingauthlen
    then some (if is_zero (strncasecmp authority namingauth namingauthlen) then 0 else 1)
    else some 1

-- SLPCompareNamingAuth.
unfoldable pub compare_naming_auth :
    (address : ℕ) → (srvtype : List ℕ) (namingauthlen : ℕ) (namingauth : List ℕ) → Option ℕ
compare_naming_auth address srvtype namingauthlen namingauth =
    if namingauthlen == 0xffff
    then some 0
    else if namingauthlen == 0
    then some (has_dot (memchr b'.' srvtype))
    else compare_authority address srvtype namingauthlen namingauth (memchr b'.' srvtype)

-- The naming authority of a service type: what stands behind the first dot.
abbrev pub authority : List ℕ → Option (List ℕ)
authority [] = none
authority (c ∷ s) = if c == b'.' then some s else authority s

-- The IANA authority is the empty one and stands for no dot; any other is compared without regard to case.
abbrev pub Matches : Option (List ℕ) → (namingauth : List ℕ) → Type 0
Matches none namingauth = length namingauth ≡ 0
Matches (some behind) namingauth =
    (0 < length namingauth)
    × (length behind ≡ length namingauth)
    × (lower_to_nul behind ≡ lower_to_nul namingauth)

-- What `memchr` finds, against the naming authority.
Found : List ℕ → Type 0
Found s =
    ((memchr b'.' s ≡ none) × (authority s ≡ none))
    ⊎ ((n : ℕ) × (memchr b'.' s ≡ some n) × (authority s ≡ some (drop (n + 1) s)) × (n < length s))

Found-cons : (c : ℕ) (s : List ℕ) → (c == b'.') ≡ false → Found s → Found (c ∷ s)
unfolding Found memchr
Found-cons c s e (inl (m, a)) = inl (rw (e, m) refl, rw e a)
Found-cons c s e (inr (n, m, a, h)) =
    let next : suc n + 1 ≡ suc (n + 1) = omega arith in
    inr (suc n, rw (e, m) refl, rw (e, next) a, omega (arith, h))

memchr_dot : (s : List ℕ) → Found s
unfolding Found memchr
memchr_dot [] = inl (refl, refl)
memchr_dot (c ∷ s) = elim (Bool-cases (c == b'.')) [
  | inl e ↦ inr (0, rw e refl, rw e refl, omega arith)
  | inr e ↦ Found-cons c s e (memchr_dot s)
]

is_zero_iff : (z : ℤ) → (is_zero z ≡ true) ↔ (z ≡ pos 0)
is_zero_iff (pos n) = (λ h. ground (arith, h), λ h. ground (arith, h))
is_zero_iff (negsuc n) = (λ h. ground (arith, h), λ h. ground (arith, h))

-- A result of SLPCompareNamingAuth.
abbrev pub answer : ℕ → Option ℕ
answer = some

one_zero : answer 1 ≡ answer 0 → ⊥
one_zero h = ground (arith, h)

some_none : (n : ℕ) → answer n ≢ none
some_none n h = ground (arith, h)

-- The result of the last comparison.
same_zero :
    (behind namingauth : List ℕ)
    → length behind ≡ length namingauth
    → (answer (if is_zero (strncasecmp behind namingauth (length namingauth)) then 0 else 1)
        ≡ answer 0)
      ↔ (lower_to_nul behind ≡ lower_to_nul namingauth)
same_zero behind namingauth e =
    let zero_iff = rw e at (strncasecmp_zero behind namingauth e) in
    elim (Bool-cases (is_zero (strncasecmp behind namingauth (length namingauth)))) [
      | inl same ↦
          let equal =
            zero_iff.0 ((is_zero_iff (strncasecmp behind namingauth (length namingauth))).0 same) in
          (λ _. equal, λ _. rw same refl)
      | inr differ ↦ (
        λ h. absurd (one_zero (rw differ at h)),
        λ h.
            let zero =
              (is_zero_iff (strncasecmp behind namingauth (length namingauth))).1 (zero_iff.1 h) in
            absurd (ground (arith, differ, zero)),
      )
    ]

-- SLPCompareNamingAuth returns a result, and 0 exactly if the service type's naming authority matches: none
-- for the IANA authority, which is empty, and otherwise the same characters without regard to case and up to
-- the first NUL. The naming authority is shorter than 0xffff bytes, and the service type lies at an address
-- above 2 ^ 16 and ends inside the 64 bits of an address.
pub compare_naming_auth-Matches :
    (address : ℕ) (srvtype namingauth : List ℕ)
    → length namingauth < 0xffff
    → 2 ^ 16 < address
    → address + length srvtype ≤ 2 ^ 64
    → (compare_naming_auth address srvtype (length namingauth) namingauth ≢ none)
      × ((compare_naming_auth address srvtype (length namingauth) namingauth ≡ some 0)
          ↔ Matches (authority srvtype) namingauth)
unfolding compare_naming_auth Found
compare_naming_auth-Matches address srvtype namingauth short high ends = elim (memchr_dot srvtype) [
  | inl (m, a) ↦ elim (Bool-cases (length namingauth == 0)) [
    | inl iana ↦ rw (specific, iana, m, a) (some_none 0, (λ _. ground (arith, iana), λ _. refl))
    | inr named ↦
        rw (specific, named, m, a, far)
          (some_none 1, (λ h. absurd (one_zero h), λ h. absurd (ground (arith, named, h))))
  ]
  | inr (n, m, a, inside) ↦ elim (Bool-cases (length namingauth == 0)) [
    | inl iana ↦
        rw (specific, iana, m, a)
          (some_none 1, (λ h. absurd (one_zero h), λ h. absurd (ground (arith, iana, h.0))))
    | inr named ↦ rw (specific, named, m, a) (dotted n named)
  ]
]
  where
    specific : (length namingauth == 0xffff) ≡ false
    specific = ground (arith, short)

    far : ((length srvtype + address + (2 ^ 64 - 1)) % 2 ^ 64 == length namingauth) ≡ false
    far = ground (arith, short, high, ends)

    dotted :
        (n : ℕ)
        → (length namingauth == 0) ≡ false
        → (compare_authority address srvtype (length namingauth) namingauth (some n) ≢ none)
          × ((compare_authority address srvtype (length namingauth) namingauth (some n) ≡ some 0)
              ↔ Matches (some (drop (n + 1) srvtype)) namingauth)
    dotted n named = elim (Bool-cases (length srvtype - (n + 1) == length namingauth)) [
      | inl same ↦
          let sizes : length (drop (n + 1) srvtype) ≡ length namingauth =
            ground (arith, same, length-drop (n + 1) srvtype) in
          let zero_iff = same_zero (drop (n + 1) srvtype) namingauth sizes in
          rw same
            (some_none _, (λ h. (ground (arith, named), sizes, zero_iff.0 h), λ h. zero_iff.1 h.2))
      | inr differ ↦
          let sized = length-drop (n + 1) srvtype in
          rw differ (
            some_none 1,
            (λ h. absurd (one_zero h), λ h. absurd (ground (arith, differ, sized, h.1))),
          )
    ]
