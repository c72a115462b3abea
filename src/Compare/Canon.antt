-- ===== src/Compare/Canon.antt =====
-- SLPCompareString by what it compares.
use openslp.Base.{
  ℕ, suc, ◌<◌, ◌≡◌, ◌↔◌, refl, ap, Bool, true, false, ◌||◌, Bool-cases, inl, inr, ◌==◌,
  if◌then◌else◌, List, [], ◌∷◌, length, pos, sub_ℕ, arith,
}
use openslp.Compare.Chars.{tolower}
use openslp.Compare.Fold.{length-fold_white_space}
use openslp.Compare.Text.{
  Copies, same_letter, unescape_in_place, fold_white_space, fold_loop, strncasecmp, trim, prepare,
  compare_prepared, compare_empty, compare_string,
}

-- The characters up to the first NUL, in lower case.
abbrev pub lower_to_nul : List ℕ → List ℕ
lower_to_nul [] = []
lower_to_nul (c ∷ s) = if c == 0 then [] else tolower c ∷ lower_to_nul s

-- A round in front of what is left.
strncasecmp-step :
    (a b : ℕ) (s1 s2 : List ℕ)
    → strncasecmp (a ∷ s1) (b ∷ s2) (suc (length s1))
      ≡ (if same_letter a b then strncasecmp s1 s2 (length s1) else sub_ℕ a b)
unfolding strncasecmp
strncasecmp-step a b [] s2 = refl
strncasecmp-step a b (x ∷ s1) s2 =
    let more : (suc (length s1) == 0) ≡ false = ground arith in rw more refl

pub strncasecmp_zero :
    (s1 s2 : List ℕ)
    → length s1 ≡ length s2
    → (strncasecmp s1 s2 (length s1) ≡ pos 0) ↔ (lower_to_nul s1 ≡ lower_to_nul s2)
unfolding strncasecmp
strncasecmp_zero [] [] e = (λ _. refl, λ _. refl)
strncasecmp_zero [] (b ∷ s2) e = absurd (omega arith)
strncasecmp_zero (a ∷ s1) [] e = absurd (omega arith)
strncasecmp_zero (a ∷ s1) (b ∷ s2) e =
    let rest = strncasecmp_zero s1 s2 (omega arith) in
    rw (strncasecmp-step a b s1 s2) (λ h. ground (arith, rest.0, h), λ h. ground (arith, rest.1, h))

-- What SLPCompareString compares: the trimmed string, or its unescaped and folded copy.
unfoldable pub compared : (copies : Bool) → List ℕ → List ℕ
compared copies s = prepare copies (trim s)

unescape_in_place-pos : (t : List ℕ) → 0 < length t → 0 < length (unescape_in_place t)
unfolding unescape_in_place
unescape_in_place-pos [] h = absurd (omega arith)
unescape_in_place-pos (c ∷ []) h = omega arith
unescape_in_place-pos (c ∷ a ∷ []) h = omega arith
unescape_in_place-pos (c ∷ a ∷ b ∷ s) h = ground arith

prepare-pos : (copies : Bool) (t : List ℕ) → 0 < length t → 0 < length (prepare copies t)
unfolding prepare
prepare-pos false t h = h
prepare-pos true t h = (length-fold_white_space (unescape_in_place t)).1 (unescape_in_place-pos t h)

prepare-empty : (copies : Bool) (t : List ℕ) → length t ≡ 0 → prepare copies t ≡ []
unfolding prepare unescape_in_place fold_white_space fold_loop
prepare-empty false [] h = refl
prepare-empty true [] h = refl
prepare-empty copies (x ∷ t) h = absurd (omega arith)

compare_prepared_zero :
    (p1 p2 : List ℕ)
    → (compare_prepared p1 p2 ≡ pos 0)
      ↔ ((length p1 ≡ length p2) × (lower_to_nul p1 ≡ lower_to_nul p2))
unfolding compare_prepared
compare_prepared_zero p1 p2 = elim (Bool-cases (length p1 == length p2)) [
  | inl same ↦
      let zero_iff = strncasecmp_zero p1 p2 (ground (arith, same)) in
      (λ h. (ground (arith, same), zero_iff.0 (rw same at h)), λ h. rw same (zero_iff.1 h.1))
  | inr differ ↦ (λ h. ground (arith, differ, h), λ h. ground (arith, differ, h.0))
]

-- Where a trimmed string is empty, its length decides, and the canonical forms agree with that.
compare_empty_zero :
    (copies : Bool) (t1 t2 : List ℕ)
    → ((length t1 == 0) || (length t2 == 0)) ≡ true
    → (compare_empty t1 t2 ≡ pos 0) ↔ (
        (length (prepare copies t1) ≡ length (prepare copies t2))
        × (lower_to_nul (prepare copies t1) ≡ lower_to_nul (prepare copies t2)))
unfolding compare_empty
compare_empty_zero copies [] [] e = (λ _. (refl, refl), λ _. refl)
compare_empty_zero copies [] (b ∷ t2) e = (
  λ h. ground (arith, h),
  λ h. absurd (
      omega (
        arith,
        h.0,
        ap length (prepare-empty copies [] refl),
        prepare-pos copies (b ∷ t2) (omega arith),
      )),
)
compare_empty_zero copies (a ∷ t1) [] e = (
  λ h. ground (arith, h),
  λ h. absurd (
      omega (
        arith,
        h.0,
        ap length (prepare-empty copies [] refl),
        prepare-pos copies (a ∷ t1) (omega arith),
      )),
)
compare_empty_zero copies (a ∷ t1) (b ∷ t2) e = absurd (ground (arith, e))

-- SLPCompareString answers 0 exactly if what it compares agrees in length and, up to the first NUL and without regard
-- to the case of letters, in characters.
pub compare_string_zero :
    (copies : Copies) (s1 s2 : List ℕ)
    → (compare_string copies s1 s2 ≡ pos 0) ↔ (
        (length (compared (copies s1 s2) s1) ≡ length (compared (copies s1 s2) s2))
        × (lower_to_nul (compared (copies s1 s2) s1) ≡ lower_to_nul (compared (copies s1 s2) s2)))
unfolding compare_string compared
compare_string_zero copies s1 s2 =
    elim (Bool-cases ((length (trim s1) == 0) || (length (trim s2) == 0))) [
      | inl one_empty ↦
          rw one_empty (compare_empty_zero (copies s1 s2) (trim s1) (trim s2) one_empty)
      | inr both ↦ rw both (
          compare_prepared_zero (prepare (copies s1 s2) (trim s1))
            (prepare (copies s1 s2) (trim s2)))
    ]
