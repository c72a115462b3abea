-- ===== src/Compare/Untagged.antt =====
-- SLPCompareSrvType on service types with or without the tag "service:".
use openslp.Base.{
  take-drop, ◌≤◌, ◌<◌, ◌≢◌, ℕ, ◌≡◌, ◌↔◌, refl, sym, ap, ◌∙◌, true, ◌&&◌, Bool-cases, inl, inr, leb,
  List, [], ◌∷◌, ◌++◌, length, length-append, take, drop, ℤ, pos, negsuc, arith,
}
use openslp.Compare.Canon.{lower_to_nul, strncasecmp_zero}
use openslp.Compare.Fold.{length-take_le}
use openslp.Compare.Text.{strncasecmp}
use openslp.Compare.Items.{is_zero}
use openslp.Compare.SrvType.{
  service_tag, skip_service, compare_srv_type, asked, memchr_colon, compare_skipped-Asked,
}

-- The comparison looks at its length only.
strncasecmp-append :
    (a b t : List ℕ)
    → length a ≡ length b
    → strncasecmp (a ++ t) b (length a) ≡ strncasecmp a b (length a)
unfolding strncasecmp
strncasecmp-append [] [] [] e = refl
strncasecmp-append [] [] (x ∷ t) e = refl
strncasecmp-append [] (y ∷ b) t e = absurd (omega arith)
strncasecmp-append (x ∷ a) [] t e = absurd (omega arith)
strncasecmp-append (x ∷ a) (y ∷ b) t e =
    let same = strncasecmp-append a b t (omega arith) in rw same refl

-- `t` is the service type `s` without a tag "service:", in whatever case, if there is one in front.
pub data IsUntagged (s t : List ℕ) : Type 0 where
  tagged :
      (tag : List ℕ)
      → s ≡ tag ++ t
      → length tag ≡ 8
      → lower_to_nul tag ≡ b's' ∷ b'e' ∷ b'r' ∷ b'v' ∷ b'i' ∷ b'c' ∷ b'e' ∷ b':' ∷ []
      → IsUntagged s t
  plain :
      ((tag rest : List ℕ)
        → s ≡ tag ++ rest
        → length tag ≡ 8
        → lower_to_nul tag ≢ b's' ∷ b'e' ∷ b'r' ∷ b'v' ∷ b'i' ∷ b'c' ∷ b'e' ∷ b':' ∷ [])
      → s ≡ t
      → IsUntagged s t

drop-append : (a t : List ℕ) → drop (length a) (a ++ t) ≡ t
drop-append [] t = refl
drop-append (x ∷ a) t = drop-append a t

-- The test for the tag.
has_tag :
    (tag rest : List ℕ)
    → length tag ≡ 8
    → (strncasecmp (tag ++ rest) service_tag 8 ≡ pos 0) ↔ (lower_to_nul tag ≡ service_tag)
has_tag tag rest e =
    let same = rw e at (strncasecmp-append tag service_tag rest e) in
    let zero_iff = rw e at (strncasecmp_zero tag service_tag e) in
    (λ h. zero_iff.0 (sym same ∙ h), λ h. same ∙ zero_iff.1 h)

zero-is_zero : (z : ℤ) → z ≡ pos 0 → is_zero z ≡ true
zero-is_zero (pos n) h = ground (arith, h)
zero-is_zero (negsuc n) h = ground (arith, h)

is_zero-zero : (z : ℤ) → is_zero z ≡ true → z ≡ pos 0
is_zero-zero (pos n) h = ground (arith, h)
is_zero-zero (negsuc n) h = ground (arith, h)

skip_service-IsUntagged : (s t : List ℕ) → IsUntagged s t → skip_service s ≡ t
unfolding skip_service
skip_service-IsUntagged s t (tagged tag split size text) =
    let long : leb 8 (length (tag ++ t)) ≡ true = ground (arith, size, length-append tag t) in
    let hit = zero-is_zero (strncasecmp (tag ++ t) service_tag 8) ((has_tag tag t size).1 text) in
    let cut = rw size at (drop-append tag t) in rw (split, long, hit) cut
skip_service-IsUntagged s t (plain untagged same) =
    elim (Bool-cases (leb 8 (length s) && is_zero (strncasecmp s service_tag 8))) [
      | inr other ↦ rw other same
      | inl hit ↦
          let long : 8 ≤ length s = ground (arith, hit) in
          let zero : is_zero (strncasecmp s service_tag 8) ≡ true = ground (arith, hit) in
          let size = length-take_le 8 s long in
          let split = sym (take-drop 8 s) in
          let found = is_zero-zero (strncasecmp s service_tag 8) zero in
          absurd (
            untagged (take 8 s) (drop 8 s) split size (
              (has_tag (take 8 s) (drop 8 s) size).0
                (ap (λ l. strncasecmp l service_tag 8) (sym split) ∙ found)))
    ]

-- SLPCompareSrvType answers 0 on two service types, the left one not empty but for its tag, exactly if, with a tag "service:" taken off each that has one, the
-- left one has the length and, without regard to the case of letters and up to the first NUL, the characters of what
-- it asks for in the right one: all of it if the left one is concrete (has a colon), the part before the first colon
-- if it is abstract.
pub compare_srv_type-Asked :
    (lsrvtype rsrvtype l r : List ℕ)
    → IsUntagged lsrvtype l
    → IsUntagged rsrvtype r
    → 0 < length l
    → (compare_srv_type lsrvtype rsrvtype ≡ pos 0)
      ↔ ((length l ≡ length (asked l r)) × (lower_to_nul l ≡ lower_to_nul (asked l r)))
unfolding compare_srv_type
compare_srv_type-Asked lsrvtype rsrvtype l r hl hr some_type =
    rw (skip_service-IsUntagged lsrvtype l hl, skip_service-IsUntagged rsrvtype r hr)
      (compare_skipped-Asked l r (memchr_colon l) (memchr_colon r))
