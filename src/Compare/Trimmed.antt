-- ===== src/Compare/Trimmed.antt =====
-- The trimming of SLPCompareString against a decomposition of the string.
use openslp.Base.{
  ℕ, zero, suc, ◌+◌, ◌-◌, ◌≤◌, ◌<◌, ◌≡◌, refl, sym, ap, ◌∙◌, true, false, leb, Bool-cases, inl, inr,
  List, [], ◌∷◌, ◌++◌, length, length-append, get_or, get_or-append_left, take, All, arith,
}
use openslp.Compare.Chars.{is_space}
use openslp.Compare.Text.{trim, trim_front, trimmed_len}

abbrev pub AllSpace : List ℕ → Type 0
AllSpace = All (λ c. is_space c ≡ true)

-- `t` is `s` without the white space around it.
pub record IsTrimmed (s t : List ℕ) : Type 0 where
  pub front : List ℕ
  pub back : List ℕ
  pub split : s ≡ front ++ (t ++ back)
  pub front_space : AllSpace front
  pub back_space : AllSpace back
  pub starts : is_space (get_or t 0 0) ≡ false
  pub ends : is_space (get_or t (length t - 1) 0) ≡ false

trim_front-space : (front u : List ℕ) → AllSpace front → trim_front (front ++ u) ≡ trim_front u
unfolding trim_front
trim_front-space [] u h = refl
trim_front-space (c ∷ front) u (e, h) = rw e (trim_front-space front u h)

trim_front-all : (back : List ℕ) → AllSpace back → trim_front back ≡ []
unfolding trim_front
trim_front-all [] h = refl
trim_front-all (c ∷ back) (e, h) = rw e (trim_front-all back h)

get_or-space :
    (t back : List ℕ) (n : ℕ)
    → AllSpace back
    → length t ≤ n
    → n < length t + length back
    → is_space (get_or (t ++ back) n 0) ≡ true
get_or-space [] [] n h low high = absurd (omega arith)
get_or-space [] (c ∷ back) zero h low high = h.0
get_or-space [] (c ∷ back) (suc n) h low high =
    get_or-space [] back n h.1 (omega arith) (omega arith)
get_or-space (c ∷ t) back zero h low high = absurd (omega arith)
get_or-space (c ∷ t) back (suc n) h low high = get_or-space t back n h (omega arith) (omega arith)

trimmed_len-back :
    (n : ℕ) (t back : List ℕ)
    → AllSpace back
    → is_space (get_or t (length t - 1) 0) ≡ false
    → length t ≤ n
    → n ≤ length t + length back
    → trimmed_len n (t ++ back) ≡ length t
unfolding trimmed_len
trimmed_len-back zero t back h ends low high = omega arith
trimmed_len-back (suc n) t back h ends low high = elim (Bool-cases (leb (length t) n)) [
  | inl inside ↦
      let le : length t ≤ n = ground (arith, inside) in
      rw (get_or-space t back n h le (omega arith))
        (trimmed_len-back n t back h ends le (omega arith))
  | inr last ↦
      let size : length t ≡ suc n = ground (arith, last) in
      let at : length t - 1 ≡ n = omega (arith, size) in
      rw (get_or-append_left t back n 0 (omega (arith, size)), rw at at ends) (sym size)
]

take-append : (t back : List ℕ) → take (length t) (t ++ back) ≡ t
take-append [] back = refl
take-append (c ∷ t) back = ap (λ l. c ∷ l) (take-append t back)

trim-parts :
    (t back : List ℕ)
    → AllSpace back
    → is_space (get_or t 0 0) ≡ false
    → is_space (get_or t (length t - 1) 0) ≡ false
    → trim (t ++ back) ≡ t
unfolding trim trim_front trimmed_len
trim-parts [] back h starts ends = rw (trim_front-all back h) refl
trim-parts (c ∷ t) back h starts ends =
    let sizes = length-append (c ∷ t) back in
    rw
      (
        starts,
        trimmed_len-back (length ((c ∷ t) ++ back)) (c ∷ t) back h ends (omega (arith, sizes))
            (omega (arith, sizes)),
      )
      (take-append (c ∷ t) back)

pub trim-IsTrimmed : (s t : List ℕ) → IsTrimmed s t → trim s ≡ t
unfolding trim
trim-IsTrimmed s t h =
    ap trim h.split
    ∙ (rw (trim_front-space h.front (t ++ h.back) h.front_space)
        (trim-parts t h.back h.back_space h.starts h.ends))
