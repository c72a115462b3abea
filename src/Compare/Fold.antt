-- ===== src/Compare/Fold.antt =====
-- What SLPFoldWhiteSpace does and does not do.
use openslp.Base.{
  ℕ, zero, suc, ◌+◌, ◌-◌, ◌≤◌, ◌<◌, ◌≡◌, refl, ◌∙◌, true, Bool-cases, inl, inr, ltb, List, [], ◌∷◌,
  length, length-append, get_or, take, drop, arith, tests,
}
use openslp.Compare.Chars.{is_space}
use openslp.Compare.Text.{scan_space, memmove, fold_loop, fold_white_space}

pub length-take_le {ℓ} : {A : Type ℓ} (n : ℕ) (l : List A) → n ≤ length l → length (take n l) ≡ n
length-take_le zero l h = refl
length-take_le (suc n) [] h = absurd (omega arith)
length-take_le (suc n) (x ∷ l) h = omega (arith, length-take_le n l (omega arith))

length-take_any {ℓ} : {A : Type ℓ} (n : ℕ) (l : List A) → length (take n l) ≤ n
length-take_any zero l = omega arith
length-take_any (suc n) [] = omega arith
length-take_any (suc n) (x ∷ l) = omega (arith, length-take_any n l)

pub length-drop {ℓ} : {A : Type ℓ} (n : ℕ) (l : List A) → length (drop n l) ≡ length l - n
length-drop zero l = omega arith
length-drop (suc n) [] = omega arith
length-drop (suc n) (x ∷ l) = omega (arith, length-drop n l)

-- The scan stops inside the string.
scan_space_bounds :
    (left p : ℕ) (buf : List ℕ) → (p ≤ scan_space left p buf) × (scan_space left p buf ≤ p + left)
unfolding scan_space
scan_space_bounds zero p buf = omega arith
scan_space_bounds (suc left) p buf = ground (arith, scan_space_bounds left (p + 1) buf)

-- `memmove` keeps the size of the buffer.
length-memmove :
    (buf : List ℕ) (dst src n : ℕ)
    → src + n ≡ length buf
    → dst ≤ src
    → length (memmove buf dst src n) ≡ length buf
unfolding memmove
length-memmove buf dst src n e h = simp length-append (
    omega (
      arith,
      length-take_le dst buf,
      length-take_le n (drop src buf),
      length-drop {0} src buf,
      length-drop {0} (dst + n) buf,
    ))

-- The loop keeps the buffer, and each round raises `p + len`.
fold_loop_bounds :
    (fuel ep p len : ℕ) (buf : List ℕ)
    → length buf ≡ ep
    → ep ≤ len + p
    → len ≤ ep
    → (length (fold_loop fuel ep p len buf).1 ≡ ep)
      × ((fold_loop fuel ep p len buf).0 ≤ len)
      × (1 ≤ len → 1 ≤ (fold_loop fuel ep p len buf).0)
unfolding fold_loop
fold_loop_bounds zero ep p len buf e h up = omega arith
fold_loop_bounds (suc fuel) ep p len buf e h up = elim (Bool-cases (ltb p ep)) [
  | inl inside ↦ elim (Bool-cases (is_space (get_or buf p 0))) [
    | inl white ↦
        rw (inside, white)
          (lower inside
            (fold_loop_bounds fuel ep (stop + 1) rest buf2 (moved inside ∙ e)
              (omega (tests, inside, stops)) (omega arith))
            (λ some. omega (tests, inside, stops, some)))
    | inr black ↦ rw (inside, black) (fold_loop_bounds fuel ep (p + 1) len buf e (omega arith) up)
  ]
  | inr past ↦ rw past (omega (tests, past))
]
  where
    stop : ℕ
    stop = scan_space (ep - (p + 1)) (p + 1) buf

    stops : (p + 1 ≤ stop) × (stop ≤ p + 1 + (ep - (p + 1)))
    stops = scan_space_bounds (ep - (p + 1)) (p + 1) buf

    rest : ℕ
    rest = len - (stop - (p + 1))

    buf2 : List ℕ
    buf2 = memmove buf (p + 1) stop (ep - stop)

    lower :
        ltb p ep ≡ true
        → {n : ℕ} {Kept : Type 0} → Kept × (n ≤ rest) × (1 ≤ rest → 1 ≤ n)
        → (1 ≤ len → 1 ≤ rest)
        → Kept × (n ≤ len) × (1 ≤ len → 1 ≤ n)
    lower i below keeps = (below.0, omega (arith, below), λ h. below.2 (keeps h))

    moved : ltb p ep ≡ true → length (memmove buf (p + 1) stop (ep - stop)) ≡ length buf
    moved i =
        length-memmove buf (p + 1) stop (ep - stop) (omega (tests, i, stops)) (omega (arith, stops))

-- Folding never lengthens a string, and never empties one.
pub length-fold_white_space :
    (s : List ℕ)
    → (length (fold_white_space s) ≤ length s) × (0 < length s → 0 < length (fold_white_space s))
unfolding fold_white_space
length-fold_white_space s =
    let bounds =
      fold_loop_bounds (length s) (length s) 0 (length s) s refl (omega arith) (omega arith) in
    let taken =
      length-take_le (fold_loop (length s) (length s) 0 (length s) s).0
        (fold_loop (length s) (length s) 0 (length s) s).1 (omega (arith, bounds)) in
    (omega (arith, bounds, taken), λ h. omega (arith, taken, bounds.2 h))
