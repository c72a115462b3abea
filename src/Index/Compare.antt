-- ===== src/Index/Compare.antt =====
-- compare_string and compare_string_leading of slpd/slpd_index.c, each with the recursion that it agrees
-- with. An int result is its sign, and a string with its length is a list of bytes.
use Prim.Native.Nat.{compare, Ordering}
use Prim.Native.Nat.Ordering.{lt, eq, gt}
use openslp.Base.{ℕ, zero, suc, ◌≡◌, refl, ltb, if◌then◌else◌, List, [], ◌∷◌, length, take, arith}

-- The C library's memcmp, of the first `n` bytes.
unfoldable pub memcmp : List ℕ → List ℕ → (n : ℕ) → Ordering
memcmp s t zero = eq
memcmp [] t (suc n) = eq
memcmp (a ∷ s) [] (suc n) = eq
memcmp (a ∷ s) (b ∷ t) (suc n) = elim (compare a b) [ lt ↦ lt | eq ↦ memcmp s t n | gt ↦ gt ]

-- The macro `min`.
abbrev pub min : ℕ → ℕ → ℕ
min a b = if ltb a b then a else b

unfoldable pub compare_string : List ℕ → List ℕ → Ordering
compare_string str1 str2 = elim (memcmp str1 str2 (min (length str1) (length str2))) [
  | lt ↦ lt
  | eq ↦ compare (length str1) (length str2)
  | gt ↦ gt
]

unfoldable pub compare_string_leading : List ℕ → List ℕ → Ordering
compare_string_leading str1 str2 =
    let len = min (length str1) (length str2) in
    elim (compare_string (take len str1) (take len str2)) [
      | lt ↦ lt
      | eq ↦ compare (length str1) len
      | gt ↦ gt
    ]

-- The order of a dictionary.
unfoldable pub order : List ℕ → List ℕ → Ordering
order [] [] = eq
order [] (b ∷ t) = lt
order (a ∷ s) [] = gt
order (a ∷ s) (b ∷ t) = elim (compare a b) [ lt ↦ lt | eq ↦ order s t | gt ↦ gt ]

-- The same, with an end of the first string that agrees with all that the second goes on with.
unfoldable pub order_leading : List ℕ → List ℕ → Ordering
order_leading [] t = eq
order_leading (a ∷ s) [] = gt
order_leading (a ∷ s) (b ∷ t) = elim (compare a b) [ lt ↦ lt | eq ↦ order_leading s t | gt ↦ gt ]

pub compare_string-order : (s t : List ℕ) → compare_string s t ≡ order s t
unfolding compare_string memcmp order
compare_string-order [] [] = refl
compare_string-order [] (b ∷ t) = ground arith
compare_string-order (a ∷ s) [] = ground arith
compare_string-order (a ∷ s) (b ∷ t) = ground (arith, compare_string-order s t)

pub compare_string_leading-order : (s t : List ℕ) → compare_string_leading s t ≡ order_leading s t
unfolding compare_string_leading compare_string memcmp order_leading
compare_string_leading-order [] [] = refl
compare_string_leading-order [] (b ∷ t) = ground arith
compare_string_leading-order (a ∷ s) [] = ground arith
compare_string_leading-order (a ∷ s) (b ∷ t) = ground (arith, compare_string_leading-order s t)
