-- ===== src/Database/Malformed.antt =====
-- SLPCheckAttributeListSyntax against a description of what it refuses.
use openslp.Base.{
  Lacks, ℕ, ◌≡◌, ◌⊎◌, refl, sym, ap, subst, true, false, ◌==◌, Bool-cases, inl, inr, List, [], ◌∷◌,
  ◌++◌, length, length-append, get_or, drop, arith,
}
use openslp.Database.{has_equals, check_attribute_list_syntax}

-- Behind the first opening parenthesis there is no equals sign.
pub record IsMalformed (attrlist : List ℕ) : Type 0 where
  pub front : List ℕ
  pub behind : List ℕ
  pub split : attrlist ≡ front ++ (b'(' ∷ behind)
  pub first : Lacks b'(' front
  pub no_equals : Lacks b'=' behind

has_equals-Lacks : (s : List ℕ) → has_equals s ≡ false → Lacks b'=' s
unfolding has_equals
has_equals-Lacks [] h = tt
has_equals-Lacks (c ∷ s) h = elim (Bool-cases (c == b'=')) [
  | inl e ↦ absurd (ground (arith, rw e at h))
  | inr e ↦ (e, has_equals-Lacks s (rw e at h))
]

Lacks-has_equals : (s : List ℕ) → Lacks b'=' s → has_equals s ≡ false
unfolding has_equals
Lacks-has_equals [] h = refl
Lacks-has_equals (c ∷ s) (e, h) = rw e (Lacks-has_equals s h)

IsMalformed-empty : IsMalformed [] → ⊥
IsMalformed-empty m =
    let sizes = ap length m.split in omega (arith, sizes, length-append m.front (b'(' ∷ m.behind))

IsMalformed-behind :
    (c : ℕ) (s : List ℕ) → (c == b'(') ≡ false → IsMalformed s → IsMalformed (c ∷ s)
IsMalformed-behind c s e m = record {
  front = c ∷ m.front;
  behind = m.behind;
  split = ap (λ l. c ∷ l) m.split;
  first = (e, m.first);
  no_equals = m.no_equals;
}

IsMalformed-tail :
    (c : ℕ) (s front behind : List ℕ)
    → (c == b'(') ≡ false
    → c ∷ s ≡ front ++ (b'(' ∷ behind)
    → Lacks b'(' front
    → Lacks b'=' behind
    → IsMalformed s
IsMalformed-tail c s [] behind e split first no_equals =
    let head : c ≡ b'(' = ap (λ l. get_or l 0 0) split in absurd (ground (arith, e, head))
IsMalformed-tail c s (x ∷ front) behind e split first no_equals = record {
  front = front;
  behind = behind;
  split = ap (drop 1) split;
  first = first.1;
  no_equals = no_equals;
}

-- A parenthesis with an equals sign behind it is well formed.
IsMalformed-here :
    (c : ℕ) (s front behind : List ℕ)
    → (c == b'(') ≡ true
    → has_equals (c ∷ s) ≡ true
    → c ∷ s ≡ front ++ (b'(' ∷ behind)
    → Lacks b'(' front
    → Lacks b'=' behind
    → ⊥
IsMalformed-here c s [] behind e h split first no_equals =
    let other : (c == b'=') ≡ false = ground (arith, e) in
    let none_behind = subst (Lacks b'=') (sym (ap (drop 1) split)) no_equals in
    let fails = Lacks-has_equals (c ∷ s) (other, none_behind) in ground (arith, h, fails)
IsMalformed-here c s (x ∷ front) behind e h split first no_equals =
    let head : c ≡ x = ap (λ l. get_or l 0 0) split in
    let fails = first.0 in ground (arith, e, head, fails)

-- SLPCheckAttributeListSyntax answers another code than 0 exactly on what is malformed.
pub check_attribute_list_syntax-IsMalformed :
    (s : List ℕ)
    → (IsMalformed s × ((check_attribute_list_syntax s == 0) ≡ false))
      ⊎ ((IsMalformed s → ⊥) × ((check_attribute_list_syntax s == 0) ≡ true))
unfolding check_attribute_list_syntax
check_attribute_list_syntax-IsMalformed [] = inr (IsMalformed-empty, refl)
check_attribute_list_syntax-IsMalformed (c ∷ s) = elim (Bool-cases (c == b'(')) [
  | inr e ↦ elim (check_attribute_list_syntax-IsMalformed s) [
    | inl (m, bad) ↦ rw e (inl (IsMalformed-behind c s e m, bad))
    | inr (m, good) ↦
        rw e
          (inr (λ k. m (IsMalformed-tail c s k.front k.behind e k.split k.first k.no_equals), good))
  ]
  | inl e ↦ elim (Bool-cases (has_equals (c ∷ s))) [
    | inl h ↦
        rw (e, h)
          (inr (λ k. IsMalformed-here c s k.front k.behind e h k.split k.first k.no_equals, refl))
    | inr h ↦
        rw (e, h)
          (inl (
            record {
              front = [];
              behind = s;
              split = ap (λ x. x ∷ s) (ground (arith, e));
              first = tt;
              no_equals = (has_equals-Lacks (c ∷ s) h).1;
            },
            refl,
          ))
  ]
]
