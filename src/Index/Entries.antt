-- ===== src/Index/Entries.antt =====
-- The sorted list of a tree's entries, the operations on such a list, and how they split it.
use Prim.Native.Nat.Ordering.{lt, eq, gt}
use openslp.Base.{
  sym, subst, ℕ, ◌<◌, ◌≡◌, refl, ◌==◌, if◌then◌else◌, List, [], ◌∷◌, ◌++◌, length, All, arith,
}
use openslp.Index.{IndexTreeNode, null, node}
use openslp.Index.Compare.{order}
use openslp.Index.Order.{order_flip, order_unflip, order_trans, order-eq}

-- A string and its value set.
abbrev pub Entry : Type 0
Entry = List ℕ × List ℕ

abbrev pub entries : IndexTreeNode → List Entry
entries null = []
entries (node l ld v r rd s) = entries l ++ ((s, v) ∷ entries r)

-- Every entry's string is before `q`, and after it.
abbrev pub Before : (q : List ℕ) → List Entry → Type 0
Before q = All (λ e. order q e.0 ≡ gt)

abbrev pub After : (q : List ℕ) → List Entry → Type 0
After q = All (λ e. order q e.0 ≡ lt)

-- The strings rise, and no value set is empty.
abbrev pub IsSorted : List Entry → Type 0
IsSorted [] = Unit
IsSorted (e ∷ rest) = After e.0 rest × (0 < length e.1) × IsSorted rest

unfoldable pub add_entry : (q : List ℕ) (p : ℕ) → List Entry → List Entry
add_entry q p [] = (q, p ∷ []) ∷ []
add_entry q p ((s, v) ∷ rest) = elim (order q s) [
  | lt ↦ (q, p ∷ []) ∷ (s, v) ∷ rest
  | eq ↦ (s, p ∷ v) ∷ rest
  | gt ↦ (s, v) ∷ add_entry q p rest
]

-- A list without the first `p` in it.
unfoldable pub without : (p : ℕ) → List ℕ → List ℕ
without p [] = []
without p (v ∷ rest) = let later = without p rest in if v == p then rest else v ∷ later

-- An entry whose values run out goes.
abbrev pub with_values : (s v : List ℕ) → List Entry → List Entry
with_values s [] rest = rest
with_values s (p ∷ v) rest = (s, p ∷ v) ∷ rest

unfoldable pub remove_entry : (q : List ℕ) (p : ℕ) → List Entry → List Entry
remove_entry q p [] = []
remove_entry q p ((s, v) ∷ rest) = elim (order q s) [
  | lt ↦ (s, v) ∷ remove_entry q p rest
  | eq ↦ with_values s (without p v) rest
  | gt ↦ (s, v) ∷ remove_entry q p rest
]

unfoldable pub lookup : (q : List ℕ) → List Entry → List ℕ
lookup q [] = []
lookup q ((s, v) ∷ rest) = elim (order q s) [ lt ↦ lookup q rest | eq ↦ v | gt ↦ lookup q rest ]

-- Behind entries that come before the string, and in front of those that come after it.
pub add-Before :
    (q : List ℕ) (p : ℕ) (xs ys : List Entry)
    → Before q xs
    → add_entry q p (xs ++ ys) ≡ xs ++ add_entry q p ys
unfolding add_entry
add-Before q p [] ys h = refl
add-Before q p ((s, v) ∷ xs) ys h = ground (arith, add-Before q p xs ys h.1)

pub add-After :
    (q : List ℕ) (p : ℕ) (s v : List ℕ) (xs ys : List Entry)
    → order q s ≡ lt
    → add_entry q p (xs ++ ((s, v) ∷ ys)) ≡ add_entry q p xs ++ ((s, v) ∷ ys)
unfolding add_entry
add-After q p s v [] ys h = ground arith
add-After q p s v ((t, w) ∷ xs) ys h = ground (arith, add-After q p s v xs ys h)

pub remove-Before :
    (q : List ℕ) (p : ℕ) (xs ys : List Entry)
    → Before q xs
    → remove_entry q p (xs ++ ys) ≡ xs ++ remove_entry q p ys
unfolding remove_entry
remove-Before q p [] ys h = refl
remove-Before q p ((s, v) ∷ xs) ys h = ground (arith, remove-Before q p xs ys h.1)

pub remove-none : (q : List ℕ) (p : ℕ) (ys : List Entry) → After q ys → remove_entry q p ys ≡ ys
unfolding remove_entry
remove-none q p [] h = refl
remove-none q p ((s, v) ∷ ys) h = ground (arith, remove-none q p ys h.1)

with_values-append :
    (s v : List ℕ) (xs ys : List Entry) → with_values s v (xs ++ ys) ≡ with_values s v xs ++ ys
with_values-append s [] xs ys = refl
with_values-append s (p ∷ v) xs ys = refl

pub remove-After :
    (q : List ℕ) (p : ℕ) (xs ys : List Entry)
    → After q ys
    → remove_entry q p (xs ++ ys) ≡ remove_entry q p xs ++ ys
unfolding remove_entry
remove-After q p [] ys h = remove-none q p ys h
remove-After q p ((s, v) ∷ xs) ys h =
    ground (arith, remove-After q p xs ys h, with_values-append s (without p v) xs ys)

pub lookup-Before :
    (q : List ℕ) (xs ys : List Entry) → Before q xs → lookup q (xs ++ ys) ≡ lookup q ys
unfolding lookup
lookup-Before q [] ys h = refl
lookup-Before q ((s, v) ∷ xs) ys h = ground (arith, lookup-Before q xs ys h.1)

pub lookup-none : (q : List ℕ) (ys : List Entry) → After q ys → lookup q ys ≡ []
unfolding lookup
lookup-none q [] h = refl
lookup-none q ((s, v) ∷ ys) h = ground (arith, lookup-none q ys h.1)

pub lookup-After :
    (q : List ℕ) (xs ys : List Entry) → After q ys → lookup q (xs ++ ys) ≡ lookup q xs
unfolding lookup
lookup-After q [] ys h = lookup-none q ys h
lookup-After q ((s, v) ∷ xs) ys h = ground (arith, lookup-After q xs ys h)

-- What holds before and after a later and an earlier string.
pub After-trans : (q s : List ℕ) (ys : List Entry) → order q s ≡ lt → After s ys → After q ys
After-trans q s [] h a = tt
After-trans q s (e ∷ ys) h a = (order_trans q s e.0 h a.0, After-trans q s ys h a.1)

pub Before-trans : (q s : List ℕ) (xs : List Entry) → order q s ≡ gt → Before s xs → Before q xs
Before-trans q s [] h b = tt
Before-trans q s (e ∷ xs) h b = (
  order_flip e.0 q (order_trans e.0 s q (order_unflip s e.0 b.0) (order_unflip q s h)),
  Before-trans q s xs h b.1,
)

All-split :
    (P : Entry → Type 0) (xs : List Entry) (e : Entry) (ys : List Entry)
    → All P (xs ++ (e ∷ ys))
    → All P xs × P e × All P ys
All-split P [] e ys h = (tt, h.0, h.1)
All-split P (x ∷ xs) e ys h = let (a, b, c) = All-split P xs e ys h.1 in ((h.0, a), b, c)

-- The two halves of a sorted list around an entry.
pub IsSorted-split :
    (xs : List Entry) (e : Entry) (ys : List Entry)
    → IsSorted (xs ++ (e ∷ ys))
    → IsSorted xs × Before e.0 xs × After e.0 ys × (0 < length e.1) × IsSorted ys
IsSorted-split [] e ys h = (tt, tt, h.0, h.1, h.2)
IsSorted-split (x ∷ xs) e ys h =
    let (after, below, _) = All-split (λ f. order x.0 f.0 ≡ lt) xs e ys h.0 in
    let (sorted, before, above, full, rest) = IsSorted-split xs e ys h.2 in
    ((after, h.1, sorted), (order_flip x.0 e.0 below, before), above, full, rest)

-- The operations keep a list sorted.
After-add :
    (b q : List ℕ) (p : ℕ) (es : List Entry)
    → order b q ≡ lt
    → After b es
    → After b (add_entry q p es)
unfolding add_entry
After-add b q p [] h a = (h, tt)
After-add b q p ((s, v) ∷ rest) h a = ground (arith, After-add b q p rest h a.1)

pub add_entry-IsSorted :
    (q : List ℕ) (p : ℕ) (es : List Entry) → IsSorted es → IsSorted (add_entry q p es)
unfolding add_entry
add_entry-IsSorted q p [] h = (tt, omega arith, tt)
add_entry-IsSorted q p ((s, v) ∷ rest) h = ground (
  arith,
  add_entry-IsSorted q p rest h.2,
  After-add s q p rest,
  After-trans q s rest,
  order_unflip q s,
)

After-with :
    (b s v : List ℕ) (rest : List Entry)
    → order b s ≡ lt
    → After b rest
    → After b (with_values s v rest)
After-with b s [] rest h a = a
After-with b s (p ∷ v) rest h a = (h, a)

IsSorted-with :
    (s v : List ℕ) (rest : List Entry)
    → After s rest
    → IsSorted rest
    → IsSorted (with_values s v rest)
IsSorted-with s [] rest a h = h
IsSorted-with s (p ∷ v) rest a h = (a, omega arith, h)

After-remove : (b q : List ℕ) (p : ℕ) (es : List Entry) → After b es → After b (remove_entry q p es)
unfolding remove_entry
After-remove b q p [] a = tt
After-remove b q p ((s, v) ∷ rest) a =
    ground (arith, After-remove b q p rest a.1, After-with b s (without p v) rest a.0 a.1)

pub remove_entry-IsSorted :
    (q : List ℕ) (p : ℕ) (es : List Entry) → IsSorted es → IsSorted (remove_entry q p es)
unfolding remove_entry
remove_entry-IsSorted q p [] h = tt
remove_entry-IsSorted q p ((s, v) ∷ rest) h = ground (
  arith,
  remove_entry-IsSorted q p rest h.2,
  After-remove s q p rest h.0,
  IsSorted-with s (without p v) rest h.0 h.2,
)

pub After-eq : (q s : List ℕ) (ys : List Entry) → order q s ≡ eq → After s ys → After q ys
After-eq q s ys e h = subst (λ x. After x ys) (sym (order-eq q s e)) h

pub Before-eq : (q s : List ℕ) (xs : List Entry) → order q s ≡ eq → Before s xs → Before q xs
Before-eq q s xs e h = subst (λ x. Before x xs) (sym (order-eq q s e)) h

-- The operations at an entry.
pub add-eq :
    (q : List ℕ) (p : ℕ) (s v : List ℕ) (ys : List Entry)
    → order q s ≡ eq
    → add_entry q p ((s, v) ∷ ys) ≡ (s, p ∷ v) ∷ ys
unfolding add_entry
add-eq q p s v ys e = ground arith

pub add-gt :
    (q : List ℕ) (p : ℕ) (s v : List ℕ) (ys : List Entry)
    → order q s ≡ gt
    → add_entry q p ((s, v) ∷ ys) ≡ (s, v) ∷ add_entry q p ys
unfolding add_entry
add-gt q p s v ys e = ground arith

pub remove-eq :
    (q : List ℕ) (p : ℕ) (s v : List ℕ) (ys : List Entry)
    → order q s ≡ eq
    → remove_entry q p ((s, v) ∷ ys) ≡ with_values s (without p v) ys
unfolding remove_entry
remove-eq q p s v ys e = ground arith

pub remove-gt :
    (q : List ℕ) (p : ℕ) (s v : List ℕ) (ys : List Entry)
    → order q s ≡ gt
    → remove_entry q p ((s, v) ∷ ys) ≡ (s, v) ∷ remove_entry q p ys
unfolding remove_entry
remove-gt q p s v ys e = ground arith
