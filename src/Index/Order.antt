-- ===== src/Index/Order.antt =====
-- The order of a dictionary, and fronts of strings in it.
use Prim.Native.Nat.{Ordering}
use Prim.Native.Nat.Ordering.{lt, eq, gt}
use openslp.Base.{ℕ, ◌≡◌, refl, List, [], ◌∷◌, ◌++◌, ◌⊎◌, inl, inr, arith}
use openslp.Index.Compare.{order, order_leading}

pub Ordering-cases : (o : Ordering) → (o ≡ lt) ⊎ ((o ≡ eq) ⊎ (o ≡ gt))
Ordering-cases lt = inl refl
Ordering-cases eq = inr (inl refl)
Ordering-cases gt = inr (inr refl)

pub order_refl : (s : List ℕ) → order s s ≡ eq
unfolding order
order_refl [] = refl
order_refl (a ∷ s) = ground (arith, order_refl s)

pub order-eq : (s t : List ℕ) → order s t ≡ eq → s ≡ t
unfolding order
order-eq [] [] h = refl
order-eq [] (b ∷ t) h = absurd (cc)
order-eq (a ∷ s) [] h = absurd (cc)
order-eq (a ∷ s) (b ∷ t) h = ground (arith, order-eq s t)

pub order_flip : (s t : List ℕ) → order s t ≡ lt → order t s ≡ gt
unfolding order
order_flip [] [] h = absurd (cc)
order_flip [] (b ∷ t) h = refl
order_flip (a ∷ s) [] h = absurd (cc)
order_flip (a ∷ s) (b ∷ t) h = ground (arith, order_flip s t)

pub order_unflip : (s t : List ℕ) → order s t ≡ gt → order t s ≡ lt
unfolding order
order_unflip [] [] h = absurd (cc)
order_unflip [] (b ∷ t) h = absurd (cc)
order_unflip (a ∷ s) [] h = refl
order_unflip (a ∷ s) (b ∷ t) h = ground (arith, order_unflip s t)

pub order_trans : (s t u : List ℕ) → order s t ≡ lt → order t u ≡ lt → order s u ≡ lt
unfolding order
order_trans [] [] u h k = absurd (cc)
order_trans [] (b ∷ t) [] h k = absurd (cc)
order_trans [] (b ∷ t) (c ∷ u) h k = refl
order_trans (a ∷ s) [] u h k = absurd (cc)
order_trans (a ∷ s) (b ∷ t) [] h k = absurd (cc)
order_trans (a ∷ s) (b ∷ t) (c ∷ u) h k = ground (arith, order_trans s t u)

-- A front that comes before a key comes before every later key.
pub leading_below :
    (q s t : List ℕ) → order_leading q s ≡ lt → order s t ≡ lt → order_leading q t ≡ lt
unfolding order order_leading
leading_below [] s t h k = absurd (cc)
leading_below (a ∷ q) [] t h k = absurd (cc)
leading_below (a ∷ q) (b ∷ s) [] h k = absurd (cc)
leading_below (a ∷ q) (b ∷ s) (c ∷ t) h k = ground (arith, leading_below q s t)

-- A front that comes after a key comes after every earlier key.
pub leading_above :
    (q s t : List ℕ) → order_leading q s ≡ gt → order t s ≡ lt → order_leading q t ≡ gt
unfolding order order_leading
leading_above [] s t h k = absurd (cc)
leading_above (a ∷ q) [] [] h k = absurd (cc)
leading_above (a ∷ q) [] (c ∷ t) h k = absurd (cc)
leading_above (a ∷ q) (b ∷ s) [] h k = refl
leading_above (a ∷ q) (b ∷ s) (c ∷ t) h k = ground (arith, leading_above q s t)

-- The keys that begin with a front are those that it agrees with.
pub leading-eq : (q s : List ℕ) → order_leading q s ≡ eq → (rest : List ℕ) × (s ≡ q ++ rest)
unfolding order_leading
leading-eq [] s h = (s, refl)
leading-eq (a ∷ q) [] h = absurd (cc)
leading-eq (a ∷ q) (b ∷ s) h =
    let same : a ≡ b = ground arith in
    let agree : order_leading q s ≡ eq = ground arith in
    let (rest, e) = leading-eq q s agree in (rest, cc)

pub leading_extended : (q rest : List ℕ) → order_leading q (q ++ rest) ≡ eq
unfolding order_leading
leading_extended [] rest = refl
leading_extended (a ∷ q) rest = ground (arith, leading_extended q rest)
