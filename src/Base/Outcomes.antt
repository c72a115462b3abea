-- ===== src/Base/Outcomes.antt =====
-- Optional results in sequence, and their postconditions.
use mathlib.Core.Path.{◌≡◌, refl, subst}
use mathlib.Core.Option.{Option, none, some}

module _ {A B : Type 0} where
  abbrev pub bind : Option A → (A → Option B) → Option B
  bind none f = none
  bind (some a) f = f a

module _ {A : Type 0} where
  -- There is a result, and it satisfies `P`.
  pub data Returns (P : A → Type 0) : Option A → Type 0 where
    returned : {a : A} → P a → Returns P (some a)

  -- If there is a result, it satisfies `P`.
  pub data Keeps (P : A → Type 0) : Option A → Type 0 where
    stopped : Keeps P none
    kept : {a : A} → P a → Keeps P (some a)

module _ {A : Type 0} {P : A → Type 0} where
  pub Returns-bind :
      {B : Type 0} {Q : B → Type 0} {o : Option A} {f : A → Option B}
      → Returns P o
      → ((a : A) → P a → Returns Q (f a))
      → Returns Q (bind o f)
  Returns-bind (returned p) next = next _ p

  pub Keeps-bind :
      {B : Type 0} {Q : B → Type 0} {o : Option A} {f : A → Option B}
      → Keeps P o
      → ((a : A) → P a → Keeps Q (f a))
      → Keeps Q (bind o f)
  Keeps-bind stopped next = stopped
  Keeps-bind (kept p) next = next _ p

  pub Returns-mono :
      {Q : A → Type 0} {o : Option A} → Returns P o → ((a : A) → P a → Q a) → Returns Q o
  Returns-mono (returned p) weaken = returned (weaken _ p)

  pub Keeps-mono : {Q : A → Type 0} {o : Option A} → Keeps P o → ((a : A) → P a → Q a) → Keeps Q o
  Keeps-mono stopped weaken = stopped
  Keeps-mono (kept p) weaken = kept (weaken _ p)

  -- What every result satisfies, and that there is one.
  pub both : {Q : A → Type 0} {o : Option A} → Returns P o → Keeps Q o → Returns (λ a. P a × Q a) o
  both (returned p) (kept q) = returned (p, q)

  pub value : {o : Option A} → Returns P o → (a : A) × (o ≡ some a) × P a
  value (returned p) = (_, refl, p)

  pub Returns-at : (o : Option A) (a : A) → o ≡ some a → Returns P o → P a
  Returns-at none a e h = absurd (cc)
  Returns-at (some b) a e (returned p) = let same : b ≡ a = cc in subst P (same) p
