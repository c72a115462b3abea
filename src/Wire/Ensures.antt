-- ===== src/Wire/Ensures.antt =====
-- Postconditions of parsers: one for the value and the buffer of a success, one for the buffer that
-- an error leaves.
use openslp.Base.{ℕ, ◌≡◌, Bool, true, false, if◌then◌else◌}
use openslp.Wire.{Buffer, Run, done, fail, Parser, and_then}

pub data Ensures {A : Type 0} (E : Buffer → Type 0) (Q : A → Buffer → Type 0) : Run A → Type 0 where
  returns : {a : A} {b : Buffer} → Q a b → Ensures E Q (done a b)
  fails : {e : ℕ} {b : Buffer} → E b → Ensures E Q (fail e b)

module _ {A : Type 0} {E : Buffer → Type 0} {P : A → Buffer → Type 0} where
  pub bind :
      {B : Type 0} {Q : B → Buffer → Type 0} {r : Run A} {k : A → Parser B}
      → Ensures E P r
      → ((a : A) (b : Buffer) → P a b → Ensures E Q (k a b))
      → Ensures E Q (and_then r k)
  bind (returns p) next = next _ _ p
  bind (fails e) next = fails e

  pub mono :
      {Q : A → Buffer → Type 0} {r : Run A}
      → Ensures E P r
      → ((a : A) (b : Buffer) → P a b → Q a b)
      → Ensures E Q r
  mono (returns p) weaken = returns (weaken _ _ p)
  mono (fails e) weaken = fails e

-- A branch between two parsers.
pub choose :
    {A : Type 0} {E : Buffer → Type 0} {Q : A → Buffer → Type 0} (t : Bool) (p q : Parser A)
    (b : Buffer)
    → Ensures E Q (p b)
    → Ensures E Q (q b)
    → Ensures E Q ((if t then p else q) b)
choose true p q b hp hq = hp
choose false p q b hp hq = hq

-- A branch whose test passes, and one whose test fails.
pub chosen :
    {A : Type 0} {E : Buffer → Type 0} {Q : A → Buffer → Type 0} (t : Bool) (p q : Parser A)
    (b : Buffer)
    → t ≡ true
    → Ensures E Q (p b)
    → Ensures E Q ((if t then p else q) b)
chosen t p q b e h = rw e h

pub passed :
    {A : Type 0} {E : Buffer → Type 0} {Q : A → Buffer → Type 0} (t : Bool) (p q : Parser A)
    (b : Buffer)
    → t ≡ false
    → Ensures E Q (q b)
    → Ensures E Q ((if t then p else q) b)
passed t p q b e h = rw e h
