-- ===== src/Wire/Safe.antt =====
-- What every parser keeps of the buffer that it is given, and the rules for the wire integers.
use openslp.Base.{ℕ, ◌+◌, ◌≤◌, ◌<◌, ◌≡◌, refl, arith}
use openslp.Wire.{Buffer, get_byte, get_uint16, get_uint24, get_uint32, later}
use openslp.Wire.Ensures.{Ensures, returns}

-- Since `b₀` nothing was written past the terminator byte at `end`, and nothing read at `end + 3` or
-- further.
pub record IsSafe (b₀ b : Buffer) : Type 0 where
  pub size : b.size ≡ b₀.size
  pub reach : b.reach ≤ b₀.size + 3
  pub frame : (i : ℕ) → b₀.size < i → b.mem i ≡ b₀.mem i

-- The same, where `room` bytes can be read at the position.
pub record IsAt (b₀ : Buffer) (room : ℕ) (b : Buffer) : Type 0 where
  pub safe : IsSafe b₀ b
  pub pos : b.curpos + room ≤ b₀.size + 3

module _ {b₀ b : Buffer} where
  pub IsAt-mono : {k : ℕ} (l : ℕ) → IsAt b₀ k b → l ≤ k → IsAt b₀ l b
  IsAt-mono l h kl = record { safe = h.safe; pos = omega arith }

  pub advance-IsAt :
      (n r k : ℕ)
      → n + r ≡ k
      → IsAt b₀ k b
      → IsAt b₀ r (record b { curpos = b.curpos + n; reach = later b.reach (b.curpos + n) })
  advance-IsAt n r k e h = record {
    safe = record {
      size = h.safe.size;
      reach = ground (arith, h.safe.reach, h.pos);
      frame = h.safe.frame;
    };
    pos = omega (arith, h.pos);
  }

  pub get_byte-IsAt :
      (r : ℕ) → IsAt b₀ (1 + r) b → Ensures (IsSafe b₀) (λ _. IsAt b₀ r) (get_byte b)
  unfolding get_byte
  get_byte-IsAt r h = returns (advance-IsAt 1 r _ refl h)

  pub get_uint16-IsAt :
      (r : ℕ) → IsAt b₀ (2 + r) b → Ensures (IsSafe b₀) (λ _. IsAt b₀ r) (get_uint16 b)
  unfolding get_uint16
  get_uint16-IsAt r h = returns (advance-IsAt 2 r _ refl h)

  pub get_uint24-IsAt :
      (r : ℕ) → IsAt b₀ (3 + r) b → Ensures (IsSafe b₀) (λ _. IsAt b₀ r) (get_uint24 b)
  unfolding get_uint24
  get_uint24-IsAt r h = returns (advance-IsAt 3 r _ refl h)

  pub get_uint32-IsAt :
      (r : ℕ) → IsAt b₀ (4 + r) b → Ensures (IsSafe b₀) (λ _. IsAt b₀ r) (get_uint32 b)
  unfolding get_uint32
  get_uint32-IsAt r h = returns (advance-IsAt 4 r _ refl h)
