-- ===== src/Wire.antt =====
-- The buffer of common/slp_buffer.h as the message parsers see it, the monad that they run in,
-- and the wire integers of common/slp_message.c.
pub mod Ensures
pub mod Safe
pub mod Put
pub mod Reads
use openslp.Base.{ℕ, ◌+◌, ◌*◌, ltb, ◌==◌, if◌then◌else◌}

-- `mem i` is the byte at `start + i`; `size` is `end - start` and `curpos` is the source's pointer
-- less `start`. The allocation is `size + 1` bytes. `reach` is no field of the source: it is one
-- more than the highest offset that was read so far. `allocs` counts the calls of `xmalloc`.
pub record Buffer : Type 0 where
  pub mem : ℕ → ℕ
  pub size : ℕ
  pub curpos : ℕ
  pub reach : ℕ
  pub allocs : ℕ

-- A routine that returns 0 and fills its output, or returns an error code.
pub data Run (A : Type 0) : Type 0 where
  done : A → Buffer → Run A
  fail : ℕ → Buffer → Run A

abbrev pub Parser : Type 0 → Type 0
Parser A = Buffer → Run A

abbrev pub pure : {A : Type 0} → A → Parser A
pure = done

module _ {A B : Type 0} where
  abbrev pub and_then : Run A → (A → Parser B) → Run B
  and_then (done a b) k = k a b
  and_then (fail e b) k = fail e b

  infixl 5 ◌>>=◌ ◌>>◌
  abbrev pub ◌>>=◌ : Parser A → (A → Parser B) → Parser B
  m >>= k = λ b. and_then (m b) k

  abbrev pub ◌>>◌ : Parser A → Parser B → Parser B
  m >> n = m >>= λ _. n

abbrev pub later : ℕ → ℕ → ℕ
later a b = if ltb a b then b else a

-- `mem[p] = v`
abbrev pub store : (ℕ → ℕ) → ℕ → ℕ → ℕ → ℕ
store mem p v i = if i == p then v else mem i

-- AS_UINT16, AS_UINT24 and AS_UINT32 at an offset of a memory.
unfoldable pub as_uint16 : (ℕ → ℕ) → ℕ → ℕ
as_uint16 m p = m p * 256 + m (p + 1)

unfoldable pub as_uint24 : (ℕ → ℕ) → ℕ → ℕ
as_uint24 m p = m p * 65536 + m (p + 1) * 256 + m (p + 2)

unfoldable pub as_uint32 : (ℕ → ℕ) → ℕ → ℕ
as_uint32 m p = m p * 16777216 + m (p + 1) * 65536 + m (p + 2) * 256 + m (p + 3)

-- Reads `n` bytes at `curpos` and moves past them.
abbrev advance : ℕ → Buffer → Buffer
advance n b = record b { curpos = b.curpos + n; reach = later b.reach (b.curpos + n) }

-- slp_GetUINT16, slp_GetUINT24, slp_GetUINT32, and `*buffer->curpos++`.
unfoldable pub get_uint16 : Parser ℕ
get_uint16 b = done (as_uint16 b.mem b.curpos) (advance 2 b)

unfoldable pub get_uint24 : Parser ℕ
get_uint24 b = done (as_uint24 b.mem b.curpos) (advance 3 b)

unfoldable pub get_uint32 : Parser ℕ
get_uint32 b = done (as_uint32 b.mem b.curpos) (advance 4 b)

unfoldable pub get_byte : Parser ℕ
get_byte b = done (b.mem b.curpos) (advance 1 b)

-- slp_GetStrPtr: no byte is read.
unfoldable pub get_str_ptr : ℕ → Parser ℕ
get_str_ptr len b = done b.curpos (record b { curpos = b.curpos + len })
