-- ===== src/Wire/Reads.antt =====
-- Parsing bytes that are known: the position walks along a list.
use openslp.Base.{
  ℕ, ◌+◌, ◌^◌, ◌<◌, ◌≡◌, refl, sym, ap, ◌∙◌, List, [], ◌∷◌, ◌++◌, length, length-append, get_or,
  get_or-append_left, get_or-append_right, arith,
}
use openslp.Wire.{
  Buffer, get_byte, get_uint16, get_uint24, get_uint32, get_str_ptr, as_uint16, as_uint24,
  as_uint32,
}
use openslp.Wire.Ensures.{Ensures, returns}
use openslp.Wire.Put.{put_uint16, put_uint24, put_uint32}

-- The parser stands before the bytes `l`, which end at the end of the buffer.
pub record Reads (mem : ℕ → ℕ) (size : ℕ) (l : List ℕ) (b : Buffer) : Type 0 where
  pub same_mem : b.mem ≡ mem
  pub same_size : b.size ≡ size
  pub pos : b.curpos + length l ≡ size
  pub ahead : (i : ℕ) → i < length l → mem (b.curpos + i) ≡ get_or l i 0

-- It never fails, and ends with a value and a buffer as `Q` says.
abbrev pub Never : Buffer → Type 0
Never b = ⊥

module _ {mem : ℕ → ℕ} {size : ℕ} {b : Buffer} where
  byte-Reads :
      {l : List ℕ} (i : ℕ) → i < length l → Reads mem size l b → b.mem (b.curpos + i) ≡ get_or l i 0
  byte-Reads i lt h = ap (λ (m : ℕ → ℕ). m (b.curpos + i)) h.same_mem ∙ h.ahead i lt

  head-Reads : {x : ℕ} {l : List ℕ} → Reads mem size (x ∷ l) b → b.mem b.curpos ≡ x
  head-Reads h =
      ap b.mem (let e : b.curpos ≡ b.curpos + 0 = omega arith in e) ∙ byte-Reads 0 (omega arith) h

  skip-Reads :
      (n : ℕ) (front : List ℕ) {l : List ℕ} (reach : ℕ)
      → length front ≡ n
      → Reads mem size (front ++ l) b
      → Reads mem size l (record b { curpos = b.curpos + n; reach = reach })
  skip-Reads n front {l} reach e h = record {
    same_mem = h.same_mem;
    same_size = h.same_size;
    pos = omega (arith, h.pos, length-append front l);
    ahead = λ i lt.
        let at : b.curpos + n + i ≡ b.curpos + (length front + i) = omega arith in
        ap mem at
        ∙ h.ahead (length front + i) (omega (arith, length-append front l))
        ∙ get_or-append_right front l i 0;
  }

module _ {mem : ℕ → ℕ} {size : ℕ} {b : Buffer} where
  pub get_byte-Reads :
      (x : ℕ) {l : List ℕ}
      → Reads mem size (x ∷ l) b
      → Ensures Never (λ v b'. (v ≡ x) × Reads mem size l b') (get_byte b)
  unfolding get_byte
  get_byte-Reads x h = returns (head-Reads h, skip-Reads 1 (x ∷ []) _ refl h)

  pub get_uint16-Reads :
      (v : ℕ) {l : List ℕ}
      → v < 2 ^ 16
      → Reads mem size (put_uint16 v ++ l) b
      → Ensures Never (λ w b'. (w ≡ v) × Reads mem size l b') (get_uint16 b)
  unfolding get_uint16 put_uint16 as_uint16
  get_uint16-Reads v small h = returns (
    omega (arith, head-Reads h, byte-Reads 1 (omega arith) h),
    skip-Reads 2 (put_uint16 v) _ refl h,
  )

  pub get_uint24-Reads :
      (v : ℕ) {l : List ℕ}
      → v < 2 ^ 24
      → Reads mem size (put_uint24 v ++ l) b
      → Ensures Never (λ w b'. (w ≡ v) × Reads mem size l b') (get_uint24 b)
  unfolding get_uint24 put_uint24 as_uint24
  get_uint24-Reads v small h = returns (
    omega (arith, head-Reads h, byte-Reads 1 (omega arith) h, byte-Reads 2 (omega arith) h),
    skip-Reads 3 (put_uint24 v) _ refl h,
  )

  pub get_uint32-Reads :
      (v : ℕ) {l : List ℕ}
      → v < 2 ^ 32
      → Reads mem size (put_uint32 v ++ l) b
      → Ensures Never (λ w b'. (w ≡ v) × Reads mem size l b') (get_uint32 b)
  unfolding get_uint32 put_uint32 as_uint32
  get_uint32-Reads v small h = returns (
    omega (
      arith,
      head-Reads h,
      byte-Reads 1 (omega arith) h,
      byte-Reads 2 (omega arith) h,
      byte-Reads 3 (omega arith) h,
    ),
    skip-Reads 4 (put_uint32 v) _ refl h,
  )

  -- The bytes at `p` are `str`.
  pub get_str_ptr-Reads :
      (str : List ℕ) (len : ℕ) {l : List ℕ}
      → len ≡ length str
      → Reads mem size (str ++ l) b
      → Ensures Never
          (λ p b'. ((i : ℕ) → i < length str → mem (p + i) ≡ get_or str i 0) × Reads mem size l b')
          (get_str_ptr len b)
  unfolding get_str_ptr
  get_str_ptr-Reads str len {l} e h = returns (
    λ i lt. h.ahead i (omega (arith, length-append str l)) ∙ get_or-append_left str l i 0 lt,
    skip-Reads len str b.reach (sym e) h,
  )
