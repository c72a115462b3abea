-- ===== src/Message/Safe/Fields.antt =====
-- The rules for counted strings, authentication blocks and URL entries.
use openslp.Base.{
  ℕ, zero, suc, ◌+◌, ◌≤◌, ◌≡◌, refl, inl, inr, none, some, All, ltb, Bool-cases, tests, arith,
}
use openslp.Wire.{Buffer, done, get_str_ptr, store}
use openslp.Wire.Ensures.{Ensures, returns, fails, bind}
use openslp.Wire.Safe.{IsSafe, IsAt, IsAt-mono, get_byte-IsAt, get_uint16-IsAt, get_uint32-IsAt}
use openslp.Message.Types.{Str, Platform}
use openslp.Message.Fields.{
  require, check_end, tell, seek, get_string, terminate, parse_auth_block, parse_auth_blocks,
  allocate, parse_auth_array, parse_url_entry, parse_url_entries,
}
use openslp.Message.Within.{StrWithin, AuthWithin, UrlWithin}

module _ {b₀ b : Buffer} where
  pub require-IsAt :
      (n : ℕ) → IsSafe b₀ b → Ensures (IsSafe b₀) (λ _. IsAt b₀ (n + 3)) (require n b)
  unfolding require
  require-IsAt n h = elim (Bool-cases (ltb b.size (b.curpos + n))) [
    | inl short ↦ rw short (fails h)
    | inr enough ↦ rw enough (returns (record { safe = h; pos = omega (tests, enough, h.size) }))
  ]

  -- After the check the position is at most the end.
  pub check_end-IsAt :
      IsSafe b₀ b
      → Ensures (IsSafe b₀) (λ _ b'. IsAt b₀ 3 b' × (b'.curpos ≡ b.curpos)) (check_end b)
  unfolding check_end
  check_end-IsAt h = elim (Bool-cases (ltb b.size b.curpos)) [
    | inl past ↦ rw past (fails h)
    | inr fine ↦ rw fine (returns (record { safe = h; pos = omega (tests, fine, h.size) }, refl))
  ]

module _ {b₀ b : Buffer} where
  pub skip-IsSafe : (n : ℕ) → IsSafe b₀ b → IsSafe b₀ (record b { curpos = n })
  skip-IsSafe n h = record { size = h.size; reach = h.reach; frame = h.frame }

  store-IsAt :
      {room p : ℕ} (v : ℕ)
      → p ≤ b₀.size
      → IsAt b₀ room b
      → IsAt b₀ room (record b { mem = store b.mem p v })
  store-IsAt {p} v w h = record {
    safe = record {
      size = h.safe.size;
      reach = h.safe.reach;
      frame = λ i past. ground (arith, h.safe.frame i past);
    };
    pos = h.pos;
  }

module _ {b₀ b : Buffer} where
  pub get_string-IsAt :
      IsAt b₀ 2 b → Ensures (IsSafe b₀) (λ s b'. IsAt b₀ 3 b' × StrWithin b₀.size s) (get_string b)
  unfolding get_string get_str_ptr
  get_string-IsAt h = bind (get_uint16-IsAt 0 h) λ len b1 h1.
      bind (check_end-IsAt (skip-IsSafe (b1.curpos + len) h1.safe))
        λ _ b2 (h2, same). returns (h2, omega (arith, h2.pos, same))

  pub terminate-IsAt :
      (s : Str) (room : ℕ)
      → StrWithin b₀.size s
      → IsAt b₀ room b
      → Ensures (IsSafe b₀) (λ _. IsAt b₀ room) (terminate s b)
  unfolding terminate
  terminate-IsAt s room w h = at_ptr w
    where
      at_ptr : StrWithin b₀.size s → Ensures (IsSafe b₀) (λ _. IsAt b₀ room) (terminate s b)
      at_ptr =
          elim s.ptr
            as (λ q.
              (elim q [ none ↦ Unit {0} | some p ↦ p + s.len ≤ b₀.size ])
              → Ensures (IsSafe b₀) (λ _. IsAt b₀ room)
                  (elim q [
                    | none ↦ done tt b
                    | some p ↦ done tt (record b { mem = store b.mem (p + s.len) 0 })
                  ])) [ none ↦ λ _. returns h | some p ↦ λ v. returns (store-IsAt 0 v h) ]

module _ {b₀ : Buffer} where
  pub parse_auth_block-IsAt :
      {b : Buffer}
      → IsSafe b₀ b
      → Ensures (IsSafe b₀) (λ a b'. IsAt b₀ 3 b' × AuthWithin b₀.size a) (parse_auth_block b)
  unfolding parse_auth_block tell seek
  parse_auth_block-IsAt h = bind (require-IsAt 10 h) λ _ b1 h1.
      bind (get_uint16-IsAt 11 h1) λ bsd b2 h2. bind (get_uint16-IsAt 9 h2) λ length b3 h3.
        bind (get_uint32-IsAt 5 h3) λ timestamp b4 h4.
          bind (get_string-IsAt (IsAt-mono 2 h4 (omega arith))) λ spistr b5 (h5, within).
            bind (check_end-IsAt (skip-IsSafe (b1.curpos + length) h5.safe)) λ _ b6 (h6, same).
              returns (
                h6,
                record {
                  spistr = within;
                  authstruct = omega (arith, h5.pos);
                  opaque = omega (arith, h6.pos, same);
                },
              )

  pub parse_auth_blocks-IsAt :
      (n : ℕ) {b : Buffer}
      → IsAt b₀ 2 b
      → Ensures
          (IsSafe b₀)
          (λ l b'. IsAt b₀ 2 b' × All (AuthWithin b₀.size) l)
          (parse_auth_blocks n b)
  unfolding parse_auth_blocks
  parse_auth_blocks-IsAt zero h = returns (h, tt)
  parse_auth_blocks-IsAt (suc n) h = bind (parse_auth_block-IsAt h.safe) λ a b1 (h1, within).
      bind (parse_auth_blocks-IsAt n (IsAt-mono 2 h1 (omega arith)))
        λ l b2 (h2, rest). returns (h2, (within, rest))

module _ {b₀ : Buffer} (platform : Platform) where
  pub allocate-IsAt :
      (n room : ℕ) {b : Buffer}
      → IsAt b₀ room b
      → Ensures (IsSafe b₀) (λ _. IsAt b₀ room) (allocate platform n b)
  unfolding allocate
  allocate-IsAt n room {b} h = elim (Bool-cases (platform.xmalloc b.allocs n)) [
    | inl given ↦ rw given (returns (record { safe = counted; pos = h.pos }))
    | inr refused ↦ rw refused (fails counted)
  ]
    where
      counted : IsSafe b₀ (record b { allocs = b.allocs + 1 })
      counted = record { size = h.safe.size; reach = h.safe.reach; frame = h.safe.frame }

  pub parse_auth_array-IsAt :
      (n : ℕ) {b : Buffer}
      → IsAt b₀ 2 b
      → Ensures
          (IsSafe b₀)
          (λ l b'. IsAt b₀ 2 b' × All (AuthWithin b₀.size) l)
          (parse_auth_array platform n b)
  unfolding parse_auth_array
  parse_auth_array-IsAt zero h = returns (h, tt)
  parse_auth_array-IsAt (suc n) h =
      bind (allocate-IsAt _ 2 h) λ _ b1 h1. parse_auth_blocks-IsAt (suc n) h1

  pub parse_url_entry-IsAt :
      {b : Buffer}
      → IsSafe b₀ b
      → Ensures
          (IsSafe b₀)
          (λ u b'. IsAt b₀ 2 b' × UrlWithin b₀.size u)
          (parse_url_entry platform b)
  unfolding parse_url_entry tell
  parse_url_entry-IsAt h = bind (require-IsAt 6 h) λ _ b1 h1.
      bind (get_byte-IsAt 8 h1) λ reserved b2 h2. bind (get_uint16-IsAt 6 h2) λ lifetime b3 h3.
        bind (get_string-IsAt (IsAt-mono 2 h3 (omega arith))) λ url b4 (h4, within).
          bind (get_byte-IsAt 2 h4) λ authcount b5 h5.
            bind (parse_auth_array-IsAt authcount h5) λ autharray b6 (h6, blocks).
              bind (terminate-IsAt url 2 within h6) λ _ b7 h7. returns (
                h7,
                record { url = within; opaque = omega (arith, h6.pos, h1.pos); autharray = blocks },
              )

  pub parse_url_entries-IsAt :
      (n : ℕ) {b : Buffer}
      → IsAt b₀ 2 b
      → Ensures
          (IsSafe b₀)
          (λ l b'. IsAt b₀ 2 b' × All (UrlWithin b₀.size) l)
          (parse_url_entries platform n b)
  unfolding parse_url_entries
  parse_url_entries-IsAt zero h = returns (h, tt)
  parse_url_entries-IsAt (suc n) h = bind (parse_url_entry-IsAt h.safe) λ u b1 (h1, within).
      bind (parse_url_entries-IsAt n h1) λ l b2 (h2, rest). returns (h2, (within, rest))
