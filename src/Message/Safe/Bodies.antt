-- ===== src/Message/Safe/Bodies.antt =====
-- The rules for the eleven bodies.
use openslp.Base.{ℕ, zero, suc, ◌+◌, ◌≤◌, ◌≡◌, refl, Option, none, some, ◌||◌, ◌==◌, All, arith}
use openslp.Wire.{Buffer, get_str_ptr}
use openslp.Wire.Ensures.{Ensures, returns, bind, mono, choose}
use openslp.Wire.Safe.{IsSafe, IsAt, IsAt-mono, get_byte-IsAt, get_uint16-IsAt, get_uint32-IsAt}
use openslp.Message.Types.{
  Platform, srvrqst, srvrply, srvreg, srvdereg, srvack, daadvert, attrrqst, attrrply, srvtyperqst,
  srvtyperply, saadvert,
}
use openslp.Message.Fields.{get_string}
use openslp.Message.Bodies.{
  parse_srv_rqst, parse_srv_rply, parse_srv_reg, parse_srv_de_reg, parse_srv_ack, parse_attr_rqst,
  parse_attr_rply, parse_da_advert, parse_srv_type_rqst, parse_srv_type_rply, parse_sa_advert,
  naming_auth_ptr, get_naming_auth, parse_srv_type_list, parse_url_array, parse_urls, parse_attrs,
  parse_da,
}
use openslp.Message.Within.{StrWithin, UrlWithin, BodyWithin}
use openslp.Message.Safe.Fields.{
  skip-IsSafe, require-IsAt, check_end-IsAt, get_string-IsAt, terminate-IsAt, allocate-IsAt,
  parse_auth_array-IsAt, parse_url_entry-IsAt, parse_url_entries-IsAt,
}

-- A string of `len` bytes at `p`, if there is one, ends at `pos`.
abbrev NamedUpTo : Option ℕ → ℕ → ℕ → Type 0
NamedUpTo none len pos = Unit
NamedUpTo (some q) len pos = q + len ≡ pos

module _ {b₀ : Buffer} where
  -- A string after a string, where the position is at most the end.
  next_string-IsAt :
      {b : Buffer}
      → IsAt b₀ 3 b
      → Ensures (IsSafe b₀) (λ s b'. IsAt b₀ 3 b' × StrWithin b₀.size s) (get_string b)
  next_string-IsAt h = get_string-IsAt (IsAt-mono 2 h (omega arith))

  pub parse_srv_rqst-IsSafe :
      {b : Buffer}
      → IsSafe b₀ b
      → Ensures
          (IsSafe b₀)
          (λ r b'. IsSafe b₀ b' × BodyWithin b₀.size (srvrqst r))
          (parse_srv_rqst b)
  unfolding parse_srv_rqst
  parse_srv_rqst-IsSafe h = bind (require-IsAt 10 h) λ _ b1 h1.
      bind (get_string-IsAt (IsAt-mono 2 h1 (omega arith))) λ prlist b2 (h2, w2).
        bind (next_string-IsAt h2) λ srvtype b3 (h3, w3).
          bind (next_string-IsAt h3) λ scopelist b4 (h4, w4).
            bind (next_string-IsAt h4) λ predicate b5 (h5, w5).
              bind (next_string-IsAt h5)
                λ spistr b6 (h6, w6). returns (h6.safe, (w2, w3, w4, w5, w6))

  pub parse_srv_ack-IsSafe :
      {b : Buffer}
      → IsAt b₀ 3 b
      → Ensures (IsSafe b₀) (λ r b'. IsSafe b₀ b' × BodyWithin b₀.size (srvack r)) (parse_srv_ack b)
  unfolding parse_srv_ack
  parse_srv_ack-IsSafe h = bind (get_uint16-IsAt 1 h) λ errorcode b1 h1. returns (h1.safe, tt)

  pub parse_attr_rqst-IsSafe :
      {b : Buffer}
      → IsSafe b₀ b
      → Ensures
          (IsSafe b₀)
          (λ r b'. IsSafe b₀ b' × BodyWithin b₀.size (attrrqst r))
          (parse_attr_rqst b)
  unfolding parse_attr_rqst
  parse_attr_rqst-IsSafe h = bind (require-IsAt 10 h) λ _ b1 h1.
      bind (get_string-IsAt (IsAt-mono 2 h1 (omega arith))) λ prlist b2 (h2, w2).
        bind (next_string-IsAt h2) λ url b3 (h3, w3).
          bind (next_string-IsAt h3) λ scopelist b4 (h4, w4).
            bind (next_string-IsAt h4) λ taglist b5 (h5, w5).
              bind (next_string-IsAt h5)
                λ spistr b6 (h6, w6). returns (h6.safe, (w2, w3, w4, w5, w6))

  -- The naming authority's string, if one follows, ends at the position.
  naming_auth_ptr-IsSafe :
      (len : ℕ) {b : Buffer}
      → IsSafe b₀ b
      → Ensures
          (IsSafe b₀)
          (λ p b'. IsSafe b₀ b' × NamedUpTo p len b'.curpos)
          (naming_auth_ptr len b)
  unfolding naming_auth_ptr get_str_ptr
  naming_auth_ptr-IsSafe len {b} h =
      choose ((len == 0) || (len == 0xffff)) _ _ b (returns (h, tt))
        (returns (skip-IsSafe _ h, refl))

  get_naming_auth-IsAt :
      {b : Buffer}
      → IsAt b₀ 3 b
      → Ensures (IsSafe b₀) (λ s b'. IsAt b₀ 3 b' × StrWithin b₀.size s) (get_naming_auth b)
  unfolding get_naming_auth
  get_naming_auth-IsAt h = bind (get_uint16-IsAt 1 h) λ len b1 h1.
      bind (naming_auth_ptr-IsSafe len h1.safe) λ p b2 (h2, end).
        bind (check_end-IsAt h2)
          λ _ b3 (h3, same). returns (h3, inside p len _ end (omega (arith, h3.pos, same)))
    where
      inside :
          (p : Option ℕ) (len pos : ℕ) {n : ℕ}
          → NamedUpTo p len pos
          → pos ≤ n
          → StrWithin n (record { len = len; ptr = p })
      inside none len pos e le = tt
      inside (some q) len pos e le = omega arith

  pub parse_srv_type_rqst-IsSafe :
      {b : Buffer}
      → IsSafe b₀ b
      → Ensures
          (IsSafe b₀)
          (λ r b'. IsSafe b₀ b' × BodyWithin b₀.size (srvtyperqst r))
          (parse_srv_type_rqst b)
  unfolding parse_srv_type_rqst
  parse_srv_type_rqst-IsSafe h = bind (require-IsAt 6 h) λ _ b1 h1.
      bind (get_string-IsAt (IsAt-mono 2 h1 (omega arith))) λ prlist b2 (h2, w2).
        bind (get_naming_auth-IsAt h2) λ namingauth b3 (h3, w3).
          bind (next_string-IsAt h3) λ scopelist b4 (h4, w4). returns (h4.safe, (w2, w3, w4))

  pub parse_srv_type_rply-IsSafe :
      {b : Buffer}
      → IsSafe b₀ b
      → Ensures
          (IsSafe b₀)
          (λ r b'. IsSafe b₀ b' × BodyWithin b₀.size (srvtyperply r))
          (parse_srv_type_rply b)
  unfolding parse_srv_type_rply parse_srv_type_list
  parse_srv_type_rply-IsSafe h = bind (require-IsAt 4 h) λ _ b1 h1.
      bind (get_uint16-IsAt 5 h1) λ errorcode b2 h2.
        choose (errorcode == 0) _ _ b2
          (bind (get_string-IsAt (IsAt-mono 2 h2 (omega arith)))
            λ s b3 (h3, w3). bind (terminate-IsAt s 3 w3 h3) λ _ b4 h4. returns (h4.safe, w3))
          (returns (h2.safe, tt))

module _ {b₀ : Buffer} (platform : Platform) where
  parse_url_array-IsAt :
      (n : ℕ) {b : Buffer}
      → IsAt b₀ 2 b
      → Ensures
          (IsSafe b₀)
          (λ l b'. IsSafe b₀ b' × All (UrlWithin b₀.size) l)
          (parse_url_array platform n b)
  unfolding parse_url_array
  parse_url_array-IsAt zero h = returns (h.safe, tt)
  parse_url_array-IsAt (suc n) h =
      bind (allocate-IsAt platform _ 2 h)
        λ _ b1 h1. mono (parse_url_entries-IsAt platform (suc n) h1) λ l b2 (h2, w2). (h2.safe, w2)

  pub parse_srv_rply-IsSafe :
      {b : Buffer}
      → IsSafe b₀ b
      → Ensures
          (IsSafe b₀)
          (λ r b'. IsSafe b₀ b' × BodyWithin b₀.size (srvrply r))
          (parse_srv_rply platform b)
  unfolding parse_srv_rply parse_urls
  parse_srv_rply-IsSafe h = bind (require-IsAt 4 h) λ _ b1 h1.
      bind (get_uint16-IsAt 5 h1) λ errorcode b2 h2.
        choose (errorcode == 0) _ _ b2
          (bind (get_uint16-IsAt 3 h2) λ n b3 h3.
            bind (parse_url_array-IsAt n (IsAt-mono 2 h3 (omega arith)))
              λ l b4 (h4, w4). returns (h4, w4))
          (returns (h2.safe, tt))

  pub parse_srv_reg-IsSafe :
      (pid source : ℕ) {b : Buffer}
      → IsSafe b₀ b
      → Ensures
          (IsSafe b₀)
          (λ r b'. IsSafe b₀ b' × BodyWithin b₀.size (srvreg r))
          (parse_srv_reg platform pid source b)
  unfolding parse_srv_reg
  parse_srv_reg-IsSafe pid source h = bind (parse_url_entry-IsAt platform h) λ urlentry b1 (h1, w1).
      bind (get_string-IsAt h1) λ srvtype b2 (h2, w2).
        bind (next_string-IsAt h2) λ scopelist b3 (h3, w3).
          bind (next_string-IsAt h3) λ attrlist b4 (h4, w4).
            bind (get_byte-IsAt 2 h4) λ authcount b5 h5.
              bind (parse_auth_array-IsAt platform authcount h5)
                λ autharray b6 (h6, w6). returns (h6.safe, (w1, w2, w3, w4, w6))

  pub parse_srv_de_reg-IsSafe :
      {b : Buffer}
      → IsSafe b₀ b
      → Ensures
          (IsSafe b₀)
          (λ r b'. IsSafe b₀ b' × BodyWithin b₀.size (srvdereg r))
          (parse_srv_de_reg platform b)
  unfolding parse_srv_de_reg
  parse_srv_de_reg-IsSafe h = bind (require-IsAt 4 h) λ _ b1 h1.
      bind (get_string-IsAt (IsAt-mono 2 h1 (omega arith))) λ scopelist b2 (h2, w2).
        bind (parse_url_entry-IsAt platform h2.safe) λ urlentry b3 (h3, w3).
          bind (get_string-IsAt h3) λ taglist b4 (h4, w4). returns (h4.safe, (w2, w3, w4))

  pub parse_attr_rply-IsSafe :
      {b : Buffer}
      → IsSafe b₀ b
      → Ensures
          (IsSafe b₀)
          (λ r b'. IsSafe b₀ b' × BodyWithin b₀.size (attrrply r))
          (parse_attr_rply platform b)
  unfolding parse_attr_rply parse_attrs
  parse_attr_rply-IsSafe h = bind (require-IsAt 5 h) λ _ b1 h1.
      bind (get_uint16-IsAt 6 h1) λ errorcode b2 h2.
        choose (errorcode == 0) _ _ b2
          (bind (get_string-IsAt (IsAt-mono 2 h2 (omega arith))) λ attrlist b3 (h3, w3).
            bind (get_byte-IsAt 2 h3) λ authcount b4 h4.
              bind (parse_auth_array-IsAt platform authcount h4) λ autharray b5 (h5, w5).
                bind (terminate-IsAt attrlist 2 w3 h5) λ _ b6 h6. returns (h6.safe, (w3, w5)))
          (returns (h2.safe, (tt, tt)))

  parse_da-IsSafe :
      {b : Buffer}
      → IsAt b₀ 16 b
      → Ensures
          (IsSafe b₀)
          (λ r b'. IsSafe b₀ b' × BodyWithin b₀.size (daadvert r))
          (parse_da platform b)
  unfolding parse_da
  parse_da-IsSafe h = bind (get_uint32-IsAt 12 h) λ bootstamp b1 h1.
      bind (get_string-IsAt (IsAt-mono 2 h1 (omega arith))) λ url b2 (h2, w2).
        bind (next_string-IsAt h2) λ scopelist b3 (h3, w3).
          bind (next_string-IsAt h3) λ attrlist b4 (h4, w4).
            bind (next_string-IsAt h4) λ spilist b5 (h5, w5).
              bind (get_byte-IsAt 2 h5) λ authcount b6 h6.
                bind (parse_auth_array-IsAt platform authcount h6) λ autharray b7 (h7, w7).
                  bind (terminate-IsAt url 2 w2 h7)
                    λ _ b8 h8. returns (h8.safe, (w2, w3, w4, w5, w7))

  pub parse_da_advert-IsSafe :
      {b : Buffer}
      → IsSafe b₀ b
      → Ensures
          (IsSafe b₀)
          (λ r b'. IsSafe b₀ b' × BodyWithin b₀.size (daadvert r))
          (parse_da_advert platform b)
  unfolding parse_da_advert
  parse_da_advert-IsSafe h = bind (require-IsAt 15 h) λ _ b1 h1.
      bind (get_uint16-IsAt 16 h1) λ errorcode b2 h2.
        choose (errorcode == 0) _ _ b2 (parse_da-IsSafe h2)
          (returns (h2.safe, (tt, tt, tt, tt, tt)))

  pub parse_sa_advert-IsSafe :
      {b : Buffer}
      → IsSafe b₀ b
      → Ensures
          (IsSafe b₀)
          (λ r b'. IsSafe b₀ b' × BodyWithin b₀.size (saadvert r))
          (parse_sa_advert platform b)
  unfolding parse_sa_advert
  parse_sa_advert-IsSafe h = bind (require-IsAt 7 h) λ _ b1 h1.
      bind (get_string-IsAt (IsAt-mono 2 h1 (omega arith))) λ url b2 (h2, w2).
        bind (next_string-IsAt h2) λ scopelist b3 (h3, w3).
          bind (next_string-IsAt h3) λ attrlist b4 (h4, w4).
            bind (get_byte-IsAt 2 h4) λ authcount b5 h5.
              bind (parse_auth_array-IsAt platform authcount h5) λ autharray b6 (h6, w6).
                bind (terminate-IsAt url 2 w2 h6) λ _ b7 h7. returns (h7.safe, (w2, w3, w4, w6))
