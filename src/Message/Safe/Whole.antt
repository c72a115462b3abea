-- ===== src/Message/Safe/Whole.antt =====
-- The rules for the header, the extensions and the whole message.
use openslp.Base.{
  ℕ, suc, ◌+◌, ◌%◌, ◌^◌, ◌≤◌, ◌≡◌, refl, inl, inr, Bool, Option, Bool-cases, ltb, leb, ◌&&◌, ◌||◌,
  ◌==◌, not, tests, arith,
}
use openslp.Wire.{Buffer, get_str_ptr, Parser, later}
use openslp.Wire.Ensures.{Ensures, returns, fails, bind, mono, choose}
use openslp.Wire.Safe.{
  IsSafe, IsAt, get_byte-IsAt, get_uint16-IsAt, get_uint24-IsAt, get_uint32-IsAt,
}
use openslp.Message.Types.{
  Header, Body, srvrqst, srvrply, srvreg, srvdereg, srvack, daadvert, attrrqst, attrrply,
  srvtyperqst, srvtyperply, saadvert, Sockaddr, Message, Platform, funct_srvreg, funct_srvrqst,
  funct_srvrply, funct_srvdereg, funct_srvack, funct_attrrqst, funct_attrrply, funct_daadvert,
  funct_srvtyperqst, funct_srvtyperply, funct_saadvert, extension_id_reg_pid,
  extension_id_reg_pid_exp,
}
use openslp.Message.Fields.{seek}
use openslp.Message.Parse.{
  refuse_if, require_size, check_header, parse_v2_header, require_ahead, apply_reg_pid,
  apply_extension, extension_round, parse_extensions, parse_extension, set_pid, as_body, parse_body,
  parse_rest, parse_v2_message, parse_versioned, peek_version, parse_buffer,
}
use openslp.Message.Within.{HeaderWithin, BodyWithin, MessageWithin}
use openslp.Message.Safe.Fields.{skip-IsSafe, check_end-IsAt}
use openslp.Message.Safe.Bodies.{
  parse_srv_rqst-IsSafe, parse_srv_rply-IsSafe, parse_srv_reg-IsSafe, parse_srv_de_reg-IsSafe,
  parse_srv_ack-IsSafe, parse_attr_rqst-IsSafe, parse_attr_rply-IsSafe, parse_da_advert-IsSafe,
  parse_srv_type_rqst-IsSafe, parse_srv_type_rply-IsSafe, parse_sa_advert-IsSafe,
}

module _ {b₀ : Buffer} where
  refuse_if-IsAt :
      (test : Bool) (room : ℕ) {b : Buffer}
      → IsAt b₀ room b
      → Ensures (IsSafe b₀) (λ _. IsAt b₀ room) (refuse_if test b)
  unfolding refuse_if
  refuse_if-IsAt test room {b} h = elim (Bool-cases test) [
    | inl e ↦ rw e (fails h.safe)
    | inr e ↦ rw e (returns h)
  ]

  require_size-IsAt :
      (n room : ℕ) {b : Buffer}
      → IsAt b₀ room b
      → Ensures
          (IsSafe b₀)
          (λ _ b'. IsAt b₀ room b' × (b'.curpos ≡ b.curpos) × (n ≤ b₀.size))
          (require_size n b)
  unfolding require_size
  require_size-IsAt n room {b} h = elim (Bool-cases (ltb b.size n)) [
    | inl e ↦ rw e (fails h.safe)
    | inr e ↦ rw e (returns (h, refl, omega (tests, e, h.safe.size)))
  ]

  check_header-IsAt :
      (h : Header) {b : Buffer}
      → IsAt b₀ 3 b
      → Ensures (IsSafe b₀) (λ _ b'. IsAt b₀ 3 b' × (h.extoffset ≤ b₀.size)) (check_header h b)
  unfolding check_header
  check_header-IsAt h at =
      bind (refuse_if-IsAt (ltb h.functionid funct_srvrqst || ltb funct_saadvert h.functionid) 3 at)
        λ _ b1 h1.
          bind (refuse_if-IsAt (not (h.flags % 2 ^ 13 == 0)) 3 h1)
            λ _ b2 h2. mono (require_size-IsAt h.extoffset 3 h2) λ _ b3 (h3, same, ext). (h3, ext)

  parse_v2_header-IsAt :
      {b : Buffer}
      → IsSafe b₀ b
      → b.curpos ≡ 0
      → Ensures (IsSafe b₀) (λ h b'. IsAt b₀ 3 b' × HeaderWithin b₀.size h) (parse_v2_header b)
  unfolding parse_v2_header get_str_ptr
  parse_v2_header-IsAt s at =
      bind (require_size-IsAt 18 3 (record { safe = s; pos = omega (arith, at) }))
        λ _ b1 (h1, e1, sz).
          bind (get_byte-IsAt 20 (record { safe = h1.safe; pos = omega (arith, e1, at, sz) }))
            λ version b2 h2. bind (get_byte-IsAt 19 h2) λ functionid b3 h3.
              bind (get_uint24-IsAt 16 h3) λ length b4 h4.
                bind (get_uint16-IsAt 14 h4) λ flags b5 h5.
                  bind (get_uint24-IsAt 11 h5) λ extoffset b6 h6.
                    bind (get_uint16-IsAt 9 h6) λ xid b7 h7.
                      bind (get_uint16-IsAt 7 h7) λ langtaglen b8 h8.
                        bind (check_end-IsAt (skip-IsSafe (b8.curpos + langtaglen) h8.safe))
                          λ _ b9 (h9, e9).
                            let tag : b8.curpos + langtaglen ≤ b₀.size =
                              omega (arith, h9.pos, e9) in
                            bind (check_header-IsAt _ h9) λ _ b10 (h10, ext).
                              returns (h10, record { langtag = tag; extoffset = ext })

  require_ahead-IsAt :
      (n : ℕ) {b : Buffer}
      → IsSafe b₀ b
      → Ensures (IsSafe b₀) (λ _. IsAt b₀ (n + 3)) (require_ahead n b)
  unfolding require_ahead
  require_ahead-IsAt n {b} h = elim (Bool-cases (ltb b.size (b.curpos + n))) [
    | inl short ↦ rw short (fails h)
    | inr enough ↦ rw enough (returns (record { safe = h; pos = omega (tests, enough, h.size) }))
  ]

  apply_extension-IsSafe :
      (n functionid extid : ℕ) (body : Body) {b : Buffer}
      → IsSafe b₀ b
      → BodyWithin n body
      → Ensures
          (IsSafe b₀)
          (λ body' b'. IsSafe b₀ b' × BodyWithin n body')
          (apply_extension functionid extid body b)
  unfolding apply_extension apply_reg_pid
  apply_extension-IsSafe n functionid extid body {b} h w =
      choose ((extid == extension_id_reg_pid) || (extid == extension_id_reg_pid_exp)) _ _ b
        (choose (functionid == funct_srvreg) _ _ b
          (bind (require_ahead-IsAt 4 h)
            λ _ b1 h1. bind (get_uint32-IsAt 3 h1) λ pid b2 h2. returns (h2.safe, same pid body w))
          (returns (h, w)))
        (choose (leb 0x4000 extid && leb extid 0x7fff) _ _ b (fails h) (returns (h, w)))
    where
      same : (pid : ℕ) (body : Body) → BodyWithin n body → BodyWithin n (set_pid pid body)
      same pid (srvreg r) w = w
      same pid _ w = w

  extension_round-IsSafe :
      (n functionid nextoffset : ℕ) (body : Body) {b : Buffer}
      → IsSafe b₀ b
      → BodyWithin n body
      → Ensures
          (IsSafe b₀)
          (λ p b'. IsSafe b₀ b' × BodyWithin n p.1)
          (extension_round functionid nextoffset body b)
  unfolding extension_round seek
  extension_round-IsSafe n functionid nextoffset body h w =
      bind (require_ahead-IsAt 5 (skip-IsSafe nextoffset h)) λ _ b1 h1.
        bind (get_uint16-IsAt 6 h1) λ extid b2 h2. bind (get_uint24-IsAt 3 h2) λ next b3 h3.
          bind (apply_extension-IsSafe n functionid extid body h3.safe w)
            λ body' b4 (h4, w4). returns (h4, w4)

  parse_extensions-IsSafe :
      (n bufsz functionid nextoffset : ℕ) (body : Body) {b : Buffer}
      → IsSafe b₀ b
      → BodyWithin n body
      → Ensures
          (IsSafe b₀)
          (λ body' b'. IsSafe b₀ b' × BodyWithin n body')
          (parse_extensions bufsz functionid nextoffset body b)
  unfolding parse_extensions
  parse_extensions-IsSafe n (suc (suc (suc (suc (suc (suc left)))))) functionid off body {b} h w =
      choose (off == 0) _ _ b (returns (h, w)) (
        bind (extension_round-IsSafe n functionid off body h w)
          λ p b1 (h1, w1). parse_extensions-IsSafe n (suc left) functionid p.0 p.1 h1 w1)
  parse_extensions-IsSafe n _ functionid off body {b} h w =
      choose (off == 0) _ _ b (returns (h, w)) (fails h)

  as_body-IsSafe :
      {R : Type 0} (member : R → Body) (parser : Parser R) {b : Buffer}
      → Ensures (IsSafe b₀) (λ r b'. IsSafe b₀ b' × BodyWithin b₀.size (member r)) (parser b)
      → Ensures
          (IsSafe b₀)
          (λ body b'. IsSafe b₀ b' × BodyWithin b₀.size body)
          (as_body member parser b)
  unfolding as_body
  as_body-IsSafe member parser e = bind e λ r b1 (h1, w1). returns (h1, w1)

module _ {b₀ : Buffer} (platform : Platform) where
  parse_body-IsSafe :
      (functionid : ℕ) (old : Body) {b : Buffer}
      → IsAt b₀ 3 b
      → Ensures
          (IsSafe b₀)
          (λ body b'. IsSafe b₀ b' × BodyWithin b₀.size body)
          (parse_body platform functionid old b)
  unfolding parse_body
  parse_body-IsSafe f old {b} h =
      choose (f == funct_srvrqst) _ _ b (as_body-IsSafe srvrqst _ (parse_srv_rqst-IsSafe h.safe)) (
        choose (f == funct_srvrply) _ _ b
          (as_body-IsSafe srvrply _ (parse_srv_rply-IsSafe platform h.safe))
          (choose (f == funct_srvreg) _ _ b
            (as_body-IsSafe srvreg _ (parse_srv_reg-IsSafe platform _ _ h.safe))
            (choose (f == funct_srvdereg) _ _ b
              (as_body-IsSafe srvdereg _ (parse_srv_de_reg-IsSafe platform h.safe))
              (choose (f == funct_srvack) _ _ b (as_body-IsSafe srvack _ (parse_srv_ack-IsSafe h)) (
                choose (f == funct_attrrqst) _ _ b
                  (as_body-IsSafe attrrqst _ (parse_attr_rqst-IsSafe h.safe))
                  (choose (f == funct_attrrply) _ _ b
                    (as_body-IsSafe attrrply _ (parse_attr_rply-IsSafe platform h.safe))
                    (choose (f == funct_daadvert) _ _ b
                      (as_body-IsSafe daadvert _ (parse_da_advert-IsSafe platform h.safe))
                      (choose (f == funct_srvtyperqst) _ _ b
                        (as_body-IsSafe srvtyperqst _ (parse_srv_type_rqst-IsSafe h.safe))
                        (choose (f == funct_srvtyperply) _ _ b
                          (as_body-IsSafe srvtyperply _ (parse_srv_type_rply-IsSafe h.safe))
                          (choose (f == funct_saadvert) _ _ b
                            (as_body-IsSafe saadvert _ (parse_sa_advert-IsSafe platform h.safe))
                            (fails h.safe)))))))))))

  parse_v2_message-IsSafe :
      (old : Body) {b : Buffer}
      → IsSafe b₀ b
      → b.curpos ≡ 0
      → Ensures
          (IsSafe b₀)
          (λ p b'. IsSafe b₀ b' × HeaderWithin b₀.size p.0 × BodyWithin b₀.size p.1)
          (parse_v2_message platform old b)
  unfolding parse_v2_message parse_rest parse_extension
  parse_v2_message-IsSafe old s at = bind (parse_v2_header-IsAt s at) λ h b1 (h1, w1).
      bind (parse_body-IsSafe h.functionid old h1) λ body b2 (h2, w2).
        bind
          (choose (h.extoffset == 0) _ _ b2 (returns (h2, w2))
            (parse_extensions-IsSafe b₀.size b2.size h.functionid h.extoffset body h2 w2))
          λ body' b3 (h3, w3). returns (h3, w1, w3)

-- SLPMessageParseBuffer on any bytes, however the allocator answers: it ends with a message or an
-- error code. Either way it has written nothing past the terminator byte at `end` and read nothing at
-- `end + 3` or further. Every string, block and extension offset of the message lies inside the
-- buffer.
pub parse_buffer-IsSafe :
    (platform : Platform) (peeraddr localaddr : Option Sockaddr) (mp : Message) (b : Buffer)
    → b.reach ≡ 0
    → Ensures
        (IsSafe b)
        (λ m b'. IsSafe b b' × MessageWithin b.size m)
        (parse_buffer platform peeraddr localaddr mp b)
unfolding parse_buffer parse_versioned seek peek_version
parse_buffer-IsSafe platform peeraddr localaddr mp b fresh =
    choose (b.mem 0 == 2) _ _ _
      (bind (parse_v2_message-IsSafe platform _ start refl)
        λ p b1 (h1, w1, w2). returns (h1, record { header = w1; body = w2 }))
      (fails start)
  where
    start : IsSafe b (record b { curpos = 0; reach = later b.reach 1 })
    start = record { size = refl; reach = ground arith; frame = λ i past. refl }
