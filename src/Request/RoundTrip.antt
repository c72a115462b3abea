-- ===== src/Request/RoundTrip.antt =====
-- What SLPFindSrvs sends, the daemon parses.
use openslp.Base.{ℕ, ◌^◌, ◌≤◌, ◌<◌, ◌≡◌, Bool, Option, List, ◌++◌, length, length-append, arith}
use mathlib.Core.List.{append-nil}
use openslp.Wire.{Buffer}
use openslp.Wire.Ensures.{Ensures, returns, bind}
use openslp.Wire.Put.{put_l16_string}
use openslp.Wire.Reads.{Reads, Never}
use openslp.Message.Types.{Body, Message, Platform, Sockaddr, SrvRqst, srvrqst, funct_srvrqst}
use openslp.Message.Bodies.{parse_srv_rqst}
use openslp.Message.Parse.{as_body, parse_body, parse_buffer}
use openslp.Message.Reads.{Content, HeaderIs, require-Reads, get_string-Reads}
use openslp.Request.{put_request, put_srv_rqst, request_flags}
use openslp.Request.Size.{length-put_l16_string}
use openslp.Request.Parsed.{IsFilled, Short, parse_buffer-Reads, sized}

-- The strings of a service request, in the memory.
pub record SrvRqstIs (mem : ℕ → ℕ) (prlist srvtype scopelist predicate spistr : List ℕ)
    (r : SrvRqst) : Type 0 where
  pub prlist_is : Content mem prlist r.prlist
  pub srvtype_is : Content mem srvtype r.srvtype
  pub scopelist_is : Content mem scopelist r.scopelist
  pub predicate_is : Content mem predicate r.predicate
  pub spistr_is : Content mem spistr r.spistr

-- A body that is a service request with these strings.
abbrev pub IsSrvRqst :
    (mem : ℕ → ℕ) (prlist srvtype scopelist predicate spistr : List ℕ) → Body → Type 0
IsSrvRqst mem prlist srvtype scopelist predicate spistr (srvrqst r) =
    SrvRqstIs mem prlist srvtype scopelist predicate spistr r
IsSrvRqst mem prlist srvtype scopelist predicate spistr _ = ⊥

module _ {mem : ℕ → ℕ} {size : ℕ} where
  parse_srv_rqst-Reads :
      (prlist srvtype scopelist predicate spistr : List ℕ) {b : Buffer}
      → Short prlist
      → Short srvtype
      → Short scopelist
      → Short predicate
      → Short spistr
      → Reads mem size (put_l16_string prlist ++ put_srv_rqst srvtype scopelist predicate spistr) b
      → Ensures Never
          (λ r b'. SrvRqstIs mem prlist srvtype scopelist predicate spistr r × (b'.mem ≡ mem))
          (parse_srv_rqst b)
  unfolding parse_srv_rqst put_srv_rqst
  parse_srv_rqst-Reads prlist srvtype scopelist predicate spistr s1 s2 s3 s4 s5 h =
      bind (require-Reads 10 long h) λ _ b1 h1.
        bind (get_string-Reads prlist s1 h1) λ a1 b2 (c1, h2).
          bind (get_string-Reads srvtype s2 h2) λ a2 b3 (c2, h3).
            bind (get_string-Reads scopelist s3 h3) λ a3 b4 (c3, h4).
              bind (get_string-Reads predicate s4 h4) λ a4 b5 (c4, h5).
                bind (get_string-Reads spistr s5 (rw (← append-nil (put_l16_string spistr)) at h5))
                  λ a5 b6 (c5, h6). returns (
                    record {
                      prlist_is = c1;
                      srvtype_is = c2;
                      scopelist_is = c3;
                      predicate_is = c4;
                      spistr_is = c5;
                    },
                    h6.same_mem,
                  )
    where
      long : 10 ≤ length (put_l16_string prlist ++ put_srv_rqst srvtype scopelist predicate spistr)
      long = simp (length-append, length-put_l16_string) (omega arith)

parse_body_srvrqst :
    {Q : SrvRqst → Buffer → Type 0} {P : Body → Buffer → Type 0} (platform : Platform) (old : Body)
    (b : Buffer)
    → Ensures Never Q (parse_srv_rqst b)
    → ((r : SrvRqst) (b' : Buffer) → Q r b' → P (srvrqst r) b')
    → Ensures Never P (parse_body platform funct_srvrqst old b)
unfolding parse_body as_body
parse_body_srvrqst platform old b e next = bind e λ r b' q. returns (next r b' q)

-- What NetworkRqstRply sends for SLPFindSrvs, SLPMessageParseBuffer parses, whatever the allocator
-- answers: the strings fit 16 bits, the message 24 and the id 16. The message has the id, the
-- language tag and the flags of the header, and the five strings of the request.
pub parse_buffer-put_srv_rqst :
    (platform : Platform) (peeraddr localaddr : Option Sockaddr) (mp : Message) (b : Buffer)
    (mcast : Bool) (xid : ℕ) (langtag prlist srvtype scopelist predicate spistr : List ℕ)
    → xid < 2 ^ 16
    → b.size < 2 ^ 24
    → Short langtag
    → Short prlist
    → Short srvtype
    → Short scopelist
    → Short predicate
    → Short spistr
    → IsFilled
        (put_request funct_srvrqst mcast 0 xid langtag prlist
          (put_srv_rqst srvtype scopelist predicate spistr))
        b
    → Ensures Never
        (λ m b'.
          HeaderIs b.mem funct_srvrqst b.size
            (request_flags funct_srvrqst mcast)
            0
            xid
            langtag
            m.header
          × IsSrvRqst b.mem prlist srvtype scopelist predicate spistr m.body
          × (b'.mem ≡ b.mem))
        (parse_buffer platform peeraddr localaddr mp b)
unfolding put_srv_rqst
parse_buffer-put_srv_rqst platform peeraddr localaddr mp b mcast xid langtag prlist srvtype
      scopelist predicate spistr sx sb s0 s1 s2 s3 s4 s5 filled =
    parse_buffer-Reads platform peeraddr localaddr mp funct_srvrqst _ xid langtag _
      (IsSrvRqst b.mem prlist srvtype scopelist predicate spistr) b
      (record {
        low = omega arith;
        high = omega arith;
        size_small = sb;
        flags_small = ground arith;
        reserved = ground arith;
        ext = omega arith;
        xid_small = sx;
        tag_small = s0;
      })
      (simp (length-append, length-put_l16_string) (omega arith))
      (sized funct_srvrqst mcast xid langtag prlist _ b filled)
      λ b1 h1.
        parse_body_srvrqst platform _ b1
          (parse_srv_rqst-Reads prlist srvtype scopelist predicate spistr s1 s2 s3 s4 s5 h1)
          λ r b' q. q
