-- ===== src/Url/RoundTrip.antt =====
-- SLPParseSrvUrl on a URL that was put together from its parts.
use openslp.Base.{
  append_nil, Lacks, ℕ, ◌+◌, ◌≡◌, refl, Bool, true, false, ◌&&◌, ◌==◌, Option, none, some, List, [],
  ◌∷◌, ◌++◌, length, inr, ℤ, pos,
}
use openslp.Url.{
  ParsedSrvUrl, nf_ipv6, up_to_nul, strchr, at_delimiter, strstr, terminated, behind_or, bracketed,
  port_at, parse_located, parse_srv_url,
}

abbrev pub port_text : Option (List ℕ) → List ℕ
port_text none = []
port_text (some digits) = b':' ∷ digits

abbrev pub path_text : Option (List ℕ) → List ℕ
path_text none = []
path_text (some path) = b'/' ∷ path

-- Host, port and path of a URL, the host in brackets or not.
abbrev pub location_text : (is_ipv6 : Bool) (host : List ℕ) (port path : Option (List ℕ)) → List ℕ
location_text false host port path = (host ++ port_text port) ++ path_text path
location_text true host port path = b'[' ∷ (host ++ (b']' ∷ (port_text port ++ path_text path)))

-- A host that can stand there: no bracket closes it early, or no delimiter is in it.
abbrev pub IsHost : (is_ipv6 : Bool) → List ℕ → Type 0
IsHost false host = Lacks b'/' host × Lacks b':' host × Lacks b'[' host
IsHost true host = Lacks b']' host

abbrev pub text_or_none : Option (List ℕ) → List ℕ
text_or_none none = []
text_or_none (some s) = s

abbrev pub number_of : (List ℕ → ℤ) → Option (List ℕ) → ℤ
number_of atoi none = pos 0
number_of atoi (some digits) = atoi digits

abbrev pub family_of : Bool → List ℕ
family_of false = []
family_of true = nf_ipv6

Lacks-append : (c : ℕ) (s t : List ℕ) → Lacks c s → Lacks c t → Lacks c (s ++ t)
Lacks-append c [] t h k = k
Lacks-append c (x ∷ s) t (e, h) k = (e, Lacks-append c s t h k)

up_to_nul-all : (s : List ℕ) → Lacks 0 s → up_to_nul s ≡ s
unfolding up_to_nul
up_to_nul-all [] h = refl
up_to_nul-all (c ∷ s) (e, h) = rw (e, up_to_nul-all s h) refl

strchr-absent : (s : List ℕ) (c : ℕ) → Lacks c s → strchr s c ≡ none
unfolding strchr
strchr-absent [] c h = refl
strchr-absent (x ∷ s) c (e, h) = rw (e, strchr-absent s c h) refl

strchr-found :
    (s t : List ℕ) (c : ℕ) → Lacks c s → (c == c) ≡ true → strchr (s ++ (c ∷ t)) c ≡ some (s, t)
unfolding strchr
strchr-found [] t c h r = rw r refl
strchr-found (x ∷ s) t c (e, h) r = rw (e, strchr-found s t c h r) refl

-- Cutting at the first slash.
strchr-path :
    (s : List ℕ) (path : Option (List ℕ))
    → Lacks b'/' s
    → (terminated (s ++ path_text path) (strchr (s ++ path_text path) b'/') ≡ s)
      × (behind_or [] (strchr (s ++ path_text path) b'/') ≡ text_or_none path)
strchr-path s none h = rw (append_nil s, strchr-absent s b'/' h) (refl, refl)
strchr-path s (some path) h = rw (strchr-found s path b'/' h refl) (refl, refl)

-- Cutting at the first colon.
strchr-port :
    (atoi : List ℕ → ℤ) (s : List ℕ) (port : Option (List ℕ))
    → Lacks b':' s
    → (terminated (s ++ port_text port) (strchr (s ++ port_text port) b':') ≡ s)
      × (port_at atoi (strchr (s ++ port_text port) b':') ≡ number_of atoi port)
strchr-port atoi s none h = rw (append_nil s, strchr-absent s b':' h) (refl, refl)
strchr-port atoi s (some port) h = rw (strchr-found s port b':' h refl) (refl, refl)

and_false : (a b : Bool) → ((a && false) && b) ≡ false
and_false false b = refl
and_false true b = refl

no_delimiter :
    (x : ℕ) (s t : List ℕ)
    → Lacks b'/' s
    → at_delimiter (x ∷ (s ++ (b':' ∷ b'/' ∷ b'/' ∷ t))) ≡ false
no_delimiter x [] t h = and_false (x == b':') true
no_delimiter x (y ∷ []) t (e, h) = rw e (and_false (x == b':') false)
no_delimiter x (y ∷ z ∷ s) t (e, h) = rw e (and_false (x == b':') (z == b'/'))

strstr-found : (s t : List ℕ) → Lacks b'/' s → strstr (s ++ (b':' ∷ b'/' ∷ b'/' ∷ t)) ≡ some (s, t)
unfolding strstr
strstr-found [] t h = refl
strstr-found (x ∷ s) t (e, h) = rw (no_delimiter x s t h, strstr-found s t h) refl

bracketed-path : (path : Option (List ℕ)) → bracketed (path_text path) ≡ none
unfolding bracketed
bracketed-path none = refl
bracketed-path (some path) = refl

bracketed-port : (port path : Option (List ℕ)) → bracketed (port_text port ++ path_text path) ≡ none
unfolding bracketed
bracketed-port none path = bracketed-path path
bracketed-port (some port) path = refl

bracketed-none :
    (host : List ℕ) (port path : Option (List ℕ))
    → Lacks b'[' host
    → bracketed ((host ++ port_text port) ++ path_text path) ≡ none
unfolding bracketed
bracketed-none [] port path h = bracketed-port port path
bracketed-none (c ∷ host) port path (e, h) = rw e refl

bracketed-host :
    (host rest : List ℕ)
    → Lacks b']' host
    → bracketed (b'[' ∷ (host ++ (b']' ∷ rest))) ≡ some (host, rest)
unfolding bracketed
bracketed-host host rest h = strchr-found host rest b']' h refl

Lacks-port : (port : Option (List ℕ)) → Lacks b'/' (text_or_none port) → Lacks b'/' (port_text port)
Lacks-port none h = tt
Lacks-port (some digits) h = (refl, h)

module _ (atoi : List ℕ → ℤ) where
  -- What the parts come to.
  abbrev pub parsed :
      (srvtype : List ℕ) (is_ipv6 : Bool) (host : List ℕ) (port path : Option (List ℕ))
      → ParsedSrvUrl
  parsed srvtype is_ipv6 host port path = record {
    srvtype = srvtype;
    host = host;
    port = number_of atoi port;
    family = family_of is_ipv6;
    remainder = text_or_none path;
  }

  located-parsed :
      (srvtype : List ℕ) (is_ipv6 : Bool) (host : List ℕ) (port path : Option (List ℕ))
      → IsHost is_ipv6 host
      → Lacks b'/' (text_or_none port)
      → parse_located atoi srvtype
          (location_text is_ipv6 host port path)
          (bracketed (location_text is_ipv6 host port path))
        ≡ parsed srvtype is_ipv6 host port path
  unfolding parse_located
  located-parsed srvtype false host port path (slash, colon, bracket) digits =
      let text = Lacks-append b'/' host (port_text port) slash (Lacks-port port digits) in
      let (front, behind) = strchr-path (host ++ port_text port) path text in
      let (name, number) = strchr-port atoi host port colon in
      rw (bracketed-none host port path bracket, front, behind, name, number) refl
  located-parsed srvtype true host port path closed digits =
      let (front, behind) = strchr-path (port_text port) path (Lacks-port port digits) in
      let (name, number) = strchr-port atoi [] port tt in
      rw (bracketed-host host (port_text port ++ path_text path) closed, front, behind, number) refl

  -- SLPParseSrvUrl takes a URL without a NUL apart into the service type, the host, the port's number (0 if there
  -- is none), the family ("v6" for a host in brackets, and else "") and the path (empty if there is none) that it
  -- was put together from, if there is memory, no slash is in the service type or the port, and the host has no
  -- closing bracket if it stands in brackets, and otherwise no slash, colon or opening bracket.
  pub parse_srv_url-located :
      (xmalloc : ℕ → Bool) (structure : ℕ) (srvtype : List ℕ) (is_ipv6 : Bool) (host : List ℕ)
      (port path : Option (List ℕ))
      → ((n : ℕ) → xmalloc n ≡ true)
      → Lacks 0 (srvtype ++ (b':' ∷ b'/' ∷ b'/' ∷ location_text is_ipv6 host port path))
      → Lacks b'/' srvtype
      → IsHost is_ipv6 host
      → Lacks b'/' (text_or_none port)
      → parse_srv_url atoi xmalloc structure
          (srvtype ++ (b':' ∷ b'/' ∷ b'/' ∷ location_text is_ipv6 host port path))
        ≡ inr (parsed srvtype is_ipv6 host port path)
  unfolding parse_srv_url
  parse_srv_url-located xmalloc structure srvtype is_ipv6 host port path memory whole s h p =
      let location = location_text is_ipv6 host port path in
      let url = srvtype ++ (b':' ∷ b'/' ∷ b'/' ∷ location) in
      rw
        (
          memory (structure + 4 + length url + 1),
          up_to_nul-all url whole,
          strstr-found srvtype location s,
          located-parsed srvtype is_ipv6 host port path h p,
        )
        refl
