-- ===== src/Linked/Links.antt =====
-- Segments of doubly linked items: how they split, join and take writes.
use openslp.Base.{ℕ, ◌≡◌, ◌≢◌, sym, ◌∙◌, List, [], ◌∷◌, ◌++◌, All, arith}
use openslp.Wire.{store}

pub store-same : (mem : ℕ → ℕ) (p v : ℕ) → store mem p v p ≡ v
store-same mem p v = ground arith

pub store-other : (mem : ℕ → ℕ) (p v i : ℕ) → i ≢ p → store mem p v i ≡ mem i
store-other mem p v i h = ground (arith, h)

-- The ends of a segment, or what stands behind and in front of an empty one.
abbrev pub first : List ℕ → ℕ → ℕ
first [] after = after
first (x ∷ l) after = x

abbrev pub last : ℕ → List ℕ → ℕ
last before [] = before
last before (x ∷ l) = last x l

-- The items of `l` in their order, linked both ways, between `before` and `after`.
abbrev pub Links : (previous next : ℕ → ℕ) (before : ℕ) → List ℕ → (after : ℕ) → Type 0
Links previous next before [] after = Unit {0}
Links previous next before (x ∷ l) after =
    (previous x ≡ before) × (next x ≡ first l after) × (x ≢ 0) × Links previous next x l after

-- An address that no item of the list has.
abbrev pub Fresh : ℕ → List ℕ → Type 0
Fresh p l = All (λ y. y ≢ p) l

abbrev pub Distinct : List ℕ → Type 0
Distinct [] = Unit {0}
Distinct (x ∷ l) = Fresh x l × Distinct l

-- No item of the one list is one of the other.
abbrev pub Apart : List ℕ → List ℕ → Type 0
Apart l1 l2 = All (λ x. Fresh x l2) l1

pub Fresh-last : (p x : ℕ) (l : List ℕ) → Fresh p (x ∷ l) → last x l ≢ p
Fresh-last p x [] (h, _) = h
Fresh-last p x (y ∷ l) (_, h) = Fresh-last p y l h

pub Fresh-append : (p : ℕ) (l1 l2 : List ℕ) → Fresh p (l1 ++ l2) → Fresh p l1 × Fresh p l2
Fresh-append p [] l2 h = (tt, h)
Fresh-append p (x ∷ l1) l2 (h, rest) = let (h1, h2) = Fresh-append p l1 l2 rest in ((h, h1), h2)

pub append-Fresh : (p : ℕ) (l1 l2 : List ℕ) → Fresh p l1 → Fresh p l2 → Fresh p (l1 ++ l2)
append-Fresh p [] l2 h1 h2 = h2
append-Fresh p (x ∷ l1) l2 (h, h1) h2 = (h, append-Fresh p l1 l2 h1 h2)

pub Distinct-append :
    (l1 l2 : List ℕ) → Distinct (l1 ++ l2) → Distinct l1 × Distinct l2 × Apart l1 l2
Distinct-append [] l2 h = (tt, h, tt)
Distinct-append (x ∷ l1) l2 (h, rest) =
    let (d1, d2, apart) = Distinct-append l1 l2 rest in
    let (h1, h2) = Fresh-append x l1 l2 h in ((h1, d1), d2, (h2, apart))

pub append-Distinct :
    (l1 l2 : List ℕ) → Distinct l1 → Distinct l2 → Apart l1 l2 → Distinct (l1 ++ l2)
append-Distinct [] l2 d1 d2 apart = d2
append-Distinct (x ∷ l1) l2 (h, d1) d2 (h2, apart) =
    (append-Fresh x l1 l2 h h2, append-Distinct l1 l2 d1 d2 apart)

-- Two lists apart, seen from an item of the one.
pub Apart-last : (x : ℕ) (l1 l2 : List ℕ) → Apart (x ∷ l1) l2 → Fresh (last x l1) l2
Apart-last x [] l2 (h, _) = h
Apart-last x (y ∷ l1) l2 (_, h) = Apart-last y l1 l2 h

pub Apart-first : (y : ℕ) (l1 l2 : List ℕ) → Apart l1 (y ∷ l2) → Fresh y l1
Apart-first y [] l2 h = tt
Apart-first y (x ∷ l1) l2 ((h, _), rest) = (λ e. h (sym e), Apart-first y l1 l2 rest)

pub Apart-rest : (y : ℕ) (l1 l2 : List ℕ) → Apart l1 (y ∷ l2) → Apart l1 l2
Apart-rest y [] l2 h = tt
Apart-rest y (x ∷ l1) l2 ((_, h), rest) = (h, Apart-rest y l1 l2 rest)

pub Fresh-Apart : (y : ℕ) (l : List ℕ) → Fresh y l → Apart l (y ∷ [])
Fresh-Apart y [] h = tt
Fresh-Apart y (x ∷ l) (h, rest) = ((λ e. h (sym e), tt), Fresh-Apart y l rest)

module _ (previous next : ℕ → ℕ) where
  -- Joining two segments.
  pub Links-join :
      (before after : ℕ) (l1 l2 : List ℕ)
      → Links previous next before l1 (first l2 after)
      → Links previous next (last before l1) l2 after
      → Links previous next before (l1 ++ l2) after
  Links-join before after [] l2 h1 h2 = h2
  Links-join before after (x ∷ []) l2 (p, n, z, rest) h2 =
      (p, n, z, Links-join x after [] l2 rest h2)
  Links-join before after (x ∷ y ∷ l1) l2 (p, n, z, rest) h2 =
      (p, n, z, Links-join x after (y ∷ l1) l2 rest h2)

  -- Splitting a segment.
  pub Links-split :
      (before after : ℕ) (l1 l2 : List ℕ)
      → Links previous next before (l1 ++ l2) after
      → Links previous next before l1 (first l2 after)
        × Links previous next (last before l1) l2 after
  Links-split before after [] l2 h = (tt, h)
  Links-split before after (x ∷ []) l2 (p, n, z, rest) =
      let (h1, h2) = Links-split x after [] l2 rest in ((p, n, z, h1), h2)
  Links-split before after (x ∷ y ∷ l1) l2 (p, n, z, rest) =
      let (h1, h2) = Links-split x after (y ∷ l1) l2 rest in ((p, n, z, h1), h2)

  -- Writes to an item outside the segment.
  pub Links-previous :
      (p v before after : ℕ) (l : List ℕ)
      → Fresh p l
      → Links previous next before l after
      → Links (store previous p v) next before l after
  Links-previous p v before after [] fresh h = tt
  Links-previous p v before after (x ∷ l) (f, fresh) (h, n, z, rest) =
      (store-other previous p v x f ∙ h, n, z, Links-previous p v x after l fresh rest)

  pub Links-next :
      (p v before after : ℕ) (l : List ℕ)
      → Fresh p l
      → Links previous next before l after
      → Links previous (store next p v) before l after
  Links-next p v before after [] fresh h = tt
  Links-next p v before after (x ∷ l) (f, fresh) (h, n, z, rest) =
      (h, store-other next p v x f ∙ n, z, Links-next p v x after l fresh rest)

  -- A write to the first item's `previous` moves the segment behind another item.
  pub Links-behind :
      (before before2 after : ℕ) (l : List ℕ)
      → Distinct l
      → Links previous next before l after
      → Links (store previous (first l after) before2) next before2 l after
  Links-behind before before2 after [] d h = tt
  Links-behind before before2 after (x ∷ l) (f, d) (h, n, z, rest) =
      (store-same previous x before2, n, z, Links-previous x before2 x after l f rest)

  -- A write to the last item's `next` moves a segment that is not empty in front of another item.
  pub Links-ahead :
      (before after after2 x : ℕ) (l : List ℕ)
      → Distinct (x ∷ l)
      → Links previous next before (x ∷ l) after
      → Links previous (store next (last x l) after2) before (x ∷ l) after2
  Links-ahead before after after2 x [] d (h, n, z, rest) = (h, store-same next x after2, z, tt)
  Links-ahead before after after2 x (y ∷ l) (f, d) (h, n, z, rest) = (
    h,
    store-other next (last y l) after2 x (λ e. Fresh-last x y l f (sym e)) ∙ n,
    z,
    Links-ahead x after after2 y l d rest,
  )

  -- The last item of a segment is not null.
  pub live_last :
      (before x after : ℕ) (l : List ℕ) → Links previous next before (x ∷ l) after → last x l ≢ 0
  live_last before x after [] (p, n, z, rest) = z
  live_last before x after (y ∷ l) (p, n, z, rest) = live_last x y after l rest
