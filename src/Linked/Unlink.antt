-- ===== src/Linked/Unlink.antt =====
-- SLPListUnlink against a list of items.
use openslp.Base.{ℕ, ◌≡◌, ◌≢◌, refl, sym, ap, ◌∙◌, List, [], ◌∷◌, ◌++◌, length-append, arith}
use openslp.Wire.{store}
use openslp.Linked.{Store, decrement, unlink}
use openslp.Linked.Links.{
  store-other, first, last, Links, Distinct, Distinct-append, append-Distinct, Links-join,
  Links-split, Links-previous, Links-next, Links-behind, Links-ahead, Fresh-last, Apart-last,
  Apart-first, Apart-rest, live_last,
}
use openslp.Linked.Steps.{
  bypass_next-none, bypass_next-some, bypass_previous-none, bypass_previous-some, move_head-same,
  move_head-other, move_tail-same, move_tail-other,
}
use openslp.Linked.Refines.{Holds}

first-append : (l1 l2 : List ℕ) (after : ℕ) → first (l1 ++ l2) after ≡ first l1 (first l2 after)
first-append [] l2 after = refl
first-append (x ∷ l1) l2 after = refl

last-append : (before : ℕ) (l1 l2 : List ℕ) → last before (l1 ++ l2) ≡ last (last before l1) l2
last-append before [] l2 = refl
last-append before (x ∷ l1) l2 = last-append x l1 l2

-- The links on both sides of an item in the middle, joined.
bridge :
    (previous next : ℕ → ℕ) (item x y : ℕ) (l1 l2 : List ℕ)
    → Distinct ((x ∷ l1) ++ (item ∷ y ∷ l2))
    → Links previous next 0 ((x ∷ l1) ++ (item ∷ y ∷ l2)) 0
    → Links (store previous y (last x l1)) (store next (last x l1) y) 0 ((x ∷ l1) ++ (y ∷ l2)) 0
bridge previous next item x y l1 l2 d h =
    let (d1, (f2, d2), apart) = Distinct-append (x ∷ l1) (item ∷ y ∷ l2) d in
    let (h1, (p, n, z, h2)) = Links-split previous next 0 0 (x ∷ l1) (item ∷ y ∷ l2) h in
    let apart2 = Apart-rest item (x ∷ l1) (y ∷ l2) apart in
    Links-join (store previous y (last x l1)) (store next (last x l1) y) 0 0 (x ∷ l1) (y ∷ l2)
      (Links-previous previous (store next (last x l1) y) y (last x l1) 0 y (x ∷ l1)
        (Apart-first y (x ∷ l1) l2 apart2) (Links-ahead previous next 0 item y x l1 d1 h1))
      (Links-behind previous (store next (last x l1) y) item (last x l1) 0 (y ∷ l2) d2 (
        Links-next previous next (last x l1) y item 0 (y ∷ l2) (Apart-last x l1 (y ∷ l2) apart2)
          h2))

-- An item between two others.
unlink_middle :
    (item x y : ℕ) (l1 l2 : List ℕ) (s : Store)
    → Holds s ((x ∷ l1) ++ (item ∷ y ∷ l2))
    → Holds (unlink item s) ((x ∷ l1) ++ (y ∷ l2))
unfolding unlink decrement
unlink_middle item x y l1 l2 s h =
    let (d1, (f2, d2), apart) = Distinct-append (x ∷ l1) (item ∷ y ∷ l2) h.distinct in
    let (h1, (p, n, z, h2)) = Links-split s.previous s.next 0 0 (x ∷ l1) (item ∷ y ∷ l2) h.links in
    let before = last x l1 in
    let live = live_last s.previous s.next 0 x item l1 h1 in
    let apart2 = Apart-rest item (x ∷ l1) (y ∷ l2) apart in
    let s1 : Store = record s { next = store s.next before y } in
    let s2 : Store = record s1 { previous = store s.previous y before } in
    let kept = store-other s.next before y item (Apart-last x l1 (item ∷ y ∷ l2) apart).0 ∙ n in
    let ends = h.tail ∙ last-append x l1 (item ∷ y ∷ l2) in
    let stays : s2.tail ≢ item = λ e. Fresh-last item y l2 f2 (sym ends ∙ e) in
    rw
      (
        bypass_next-some item s before y p live n,
        bypass_previous-some item s1 before y kept h2.2 p,
        move_head-other item s2
            (λ e. (Apart-first item (x ∷ l1) (y ∷ l2) apart).0 (sym h.head ∙ e)),
        move_tail-other item s2 stays,
      )
      (record {
        links = bridge s.previous s.next item x y l1 l2 h.distinct h.links;
        head = h.head;
        tail = ends ∙ sym (last-append x l1 (y ∷ l2));
        distinct = append-Distinct (x ∷ l1) (y ∷ l2) d1 d2 apart2;
        count = omega (arith, h.count, length-append l1 (item ∷ y ∷ l2), length-append l1 (y ∷ l2));
      })

-- The first item, in front of another.
unlink_front :
    (item y : ℕ) (l2 : List ℕ) (s : Store)
    → Holds s (item ∷ y ∷ l2)
    → Holds (unlink item s) (y ∷ l2)
unfolding unlink decrement
unlink_front item y l2 s h =
    let (f2, d2) = h.distinct in
    let (p, n, z, h2) = h.links in
    let s1 : Store = record s { previous = store s.previous y 0 } in
    let stays : s.tail ≢ item = λ e. Fresh-last item y l2 f2 (sym h.tail ∙ e) in
    rw
      (
        bypass_next-none item s p,
        bypass_previous-some item s 0 y n h2.2 p,
        move_head-same item s1 h.head,
        move_tail-other item (record s1 { head = s.next item }) stays,
      )
      (record {
        links = Links-behind s.previous s.next item 0 0 (y ∷ l2) d2 h2;
        head = n;
        tail = h.tail;
        distinct = d2;
        count = omega (arith, h.count);
      })

-- The last item, behind another.
unlink_back :
    (item x : ℕ) (l1 : List ℕ) (s : Store)
    → Holds s ((x ∷ l1) ++ (item ∷ []))
    → Holds (unlink item s) (x ∷ l1)
unfolding unlink decrement
unlink_back item x l1 s h =
    let (d1, d2, apart) = Distinct-append (x ∷ l1) (item ∷ []) h.distinct in
    let (h1, (p, n, z, h2)) = Links-split s.previous s.next 0 0 (x ∷ l1) (item ∷ []) h.links in
    let before = last x l1 in
    let live = live_last s.previous s.next 0 x item l1 h1 in
    let s1 : Store = record s { next = store s.next before 0 } in
    let kept = store-other s.next before 0 item (Apart-last x l1 (item ∷ []) apart).0 ∙ n in
    rw
      (
        bypass_next-some item s before 0 p live n,
        bypass_previous-none item s1 kept,
        move_head-other item s1 (λ e. (Apart-first item (x ∷ l1) [] apart).0 (sym h.head ∙ e)),
        move_tail-same item s1 (h.tail ∙ last-append x l1 (item ∷ [])),
      )
      (record {
        links = Links-ahead s.previous s.next 0 item 0 x l1 d1 h1;
        head = h.head;
        tail = p;
        distinct = d1;
        count = omega (arith, h.count, length-append l1 (item ∷ []));
      })

-- The only item.
unlink_only : (item : ℕ) (s : Store) → Holds s (item ∷ []) → Holds (unlink item s) []
unfolding unlink decrement
unlink_only item s h =
    let (p, n, z, h2) = h.links in
    rw
      (
        bypass_next-none item s p,
        bypass_previous-none item s n,
        move_head-same item s h.head,
        move_tail-same item (record s { head = s.next item }) h.tail,
      )
      (record { links = tt; head = n; tail = p; distinct = tt; count = omega (arith, h.count) })

append-nil : (l : List ℕ) → l ++ [] ≡ l
append-nil [] = refl
append-nil (x ∷ l) = ap (◌∷◌ x) (append-nil l)

-- SLPListUnlink takes an item out of the list that holds it, wherever it stands, and leaves the others in
-- their order.
pub unlink-Holds :
    (item : ℕ) (l1 l2 : List ℕ) (s : Store)
    → Holds s (l1 ++ (item ∷ l2))
    → Holds (unlink item s) (l1 ++ l2)
unlink-Holds item [] [] s h = unlink_only item s h
unlink-Holds item [] (y ∷ l2) s h = unlink_front item y l2 s h
unlink-Holds item (x ∷ l1) [] s h = rw (append-nil l1) (unlink_back item x l1 s h)
unlink-Holds item (x ∷ l1) (y ∷ l2) s h = unlink_middle item x y l1 l2 s h
