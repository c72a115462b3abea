-- ===== src/Linked/Refines.antt =====
-- The operations of the linked list against a list of items.
use openslp.Base.{
  ℕ, ◌%◌, ◌^◌, ◌≡◌, ◌≢◌, refl, sym, ◌∙◌, List, [], ◌∷◌, ◌++◌, length, length-append, arith,
}
use openslp.Wire.{store}
use openslp.Linked.{
  Store, increment, precede_head, follow_tail, become_head, become_tail, link_head, link_tail,
}
use openslp.Linked.Steps.{is_other}
use openslp.Linked.Links.{
  store-same, store-other, first, last, Links, Fresh, Distinct, append-Distinct, Links-join,
  Links-previous, Links-next, Links-behind, Links-ahead, Fresh-last, Fresh-Apart, live_last,
}

-- The store holds the list of the items `l`, in that order.
pub record Holds (s : Store) (l : List ℕ) : Type 0 where
  pub links : Links s.previous s.next 0 l 0
  pub head : s.head ≡ first l 0
  pub tail : s.tail ≡ last 0 l
  pub distinct : Distinct l
  pub count : s.count ≡ length l % 2 ^ 32

-- SLPListLinkHead puts an item that the list does not have in front.
pub link_head-Holds :
    (item : ℕ) (l : List ℕ) (s : Store)
    → item ≢ 0
    → Fresh item l
    → Holds s l
    → Holds (link_head item s) (item ∷ l)
unfolding link_head precede_head become_head increment
link_head-Holds item [] s live fresh h =
    rw (h.head, h.tail)
      (record {
        links = (store-same s.previous item 0, store-same s.next item 0, live, tt);
        head = refl;
        tail = refl;
        distinct = (tt, tt);
        count = omega (arith, h.count);
      })
link_head-Holds item (x ∷ l) s live fresh h =
    rw
      (
        h.head,
        h.tail,
        is_other x 0 h.links.2,
        is_other (last x l) 0 (live_last s.previous s.next 0 x 0 l h.links),
      )
      (record {
        links = in_front;
        head = refl;
        tail = refl;
        distinct = (fresh, h.distinct);
        count = omega (arith, h.count);
      })
  where
    previous0 : ℕ → ℕ
    previous0 = store s.previous item 0

    next0 : ℕ → ℕ
    next0 = store s.next item x

    framed : Links previous0 next0 0 (x ∷ l) 0
    framed =
        Links-next previous0 s.next item x 0 0 (x ∷ l) fresh
          (Links-previous s.previous s.next item 0 0 0 (x ∷ l) fresh h.links)

    in_front : Links (store previous0 x item) next0 0 (item ∷ x ∷ l) 0
    in_front = (
      store-other previous0 x item item (λ e. fresh.0 (sym e)) ∙ store-same s.previous item 0,
      store-same s.next item x,
      live,
      Links-behind previous0 next0 0 item 0 (x ∷ l) h.distinct framed,
    )

pub last-append : (before item : ℕ) (l : List ℕ) → last before (l ++ (item ∷ [])) ≡ item
last-append before item [] = refl
last-append before item (x ∷ l) = last-append x item l

-- SLPListLinkTail puts an item that the list does not have behind the others.
pub link_tail-Holds :
    (item : ℕ) (l : List ℕ) (s : Store)
    → item ≢ 0
    → Fresh item l
    → Holds s l
    → Holds (link_tail item s) (l ++ (item ∷ []))
unfolding link_tail follow_tail become_tail increment
link_tail-Holds item [] s live fresh h =
    rw (h.head, h.tail)
      (record {
        links = (store-same s.previous item 0, store-same s.next item 0, live, tt);
        head = refl;
        tail = refl;
        distinct = (tt, tt);
        count = omega (arith, h.count);
      })
link_tail-Holds item (x ∷ l) s live fresh h =
    rw
      (
        h.head,
        h.tail,
        is_other (last x l) 0 (live_last s.previous s.next 0 x 0 l h.links),
        is_other x 0 h.links.2,
      )
      (record {
        links = Links-join previous0 next1 0 0 (x ∷ l) (item ∷ []) ahead behind;
        head = refl;
        tail = sym (last-append x item l);
        distinct =
            append-Distinct (x ∷ l) (item ∷ []) h.distinct (tt, tt)
              (Fresh-Apart item (x ∷ l) fresh);
        count = omega (arith, h.count, length-append l (item ∷ []));
      })
  where
    previous0 : ℕ → ℕ
    previous0 = store s.previous item (last x l)

    next0 : ℕ → ℕ
    next0 = store s.next item 0

    next1 : ℕ → ℕ
    next1 = store next0 (last x l) item

    framed : Links previous0 next0 0 (x ∷ l) 0
    framed =
        Links-next previous0 s.next item 0 0 0 (x ∷ l) fresh
          (Links-previous s.previous s.next item (last x l) 0 0 (x ∷ l) fresh h.links)

    ahead : Links previous0 next1 0 (x ∷ l) item
    ahead = Links-ahead previous0 next0 0 0 item x l h.distinct framed

    behind : Links previous0 next1 (last x l) (item ∷ []) 0
    behind = (
      store-same s.previous item (last x l),
      store-other next0 (last x l) item item (λ e. Fresh-last item x l fresh (sym e))
          ∙ store-same s.next item 0,
      live,
      tt,
    )
