-- ===== src/Tests/Linked.antt =====
-- Runs of the linked list.
use openslp.Base.{◌≡◌, refl, [], ◌∷◌, arith}
use openslp.Wire.{store}
use openslp.Linked.{
  Store, bypass_next, bypass_previous, move_head, move_tail, decrement, increment, unlink,
  precede_head, follow_tail, become_head, become_tail, link_head, link_tail,
}
use openslp.Linked.Refines.{Holds, link_head-Holds, link_tail-Holds}
use openslp.Linked.Unlink.{unlink-Holds}

-- What the runs unfold.
lists : Unit {0}
unfolding bypass_next bypass_previous move_head move_tail decrement increment unlink precede_head
    follow_tail become_head become_tail link_head link_tail
lists = tt

-- An empty list, and the items 7, 5 and 9 in it.
abbrev no_items : Store
no_items = record { previous = λ p. 0; next = λ p. 0; head = 0; tail = 0; count = 0 }

no_items-Holds : Holds no_items []
no_items-Holds = record { links = tt; head = refl; tail = refl; distinct = tt; count = refl }

abbrev one_item : Store
one_item = record {
  previous = store (λ p. 0) 5 0;
  next = store (λ p. 0) 5 0;
  head = 5;
  tail = 5;
  count = 1;
}

one_item-Holds : Holds one_item (5 ∷ [])
one_item-Holds = record {
  links = (refl, refl, omega arith, tt);
  head = refl;
  tail = refl;
  distinct = (tt, tt);
  count = refl;
}

three_items-Holds : Holds (link_head 7 (link_tail 9 one_item)) (7 ∷ 5 ∷ 9 ∷ [])
three_items-Holds =
    link_head-Holds 7 (5 ∷ 9 ∷ []) (link_tail 9 one_item) (omega arith)
      (omega arith, (omega arith, tt))
      (link_tail-Holds 9 (5 ∷ []) one_item (omega arith) (omega arith, tt) one_item-Holds)

-- The list has its ends and its count, and the middle item is passed over after its removal.
list_run :
    ((link_head 7 (link_tail 9 one_item)).head ≡ 7)
    × ((link_head 7 (link_tail 9 one_item)).tail ≡ 9)
    × ((link_head 7 (link_tail 9 one_item)).count ≡ 3)
    × ((unlink 5 (link_head 7 (link_tail 9 one_item))).next 7 ≡ 9)
    × ((unlink 5 (link_head 7 (link_tail 9 one_item))).previous 9 ≡ 7)
unfolding lists
list_run = (refl, refl, refl, refl, refl)

link_tail-Holds_example : Holds (link_tail 9 one_item) (5 ∷ 9 ∷ [])
link_tail-Holds_example =
    link_tail-Holds 9 (5 ∷ []) one_item (omega arith) (omega arith, tt) one_item-Holds

unlink-Holds_example : Holds (unlink 5 (link_head 7 (link_tail 9 one_item))) (7 ∷ 9 ∷ [])
unlink-Holds_example =
    unlink-Holds 5 (7 ∷ []) (9 ∷ []) (link_head 7 (link_tail 9 one_item)) three_items-Holds
