-- ===== src/Linked.antt =====
-- The doubly linked list of common/slp_linkedlist.c, as steps on a store. An address is a number, and 0 is
-- the null pointer.
pub mod Links
pub mod Steps
pub mod Refines
pub mod Unlink
use openslp.Base.{ℕ, ◌+◌, ◌-◌, ◌%◌, ◌^◌, ◌==◌, if◌then◌else◌}
use openslp.Wire.{store}

-- The fields of all SLPListItem, and one SLPList. `count` is an int, as a word of 32 bits.
pub record Store : Type 0 where
  pub previous : ℕ → ℕ
  pub next : ℕ → ℕ
  pub head : ℕ
  pub tail : ℕ
  pub count : ℕ

-- `if (item->previous) item->previous->next = item->next;`
unfoldable pub bypass_next : (item : ℕ) → Store → Store
bypass_next item s =
    if s.previous item == 0
    then s
    else record s { next = store s.next (s.previous item) (s.next item) }

-- `if (item->next) item->next->previous = item->previous;`
unfoldable pub bypass_previous : (item : ℕ) → Store → Store
bypass_previous item s =
    if s.next item == 0
    then s
    else record s { previous = store s.previous (s.next item) (s.previous item) }

-- `if (item == list->head) list->head = item->next;`
unfoldable pub move_head : (item : ℕ) → Store → Store
move_head item s = if item == s.head then record s { head = s.next item } else s

-- `if (item == list->tail) list->tail = item->previous;`
unfoldable pub move_tail : (item : ℕ) → Store → Store
move_tail item s = if item == s.tail then record s { tail = s.previous item } else s

-- `list->count = list->count - 1;` and `+ 1`
unfoldable pub decrement : Store → Store
decrement s = record s { count = (s.count + 2 ^ 32 - 1) % 2 ^ 32 }

unfoldable pub increment : Store → Store
increment s = record s { count = (s.count + 1) % 2 ^ 32 }

-- SLPListUnlink.
unfoldable pub unlink : (item : ℕ) → Store → Store
unlink item s =
    decrement (move_tail item (move_head item (bypass_previous item (bypass_next item s))))

-- `if (list->head) list->head->previous = item;`
unfoldable pub precede_head : (item : ℕ) → Store → Store
precede_head item s =
    if s.head == 0 then s else record s { previous = store s.previous s.head item }

-- `if (list->tail) list->tail->next = item;`
unfoldable pub follow_tail : (item : ℕ) → Store → Store
follow_tail item s = if s.tail == 0 then s else record s { next = store s.next s.tail item }

-- `list->head = item; if (list->tail == 0) list->tail = item;`
unfoldable pub become_head : (item : ℕ) → Store → Store
become_head item s = record s { head = item; tail = if s.tail == 0 then item else s.tail }

-- `list->tail = item; if (list->head == 0) list->head = item;`
unfoldable pub become_tail : (item : ℕ) → Store → Store
become_tail item s = record s { tail = item; head = if s.head == 0 then item else s.head }

-- SLPListLinkHead.
unfoldable pub link_head : (item : ℕ) → Store → Store
link_head item s =
    let s1 = record s { previous = store s.previous item 0; next = store s.next item s.head } in
    increment (become_head item (precede_head item s1))

-- SLPListLinkTail.
unfoldable pub link_tail : (item : ℕ) → Store → Store
link_tail item s =
    let s1 = record s { previous = store s.previous item s.tail; next = store s.next item 0 } in
    increment (become_tail item (follow_tail item s1))
