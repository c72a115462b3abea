-- ===== src/Tests/MessageDatabase.antt =====
-- Enumerations at a concrete list.
use openslp.Base.{ℕ, suc, ◌==◌, refl, Bool, List, [], ◌∷◌, length, Returns, arith}
use openslp.Wire.{store}
use openslp.Linked.{Store}
use openslp.Linked.Refines.{Holds}
use openslp.MessageDatabase.{database_open, database_deinit, sweep}
use openslp.MessageDatabase.Sweep.{kept_of, sweep-Visits, Destroyed, database_deinit-Destroyed}

-- The items 7, 5 and 9, in this order.
abbrev three_items : Store
three_items = record {
  previous = store (store (λ p. 0) 5 7) 9 5;
  next = store (store (λ p. 0) 7 5) 5 9;
  head = 7;
  tail = 9;
  count = 3;
}

abbrev items : List ℕ
items = 7 ∷ 5 ∷ 9 ∷ []

three_items-Holds : Holds three_items items
three_items-Holds = record {
  links = (refl, refl, omega arith, (refl, refl, omega arith, (refl, refl, omega arith, tt)));
  head = refl;
  tail = refl;
  distinct = omega arith;
  count = refl;
}

-- The item 5 ends.
abbrev is_five : ℕ → Bool
is_five x = x == 5

sweep-Visits_example :
    Returns
      (λ dh. Holds dh.database (kept_of is_five items))
      (sweep (suc (length items)) is_five (database_open three_items))
sweep-Visits_example = sweep-Visits is_five three_items items three_items-Holds

database_deinit-Destroyed_example : Returns (Destroyed items) (database_deinit 4 three_items)
database_deinit-Destroyed_example =
    database_deinit-Destroyed items 4 three_items three_items-Holds (omega arith) (omega arith)
