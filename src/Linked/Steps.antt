-- ===== src/Linked/Steps.antt =====
-- The statements of SLPListUnlink, each on the branch that it takes.
use openslp.Base.{ℕ, ◌≡◌, ◌≢◌, refl, sym, true, false, ◌==◌, arith}
use openslp.Wire.{store}
use openslp.Linked.{Store, bypass_next, bypass_previous, move_head, move_tail}

pub is_same : (p q : ℕ) → p ≡ q → (p == q) ≡ true
is_same p q h = ground (arith, h)

pub is_other : (p q : ℕ) → p ≢ q → (p == q) ≡ false
is_other p q h = ground (arith, h)

module _ (item : ℕ) (s : Store) where
  pub bypass_next-none : s.previous item ≡ 0 → bypass_next item s ≡ s
  unfolding bypass_next
  bypass_next-none e = rw e refl

  pub bypass_next-some :
      (p n : ℕ)
      → s.previous item ≡ p
      → p ≢ 0
      → s.next item ≡ n
      → bypass_next item s ≡ record s { next = store s.next p n }
  unfolding bypass_next
  bypass_next-some p n e live f = rw (e, is_other p 0 live, f) refl

  pub bypass_previous-none : s.next item ≡ 0 → bypass_previous item s ≡ s
  unfolding bypass_previous
  bypass_previous-none e = rw e refl

  pub bypass_previous-some :
      (p n : ℕ)
      → s.next item ≡ n
      → n ≢ 0
      → s.previous item ≡ p
      → bypass_previous item s ≡ record s { previous = store s.previous n p }
  unfolding bypass_previous
  bypass_previous-some p n e live f = rw (e, is_other n 0 live, f) refl

  pub move_head-same : s.head ≡ item → move_head item s ≡ record s { head = s.next item }
  unfolding move_head
  move_head-same e = rw (is_same item s.head (sym e)) refl

  pub move_head-other : s.head ≢ item → move_head item s ≡ s
  unfolding move_head
  move_head-other h = rw (is_other item s.head (λ e. h (sym e))) refl

  pub move_tail-same : s.tail ≡ item → move_tail item s ≡ record s { tail = s.previous item }
  unfolding move_tail
  move_tail-same e = rw (is_same item s.tail (sym e)) refl

  pub move_tail-other : s.tail ≢ item → move_tail item s ≡ s
  unfolding move_tail
  move_tail-other h = rw (is_other item s.tail (λ e. h (sym e))) refl
