-- ===== src/Sys/Pool.antt =====
-- rust/sys/src/pool.rs: the advisory free list over the arena's slots, the top of the stack first.
use koru.Prelude.{ℕ, zero, suc, Option, none, some, List, [], ◌∷◌, length}

pub record BufPool : Type 0 where
  pub slot_size : ℕ
  pub slot_count : ℕ
  pub free : List ℕ

-- `(0..n).rev().collect()`: slot 0 is popped first.
unfoldable pub slots_from : ℕ → ℕ → List ℕ
slots_from first zero = []
slots_from first (suc n) = first ∷ slots_from (suc first) n

unfoldable pub new : ℕ → ℕ → BufPool
unfolding slots_from
new slot_size slot_count = record {
  slot_size = slot_size;
  slot_count = slot_count;
  free = slots_from 0 slot_count;
}

unfoldable pub popped : BufPool → List ℕ → Option ℕ × BufPool
popped p [] = (none, p)
popped p (index ∷ rest) = (some index, record p { free = rest })

unfoldable pub acquire : BufPool → Option ℕ × BufPool
unfolding popped
acquire p = popped p p.free

pub free_count : BufPool → ℕ
free_count p = length p.free

-- The drop of a `BufSlot`.
unfoldable pub drop_slot : BufPool → ℕ → BufPool
drop_slot p index = record p { free = index ∷ p.free }
