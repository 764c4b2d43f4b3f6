-- ===== src/Runtime/Cookie.antt =====
-- `Cookie` of rust/runtime/src/slab.rs: a `user_data` value, index low and generation high.
use koru.Prelude.{ℕ, ◌+◌, ◌*◌, ◌/◌, ◌%◌, ◌<◌, ◌^◌, ◌≡◌, arith, ◌==◌, if◌then◌else◌}
use koru.Prelude.Words.{u32_mod, u64_mod, bit_or_fields}
use Prim.Native.Nat.{bit_or}

-- The u64 that the tuple struct holds.
abbrev pub Cookie : Type 0
Cookie = ℕ

unfoldable pub new : ℕ → ℕ → Cookie
new index generation = bit_or index (generation * 2 ^ 32)

-- `self.0 as u32`
unfoldable pub index : Cookie → ℕ
index c = c % u32_mod

-- `(self.0 >> 32) as u32`
unfoldable pub generation : Cookie → ℕ
generation c = c / 2 ^ 32 % u32_mod

-- `g.wrapping_add(1)`, and 1 where that is 0.
unfoldable pub bump : ℕ → ℕ
bump g = let n = (g + 1) % u32_mod in if n == 0 then 1 else n

-- The two fields of a u32 each do not meet.
pub new-eq-add : (i g : ℕ) → i < u32_mod → new i g ≡ i + g * u32_mod
unfolding new
new-eq-add i g h = bit_or_fields 32 i g h

pub index-new : (i g : ℕ) → i < u32_mod → index (new i g) ≡ i
unfolding index
index-new i g h = omega (arith, new-eq-add i g h)

pub generation-new : (i g : ℕ) → i < u32_mod → g < u32_mod → generation (new i g) ≡ g
unfolding generation
generation-new i g h k = omega (arith, new-eq-add i g h)

-- A u64 is the cookie of its two halves.
pub new_halves : (c : Cookie) → c < u64_mod → new (index c) (generation c) ≡ c
unfolding index generation
new_halves c h = omega (arith, new-eq-add (c % u32_mod) (c / 2 ^ 32 % u32_mod) (omega arith))

pub new-lt : (i g : ℕ) → i < u32_mod → g < u32_mod → new i g < u64_mod
new-lt i g h k = omega (arith, new-eq-add i g h)

pub index-lt : (c : Cookie) → index c < u32_mod
unfolding index
index-lt c = omega arith

-- A u64 is told by its two halves.
pub eq_of_halves :
    (c d : Cookie)
    → c < u64_mod
    → d < u64_mod
    → index c ≡ index d
    → generation c ≡ generation d
    → c ≡ d
unfolding index generation
eq_of_halves c d h k i g = omega arith
