-- ===== src/Runtime/Args.antt =====
-- `Args` of rust/runtime/src/args.rs: the argument vector, shared, with where it starts. `none` is
-- a panic. A `usize` has 64 bits.
use koru.Prelude.{
  ℕ, ◌+◌, ◌-◌, Bool, Option, some, List, [], length, get_elem?, drop, min, ◌==◌, if◌then◌else◌,
}
use koru.Prelude.Partial.{minus, ◌>>=◌}
use koru.Prelude.Words.{u64_mod}

pub record Args : Type 0 where
  pub v : List (List ℕ)
  pub start : ℕ

unfoldable pub new : List (List ℕ) → Args
new v = record { v = v; start = 0 }

unfoldable pub size : Args → Option ℕ
size me = minus (length me.v) me.start

unfoldable pub is_empty : Args → Option Bool
unfolding size
is_empty me = size me >>= λ n. some (n == 0)

unfoldable pub index : Args → ℕ → Option (List ℕ)
index me i = get_elem? me.v (me.start + i)

unfoldable pub name : Args → Option (List ℕ)
unfolding is_empty index
name me = is_empty me >>= λ nothing. if nothing then some [] else index me 0

-- `saturating_add`, then `min`
unfoldable pub skip : Args → ℕ → Args
skip me n = record me { start = min (min (me.start + n) (u64_mod - 1)) (length me.v) }

unfoldable pub tail : Args → Args
unfolding skip
tail me = skip me 1

unfoldable pub iter : Args → List (List ℕ)
iter me = drop me.start me.v
