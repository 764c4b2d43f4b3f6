-- ===== src/Runtime/Reactor/Slots.antt =====
-- Buffer slots in the reactor of rust/runtime/src/reactor.rs: how often a slot index stands in the
-- pool's free list and in the live entries of the slab.
pub mod Entries
pub mod Conserved
pub mod Landing
pub mod Turns
use koru.Prelude.{ℕ, zero, suc, ◌+◌, Option, none, some, List, [], ◌∷◌, ◌==◌, if◌then◌else◌}
use koru.Sys.Pool.{BufPool}
use koru.Runtime.Slab.{Slab, Entry, free, live}
use koru.Runtime.Op.{Op}
use koru.Runtime.Reactor.{Inner}

-- How often the index `x` is the slot.
abbrev pub tally : ℕ → Option ℕ → ℕ
tally x none = 0
tally x (some y) = if x == y then 1 else 0

abbrev pub weight : ℕ → Entry (Op ℕ) → ℕ
weight x (free g) = 0
weight x (live g o) = tally x o.slot

abbrev pub held : ℕ → List (Entry (Op ℕ)) → ℕ
held x [] = 0
held x (e ∷ es) = weight x e + held x es

abbrev pub listed : ℕ → List ℕ → ℕ
listed x [] = 0
listed x (y ∷ ys) = tally x (some y) + listed x ys

-- How often the index `x` is free or held by a live entry.
abbrev pub copies : ℕ → Inner → ℕ
copies x s = listed x s.pool.free + held x s.slab.entries
