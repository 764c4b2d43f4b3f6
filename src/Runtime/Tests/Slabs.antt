-- ===== src/Runtime/Tests/Slabs.antt =====
-- Concrete inputs for the theorems on the slab.
use koru.Prelude.{ℕ, ◌+◌, ◌<◌, ◌≡◌, refl, none, some, List, [], ◌∷◌, arith, ◌==◌, if◌then◌else◌}
use koru.Prelude.Words.{u64_mod}
use koru.Runtime.Cookie.{Cookie, index, generation, bump}
use koru.Runtime.Slab.{Slab, free, live, get, insert, remove, retire, take_all, len}
use koru.Runtime.Slab.Invariant.{IsValid}
use koru.Runtime.Slab.Laws.{insert_lem}
use koru.Runtime.Slab.TakeAll.{values, take_all_lem}
use koru.Runtime.Slab.History.{Call, inserts, run}
use koru.Runtime.Slab.Retired.{remove-stays_none}

-- A free entry under generation 4, and one that holds 70 under generation 2.
abbrev slab : Slab ℕ
slab = record { entries = free 4 ∷ live 2 70 ∷ []; free_list = 0 ∷ []; live_count = 1 }

slab-IsValid : IsValid slab
slab-IsValid = record {
  generations = ((omega arith, omega arith), ((omega arith, omega arith), tt));
  frees = ((4, refl), tt);
  distinct = (tt, tt);
  counted = refl;
  addressable = omega arith;
}

-- Index 1 under generation 2.
abbrev pub held : Cookie
held = 0x2_0000_0001

slab-get : get slab held ≡ some 70
unfolding get index generation
slab-get = refl

insert_lem_example :
    (c : Cookie) × (t : Slab ℕ) × (insert slab 71 ≡ some (c, t))
    × IsValid t
    × (c < u64_mod)
    × (get slab c ≡ none)
    × (get t c ≡ some 71)
    × (get t held ≡ (if held == c then some 71 else get slab held))
    × (len t ≡ len slab + 1)
insert_lem_example = insert_lem slab 71 held slab-IsValid (λ e. absurd (cc e)) (omega arith)

take_all_lem_example :
    ((take_all slab).0 ≡ values slab.entries)
    × IsValid (take_all slab).1
    × (len (take_all slab).1 ≡ 0)
    × (get (take_all slab).1 held ≡ none)
take_all_lem_example = take_all_lem slab held slab-IsValid

-- The index of the removed entry is used again, under the next generation.
abbrev later : List (Call ℕ)
later = inserts 71 ∷ []

abbrev reused : Slab ℕ
reused = record { entries = free 4 ∷ live 3 71 ∷ []; free_list = 0 ∷ []; live_count = 1 }

slab-run : run (remove slab held).1 later ≡ some reused
unfolding run remove insert retire index generation bump
slab-run = refl

remove-stays_none_example : get reused held ≡ none
remove-stays_none_example =
    remove-stays_none slab reused held 70 later slab-IsValid slab-get slab-run (omega arith)
      (omega arith)
