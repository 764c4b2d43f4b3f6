-- ===== src/Runtime/Slab.antt =====
-- rust/runtime/src/slab.rs: the op slab and its generational key. A vector used as a stack has its
-- last element at the head of the list. What panics in the source is `none` here: indexing past the
-- end, and the two `unreachable!` arms.
pub mod Invariant
pub mod Places
pub mod Insert
pub mod Remove
pub mod Update
pub mod TakeAll
pub mod Ages
pub mod TakeAges
pub mod History
pub mod Retired
pub mod Laws
use koru.Prelude.{
  ℕ, zero, suc, ◌+◌, ◌-◌, ◌%◌, ◌≡◌, Bool, true, false, Option, none, some, List, [], ◌∷◌, ◌++◌,
  length, get_elem?, set, ◌==◌, if◌then◌else◌,
}
use koru.Prelude.Words.{u32_mod}
use koru.Runtime.Cookie
use koru.Runtime.Cookie.{Cookie, bump}

pub data Entry {ℓ} (A : Type ℓ) : Type ℓ where
  free : ℕ → Entry A
  live : ℕ → A → Entry A

pub record Slab {ℓ} (A : Type ℓ) : Type ℓ where
  pub entries : List (Entry A)
  pub free_list : List ℕ
  pub live_count : ℕ

module _ {ℓ} {A : Type ℓ} where
  unfoldable pub new : Slab A
  new = record { entries = []; free_list = []; live_count = 0 }

  unfoldable pub len : Slab A → ℕ
  len s = s.live_count

  -- A recycled index, under the generation that its free entry holds.
  recycle : Slab A → A → ℕ → List ℕ → Option (Entry A) → Option (Cookie × Slab A)
  recycle s value i rest (some (free g)) = some (
    Cookie.new i g,
    record {
      entries = set s.entries i (live g value);
      free_list = rest;
      live_count = s.live_count + 1;
    },
  )
  recycle s value i rest _ = none

  -- A new index at the end; generations start at 1.
  unfoldable pub grow : Slab A → A → Cookie × Slab A
  grow s value = (
    Cookie.new (length s.entries % u32_mod) 1,
    record s { entries = s.entries ++ live 1 value ∷ []; live_count = s.live_count + 1 },
  )

  unfoldable pub insert : Slab A → A → Option (Cookie × Slab A)
  unfolding recycle grow
  insert s value = elim s.free_list [
    | [] ↦ some (grow s value)
    | i ∷ rest ↦ recycle s value i rest (get_elem? s.entries i)
  ]

  matches : Option (Entry A) → ℕ → Option A
  matches (some (live h value)) g = if h == g then some value else none
  matches _ g = none

  unfoldable pub get : Slab A → Cookie → Option A
  unfolding matches
  get s c = matches (get_elem? s.entries (Cookie.index c)) (Cookie.generation c)

  is_match : Option (Entry A) → ℕ → Bool
  is_match (some (live h value)) g = h == g
  is_match _ g = false

  live_at : Slab A → Cookie → Bool
  unfolding is_match
  live_at s c = is_match (get_elem? s.entries (Cookie.index c)) (Cookie.generation c)

  written : Option (Entry A) → ℕ → (A → A) → ℕ → List (Entry A) → List (Entry A)
  written (some (live h value)) g f i es = if h == g then set es i (live h (f value)) else es
  written _ g f i es = es

  -- What is written through the reference that `get_mut` returns; nothing where it returns none.
  unfoldable pub get_mut : Slab A → Cookie → (A → A) → Slab A
  unfolding written
  get_mut s c f = record s {
    entries =
        written (get_elem? s.entries (Cookie.index c)) (Cookie.generation c) f (Cookie.index c)
          s.entries;
  }

  unfoldable pub retire : Slab A → Cookie → Slab A
  retire s c = record {
    entries = set s.entries (Cookie.index c) (free (bump (Cookie.generation c)));
    free_list = Cookie.index c ∷ s.free_list;
    live_count = s.live_count - 1;
  }

  payload : Option (Entry A) → Option A
  payload (some (live g value)) = some value
  payload _ = none

  unfoldable pub remove : Slab A → Cookie → Option A × Slab A
  unfolding live_at retire payload
  remove s c =
      if live_at s c
      then (payload (get_elem? s.entries (Cookie.index c)), retire s c)
      else (none, s)

  -- One round of `take_all`: the entry at `i` taken out, if it is live.
  take_at : Option (Entry A) → ℕ → Slab A → Option A × Slab A
  take_at (some (live g value)) i s = remove s (Cookie.new i g)
  take_at _ i s = (none, s)

  kept : Option A → List A → List A
  kept none out = out
  kept (some v) out = v ∷ out

  -- The loop from index `i` on, with the rounds left.
  take_from : ℕ → ℕ → Slab A → List A × Slab A
  unfolding take_at kept
  take_from zero i s = ([], s)
  take_from (suc rounds) i s =
      let (v, t) = take_at (get_elem? s.entries i) i s in
      let (out, u) = take_from rounds (suc i) t in (kept v out, u)

  unfoldable pub take_all : Slab A → List A × Slab A
  unfolding take_from
  take_all s = take_from (length s.entries) 0 s
