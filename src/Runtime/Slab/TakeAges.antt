-- ===== src/Runtime/Slab/TakeAges.antt =====
-- `take_all` ages each index once at most.
use koru.Prelude.{
  ℕ, zero, suc, ◌+◌, ◌<◌, ◌≡◌, refl, sym, ◌∙◌, inl, inr, ◌⊎◌, Option, none, some, arith, length,
  get_elem?, get_elem?-some,
}
use koru.Runtime.Slab.{Slab, Entry, free, live, take_at, take_from, take_all}
use koru.Runtime.Slab.Invariant.{IsValid}
use koru.Runtime.Slab.Remove.{remove_hit, remove-IsValid}
use koru.Runtime.Slab.TakeAll.{get_at}
use koru.Runtime.Slab.Ages.{Holds, Ages, remove-at, length-remove}
use koru.Runtime.Cookie
use koru.Runtime.Cookie.{Cookie, index, generation, bump}

module _ {ℓ} {A : Type ℓ} where
  -- One round of `take_all` ages entry `i` at most.
  take_at-Holds :
      (s : Slab A) (i : ℕ) (x : Entry A) (j g : ℕ)
      → IsValid s
      → get_elem? s.entries i ≡ some x
      → Holds s j g
      → Holds (take_at (some x) i s).1 j g ⊎ ((i ≡ j) × Holds (take_at (some x) i s).1 j (bump g))
  unfolding take_at
  take_at-Holds s i (free k) j g w e h = inl h
  take_at-Holds s i (live k v) j g w e h =
      let (found, place) = get_at s i k v w e in
      rw (remove_hit s (Cookie.new i k) v found) elim (remove-at s (Cookie.new i k) v j g found h) [
        | inl kept ↦ inl kept
        | inr (same, aged) ↦ inr (sym place ∙ same, aged)
      ]

  take_at_sound :
      (s : Slab A) (i : ℕ) (x : Entry A)
      → IsValid s
      → IsValid (take_at (some x) i s).1
        × (length (take_at (some x) i s).1.entries ≡ length s.entries)
  unfolding take_at
  take_at_sound s i (free k) w = (w, refl)
  take_at_sound s i (live k v) w =
      (remove-IsValid s (Cookie.new i k) w, length-remove s (Cookie.new i k))

  -- The entries before `i` keep their generations, and each later one is bumped once at most.
  take_from-Holds :
      (rounds i : ℕ) (s : Slab A)
      → IsValid s
      → rounds + i ≡ length s.entries
      → (length (take_from rounds i s).1.entries ≡ length s.entries)
        × ((j g : ℕ)
            → Holds s j g
            → (j < i → Holds (take_from rounds i s).1 j g)
              × (Holds (take_from rounds i s).1 j g ⊎ Holds (take_from rounds i s).1 j (bump g)))
  unfolding take_from
  take_from-Holds zero i s w h = (refl, λ j g p. ((λ _. p), inl p))
  take_from-Holds (suc rounds) i s w h =
      let (x, e) = get_elem?-some s.entries i (omega arith) in
      let (sound, same) = take_at_sound s i x w in
      let (size, rest) =
        take_from-Holds rounds (suc i) (take_at (some x) i s).1 sound (omega arith) in
      rw (e, take_from)
        (
          size ∙ same,
          λ j g p. elim (take_at-Holds s i x j g w e p) [
            | inl kept ↦ ((λ less. (rest j g kept).0 (omega arith)), (rest j g kept).1)
            | inr (at, aged) ↦
                ((λ less. absurd (omega arith)), inr ((rest j (bump g) aged).0 (omega arith)))
          ],
        )

  length-take_at :
      (s : Slab A) (i : ℕ) (o : Option (Entry A))
      → length (take_at o i s).1.entries ≡ length s.entries
  unfolding take_at
  length-take_at s i none = refl
  length-take_at s i (some (free k)) = refl
  length-take_at s i (some (live k v)) = length-remove s (Cookie.new i k)

  length-take_from :
      (rounds i : ℕ) (s : Slab A) → length (take_from rounds i s).1.entries ≡ length s.entries
  unfolding take_from
  length-take_from zero i s = refl
  length-take_from (suc rounds) i s =
      length-take_from rounds (suc i) _ ∙ length-take_at s i (get_elem? s.entries i)

  pub length-take_all : (s : Slab A) → length (take_all s).1.entries ≡ length s.entries
  unfolding take_all
  length-take_all s = length-take_from (length s.entries) 0 s

  pub take_all-Ages : (s : Slab A) → IsValid s → Ages 1 s (take_all s).1
  unfolding take_all
  take_all-Ages s w =
      let (size, holds) = take_from-Holds (length s.entries) 0 s w (omega arith) in
      record {
        widens = omega arith;
        holds =
            λ j g p. elim ((holds j g p).1) [ inl kept ↦ inl kept | inr aged ↦ inr (refl, aged) ];
      }
