-- ===== src/Kernel/Ring/Slots.antt =====
-- The slot bitmap of kernel/koru.rs: each arena slot belongs to one operation at a time.
use Prim.Native.Nat.{bit_and, bit_or}
use native.Mathlib.Nat.{one-le-pow, pow-le-pow_right}
use koru.Prelude.{
  ℕ, ◌*◌, ◌/◌, ◌%◌, ◌^◌, ◌≤◌, ◌<◌, ◌≡◌, ◌≢◌, refl, sym, ap, ◌∙◌, inl, inr, Bool, true, false, not,
  Option, none, some, List, arith, length, get_elem?, set, get_elem?-some, get_elem?-set_self,
  get_elem?-set_ne, get_elem?-lt, length-set, ◌==◌, ==_refl, ==_ne, ℕ-cases, Bool-cases,
  Option-cases, ◌⊎◌, if◌then◌else◌,
}
use koru.Prelude.Words.{
  bit, bit-lt, bit-bit_and, bit-bit_or, bit-pow_self, bit-pow_ne, bit_and-pow, complement,
  bit-complement, bit-zero,
}
use koru.Kernel.Ring.{RingState, slot_try_acquire, slot_release}

word_bit : Option ℕ → ℕ → Bool
word_bit none b = false
word_bit (some w) b = bit w b == 1

-- An operation owns the slot.
pub owned : RingState → ℕ → Bool
unfolding word_bit
owned s slot = word_bit (get_elem? s.slot_busy (slot / 64)) (slot % 64)

-- The bitmap has a bit for the slot.
abbrev pub InArena : RingState → ℕ → Type 0
InArena s slot = slot / 64 < length s.slot_busy

or_self : (w b : ℕ) → bit (bit_or w (2 ^ b)) b ≡ 1
or_self w b = omega (arith, bit-bit_or b w (2 ^ b), bit-pow_self b, bit-lt b w)

or_ne : (w b i : ℕ) → b ≢ i → bit (bit_or w (2 ^ b)) i ≡ bit w i
or_ne w b i h = omega (arith, bit-bit_or i w (2 ^ b), bit-pow_ne b i h)

pow_fits : (b : ℕ) → b < 64 → 2 ^ b < 2 ^ 64
pow_fits b h = omega (arith, pow-le-pow_right {n = 2} (omega arith) {i = b} {j = 63} (omega arith))

clear_self : (w b : ℕ) → b < 64 → bit (bit_and w (complement 64 (2 ^ b))) b ≡ 0
clear_self w b h = omega (
  arith,
  bit-bit_and b w (complement 64 (2 ^ b)),
  bit-complement 64 b (2 ^ b) (pow_fits b h) h,
  bit-pow_self b,
)

clear_ne :
    (w b i : ℕ) → b < 64 → i < 64 → b ≢ i → bit (bit_and w (complement 64 (2 ^ b))) i ≡ bit w i
clear_ne w b i h k ne = omega (
  arith,
  bit-bit_and i w (complement 64 (2 ^ b)),
  bit-complement 64 i (2 ^ b) (pow_fits b h) k,
  bit-pow_ne b i ne,
  bit-lt i w,
)

-- The test of the mask is the bit.
mask_test : (w b : ℕ) → (bit_and w (2 ^ b) == 0) ≡ (bit w b == 0)
mask_test w b = elim (ℕ-cases (bit w b) 0) [
  | inl clear ↦ rw (bit_and-pow b w, clear) (ground arith)
  | inr held ↦
      let one : bit w b ≡ 1 = omega (arith, bit-lt b w) in
      let some_bit : 1 ≤ 2 ^ b = one-le-pow b 2 (omega arith) in
      rw (bit_and-pow b w, one) (==_ne (1 * 2 ^ b) 0 (λ e. absurd (omega arith)))
]

-- Two slots that share a word differ in the bit.
same_word : (i j : ℕ) → i ≢ j → i / 64 ≡ j / 64 → i % 64 ≢ j % 64
same_word i j ne w b = ne (omega arith)

-- What a claim owes.
pub record Claimed (s : RingState) (slot : ℕ) (got : Bool) (t : RingState) : Type 0 where
  pub exactly : got ≡ not (owned s slot)
  pub held : owned t slot ≡ true
  pub others : (other : ℕ) → other ≢ slot → owned t other ≡ owned s other
  pub refused : got ≡ false → t ≡ s
  pub same_words : length t.slot_busy ≡ length s.slot_busy
  pub rest : t ≡ record s { slot_busy = t.slot_busy }

module _ (s : RingState) (slot w : ℕ) (e : get_elem? s.slot_busy (slot / 64) ≡ some w) where
  here : owned s slot ≡ (bit w (slot % 64) == 1)
  unfolding owned
  here = rw e

  abbrev with_word : ℕ → RingState
  with_word w' = record s { slot_busy = set s.slot_busy (slot / 64) w' }

  owned-with_word_self : (w' : ℕ) → owned (with_word w') slot ≡ (bit w' (slot % 64) == 1)
  unfolding owned
  owned-with_word_self w' =
      rw (get_elem?-set_self s.slot_busy (slot / 64) w' (get_elem?-lt s.slot_busy (slot / 64) w e))

  -- A new word changes the ownership of no slot whose bit it keeps.
  owned-with_word_ne :
      (w' other : ℕ)
      → ((i : ℕ) → i < 64 → slot % 64 ≢ i → bit w' i ≡ bit w i)
      → other ≢ slot
      → owned (with_word w') other ≡ owned s other
  unfolding owned
  owned-with_word_ne w' other keeps ne = elim (ℕ-cases (slot / 64) (other / 64)) [
    | inl same ↦
        let apart : slot % 64 ≢ other % 64 = same_word slot other (λ q. ne (sym q)) same in
        rw (
          ← same,
          get_elem?-set_self s.slot_busy (slot / 64) w' (get_elem?-lt s.slot_busy (slot / 64) w e),
          e,
          keeps (other % 64) (omega arith) apart,
        )
    | inr differ ↦ rw (get_elem?-set_ne s.slot_busy (slot / 64) (other / 64) w' differ)
  ]

  claim_free :
      bit w (slot % 64) ≡ 0
      → (slot_try_acquire s slot ≡ some (true, with_word (bit_or w (2 ^ (slot % 64)))))
        × Claimed s slot true (with_word (bit_or w (2 ^ (slot % 64))))
  unfolding slot_try_acquire
  claim_free clear = (
    rw (e, mask_test w (slot % 64), clear),
    record {
      exactly = rw (here, clear);
      held = rw (owned-with_word_self (bit_or w (2 ^ (slot % 64))), or_self w (slot % 64));
      others = λ other ne.
          owned-with_word_ne (bit_or w (2 ^ (slot % 64))) other
            (λ i _ apart. or_ne w (slot % 64) i apart) ne;
      refused = λ q. absurd (cc q);
      same_words = length-set s.slot_busy (slot / 64) _;
      rest = refl;
    },
  )

  claim_held :
      bit w (slot % 64) ≡ 1 → (slot_try_acquire s slot ≡ some (false, s)) × Claimed s slot false s
  unfolding slot_try_acquire
  claim_held set = (
    rw (e, mask_test w (slot % 64), set),
    record {
      exactly = rw (here, set);
      held = rw (here, set);
      others = λ other ne. refl;
      refused = λ q. refl;
      same_words = refl;
      rest = refl;
    },
  )

  claimed :
      (got : Bool) × (t : RingState) × (slot_try_acquire s slot ≡ some (got, t))
      × Claimed s slot got t
  claimed = elim (ℕ-cases (bit w (slot % 64)) 0) [
    | inl clear ↦
        (true, with_word (bit_or w (2 ^ (slot % 64))), (claim_free clear).0, (claim_free clear).1)
    | inr one ↦
        let set = claim_held (omega (arith, bit-lt (slot % 64) w)) in (false, s, set.0, set.1)
  ]

  released :
      (t : RingState) × (slot_release s slot ≡ some t)
      × (owned t slot ≡ false)
      × ((other : ℕ) → other ≢ slot → owned t other ≡ owned s other)
      × (length t.slot_busy ≡ length s.slot_busy)
  unfolding slot_release
  released =
      let b : ℕ = slot % 64 in
      let w' = bit_and w (complement 64 (2 ^ (slot % 64))) in
      (
        with_word w',
        rw e,
        rw (owned-with_word_self w', clear_self w (slot % 64) (omega arith)) (ground arith),
        λ other ne.
            owned-with_word_ne w' other
              (λ i k apart. clear_ne w (slot % 64) i (omega arith) k apart) ne,
        length-set s.slot_busy (slot / 64) w',
      )

-- A claim of a slot in the arena, for every other slot at once.
pub claim_of :
    (s : RingState) (slot : ℕ)
    → InArena s slot
    → (got : Bool) × (t : RingState) × (slot_try_acquire s slot ≡ some (got, t))
      × Claimed s slot got t
claim_of s slot room =
    let (w, e) = get_elem?-some s.slot_busy (slot / 64) room in claimed s slot w e

-- A release, for every other slot at once.
pub release_of :
    (s : RingState) (slot : ℕ)
    → InArena s slot
    → (t : RingState) × (slot_release s slot ≡ some t)
      × (owned t slot ≡ false)
      × ((other : ℕ) → other ≢ slot → owned t other ≡ owned s other)
      × (length t.slot_busy ≡ length s.slot_busy)
release_of s slot room =
    let (w, e) = get_elem?-some s.slot_busy (slot / 64) room in released s slot w e

-- A claim of an arena slot returns, and succeeds exactly when no operation owns the slot. Then the
-- slot is owned and no other changes hands; a refused claim changes nothing.
pub slot_try_acquire_lem :
    (s : RingState) (slot other : ℕ)
    → InArena s slot
    → (t : RingState) × (slot_try_acquire s slot ≡ some (not (owned s slot), t))
      × (owned t other ≡ (if other == slot then true else owned s other))
      × ((owned s slot ≡ false) ⊎ (t ≡ s))
slot_try_acquire_lem s slot other room =
    let (w, e) = get_elem?-some s.slot_busy (slot / 64) room in
    let (got, t, run, c) = claimed s slot w e in
    (
      t,
      run ∙ ap (λ (b : Bool). some (b, t)) c.exactly,
      elim (ℕ-cases other slot) [
        | inl same ↦ rw (same, ==_refl slot) c.held
        | inr ne ↦ rw (==_ne other slot ne) (c.others other ne)
      ],
      elim (Bool-cases (owned s slot)) [
        | inl held ↦ inr (c.refused (c.exactly ∙ ap not held))
        | inr clear ↦ inl clear
      ],
    )

-- A release of an arena slot returns, frees the slot, and changes the ownership of no other.
pub slot_release_lem :
    (s : RingState) (slot other : ℕ)
    → InArena s slot
    → (t : RingState) × (slot_release s slot ≡ some t)
      × (owned t other ≡ (if other == slot then false else owned s other))
slot_release_lem s slot other room =
    let (w, e) = get_elem?-some s.slot_busy (slot / 64) room in
    let (t, run, clear, others, _) = released s slot w e in
    (
      t,
      run,
      elim (ℕ-cases other slot) [
        | inl same ↦ rw (same, ==_refl slot) clear
        | inr ne ↦ rw (==_ne other slot ne) (others other ne)
      ],
    )

-- Ownership is a matter of the bitmap.
pub owned_of_busy :
    (s t : RingState) (slot : ℕ) → s.slot_busy ≡ t.slot_busy → owned s slot ≡ owned t slot
unfolding owned
owned_of_busy s t slot h = ap (λ (ws : List ℕ). word_bit (get_elem? ws (slot / 64)) (slot % 64)) h

-- In a word of zeros nothing is owned.
pub owned_clear :
    (s : RingState) (slot : ℕ) → get_elem? s.slot_busy (slot / 64) ≡ some 0 → owned s slot ≡ false
unfolding owned
owned_clear s slot h = rw h (ground (arith, bit-zero (slot % 64)))

-- Only a slot of the bitmap is owned.
pub owned-InArena : (s : RingState) (slot : ℕ) → owned s slot ≡ true → InArena s slot
unfolding owned
owned-InArena s slot h = elim (Option-cases (get_elem? s.slot_busy (slot / 64))) [
  | inl e ↦ absurd (ground (arith, h, e))
  | inr (w, e) ↦ get_elem?-lt s.slot_busy (slot / 64) w e
]
