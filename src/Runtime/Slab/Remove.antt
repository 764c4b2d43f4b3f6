-- ===== src/Runtime/Slab/Remove.antt =====
-- `Slab::get_mut` and `Slab::remove`: what they return, and what they leave.
use koru.Prelude.{
  ℕ, ◌-◌, ◌<◌, ◌≡◌, ◌≢◌, ap, inl, inr, none, some, List, arith, get_elem?, All, All-map₂, All-set,
  length-set, get_elem?-set_self, get_elem?-set_ne, get_elem?-lt, ℕ-cases, Option-cases, ◌==◌,
  ==_refl, ==_ne, if◌then◌else◌,
}
use koru.Prelude.Words.{u32_mod, u64_mod}
use koru.Runtime.Slab.{Slab, Entry, free, live, get, remove, retire, len}
use koru.Runtime.Slab.Invariant.{IsValid, IsGeneration, FreeAt, FreeAt-set, count_live-set_free}
use koru.Runtime.Cookie.{Cookie, index, generation, eq_of_halves, bump}

bump_bounds : (g : ℕ) → (0 < bump g) × (bump g < u32_mod)
unfolding bump
bump_bounds g = ground arith

module _ {ℓ} {A : Type ℓ} where
  -- A cookie resolves exactly when the entry at its index is live under its generation.
  pub get_inv :
      (s : Slab A) (c : Cookie) (v : A)
      → get s c ≡ some v
      → get_elem? s.entries (index c) ≡ some (live (generation c) v)
  unfolding get
  get_inv s c v h = ground arith

  pub remove_hit :
      (s : Slab A) (c : Cookie) (v : A) → get s c ≡ some v → remove s c ≡ (some v, retire s c)
  unfolding get remove
  remove_hit s c v h = ground arith

  pub remove_miss : (s : Slab A) (c : Cookie) → get s c ≡ none → remove s c ≡ (none, s)
  unfolding get remove
  remove_miss s c h = ground arith

  -- A removal hands out what the cookie resolved to.
  pub remove-eq-get : (s : Slab A) (c : Cookie) → (remove s c).0 ≡ get s c
  remove-eq-get s c = elim (Option-cases (get s c)) [
    | inl e ↦ rw (remove_miss s c e, e)
    | inr (v, e) ↦ rw (remove_hit s c v e, e)
  ]

  pub not_listed :
      (es : List (Entry A)) (i g : ℕ) (v : A) (js : List ℕ)
      → get_elem? es i ≡ some (live g v)
      → All (FreeAt es) js
      → All (λ j. i ≢ j) js
  not_listed es i g v js e h =
      All-map₂ js (λ j p q same. ground (arith, p.1, ap (get_elem? es) same)) h h

  module _ (s : Slab A) (c : Cookie) (v : A) (e : get s c ≡ some v) where
    retire-IsValid : IsValid s → IsValid (retire s c)
    unfolding retire
    retire-IsValid w =
        let f = get_inv s c v e in
        let apart = not_listed s.entries (index c) (generation c) v s.free_list f w.frees in
        let freed : Entry A = free (bump (generation c)) in
        record {
          generations =
              All-set IsGeneration s.entries (index c) freed w.generations
                (bump_bounds (generation c));
          frees = (
            (
              bump (generation c),
              get_elem?-set_self s.entries (index c) freed (get_elem?-lt s.entries (index c) _ f),
            ),
            FreeAt-set s.entries (index c) freed s.free_list apart w.frees,
          );
          distinct = (apart, w.distinct);
          counted = omega (
            arith,
            count_live-set_free s.entries (index c) (generation c) (bump (generation c)) v f,
            w.counted,
          );
          addressable = omega (arith, length-set s.entries (index c) freed, w.addressable);
        }

    freed_self : get_elem? (retire s c).entries (index c) ≡ some (free (bump (generation c)))
    unfolding retire
    freed_self =
        get_elem?-set_self s.entries (index c) _
          (get_elem?-lt s.entries (index c) _ (get_inv s c v e))

    get-retire_self : get (retire s c) c ≡ none
    unfolding get
    get-retire_self = ground (arith, freed_self)

    get-retire_ne : (d : Cookie) → c < u64_mod → d < u64_mod → c ≢ d → get (retire s c) d ≡ get s d
    unfolding get retire
    get-retire_ne d h k ne = elim (ℕ-cases (index c) (index d)) [
      | inl same ↦
          let apart : generation c ≢ generation d = λ g. ne (eq_of_halves c d h k same g) in
          ground (arith, get_inv s c v e, freed_self, ==_ne (generation c) (generation d) apart)
      | inr differ ↦
          rw (get_elem?-set_ne s.entries (index c) (index d) (free (bump (generation c))) differ)
    ]

  -- A removal keeps the slab sound.
  pub remove-IsValid : (s : Slab A) (c : Cookie) → IsValid s → IsValid (remove s c).1
  remove-IsValid s c w = elim (Option-cases (get s c)) [
    | inl e ↦ rw (remove_miss s c e) w
    | inr (v, e) ↦ rw (remove_hit s c v e) (retire-IsValid s c v e w)
  ]

  -- After a removal its cookie resolves to nothing, and every other one as before.
  pub get-remove :
      (s : Slab A) (c d : Cookie)
      → c < u64_mod
      → d < u64_mod
      → get (remove s c).1 d ≡ (if c == d then none else get s d)
  get-remove s c d h k = elim (Option-cases (get s c)) [
    | inl e ↦ rw (remove_miss s c e) (elim (ℕ-cases c d) [
      | inl same ↦ rw (← same, ==_refl c) e
      | inr differ ↦ rw (==_ne c d differ)
    ])
    | inr (v, e) ↦ rw (remove_hit s c v e) (elim (ℕ-cases c d) [
      | inl same ↦ rw (← same, ==_refl c) (get-retire_self s c v e)
      | inr differ ↦ rw (==_ne c d differ) (get-retire_ne s c v e d h k differ)
    ])
  ]

  pub len-remove :
      (s : Slab A) (c : Cookie) (v : A) → get s c ≡ some v → len (remove s c).1 ≡ len s - 1
  unfolding len retire
  len-remove s c v e = rw (remove_hit s c v e)
