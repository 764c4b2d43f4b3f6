-- ===== src/Runtime/Slab/Retired.antt =====
-- A retired cookie stays retired, along every history of the slab.
use koru.Prelude.{
  ℕ, zero, suc, ◌-◌, ◌≤◌, ◌<◌, ◌≡◌, ◌≢◌, refl, ap, subst, inl, inr, none, some, List, [], ◌∷◌,
  arith, length, All-get_elem?, Option-cases,
}
use koru.Prelude.Words.{u32_mod}
use koru.Runtime.Slab.{Slab, get, remove}
use koru.Runtime.Slab.Invariant.{IsValid, IsGeneration}
use koru.Runtime.Slab.Remove.{remove_hit, remove-IsValid, get_inv}
use koru.Runtime.Slab.History.{Call, step, run, retirements, step-Ages, step-IsValid, run-widens}
use koru.Runtime.Slab.Ages.{bumped, bumped_ne, gen_at_of, Holds, freed-Holds}
use koru.Runtime.Cookie.{Cookie, index, generation, bump}

bumped-bump : (g k : ℕ) → bumped (bump g) k ≡ bumped g (suc k)
bumped-bump g zero = refl
bumped-bump g (suc k) = ap bump (bumped-bump g k)

module _ {ℓ} {A : Type ℓ} where
  -- After a history the generation at an index is some bumps on, one for each retirement at most.
  abbrev AgedBy : ℕ → Slab A → ℕ → ℕ → Type 0
  AgedBy n u i g = (k : ℕ) × (k ≤ n) × Holds u i (bumped g k)

  run-Holds :
      (s u : Slab A) (ks : List (Call A)) (i g : ℕ)
      → IsValid s
      → run s ks ≡ some u
      → length u.entries ≤ u32_mod
      → Holds s i g
      → AgedBy (retirements ks) u i g
  unfolding run
  run-Holds s u [] i g w h fits p =
      (0, omega arith, subst (λ (r : Slab A). Holds r i g) {x = s} {y = u} (cc h) p)
  run-Holds s u (k ∷ ks) i g w h fits p = elim (Option-cases (step s k)) [
    | inl e ↦ absurd (cc (rw (e, run) at h))
    | inr (t, e) ↦
        let rest = rw (e, run) at h in
        let sound = step-IsValid s t k w e (omega (arith, run-widens t u ks rest)) in
        elim ((step-Ages s t k w e).holds i g p) [
          | inl kept ↦
              let (n, le, q) = run-Holds t u ks i g sound rest fits kept in (n, omega arith, q)
          | inr (once, aged) ↦
              let (n, le, q) = run-Holds t u ks i (bump g) sound rest fits aged in
              (suc n, omega arith, rw (← bumped-bump g n) q)
        ]
  ]

  stale_none :
      (u : Slab A) (c : Cookie) (g : ℕ) → Holds u (index c) g → g ≢ generation c → get u c ≡ none
  stale_none u c g h ne = elim (Option-cases (get u c)) [
    | inl e ↦ e
    | inr (v, e) ↦
        absurd (ne (ground (arith, h, gen_at_of u.entries (index c) _ (get_inv u c v e))))
  ]

  removed-Holds :
      (s : Slab A) (c : Cookie) (v : A)
      → get s c ≡ some v
      → Holds (remove s c).1 (index c) (bump (generation c))
  removed-Holds s c v e = rw (remove_hit s c v e) (freed-Holds s c v e)

  -- On a sound slab, once a live cookie is removed it resolves to nothing again, whatever is
  -- inserted, written, removed and taken afterwards, as long as none of that panics, no index
  -- reaches 2^32, and fewer than 2^32 - 2 of the later calls remove.
  pub remove-stays_none :
      (s u : Slab A) (c : Cookie) (v : A) (ks : List (Call A))
      → IsValid s
      → get s c ≡ some v
      → run (remove s c).1 ks ≡ some u
      → length u.entries ≤ u32_mod
      → retirements ks < u32_mod - 2
      → get u c ≡ none
  remove-stays_none s u c v ks w e h fits few =
      let gens : (0 < generation c) × (generation c < u32_mod) =
        All-get_elem? IsGeneration s.entries (index c) _ w.generations (get_inv s c v e) in
      let (k, le, held) =
        run-Holds (remove s c).1 u ks (index c) (bump (generation c)) (remove-IsValid s c w) h fits
          (removed-Holds s c v e) in
      stale_none u c _ held (
        rw (bumped-bump (generation c) k)
          (bumped_ne (generation c) (suc k) gens.0 gens.1 (omega arith) (omega arith)))
