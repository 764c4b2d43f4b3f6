-- ===== src/Runtime/Slab/Ages.antt =====
-- How the operations of the slab age its generations: each is kept, or bumped by a removal.
use koru.Prelude.{
  ℕ, zero, suc, ◌+◌, ◌-◌, ◌%◌, ◌≤◌, ◌<◌, ◌≡◌, ◌≢◌, refl, sym, ap, ◌∙◌, inl, inr, ◌⊎◌, Option, none,
  some, List, [], ◌∷◌, ◌++◌, arith, length, get_elem?, set, length-set, length-append, ℕ-cases,
  Option-cases,
}
use koru.Prelude.Words.{u32_mod}
use koru.Runtime.Slab.{Slab, Entry, free, live, get, get_mut, insert, remove, retire}
use koru.Runtime.Slab.Invariant.{generation_of}
use koru.Runtime.Slab.Places.{Placed, recycles, grows, insert-Placed}
use koru.Runtime.Slab.Remove.{remove_hit, remove_miss, get_inv}
use koru.Runtime.Slab.Update.{rewritten, get_mut_hit, get_mut_miss}
use koru.Runtime.Cookie.{Cookie, index, generation, bump}

-- The generation after `k` bumps.
abbrev pub bumped : ℕ → ℕ → ℕ
bumped g zero = g
bumped g (suc k) = bump (bumped g k)

-- The generations go round through 1 .. 2^32 - 1, so they take that many bumps to come back.
bumped_lem : (g k : ℕ) → 0 < g → g < u32_mod → bumped g k ≡ (g - 1 + k) % (u32_mod - 1) + 1
unfolding bump
bumped_lem g zero h w = omega arith
bumped_lem g (suc k) h w = ground (arith, bumped_lem g k h w)

pub bumped_ne : (g k : ℕ) → 0 < g → g < u32_mod → 0 < k → k < u32_mod - 1 → bumped g k ≢ g
bumped_ne g k h w p q e = omega (arith, bumped_lem g k h w)

module _ {ℓ} {A : Type ℓ} where
  -- The generation that the entry at an index holds.
  abbrev pub gen_at : List (Entry A) → ℕ → Option ℕ
  gen_at [] i = none
  gen_at (x ∷ es) zero = some (generation_of x)
  gen_at (x ∷ es) (suc i) = gen_at es i

  pub gen_at_of :
      (es : List (Entry A)) (i : ℕ) (x : Entry A)
      → get_elem? es i ≡ some x
      → gen_at es i ≡ some (generation_of x)
  gen_at_of [] i x e = absurd (cc e)
  gen_at_of (y ∷ es) zero x e =
      ap (λ (o : Option (Entry A)). elim o [ none ↦ none | some z ↦ some (generation_of z) ]) e
  gen_at_of (y ∷ es) (suc i) x e = gen_at_of es i x e

  gen_at-set_self :
      (es : List (Entry A)) (i : ℕ) (x y : Entry A)
      → get_elem? es i ≡ some x
      → gen_at (set es i y) i ≡ some (generation_of y)
  gen_at-set_self [] i x y e = absurd (cc e)
  gen_at-set_self (z ∷ es) zero x y e = refl
  gen_at-set_self (z ∷ es) (suc i) x y e = gen_at-set_self es i x y e

  gen_at-set_ne :
      (es : List (Entry A)) (i j : ℕ) (y : Entry A) → i ≢ j → gen_at (set es i y) j ≡ gen_at es j
  gen_at-set_ne [] i j y h = refl
  gen_at-set_ne (x ∷ es) zero zero y h = absurd (h refl)
  gen_at-set_ne (x ∷ es) zero (suc j) y h = refl
  gen_at-set_ne (x ∷ es) (suc i) zero y h = refl
  gen_at-set_ne (x ∷ es) (suc i) (suc j) y h = gen_at-set_ne es i j y (λ e. h (ap suc e))

  gen_at-append :
      (es ys : List (Entry A)) (i g : ℕ) → gen_at es i ≡ some g → gen_at (es ++ ys) i ≡ some g
  gen_at-append [] ys i g e = absurd (cc e)
  gen_at-append (x ∷ es) ys zero g e = e
  gen_at-append (x ∷ es) ys (suc i) g e = gen_at-append es ys i g e

  -- A write that keeps the generation of the entry changes no generation.
  gen_at-set_same :
      (es : List (Entry A)) (i j : ℕ) (x y : Entry A)
      → get_elem? es i ≡ some x
      → generation_of y ≡ generation_of x
      → gen_at (set es i y) j ≡ gen_at es j
  gen_at-set_same es i j x y e same = elim (ℕ-cases i j) [
    | inl eq ↦ rw (← eq) (gen_at-set_self es i x y e ∙ ap some same ∙ sym (gen_at_of es i x e))
    | inr ne ↦ gen_at-set_ne es i j y ne
  ]

  abbrev pub Holds : Slab A → ℕ → ℕ → Type 0
  Holds s i g = gen_at s.entries i ≡ some g

  -- Every entry stays; each keeps its generation, or is bumped once where that is allowed.
  pub record Ages (bumps : ℕ) (s t : Slab A) : Type ℓ where
    pub widens : length s.entries ≤ length t.entries
    pub holds : (i g : ℕ) → Holds s i g → Holds t i g ⊎ ((bumps ≡ 1) × Holds t i (bump g))

  pub Ages-refl : (n : ℕ) (s : Slab A) → Ages n s s
  Ages-refl n s = record { widens = omega arith; holds = λ i g h. inl h }

  pub freed-Holds :
      (s : Slab A) (c : Cookie) (v : A)
      → get s c ≡ some v
      → Holds (retire s c) (index c) (bump (generation c))
  unfolding retire
  freed-Holds s c v e = gen_at-set_self s.entries (index c) _ _ (get_inv s c v e)

  pub remove-at :
      (s : Slab A) (c : Cookie) (v : A) (i g : ℕ)
      → get s c ≡ some v
      → Holds s i g
      → Holds (retire s c) i g ⊎ ((index c ≡ i) × Holds (retire s c) i (bump g))
  unfolding retire
  remove-at s c v i g e h = elim (ℕ-cases (index c) i) [
    | inl same ↦
        let there = gen_at_of s.entries (index c) _ (get_inv s c v e) in
        let gens : generation c ≡ g = ground (arith, there, h, ap (gen_at s.entries) same) in
        inr (same, rw (← same, ← gens) (gen_at-set_self s.entries (index c) _ _ (get_inv s c v e)))
    | inr ne ↦ inl (gen_at-set_ne s.entries (index c) i _ ne ∙ h)
  ]

  pub length-remove : (s : Slab A) (c : Cookie) → length (remove s c).1.entries ≡ length s.entries
  length-remove s c = elim (Option-cases (get s c)) [
    | inl e ↦ rw (remove_miss s c e)
    | inr (v, e) ↦
        rw (remove_hit s c v e)
          (unfold retire in length-set s.entries (index c) (free (bump (generation c))))
  ]

  pub remove-Ages : (s : Slab A) (c : Cookie) → Ages 1 s (remove s c).1
  remove-Ages s c = elim (Option-cases (get s c)) [
    | inl e ↦ rw (remove_miss s c e) (Ages-refl 1 s)
    | inr (v, e) ↦ rw (remove_hit s c v e) (record {
      widens =
          unfold retire in
          omega (arith, length-set s.entries (index c) (free (bump (generation c))));
      holds = λ i g h. elim (remove-at s c v i g e h) [
        | inl kept ↦ inl kept
        | inr (_, aged) ↦ inr (refl, aged)
      ];
    })
  ]

  pub get_mut-Ages : (s : Slab A) (c : Cookie) (f : A → A) → Ages 0 s (get_mut s c f)
  get_mut-Ages s c f = elim (Option-cases (get s c)) [
    | inl e ↦ rw (get_mut_miss f s c e) (Ages-refl 0 s)
    | inr (v, e) ↦ rw (get_mut_hit f s c v e) (
        unfold rewritten in
        record {
          widens = omega (arith, length-set s.entries (index c) (live (generation c) (f v)));
          holds =
              λ i g h. inl (gen_at-set_same s.entries (index c) i _ _ (get_inv s c v e) refl ∙ h);
        })
  ]

  Placed-Ages : (s t : Slab A) (v : A) → Placed s v t → Ages 0 s t
  Placed-Ages s t v (recycles i g rest e f h) = rw h (record {
    widens = omega (arith, length-set s.entries i (live g v));
    holds = λ j k p. inl (gen_at-set_same s.entries i j (free g) (live g v) f refl ∙ p);
  })
  Placed-Ages s t v (grows e h) = rw h (record {
    widens = omega (arith, length-append s.entries (live 1 v ∷ []));
    holds = λ j k p. inl (gen_at-append s.entries (live 1 v ∷ []) j k p);
  })

  pub insert-Ages : (s t : Slab A) (v : A) (c : Cookie) → insert s v ≡ some (c, t) → Ages 0 s t
  insert-Ages s t v c h = Placed-Ages s t v (insert-Placed s t v c h)
