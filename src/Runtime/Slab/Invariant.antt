-- ===== src/Runtime/Slab/Invariant.antt =====
-- What keeps the slab sound: the free list names free entries, each once, and the counts agree.
use koru.Prelude.{
  ℕ, zero, suc, ◌≤◌, ◌<◌, ◌≡◌, ◌≢◌, refl, ap, ◌∙◌, some, List, [], ◌∷◌, ◌++◌, arith, length,
  get_elem?, set, All, Distinct, All-map₂, get_elem?-set_ne, get_elem?-lt, get_elem?-append_left,
}
use koru.Prelude.Words.{u32_mod}
use koru.Runtime.Slab.{Slab, Entry, free, live, new}

module _ {ℓ} {A : Type ℓ} where
  abbrev pub generation_of : Entry A → ℕ
  generation_of (free g) = g
  generation_of (live g v) = g

  abbrev pub IsGeneration : Entry A → Type 0
  IsGeneration e = (0 < generation_of e) × (generation_of e < u32_mod)

  -- The entry at `i` is free.
  abbrev pub FreeAt : List (Entry A) → ℕ → Type ℓ
  FreeAt es i = (g : ℕ) × (get_elem? es i ≡ some (free g))

  abbrev pub count_live : List (Entry A) → ℕ
  count_live [] = 0
  count_live (free g ∷ es) = count_live es
  count_live (live g v ∷ es) = suc (count_live es)

  pub count_live-append :
      (es : List (Entry A)) (g : ℕ) (v : A) → count_live (es ++ live g v ∷ []) ≡ suc (count_live es)
  count_live-append [] g v = refl
  count_live-append (free h ∷ es) g v = count_live-append es g v
  count_live-append (live h w ∷ es) g v = ap suc (count_live-append es g v)

  pub count_live-set_live :
      (es : List (Entry A)) (i g h : ℕ) (v : A)
      → get_elem? es i ≡ some (free g)
      → count_live (set es i (live h v)) ≡ suc (count_live es)
  count_live-set_live [] i g h v e = absurd (cc e)
  count_live-set_live (free k ∷ es) zero g h v e = refl
  count_live-set_live (live k w ∷ es) zero g h v e = absurd (cc e)
  count_live-set_live (free k ∷ es) (suc i) g h v e = count_live-set_live es i g h v e
  count_live-set_live (live k w ∷ es) (suc i) g h v e = ap suc (count_live-set_live es i g h v e)

  pub count_live-set_free :
      (es : List (Entry A)) (i g h : ℕ) (v : A)
      → get_elem? es i ≡ some (live g v)
      → suc (count_live (set es i (free h))) ≡ count_live es
  count_live-set_free [] i g h v e = absurd (cc e)
  count_live-set_free (live k w ∷ es) zero g h v e = refl
  count_live-set_free (free k ∷ es) zero g h v e = absurd (cc e)
  count_live-set_free (free k ∷ es) (suc i) g h v e = count_live-set_free es i g h v e
  count_live-set_free (live k w ∷ es) (suc i) g h v e = ap suc (count_live-set_free es i g h v e)

  pub record IsValid (s : Slab A) : Type ℓ where
    pub generations : All IsGeneration s.entries
    pub frees : All (FreeAt s.entries) s.free_list
    pub distinct : Distinct s.free_list
    pub counted : s.live_count ≡ count_live s.entries
    pub addressable : length s.entries ≤ u32_mod

  -- A free entry stays free when another one is written.
  pub FreeAt-set :
      (es : List (Entry A)) (i : ℕ) (e : Entry A) (js : List ℕ)
      → All (λ j. i ≢ j) js
      → All (FreeAt es) js
      → All (FreeAt (set es i e)) js
  FreeAt-set es i e js = All-map₂ js (λ j ne h. (h.0, get_elem?-set_ne es i j e ne ∙ h.1))

  pub FreeAt-append :
      (es : List (Entry A)) (e : Entry A) (js : List ℕ)
      → All (FreeAt es) js
      → All (FreeAt (es ++ e ∷ [])) js
  FreeAt-append es e js h =
      All-map₂ js
        (λ j p q. (p.0, get_elem?-append_left es (e ∷ []) j (get_elem?-lt es j _ p.1) ∙ p.1)) h h

  pub new-IsValid : IsValid new
  unfolding new
  new-IsValid = record {
    generations = tt;
    frees = tt;
    distinct = tt;
    counted = refl;
    addressable = omega arith;
  }
