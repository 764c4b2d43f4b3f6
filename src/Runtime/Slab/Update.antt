-- ===== src/Runtime/Slab/Update.antt =====
-- `Slab::get_mut`: a write through the reference changes the payload and nothing else.
use koru.Prelude.{
  ℕ, zero, suc, ◌<◌, ◌≡◌, ◌≢◌, refl, sym, ap, ◌∙◌, inl, inr, none, some, List, [], ◌∷◌, arith,
  length, get_elem?, set, All-set, All-get_elem?, length-set, get_elem?-set_self, get_elem?-set_ne,
  get_elem?-lt, ℕ-cases, Option-cases, ==_ne, ==_refl,
}
use koru.Prelude.Words.{u64_mod}
use koru.Runtime.Slab.{Slab, Entry, free, live, get, get_mut}
use koru.Runtime.Slab.Invariant.{IsValid, IsGeneration, FreeAt-set, count_live}
use koru.Runtime.Slab.Remove.{get_inv, not_listed}
use koru.Runtime.Cookie.{Cookie, index, generation, eq_of_halves}

module _ {ℓ} {A : Type ℓ} (f : A → A) where
  unfoldable pub rewritten : Slab A → Cookie → A → Slab A
  rewritten s c v = record s { entries = set s.entries (index c) (live (generation c) (f v)) }

  pub get_mut_hit :
      (s : Slab A) (c : Cookie) (v : A) → get s c ≡ some v → get_mut s c f ≡ rewritten s c v
  unfolding get_mut rewritten get
  get_mut_hit s c v h = ground (arith, get_inv s c v h, ==_refl (generation c))

  pub get_mut_miss : (s : Slab A) (c : Cookie) → get s c ≡ none → get_mut s c f ≡ s
  unfolding get_mut get
  get_mut_miss s c h = ground arith

  count_live-rewrite :
      (es : List (Entry A)) (i g h : ℕ) (v w : A)
      → get_elem? es i ≡ some (live g v)
      → count_live (set es i (live h w)) ≡ count_live es
  count_live-rewrite [] i g h v w e = absurd (cc e)
  count_live-rewrite (free k ∷ es) zero g h v w e = absurd (cc e)
  count_live-rewrite (live k x ∷ es) zero g h v w e = refl
  count_live-rewrite (free k ∷ es) (suc i) g h v w e = count_live-rewrite es i g h v w e
  count_live-rewrite (live k x ∷ es) (suc i) g h v w e = ap suc (count_live-rewrite es i g h v w e)

  module _ (s : Slab A) (c : Cookie) (v : A) (e : get s c ≡ some v) where
    rewritten-IsValid : IsValid s → IsValid (rewritten s c v)
    unfolding rewritten
    rewritten-IsValid w =
        let there = get_inv s c v e in
        let new : Entry A = live (generation c) (f v) in
        record {
          generations =
              All-set IsGeneration s.entries (index c) new w.generations
                (All-get_elem? IsGeneration s.entries (index c) _ w.generations there);
          frees =
              FreeAt-set s.entries (index c) new s.free_list
                (not_listed s.entries (index c) (generation c) v s.free_list there w.frees) w.frees;
          distinct = w.distinct;
          counted =
              w.counted
              ∙ sym (
                  count_live-rewrite s.entries (index c) (generation c) (generation c) v (f v)
                    there);
          addressable = omega (arith, length-set s.entries (index c) new, w.addressable);
        }

    put_self : get_elem? (rewritten s c v).entries (index c) ≡ some (live (generation c) (f v))
    unfolding rewritten
    put_self =
        get_elem?-set_self s.entries (index c) _
          (get_elem?-lt s.entries (index c) _ (get_inv s c v e))

    get-rewritten_self : get (rewritten s c v) c ≡ some (f v)
    unfolding get
    get-rewritten_self = ground (arith, put_self, ==_refl (generation c))

    get-rewritten_ne :
        (d : Cookie) → c < u64_mod → d < u64_mod → c ≢ d → get (rewritten s c v) d ≡ get s d
    unfolding get rewritten
    get-rewritten_ne d h k ne = elim (ℕ-cases (index c) (index d)) [
      | inl same ↦
          let apart : generation c ≢ generation d = λ g. ne (eq_of_halves c d h k same g) in
          ground (arith, get_inv s c v e, put_self, ==_ne (generation c) (generation d) apart)
      | inr differ ↦
          rw (get_elem?-set_ne s.entries (index c) (index d) (live (generation c) (f v)) differ)
    ]

  pub get_mut-IsValid : (s : Slab A) (c : Cookie) → IsValid s → IsValid (get_mut s c f)
  get_mut-IsValid s c w = elim (Option-cases (get s c)) [
    | inl e ↦ rw (get_mut_miss s c e) w
    | inr (v, e) ↦ rw (get_mut_hit s c v e) (rewritten-IsValid s c v e w)
  ]

  pub get-get_mut_self :
      (s : Slab A) (c : Cookie) (v : A) → get s c ≡ some v → get (get_mut s c f) c ≡ some (f v)
  get-get_mut_self s c v e = rw (get_mut_hit s c v e) (get-rewritten_self s c v e)

  pub get-get_mut_ne :
      (s : Slab A) (c d : Cookie)
      → c < u64_mod
      → d < u64_mod
      → c ≢ d
      → get (get_mut s c f) d ≡ get s d
  get-get_mut_ne s c d h k ne = elim (Option-cases (get s c)) [
    | inl e ↦ rw (get_mut_miss s c e)
    | inr (v, e) ↦ rw (get_mut_hit s c v e) (get-rewritten_ne s c v e d h k ne)
  ]

  pub length-get_mut : (s : Slab A) (c : Cookie) → length (get_mut s c f).entries ≡ length s.entries
  unfolding rewritten
  length-get_mut s c = elim (Option-cases (get s c)) [
    | inl e ↦ rw (get_mut_miss s c e)
    | inr (v, e) ↦
        rw (get_mut_hit s c v e) (length-set s.entries (index c) (live (generation c) (f v)))
  ]
