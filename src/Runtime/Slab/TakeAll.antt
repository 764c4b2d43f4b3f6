-- ===== src/Runtime/Slab/TakeAll.antt =====
-- `Slab::take_all`: every live payload comes out, in order of index, and every cookie is retired.
use koru.Prelude.{
  ℕ, zero, suc, ◌+◌, ◌≤◌, ◌<◌, ◌≡◌, refl, sym, ap, ◌∙◌, inl, inr, Option, none, some, List, [], ◌∷◌,
  arith, length, get_elem?, set, drop, All-get_elem?, length-set, get_elem?-set_self,
  get_elem?-set_ne, get_elem?-lt, get_elem?-some, get_elem?-none, lt-cases,
}
use koru.Prelude.Words.{u32_mod}
use koru.Runtime.Slab.{
  Slab, Entry, free, live, get, remove, retire, len, take_at, kept, take_from, take_all,
}
use koru.Runtime.Slab.Invariant.{IsValid, IsGeneration, FreeAt, count_live}
use koru.Runtime.Slab.Remove.{remove_hit, remove-IsValid}
use koru.Runtime.Cookie
use koru.Runtime.Cookie.{Cookie, index, generation, index-new, generation-new, bump}

module _ {ℓ} {A : Type ℓ} where
  -- The payloads of the live entries, by index.
  abbrev pub values : List (Entry A) → List A
  values [] = []
  values (free g ∷ es) = values es
  values (live g v ∷ es) = v ∷ values es

  abbrev FreeBelow : ℕ → List (Entry A) → Type ℓ
  FreeBelow i es = (j : ℕ) → j < i → FreeAt es j

  drop_free :
      (es : List (Entry A)) (i g : ℕ)
      → get_elem? es i ≡ some (free g)
      → values (drop i es) ≡ values (drop (suc i) es)
  drop_free [] i g e = absurd (cc e)
  drop_free (free h ∷ es) zero g e = refl
  drop_free (live h w ∷ es) zero g e = absurd (cc e)
  drop_free (x ∷ es) (suc i) g e = drop_free es i g e

  drop_live :
      (es : List (Entry A)) (i g : ℕ) (v : A)
      → get_elem? es i ≡ some (live g v)
      → values (drop i es) ≡ v ∷ values (drop (suc i) es)
  drop_live [] i g v e = absurd (cc e)
  drop_live (free h ∷ es) zero g v e = absurd (cc e)
  drop_live (live h w ∷ es) zero g v e = cc e
  drop_live (x ∷ es) (suc i) g v e = drop_live es i g v e

  drop-set :
      (es : List (Entry A)) (i : ℕ) (x : Entry A) → drop (suc i) (set es i x) ≡ drop (suc i) es
  drop-set [] i x = refl
  drop-set (y ∷ es) zero x = refl
  drop-set (y ∷ es) (suc i) x = drop-set es i x

  drop_all : (es : List (Entry A)) (i : ℕ) → length es ≤ i → values (drop i es) ≡ []
  drop_all [] zero h = refl
  drop_all [] (suc i) h = refl
  drop_all (x ∷ es) zero h = absurd (omega arith)
  drop_all (x ∷ es) (suc i) h = drop_all es i (omega arith)

  count_live-free : (es : List (Entry A)) → FreeBelow (length es) es → count_live es ≡ 0
  count_live-free [] h = refl
  count_live-free (free g ∷ es) h = count_live-free es (λ j k. h (suc j) (omega arith))
  count_live-free (live g v ∷ es) h = absurd (cc ((h 0 (omega arith)).1))

  -- What one round leaves: entry `i` is free, the later ones are as they were.
  record Round (i : ℕ) (s : Slab A) (r : Option A) (t : Slab A) : Type ℓ where
    sound : IsValid t
    same_length : length t.entries ≡ length s.entries
    later : drop (suc i) t.entries ≡ drop (suc i) s.entries
    taken : values (drop i s.entries) ≡ kept r (values (drop (suc i) s.entries))
    freed : FreeBelow (suc i) t.entries

  Round-free :
      (s : Slab A) (i g : ℕ)
      → IsValid s
      → FreeBelow i s.entries
      → get_elem? s.entries i ≡ some (free g)
      → Round i s none s
  unfolding kept
  Round-free s i g w below e = record {
    sound = w;
    same_length = refl;
    later = refl;
    taken = drop_free s.entries i g e;
    freed = λ j h. elim (lt-cases j i) [
      | inl less ↦ below j less
      | inr (inl same) ↦ rw same (g, e)
      | inr (inr more) ↦ absurd (omega arith)
    ];
  }

  pub get_at :
      (s : Slab A) (i g : ℕ) (v : A)
      → IsValid s
      → get_elem? s.entries i ≡ some (live g v)
      → (get s (Cookie.new i g) ≡ some v) × (index (Cookie.new i g) ≡ i)
  unfolding get
  get_at s i g v w e =
      let small : i < u32_mod =
        omega (arith, get_elem?-lt s.entries i (live g v) e, w.addressable) in
      let word : (0 < g) × (g < u32_mod) =
        All-get_elem? IsGeneration s.entries i (live g v) w.generations e in
      (ground (arith, index-new i g small, generation-new i g small word.1, e), index-new i g small)

  Round-live :
      (s : Slab A) (i g : ℕ) (v : A)
      → IsValid s
      → FreeBelow i s.entries
      → get_elem? s.entries i ≡ some (live g v)
      → Round i s (remove s (Cookie.new i g)).0 (remove s (Cookie.new i g)).1
  unfolding kept retire
  Round-live s i g v w below e =
      let (found, place) = get_at s i g v w e in
      let gen : ℕ = bump (generation (Cookie.new i g)) in
      let sound : IsValid (remove s (Cookie.new i g)).1 = remove-IsValid s (Cookie.new i g) w in
      let sound' : IsValid (retire s (Cookie.new i g)) =
        rw (remove_hit s (Cookie.new i g) v found) at sound in
      rw (remove_hit s (Cookie.new i g) v found) (record {
        sound = sound';
        same_length = length-set s.entries _ _;
        later = rw place (drop-set s.entries i (free gen));
        taken = drop_live s.entries i g v e;
        freed = λ j h. elim (lt-cases j i) [
          | inl less ↦ (
            (below j less).0,
            rw place (
                get_elem?-set_ne s.entries i j (free gen) (λ q. absurd (omega arith))
                ∙ (below j less).1),
          )
          | inr (inl same) ↦ (
            gen,
            rw (place, same)
                (get_elem?-set_self s.entries i (free gen) (get_elem?-lt s.entries i _ e)),
          )
          | inr (inr more) ↦ absurd (omega arith)
        ];
      })

  one-Round :
      (s : Slab A) (i : ℕ) (x : Entry A)
      → IsValid s
      → FreeBelow i s.entries
      → get_elem? s.entries i ≡ some x
      → Round i s (take_at (some x) i s).0 (take_at (some x) i s).1
  unfolding take_at
  one-Round s i (free g) w below e = Round-free s i g w below e
  one-Round s i (live g v) w below e = Round-live s i g v w below e

  -- What the loop leaves when it ends.
  pub record Emptied (vs : List A) (out : List A) (t : Slab A) : Type ℓ where
    pub sound : IsValid t
    pub taken : out ≡ vs
    pub freed : FreeBelow (length t.entries) t.entries

  Round-Emptied :
      (i : ℕ) (s t u : Slab A) (r : Option A) (out : List A)
      → Round i s r t
      → Emptied (values (drop (suc i) t.entries)) out u
      → Emptied (values (drop i s.entries)) (kept r out) u
  Round-Emptied i s t u r out a b = record {
    sound = b.sound;
    taken = ap (kept r) (b.taken ∙ ap values a.later) ∙ sym a.taken;
    freed = b.freed;
  }

  take_from_lem :
      (rounds i : ℕ) (s : Slab A)
      → IsValid s
      → rounds + i ≡ length s.entries
      → FreeBelow i s.entries
      → Emptied (values (drop i s.entries)) (take_from rounds i s).0 (take_from rounds i s).1
  unfolding take_from
  take_from_lem zero i s w h below = record {
    sound = w;
    taken = sym (drop_all s.entries i (omega arith));
    freed = λ j k. below j (omega arith);
  }
  take_from_lem (suc rounds) i s w h below =
      let (x, e) = get_elem?-some s.entries i (omega arith) in
      let r = one-Round s i x w below e in
      let (v, t) = take_at (some x) i s in
      let rest = take_from_lem rounds (suc i) t r.sound (omega (arith, r.same_length)) r.freed in
      rw (e, take_from) (Round-Emptied i s t _ v _ r rest)

  -- On a sound slab `take_all` hands out every live payload once, in order of index. It leaves the
  -- slab sound and without a live entry, and no cookie resolves afterwards.
  pub take_all_lem :
      (s : Slab A) (c : Cookie)
      → IsValid s
      → ((take_all s).0 ≡ values s.entries)
        × IsValid (take_all s).1
        × (len (take_all s).1 ≡ 0)
        × (get (take_all s).1 c ≡ none)
  unfolding take_all len get
  take_all_lem s c w =
      let e = take_from_lem (length s.entries) 0 s w (omega arith) (λ j h. absurd (omega arith)) in
      let t = (take_from (length s.entries) 0 s).1 in
      (
        e.taken,
        e.sound,
        e.sound.counted ∙ count_live-free t.entries e.freed,
        elim (lt-cases (index c) (length t.entries)) [
          | inl less ↦ rw ((e.freed (index c) less).1)
          | inr (inl same) ↦ rw (get_elem?-none t.entries (index c) (omega arith))
          | inr (inr more) ↦ rw (get_elem?-none t.entries (index c) (omega arith))
        ],
      )
