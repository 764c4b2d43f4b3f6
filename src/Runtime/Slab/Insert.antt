-- ===== src/Runtime/Slab/Insert.antt =====
-- `Slab::insert` on a sound slab: it does not panic, and its cookie names the value.
use koru.Prelude.{
  ℕ, ◌+◌, ◌<◌, ◌≡◌, ◌≢◌, refl, ap, subst, ◌∙◌, none, some, List, [], ◌∷◌, ◌++◌, arith, inl, inr,
  length, get_elem?, set, All, Distinct, All-set, All-append, All-get_elem?, length-set,
  length-append, get_elem?-set_self, get_elem?-set_ne, get_elem?-lt, get_elem?-none,
  get_elem?-append_left, get_elem?-append_last, ℕ-cases, lt-cases,
}
use native.Mathlib.Nat.{mod-eq_of_lt}
use koru.Prelude.Words.{u32_mod, u64_mod}
use koru.Runtime.Slab.{Slab, free, live, insert, get, len, grow}
use koru.Runtime.Slab.Places.{insert_recycles, insert_grows}
use koru.Runtime.Slab.Invariant.{
  IsValid, IsGeneration, FreeAt, FreeAt-set, FreeAt-append, count_live-set_live, count_live-append,
}
use koru.Runtime.Cookie
use koru.Runtime.Cookie.{
  Cookie, index, generation, index-new, generation-new, new_halves, new-lt, index-lt,
}

module _ {ℓ} {A : Type ℓ} where
  -- What an insertion owes: the invariant, the new binding, and every other cookie's.
  pub record Inserted (s : Slab A) (v : A) (c : Cookie) (t : Slab A) : Type ℓ where
    pub sound : IsValid t
    pub word : c < u64_mod
    pub found : get t c ≡ some v
    pub counted : len t ≡ len s + 1
    pub others : (d : Cookie) → d < u64_mod → d ≢ c → get t d ≡ get s d
    pub fresh : get s c ≡ none

  module _ (s : Slab A) (v : A) (w : IsValid s) (i g : ℕ) (rest : List ℕ)
      (e : s.free_list ≡ i ∷ rest) (f : get_elem? s.entries i ≡ some (free g)) where
    in_range : i < u32_mod
    in_range = omega (arith, get_elem?-lt s.entries i (free g) f, w.addressable)

    in_word : (0 < g) × (g < u32_mod)
    in_word = All-get_elem? IsGeneration s.entries i (free g) w.generations f

    recycled : Slab A
    recycled = record {
      entries = set s.entries i (live g v);
      free_list = rest;
      live_count = s.live_count + 1;
    }

    recycled-IsValid : IsValid recycled
    unfolding recycled
    recycled-IsValid = record {
      generations = All-set IsGeneration s.entries i (live g v) w.generations in_word;
      frees =
          FreeAt-set s.entries i (live g v) rest (subst Distinct e w.distinct).0
            (subst (All (FreeAt s.entries)) e w.frees).1;
      distinct = (subst Distinct e w.distinct).1;
      counted = omega (arith, count_live-set_live s.entries i g g v f, w.counted);
      addressable = omega (arith, length-set s.entries i (live g v), w.addressable);
    }

    recycled_found : get recycled (Cookie.new i g) ≡ some v
    unfolding get recycled
    recycled_found = ground (
      arith,
      index-new i g in_range,
      generation-new i g in_range in_word.1,
      get_elem?-set_self s.entries i (live g v) (get_elem?-lt s.entries i (free g) f),
    )

    recycled_others : (d : Cookie) → d < u64_mod → d ≢ Cookie.new i g → get recycled d ≡ get s d
    unfolding get recycled
    recycled_others d h ne = elim (ℕ-cases i (index d)) [
      | inl same ↦ ground (
        arith,
        f,
        get_elem?-set_self s.entries i (live g v) (get_elem?-lt s.entries i (free g) f),
        new_halves d h,
      )
      | inr differ ↦ rw (get_elem?-set_ne s.entries i (index d) (live g v) differ)
    ]

    recycled_fresh : get s (Cookie.new i g) ≡ none
    unfolding get
    recycled_fresh = ground (arith, index-new i g in_range, f)

    recycled-Inserted : Inserted s v (Cookie.new i g) recycled
    unfolding recycled len
    recycled-Inserted = record {
      sound = recycled-IsValid;
      word = new-lt i g in_range in_word.1;
      found = recycled_found;
      counted = refl;
      others = recycled_others;
      fresh = recycled_fresh;
    }

  module _ (s : Slab A) (v : A) (w : IsValid s) (room : length s.entries < u32_mod) where
    grown : Slab A
    grown = record s { entries = s.entries ++ live 1 v ∷ []; live_count = s.live_count + 1 }

    end_cookie : Cookie
    end_cookie = Cookie.new (length s.entries) 1

    grown-IsValid : IsValid grown
    unfolding grown
    grown-IsValid = record {
      generations =
          All-append IsGeneration s.entries (live 1 v ∷ []) w.generations
            ((omega arith, omega arith), tt);
      frees = FreeAt-append s.entries (live 1 v) s.free_list w.frees;
      distinct = w.distinct;
      counted = omega (arith, count_live-append s.entries 1 v, w.counted);
      addressable = omega (arith, length-append s.entries (live 1 v ∷ []), room);
    }

    grown_found : get grown end_cookie ≡ some v
    unfolding get grown end_cookie
    grown_found = ground (
      arith,
      index-new (length s.entries) 1 room,
      generation-new (length s.entries) 1 room (omega arith),
      get_elem?-append_last s.entries (live 1 v),
    )

    grown_others : (d : Cookie) → d < u64_mod → d ≢ end_cookie → get grown d ≡ get s d
    unfolding get grown end_cookie
    grown_others d h ne = elim (lt-cases (index d) (length s.entries)) [
      | inl below ↦ rw (get_elem?-append_left s.entries (live 1 v ∷ []) (index d) below)
      | inr (inl at_end) ↦ ground (
        arith,
        at_end,
        get_elem?-append_last s.entries (live 1 v),
        get_elem?-none s.entries (length s.entries) (omega arith),
        new_halves d h,
      )
      | inr (inr past) ↦ ground (
        arith,
        get_elem?-none (s.entries ++ live 1 v ∷ []) (index d)
            (omega (arith, length-append s.entries (live 1 v ∷ []))),
        get_elem?-none s.entries (index d) (omega arith),
      )
    ]

    grown-Inserted : Inserted s v end_cookie grown
    unfolding grown end_cookie len get
    grown-Inserted = record {
      sound = grown-IsValid;
      word = new-lt (length s.entries) 1 room (omega arith);
      found = grown_found;
      counted = refl;
      others = grown_others;
      fresh = ground (
        arith,
        index-new (length s.entries) 1 room,
        get_elem?-none s.entries (length s.entries) (omega arith),
      );
    }

  insert_by :
      (s : Slab A) (v : A) (fs : List ℕ)
      → s.free_list ≡ fs
      → IsValid s
      → (s.free_list ≡ [] → length s.entries < u32_mod)
      → (c : Cookie) × (t : Slab A) × (insert s v ≡ some (c, t)) × Inserted s v c t
  unfolding grown end_cookie grow recycled
  insert_by s v [] e w room = (
    end_cookie s v w (room e),
    grown s v w (room e),
    insert_grows s v e
        ∙ ap (λ (n : ℕ). some (Cookie.new n 1, grown s v w (room e))) (mod-eq_of_lt (room e)),
    grown-Inserted s v w (room e),
  )
  insert_by s v (i ∷ rest) e w room =
      let (g, f) = (subst (All (FreeAt s.entries)) e w.frees).0 in
      (
        Cookie.new i g,
        recycled s v w i g rest e f,
        insert_recycles s v i g rest e f,
        recycled-Inserted s v w i g rest e f,
      )

  pub insert-Inserted :
      (s : Slab A) (v : A)
      → IsValid s
      → (s.free_list ≡ [] → length s.entries < u32_mod)
      → (c : Cookie) × (t : Slab A) × (insert s v ≡ some (c, t)) × Inserted s v c t
  insert-Inserted s v w room = insert_by s v s.free_list refl w room
