-- ===== src/Runtime/Slab/Places.antt =====
-- Where `Slab::insert` puts a value.
use koru.Prelude.{ℕ, ◌+◌, ◌≡◌, refl, Option, none, some, List, [], ◌∷◌, ◌++◌, arith, get_elem?, set}
use koru.Runtime.Slab.{Slab, Entry, free, live, insert, grow}
use koru.Runtime.Cookie
use koru.Runtime.Cookie.{
  Cookie, index, generation, index-new, generation-new, new_halves, new-lt, index-lt,
}

module _ {ℓ} {A : Type ℓ} where
  pub insert_recycles :
      (s : Slab A) (v : A) (i g : ℕ) (rest : List ℕ)
      → s.free_list ≡ i ∷ rest
      → get_elem? s.entries i ≡ some (free g)
      → insert s v
        ≡ some (
          Cookie.new i g,
          record {
            entries = set s.entries i (live g v);
            free_list = rest;
            live_count = s.live_count + 1;
          },
        )
  unfolding insert
  insert_recycles s v i g rest e f = ground (arith, e, f)

  pub insert_grows : (s : Slab A) (v : A) → s.free_list ≡ [] → insert s v ≡ some (grow s v)
  unfolding insert
  insert_grows s v e = ground (arith, e)

  -- An insertion that returns either recycles the first free entry or adds one at the end.
  pub data Placed (s : Slab A) (v : A) (t : Slab A) : Type ℓ where
    recycles :
        (i g : ℕ) (rest : List ℕ)
        → s.free_list ≡ i ∷ rest
        → get_elem? s.entries i ≡ some (free g)
        → t ≡ record {
          entries = set s.entries i (live g v);
          free_list = rest;
          live_count = s.live_count + 1;
        }
        → Placed s v t
    grows :
        s.free_list ≡ []
        → t ≡ record s { entries = s.entries ++ live 1 v ∷ []; live_count = s.live_count + 1 }
        → Placed s v t

  Placed-at :
      (s t : Slab A) (v : A) (c : Cookie) (i : ℕ) (rest : List ℕ) (o : Option (Entry A))
      → s.free_list ≡ i ∷ rest
      → get_elem? s.entries i ≡ o
      → insert s v ≡ some (c, t)
      → Placed s v t
  unfolding insert
  Placed-at s t v c i rest none e f h = absurd (ground (arith, e, f, h))
  Placed-at s t v c i rest (some (live g w)) e f h = absurd (ground (arith, e, f, h))
  Placed-at s t v c i rest (some (free g)) e f h = recycles i g rest e f (ground (arith, e, f, h))

  Placed-by :
      (s t : Slab A) (v : A) (c : Cookie) (fs : List ℕ)
      → s.free_list ≡ fs
      → insert s v ≡ some (c, t)
      → Placed s v t
  unfolding insert
  Placed-by s t v c [] e h = grows e (ground (arith, e, h))
  Placed-by s t v c (i ∷ rest) e h = Placed-at s t v c i rest (get_elem? s.entries i) e refl h

  pub insert-Placed : (s t : Slab A) (v : A) (c : Cookie) → insert s v ≡ some (c, t) → Placed s v t
  insert-Placed s t v c h = Placed-by s t v c s.free_list refl h
