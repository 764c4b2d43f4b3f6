-- ===== src/Runtime/Slab/Laws.antt =====
-- The slab as a map from cookies to payloads: what `insert` and `get_mut` do to it.
use koru.Prelude.{
  ◌+◌, ◌<◌, ◌≡◌, inl, inr, none, some, [], length, ℕ-cases, Option-cases, ◌==◌, ==_refl, ==_ne,
  if◌then◌else◌,
}
use koru.Prelude.Partial.{◌>>=◌}
use koru.Prelude.Words.{u32_mod, u64_mod}
use koru.Runtime.Slab.{Slab, insert, get, get_mut, len}
use koru.Runtime.Slab.Invariant.{IsValid}
use koru.Runtime.Slab.Insert.{insert-Inserted}
use koru.Runtime.Slab.Update.{get_mut_miss, get_mut-IsValid, get-get_mut_self, get-get_mut_ne}
use koru.Runtime.Cookie.{Cookie}

module _ {ℓ} {A : Type ℓ} where
  -- On a sound slab that has an entry to recycle or an index left, `insert` returns. Its cookie
  -- named nothing before and names the value afterwards, every other cookie resolves as before, the
  -- slab stays sound and holds one value more.
  pub insert_lem :
      (s : Slab A) (v : A) (d : Cookie)
      → IsValid s
      → (s.free_list ≡ [] → length s.entries < u32_mod)
      → d < u64_mod
      → (c : Cookie) × (t : Slab A) × (insert s v ≡ some (c, t))
        × IsValid t
        × (c < u64_mod)
        × (get s c ≡ none)
        × (get t c ≡ some v)
        × (get t d ≡ (if d == c then some v else get s d))
        × (len t ≡ len s + 1)
  insert_lem s v d w room h =
      let (c, t, e, i) = insert-Inserted s v w room in
      (
        c,
        t,
        e,
        i.sound,
        i.word,
        i.fresh,
        i.found,
        elim (ℕ-cases d c) [
          | inl same ↦ rw (same, ==_refl c) i.found
          | inr ne ↦ rw (==_ne d c ne) (i.others d h ne)
        ],
        i.counted,
      )

  -- On a sound slab a write through `get_mut` changes what its cookie resolves to, if it resolves,
  -- and what no other does, and the slab stays sound.
  pub get_mut_lem :
      (f : A → A) (s : Slab A) (c d : Cookie)
      → IsValid s
      → c < u64_mod
      → d < u64_mod
      → IsValid (get_mut s c f)
        × (get (get_mut s c f) d ≡ (if c == d then get s d >>= (λ v. some (f v)) else get s d))
  get_mut_lem f s c d w h k = (
    get_mut-IsValid f s c w,
    elim (ℕ-cases c d) [
      | inl same ↦
          rw (← same, ==_refl c)
            (elim (Option-cases (get s c)) [
              | inl e ↦ rw (get_mut_miss f s c e, e)
              | inr (v, e) ↦ rw (get-get_mut_self f s c v e, e)
            ])
      | inr ne ↦ rw (==_ne c d ne) (get-get_mut_ne f s c d h k ne)
    ],
  )
