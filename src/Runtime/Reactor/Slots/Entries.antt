-- ===== src/Runtime/Reactor/Slots/Entries.antt =====
-- How the slab's operations change the number of live entries that hold a slot.
use koru.Prelude.{
  ℕ, zero, suc, ◌+◌, ◌≡◌, ap, inl, inr, some, List, [], ◌∷◌, ◌++◌, arith, get_elem?, set,
  Option-cases,
}
use koru.Runtime.Cookie.{Cookie, index, generation}
use koru.Runtime.Slab.{Slab, Entry, free, live, get, get_mut, remove, retire, insert}
use koru.Runtime.Slab.Remove.{get_inv, remove_hit, remove_miss}
use koru.Runtime.Slab.Update.{get_mut_hit, get_mut_miss, rewritten}
use koru.Runtime.Slab.Places.{recycles, grows, insert-Placed}
use koru.Runtime.Op.{Op}
use koru.Runtime.Reactor.{held_of}
use koru.Runtime.Reactor.Slots.{tally, weight, held}

module _ (x : ℕ) where
  held-set :
      (es : List (Entry (Op ℕ))) (i : ℕ) (e e' : Entry (Op ℕ))
      → get_elem? es i ≡ some e
      → held x (set es i e') + weight x e ≡ held x es + weight x e'
  held-set [] i e e' h = absurd (cc h)
  held-set (y ∷ es) zero e e' h = ground (arith, h)
  held-set (y ∷ es) (suc i) e e' h = omega (arith, held-set es i e e' h)

  held-append :
      (es : List (Entry (Op ℕ))) (e : Entry (Op ℕ)) → held x (es ++ e ∷ []) ≡ held x es + weight x e
  held-append [] e = omega arith
  held-append (y ∷ es) e = omega (arith, held-append es e)

  pub held-remove :
      (s : Slab (Op ℕ)) (c : Cookie)
      → held x (remove s c).1.entries + tally x (held_of (remove s c).0) ≡ held x s.entries
  unfolding retire
  held-remove s c = elim (Option-cases (get s c)) [
    | inl e ↦ rw (remove_miss s c e) (omega arith)
    | inr (v, e) ↦
        rw (remove_hit s c v e)
          (omega (arith, held-set s.entries (index c) _ (free _) (get_inv s c v e)))
  ]

  -- A write that keeps the slot.
  pub held-get_mut :
      (s : Slab (Op ℕ)) (c : Cookie) (f : Op ℕ → Op ℕ)
      → ((o : Op ℕ) → (f o).slot ≡ o.slot)
      → held x (get_mut s c f).entries ≡ held x s.entries
  unfolding rewritten
  held-get_mut s c f h = elim (Option-cases (get s c)) [
    | inl e ↦ rw (get_mut_miss f s c e)
    | inr (v, e) ↦ rw (get_mut_hit f s c v e) (
        omega (
          arith,
          held-set s.entries (index c) _ (live (generation c) (f v)) (get_inv s c v e),
          ap (tally x) (h v),
        ))
  ]

  pub held-insert :
      (s t : Slab (Op ℕ)) (o : Op ℕ) (c : Cookie)
      → insert s o ≡ some (c, t)
      → held x t.entries ≡ held x s.entries + tally x o.slot
  held-insert s t o c h = elim (insert-Placed s t o c h) [
    | recycles i g rest e f p ↦ rw p (omega (arith, held-set s.entries i (free g) (live g o) f))
    | grows e p ↦ rw p (held-append s.entries (live 1 o))
  ]

  pub held-get_mut-some :
      (s : Slab (Op ℕ)) (c : Cookie) (f : Op ℕ → Op ℕ) (o : Op ℕ)
      → get s c ≡ some o
      → held x (get_mut s c f).entries + tally x o.slot ≡ held x s.entries + tally x (f o).slot
  unfolding rewritten
  held-get_mut-some s c f o e =
      rw (get_mut_hit f s c o e)
        (held-set s.entries (index c) _ (live (generation c) (f o)) (get_inv s c o e))
