-- ===== src/Runtime/Slab/History.antt =====
-- Histories of the slab: sequences of calls, each on what the one before left.
use koru.Prelude.{
  ℕ, ◌+◌, ◌≤◌, ◌<◌, ◌≡◌, ap, subst, inl, inr, Option, none, some, List, [], ◌∷◌, arith, length,
  length-append, Option-cases,
}
use koru.Prelude.Words.{u32_mod}
use koru.Runtime.Slab.{Slab, live, get_mut, insert, remove, take_all}
use koru.Runtime.Slab.Invariant.{IsValid}
use koru.Runtime.Slab.Places.{Placed, recycles, grows, insert-Placed}
use koru.Runtime.Slab.Insert.{insert-Inserted}
use koru.Runtime.Slab.Remove.{remove-IsValid}
use koru.Runtime.Slab.Update.{get_mut-IsValid}
use koru.Runtime.Slab.TakeAll.{take_all_lem}
use koru.Runtime.Slab.TakeAges.{take_all-Ages, length-take_all}
use koru.Runtime.Slab.Ages.{Ages, length-remove, remove-Ages, get_mut-Ages, insert-Ages}
use koru.Runtime.Cookie.{Cookie}

-- One use of the slab, and what it makes of it; `none` where it panics.
pub data Call {ℓ} (A : Type ℓ) : Type ℓ where
  inserts : A → Call A
  writes : Cookie → (A → A) → Call A
  removes : Cookie → Call A
  takes_all : Call A

module _ {ℓ} {A : Type ℓ} where
  after_insert : Option (Cookie × Slab A) → Option (Slab A)
  after_insert none = none
  after_insert (some (c, t)) = some t

  unfoldable pub step : Slab A → Call A → Option (Slab A)
  unfolding after_insert
  step s (inserts v) = after_insert (insert s v)
  step s (writes c f) = some (get_mut s c f)
  step s (removes c) = some (remove s c).1
  step s takes_all = some (take_all s).1

  unfoldable pub run : Slab A → List (Call A) → Option (Slab A)
  unfolding step
  run s [] = some s
  run s (k ∷ ks) = elim (step s k) [ none ↦ none | some t ↦ run t ks ]

  -- How often a call can retire one index.
  abbrev pub retires : Call A → ℕ
  retires (inserts v) = 0
  retires (writes c f) = 0
  retires (removes c) = 1
  retires takes_all = 1

  abbrev pub retirements : List (Call A) → ℕ
  retirements [] = 0
  retirements (k ∷ ks) = retires k + retirements ks

  insert_step :
      (s t : Slab A) (v : A)
      → after_insert (insert s v) ≡ some t
      → (c : Cookie) × (insert s v ≡ some (c, t))
  unfolding after_insert
  insert_step s t v h = elim (Option-cases (insert s v)) [
    | inl e ↦ absurd (ground (arith, e, h))
    | inr ((c, u), e) ↦ (c, ground (arith, e, h))
  ]

  pub step-Ages : (s t : Slab A) (k : Call A) → IsValid s → step s k ≡ some t → Ages (retires k) s t
  unfolding step
  step-Ages s t (inserts v) w h = insert-Ages s t v (insert_step s t v h).0 (insert_step s t v h).1
  step-Ages s t (writes c f) w h = subst (Ages 0 s) (cc h) (get_mut-Ages s c f)
  step-Ages s t (removes c) w h = subst (Ages 1 s) (cc h) (remove-Ages s c)
  step-Ages s t takes_all w h = subst (Ages 1 s) (cc h) (take_all-Ages s w)

  room_of :
      (s t : Slab A) (v : A)
      → Placed s v t
      → length t.entries ≤ u32_mod
      → s.free_list ≡ []
      → length s.entries < u32_mod
  room_of s t v (recycles i g rest e f h) fits empty = absurd (ground (arith, e, empty))
  room_of s t v (grows e h) fits empty =
      omega
        (arith, ap (λ (u : Slab A). length u.entries) h, length-append s.entries (live 1 v ∷ []))

  insert_sound :
      (s t : Slab A) (v : A) (c : Cookie)
      → IsValid s
      → insert s v ≡ some (c, t)
      → length t.entries ≤ u32_mod
      → IsValid t
  insert_sound s t v c w h fits =
      let (d, u, e, i) = insert-Inserted s v w (room_of s t v (insert-Placed s t v c h) fits) in
      subst IsValid (ground (arith, e, h)) i.sound

  pub step-IsValid :
      (s t : Slab A) (k : Call A)
      → IsValid s
      → step s k ≡ some t
      → length t.entries ≤ u32_mod
      → IsValid t
  unfolding step
  step-IsValid s t (inserts v) w h fits =
      let (c, e) = insert_step s t v h in insert_sound s t v c w e fits
  step-IsValid s t (writes c f) w h fits = subst IsValid (cc h) (get_mut-IsValid f s c w)
  step-IsValid s t (removes c) w h fits = subst IsValid (cc h) (remove-IsValid s c w)
  step-IsValid s t takes_all w h fits = subst IsValid (cc h) (take_all_lem s 0 w).1

  ap-length : (s t u : Slab A) → t ≡ u → length t.entries ≡ length u.entries
  ap-length s t u e = ap (λ (r : Slab A). length r.entries) e

  step-widens :
      (s t : Slab A) (k : Call A) → step s k ≡ some t → length s.entries ≤ length t.entries
  unfolding step
  step-widens s t (inserts v) h = let (c, e) = insert_step s t v h in (insert-Ages s t v c e).widens
  step-widens s t (writes c f) h =
      omega (arith, ap-length s (get_mut s c f) t (cc h), (get_mut-Ages s c f).widens)
  step-widens s t (removes c) h =
      omega (arith, ap-length s (remove s c).1 t (cc h), length-remove s c)
  step-widens s t takes_all h =
      omega (arith, ap-length s (take_all s).1 t (cc h), length-take_all s)

  pub run-widens :
      (s u : Slab A) (ks : List (Call A)) → run s ks ≡ some u → length s.entries ≤ length u.entries
  unfolding run
  run-widens s u [] h = omega (arith, ap-length s s u (cc h))
  run-widens s u (k ∷ ks) h = elim (Option-cases (step s k)) [
    | inl e ↦ absurd (cc (rw (e, run) at h))
    | inr (t, e) ↦ omega (arith, step-widens s t k e, run-widens t u ks (rw (e, run) at h))
  ]
