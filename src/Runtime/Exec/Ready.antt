-- ===== src/Runtime/Exec/Ready.antt =====
-- The ready queue is first in, first out, and holds a task once.
use koru.Prelude.{
  ◌≡◌, ◌≢◌, refl, sym, inl, inr, true, false, List, [], ◌∷◌, ◌++◌, arith, All, Distinct, Bool-cases,
  ◌||◌, ◌==◌, if◌then◌else◌, ==_ne, ℕ-cases, append-nil,
}
use koru.Runtime.Cookie.{Cookie}
use koru.Runtime.Reactor.{Inner, wake, contains}

contains-append :
    (xs : List Cookie) (id d : Cookie) → contains (xs ++ id ∷ []) d ≡ (contains xs d || (id == d))
contains-append [] id d = ground arith
contains-append (x ∷ xs) id d = ground (arith, contains-append xs id d)

All-append_one :
    (xs : List Cookie) (y id : Cookie)
    → All (λ x. y ≢ x) xs
    → y ≢ id
    → All (λ x. y ≢ x) (xs ++ id ∷ [])
All-append_one [] y id h ne = (ne, tt)
All-append_one (x ∷ xs) y id h ne = (h.0, All-append_one xs y id h.1 ne)

Distinct-append_one :
    (xs : List Cookie) (id : Cookie)
    → contains xs id ≡ false
    → Distinct xs
    → Distinct (xs ++ id ∷ [])
Distinct-append_one [] id h w = (tt, tt)
Distinct-append_one (x ∷ xs) id h w = (
  All-append_one xs x id w.0 (λ e. ground (arith, h, e)),
  Distinct-append_one xs id (ground (arith, h)) w.1,
)

already :
    (xs : List Cookie) (id d : Cookie)
    → contains xs id ≡ true
    → contains xs d ≡ (contains xs d || (id == d))
already xs id d h = elim (ℕ-cases id d) [
  | inl same ↦ rw (← same, h) refl
  | inr ne ↦ ground (arith, ==_ne id d ne)
]

-- In a ready queue without repetitions, waking a task adds it at the end, unless it is there; the
-- queue stays without repetitions, and holds what it held and the task.
pub wake_lem :
    (s : Inner) (id d : Cookie)
    → Distinct s.ready_queue
    → Distinct (wake s id).ready_queue
      × (contains (wake s id).ready_queue d ≡ (contains s.ready_queue d || (id == d)))
      × ((wake s id).ready_queue
          ≡ s.ready_queue ++ (if contains s.ready_queue id then [] else id ∷ []))
unfolding wake
wake_lem s id d w = elim (Bool-cases (contains s.ready_queue id)) [
  | inl there ↦ rw there (w, already s.ready_queue id d there, sym (append-nil s.ready_queue))
  | inr new ↦
      rw new (Distinct-append_one s.ready_queue id new w, contains-append s.ready_queue id d, refl)
]
