-- ===== src/Kernel/Submit/Complete.antt =====
-- `complete` on a sound ring.
use koru.Prelude.{
  ℕ, ◌+◌, ◌-◌, ◌/◌, ◌<◌, ◌≡◌, refl, ap, sym, ◌∙◌, inl, inr, Bool, false, some, List, [], ◌∷◌, ◌++◌,
  arith, ◌==◌, if◌then◌else◌, get_elem?, Option-cases,
}
use koru.Prelude.Partial.{minus, some_inj}
use koru.Kernel.Abi.{Cqe}
use koru.Kernel.Ring.{RingState, slot_release, post}
use koru.Kernel.Ring.Queue.{IsSound, queue, queue_of, post_lem}
use koru.Kernel.Ring.Slots.{owned, InArena, slot_release_lem, owned_of_busy}
use koru.Kernel.Submit.{complete, give_back}

pub release_keeps :
    (s t : RingState) (slot : ℕ)
    → slot_release s slot ≡ some t
    → (t.cq ≡ s.cq)
      × (t.head ≡ s.head)
      × (t.len ≡ s.len)
      × (t.reserved ≡ s.reserved)
      × (t.inflight ≡ s.inflight)
unfolding slot_release
release_keeps s t slot h = elim (Option-cases (get_elem? s.slot_busy (slot / 64))) [
  | inl e ↦ absurd (cc (rw e at h))
  | inr (w, e) ↦
      let k = some_inj (rw e at h) in
      (
        sym (ap (λ (r : RingState). r.cq) k),
        sym (ap (λ (r : RingState). r.head) k),
        sym (ap (λ (r : RingState). r.len) k),
        sym (ap (λ (r : RingState). r.reserved) k),
        sym (ap (λ (r : RingState). r.inflight) k),
      )
]

busy-post : (s t : RingState) (c : Cqe) → post s c ≡ some t → t.slot_busy ≡ s.slot_busy
unfolding post
busy-post s t c h = ground (arith, h)

-- On a sound ring with an operation in flight, the completion of one that holds an arena slot
-- returns and leaves the ring sound. The completion goes to the end of the queue, one operation
-- less is in flight and one place less reserved, the slot is free, and no other slot changes hands.
pub complete_lem :
    (s : RingState) (c : Cqe) (slot other : ℕ)
    → IsSound s
    → 0 < s.inflight
    → InArena s slot
    → (t : RingState) × (complete s c (some slot) ≡ some t)
      × IsSound t
      × (queue t ≡ queue s ++ c ∷ [])
      × (t.inflight + 1 ≡ s.inflight)
      × (t.reserved + 1 ≡ s.reserved)
      × (owned t other ≡ (if other == slot then false else owned s other))
unfolding complete give_back
complete_lem s c slot other w busy room =
    let s' : RingState = record s { inflight = s.inflight - 1 } in
    let (u, freed, owner) = slot_release_lem s' slot other room in
    let k = release_keeps s' u slot freed in
    let (t, put, sound, after, res, fly) =
      post_lem u c
        (record {
          bounded = ground (arith, k, w.bounded);
          placed = ground (arith, k, w.placed);
          deferred = ground (arith, k, w.deferred);
        })
        (ground (arith, k, w.deferred)) in
    let one_less : minus s.inflight 1 ≡ some (s.inflight - 1) = ground arith in
    (
      t,
      rw (one_less, freed) put,
      sound,
      after ∙ ap (λ (l : List Cqe). l ++ c ∷ []) (queue_of u s k.0 k.1 k.2),
      omega (arith, fly, k.4),
      omega (arith, res, k.3),
      owned_of_busy t u other (busy-post u t c put)
          ∙ owner
          ∙ ap (λ (b : Bool). if other == slot then false else b) (owned_of_busy s' s other refl),
    )
