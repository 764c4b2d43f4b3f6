-- ===== src/Kernel/Submit/Reap.antt =====
-- `reap` takes completions off the front of the queue, in order, and loses none to a failing copy.
use koru.Prelude.{
  ℕ, zero, suc, ◌+◌, ◌<◌, ◌≤◌, ◌≡◌, refl, sym, ap, ◌∙◌, ◌⊎◌, inl, inr, Bool, true, false, Option,
  none, some, List, [], ◌∷◌, ◌++◌, arith, length, ℕ-cases, Bool-cases,
}
use koru.Prelude.Partial.{◌>>=◌, >>=-eq-some, some_inj}
use koru.Kernel.Abi.{Cqe}
use koru.Kernel.Ring.{RingState, front, pop}
use koru.Kernel.Ring.Queue.{queue, IsSound, pop_lem, front_empty}
use koru.Kernel.Submit.{reap, reap_from, popped}

module _ (writes : ℕ → Bool) where
  -- What a reap of at most `space` owes, after `done` copies.
  Reaped : ℕ → ℕ → RingState → Option (List Cqe × RingState) → Type 0
  Reaped space done s o =
      (out : List Cqe) × (t : RingState) × (o ≡ some (out, t))
      × IsSound t
      × (queue s ≡ out ++ queue t)
      × (length out ≤ space)
      × (t.reserved ≡ s.reserved)
      × (t.inflight ≡ s.inflight)
      × ((length out ≡ space) ⊎ ((queue t ≡ []) ⊎ (writes (done + length out) ≡ false)))

  shift :
      (done space : ℕ) (out : List Cqe) (u : RingState)
      → (length out ≡ space) ⊎ ((queue u ≡ []) ⊎ (writes (suc done + length out) ≡ false))
      → (suc (length out) ≡ suc space)
        ⊎ ((queue u ≡ []) ⊎ (writes (done + suc (length out)) ≡ false))
  shift done space out u (inl e) = inl (ap suc e)
  shift done space out u (inr (inl e)) = inr (inl e)
  shift done space out u (inr (inr e)) =
      let same : done + suc (length out) ≡ suc done + length out = omega arith in
      inr (inr (ap writes same ∙ e))

  at_zero : (done : ℕ) → writes done ≡ false → writes (done + 0) ≡ false
  at_zero done e = let same : done + 0 ≡ done = omega arith in ap writes same ∙ e

  module _ (space done : ℕ) (next : RingState → Option (List Cqe × RingState)) (s : RingState)
      (w : IsSound s)
      (later : (t : RingState) → IsSound t → Reaped space (suc done) t (next t)) where
    Reaped-none :
        s.len ≡ 0 → Reaped (suc space) done s (front s >>= λ c. popped next (writes done) s c)
    unfolding Reaped popped
    Reaped-none h =
        let (nothing, empty) = front_empty s h in
        ([], s, rw nothing refl, w, refl, omega arith, refl, refl, inr (inl empty))

    Reaped-some :
        0 < s.len → Reaped (suc space) done s (front s >>= λ c. popped next (writes done) s c)
    unfolding Reaped popped
    Reaped-some h =
        let (t, c, shown, off, sound, first, res, fly) = pop_lem s w h in
        let (out, u, run, last, rest, few, res', fly', stop) = later t sound in
        elim (Bool-cases (writes done)) [
          | inl copied ↦ (
            c ∷ out,
            u,
            rw (shown, copied, off, run) refl,
            last,
            first ∙ ap (λ (l : List Cqe). c ∷ l) rest,
            omega (arith, few),
            res' ∙ res,
            fly' ∙ fly,
            shift done space out u stop,
          )
          | inr kept ↦ (
            [],
            s,
            rw (shown, kept) refl,
            w,
            refl,
            omega arith,
            refl,
            refl,
            inr (inr (at_zero done kept)),
          )
        ]

  reap_from_lem :
      (space done : ℕ) (s : RingState)
      → IsSound s
      → Reaped space done s (reap_from writes space done s)
  unfolding reap_from Reaped
  reap_from_lem zero done s w = ([], s, refl, w, refl, omega arith, refl, refl, inl refl)
  reap_from_lem (suc space) done s w = elim (ℕ-cases s.len 0) [
    | inl empty ↦
        Reaped-none space done (reap_from writes space (suc done)) s w
          (reap_from_lem space (suc done)) empty
    | inr more ↦
        Reaped-some space done (reap_from writes space (suc done)) s w
          (reap_from_lem space (suc done)) (omega arith)
  ]

-- A reap of a sound ring returns. What it copied out is the front of the queue, in order and no
-- more than asked; what is left stays queued, also where a copy fails; no reservation and no
-- operation in flight is touched. It stops early only where the queue is empty or a copy failed.
pub reap_lem :
    (writes : ℕ → Bool) (s : RingState) (cq_space : ℕ)
    → IsSound s
    → (out : List Cqe) × (t : RingState) × (reap writes s cq_space ≡ some (out, t))
      × IsSound t
      × (queue s ≡ out ++ queue t)
      × (length out ≤ cq_space)
      × (t.reserved ≡ s.reserved)
      × (t.inflight ≡ s.inflight)
      × ((length out ≡ cq_space) ⊎ ((queue t ≡ []) ⊎ (writes (0 + length out) ≡ false)))
unfolding reap Reaped
reap_lem writes s cq_space w =
    let (out, t, run, sound, rest, few, res, fly, stop) = reap_from_lem writes cq_space 0 s w in
    (out, t, run, sound, rest, few, res, fly, stop)

busy-pop : (s t : RingState) → pop s ≡ some t → t.slot_busy ≡ s.slot_busy
unfolding pop
busy-pop s t h = ground (arith, h)

module _ (next : RingState → Option (List Cqe × RingState))
    (keeps : (s t : RingState) (out : List Cqe)
      → next s ≡ some (out, t)
      → t.slot_busy ≡ s.slot_busy) where
  busy-popped :
      (copied : Bool) (s t : RingState) (c : Option Cqe) (out : List Cqe)
      → popped next copied s c ≡ some (out, t)
      → t.slot_busy ≡ s.slot_busy
  unfolding popped
  busy-popped copied s t none out h =
      sym (ap (λ (p : List Cqe × RingState). p.1.slot_busy) (some_inj h))
  busy-popped false s t (some c) out h =
      sym (ap (λ (p : List Cqe × RingState). p.1.slot_busy) (some_inj h))
  busy-popped true s t (some c) out h =
      let (u, off, later) = >>=-eq-some (pop s) _ h in
      let ((rest, v), on, same) = >>=-eq-some (next u) _ later in
      sym (ap (λ (p : List Cqe × RingState). p.1.slot_busy) (some_inj same))
      ∙ keeps u v rest on
      ∙ busy-pop s u off

busy-reap_from :
    (writes : ℕ → Bool) (space done : ℕ) (s t : RingState) (out : List Cqe)
    → reap_from writes space done s ≡ some (out, t)
    → t.slot_busy ≡ s.slot_busy
unfolding reap_from
busy-reap_from writes zero done s t out h =
    sym (ap (λ (p : List Cqe × RingState). p.1.slot_busy) (some_inj h))
busy-reap_from writes (suc space) done s t out h =
    let (c, seen, rest) = >>=-eq-some (front s) _ h in
    busy-popped (reap_from writes space (suc done))
      (λ u v more e. busy-reap_from writes space (suc done) u v more e) (writes done) s t c out rest

-- A reap leaves the slots alone.
pub busy-reap :
    (writes : ℕ → Bool) (s t : RingState) (out : List Cqe) (cq_space : ℕ)
    → reap writes s cq_space ≡ some (out, t)
    → t.slot_busy ≡ s.slot_busy
unfolding reap
busy-reap writes s t out cq_space h = busy-reap_from writes cq_space 0 s t out h
