-- ===== src/Kernel/Ops/Deferrals.antt =====
-- The operations that a worker finishes, as they leave the ring: an operation registered with what
-- it holds, or an answer and nothing changed.
use koru.Prelude.{
  ℕ, ◌+◌, ◌-◌, ◌≡◌, ◌≢◌, refl, ap, inl, inr, Option, none, some, List, [], ◌∷◌, ◌++◌, arith, All,
  ==_refl, ==_ne, Bool-cases, Option-cases,
}
use koru.Kernel.Abi.{Sqe, Res, failed, Result, ok, err, enomem, eagain}
use koru.Kernel.Ring.Slots.{owned_of_busy}
use koru.Kernel.Host.{Host}
use koru.Kernel.Ctx.{RingCtx, OpWork, pending_remove}
use koru.Kernel.Ops.Shifts.{Shift, Shift-refl, nothing, one_if}
use koru.Kernel.Defer.{Deferral, new_op, counted, uncount, alloc_op, withdrawn, enqueued, defer}

-- The new operation's address is that of none that is registered.
abbrev pub IsFresh : Host → List OpWork → Type 0
IsFresh host ops = (a : ℕ) → host.alloc_op ≡ some a → All (λ op. op.address ≢ a) ops

-- An operation that was deferred is registered last, at the address that the kernel gave, and holds
-- `d` and `h`; one that was answered leaves everything as it was.
abbrev pub Left : Host → Sqe → (ℕ → ℕ) → (ℕ → ℕ) → RingCtx → Option Res → RingCtx → Type 0
Left host sqe d h me none t =
    (op : OpWork) × (op.sqe ≡ sqe)
    × (host.alloc_op ≡ some op.address)
    × (t.pending ≡ me.pending ++ op ∷ [])
    × Shift me t d h 1
Left host sqe d h me (some res) t = (t.pending ≡ me.pending) × Shift me t nothing nothing 0

abbrev pub Leaves : Host → Sqe → (ℕ → ℕ) → (ℕ → ℕ) → RingCtx → Deferral → Type 0
Leaves host sqe d h me o =
    (a : Option Res) × (t : RingCtx) × (o ≡ some (a, t)) × Left host sqe d h me a t

pending_remove_last :
    (ops : List OpWork) (op : OpWork)
    → All (λ e. e.address ≢ op.address) ops
    → pending_remove (ops ++ op ∷ []) op ≡ ops
unfolding pending_remove
pending_remove_last [] op h = rw (==_refl op.address)
pending_remove_last (e ∷ es) op h =
    rw (==_ne e.address op.address h.0, pending_remove_last es op h.1)

-- Another number in flight, and another registry.
pub Shift-recount :
    (me : RingCtx) (k n : ℕ) (ops : List OpWork)
    → k ≡ me.state.inflight + n
    → Shift me
        (record me { state = record me.state { inflight = k }; pending = ops })
        nothing
        nothing
        n
Shift-recount me k n ops e = record {
  config = refl;
  cq = refl;
  head = refl;
  len = refl;
  reserved = refl;
  inflight = e;
  words = refl;
  slots = λ x.
      omega (arith, ap one_if (owned_of_busy (record me.state { inflight = k }) me.state x refl));
  handles = λ i. omega arith;
}

Shift-uncount :
    (me : RingCtx) (ops : List OpWork)
    → (t : RingCtx) × (uncount (record (counted me) { pending = ops }) ≡ some t)
      × (t.pending ≡ ops)
      × Shift me t nothing nothing 0
unfolding uncount
Shift-uncount me ops = (
  record me { state = record me.state { inflight = me.state.inflight + 1 - 1 }; pending = ops },
  ground arith,
  refl,
  Shift-recount me (me.state.inflight + 1 - 1) 0 ops (omega arith),
)

-- What the allocation of an operation comes to.
abbrev pub Allocated : Host → Sqe → RingCtx → Result OpWork → RingCtx → Type 0
Allocated host sqe me (ok op) t =
    (op.sqe ≡ sqe)
    × (host.alloc_op ≡ some op.address)
    × (t ≡ record (counted me) { pending = me.pending ++ op ∷ [] })
Allocated host sqe me (err e) t = (t.pending ≡ me.pending) × Shift me t nothing nothing 0

module _ (host : Host) (sqe : Sqe) (file : Option ℕ) (interest : ℕ) (me : RingCtx) where
  pub alloc_op_lem :
      (r : Result OpWork) × (t : RingCtx) × (alloc_op host sqe file interest me ≡ some (r, t))
      × Allocated host sqe me r t
  unfolding alloc_op
  alloc_op_lem = elim (Option-cases host.alloc_op) [
    | inl e ↦ (err enomem, me, rw e refl, (refl, Shift-refl me))
    | inr (a, e) ↦ elim (Bool-cases host.can_push) [
      | inl yes_ ↦
          let op = new_op sqe file interest a in
          (
            ok op,
            record (counted me) { pending = me.pending ++ op ∷ [] },
            rw (e, yes_) refl,
            (refl, e, refl),
          )
      | inr no_ ↦
          let (t, run, same, p) = Shift-uncount me me.pending in
          (err enomem, t, rw (e, no_, run) refl, (same, p))
    ]
  ]

-- A registered operation that is withdrawn leaves everything as it was.
pub withdrawn_lem :
    (me : RingCtx) (op : OpWork) (res : Res)
    → All (λ e. e.address ≢ op.address) me.pending
    → (t : RingCtx) × (withdrawn op res (record (counted me) { pending = me.pending ++ op ∷ [] })
        ≡ some (some res, t))
      × (t.pending ≡ me.pending)
      × Shift me t nothing nothing 0
unfolding withdrawn
withdrawn_lem me op res apart =
    let (t, run, same, p) = Shift-uncount me me.pending in
    (t, rw (pending_remove_last me.pending op apart, run) refl, same, p)

-- An operation that was allocated, as one that is left on the ring.
Left-ok :
    (host : Host) (sqe : Sqe) (me t : RingCtx) (op : OpWork)
    → op.sqe ≡ sqe
    → host.alloc_op ≡ some op.address
    → t ≡ record (counted me) { pending = me.pending ++ op ∷ [] }
    → Left host sqe nothing nothing me none t
Left-ok host sqe me t op same at made =
    rw made
      (op, same, at, refl, Shift-recount me (me.state.inflight + 1) 1 (me.pending ++ op ∷ []) refl)

enqueued_lem :
    (host : Host) (sqe : Sqe) (jiffies : ℕ) (me t : RingCtx) (r : Result OpWork)
    → IsFresh host me.pending
    → Allocated host sqe me r t
    → Leaves host sqe nothing nothing me (enqueued host jiffies (r, t))
unfolding enqueued
enqueued_lem host sqe jiffies me t (err e) fresh left = (some (failed e), t, refl, left)
enqueued_lem host sqe jiffies me t (ok op) fresh (same, at, made) =
    elim (Bool-cases (host.enqueue_delayed jiffies)) [
      | inl queued ↦ (none, t, rw queued refl, Left-ok host sqe me t op same at made)
      | inr refused ↦
          let (u, back, ops, q) = withdrawn_lem me op (failed eagain) (fresh op.address at) in
          (some (failed eagain), u, rw (refused, made, back) refl, (ops, q))
    ]

-- The queueing of an operation: deferred with nothing held yet, or answered and undone.
pub defer_lem :
    (host : Host) (sqe : Sqe) (jiffies : ℕ) (file : Option ℕ) (me : RingCtx)
    → IsFresh host me.pending
    → Leaves host sqe nothing nothing me (defer host sqe jiffies file me)
unfolding defer
defer_lem host sqe jiffies file me fresh =
    let (r, t, run, left) = alloc_op_lem host sqe file 0 me in
    rw run (enqueued_lem host sqe jiffies me t r fresh left)
