-- ===== src/Kernel/Ops/Polls.antt =====
-- POLL_ADD, which holds neither slot nor handle: armed, or answered and undone.
use Prim.Native.Nat.{bit_and, bit_or}
use koru.Prelude.{
  ℕ, ◌+◌, ◌≡◌, ◌≢◌, refl, inl, inr, false, not, ◌||◌, Option, none, some, List, [], ◌∷◌, ◌++◌, All,
  ◌==◌, ==_refl, ==_ne, Bool-cases,
}
use koru.Prelude.Words.{complement}
use koru.Kernel.Abi.{Sqe, Res, failed, Result, ok, err, einval}
use koru.Kernel.Handles.{resolve}
use koru.Kernel.Poll.{poll_to_kernel, poll_always, koru_poll_events_all}
use koru.Kernel.Host.{Host}
use koru.Kernel.Ctx.{RingCtx, OpWork}
use koru.Kernel.Ops.Shifts.{Shift-refl, nothing}
use koru.Kernel.Ops.Deferrals.{
  IsFresh, Left, Leaves, Allocated, Shift-recount, alloc_op_lem, withdrawn_lem,
}
use koru.Kernel.Defer.{
  counted, mark_taken, take_token, settled, armed, polled, poll_op, poll_answer,
}

mark_taken_last :
    (ops : List OpWork) (op : OpWork)
    → All (λ e. e.address ≢ op.address) ops
    → mark_taken (ops ++ op ∷ []) op ≡ ops ++ take_token op ∷ []
unfolding mark_taken
mark_taken_last [] op h = rw (==_refl op.address)
mark_taken_last (e ∷ es) op h = rw (==_ne e.address op.address h.0, mark_taken_last es op h.1)

module _ (host : Host) (sqe : Sqe) (me : RingCtx) (fresh : IsFresh host me.pending) where
  -- The registered operation `op`.
  abbrev with_op : OpWork → RingCtx
  with_op op = record (counted me) { pending = me.pending ++ op ∷ [] }

  registered-Left :
      (op : OpWork)
      → op.sqe ≡ sqe
      → host.alloc_op ≡ some op.address
      → Left host sqe nothing nothing me none (with_op op)
  registered-Left op same at =
      (op, same, at, refl, Shift-recount me (me.state.inflight + 1) 1 (me.pending ++ op ∷ []) refl)

  unwoken_lem :
      (op : OpWork) (answer : Option Res)
      → op.sqe ≡ sqe
      → host.alloc_op ≡ some op.address
      → host.poll_woken ≡ false
      → Leaves host sqe nothing nothing me (settled host op (with_op op) answer)
  unfolding settled
  unwoken_lem op none same at quiet = (none, with_op op, rw quiet refl, registered-Left op same at)
  unwoken_lem op (some res) same at quiet =
      let (u, back, ops, q) = withdrawn_lem me op res (fresh op.address at) in
      (some res, u, rw (quiet, back) refl, (ops, q))

  settled_lem :
      (op : OpWork) (answer : Option Res)
      → op.sqe ≡ sqe
      → host.alloc_op ≡ some op.address
      → Leaves host sqe nothing nothing me (settled host op (with_op op) answer)
  unfolding settled
  settled_lem op answer same at = elim (Bool-cases host.poll_woken) [
    | inl woken ↦ (
      none,
      with_op (take_token op),
      rw (woken, mark_taken_last me.pending op (fresh op.address at)) refl,
      registered-Left (take_token op) same at,
    )
    | inr quiet ↦ unwoken_lem op answer same at quiet
  ]

  armed_lem :
      (file interest : ℕ) (r : Result OpWork) (t : RingCtx)
      → Allocated host sqe me r t
      → Leaves host sqe nothing nothing me (armed host file interest (r, t))
  unfolding armed
  armed_lem file interest (err e) t left = (some (failed e), t, refl, left)
  armed_lem file interest (ok op) t (same, at, made) =
      let (mask, heads) = host.poll_arm file interest in
      rw made
        (settled_lem op (poll_answer (bit_and mask (bit_or interest poll_always)) heads) same at)

  polled_lem : (r : Result ℕ) → Leaves host sqe nothing nothing me (polled host sqe me r)
  unfolding polled
  polled_lem (err e) = (some (failed e), me, refl, (refl, Shift-refl me))
  polled_lem (ok file) =
      let (r, t, run, left) = alloc_op_lem host sqe (some file) (poll_to_kernel sqe.len) me in
      rw run (armed_lem file (poll_to_kernel sqe.len) r t left)

  refused : Leaves host sqe nothing nothing me (some (some (failed einval), me))
  refused = (some (failed einval), me, refl, (refl, Shift-refl me))

  -- POLL_ADD leaves an armed operation behind, or an answer and nothing changed, also where a wake
  -- comes between the arm and the answer.
  pub poll_op_lem : Leaves host sqe nothing nothing me (poll_op host sqe me)
  unfolding poll_op
  poll_op_lem = elim (Bool-cases (not (sqe.off == 0) || not (sqe.slot == 0))) [
    | inl bad ↦ rw bad refused
    | inr good ↦
        elim (Bool-cases
          (sqe.len == 0 || not (bit_and sqe.len (complement 32 koru_poll_events_all) == 0))) [
            | inl bad ↦ rw (good, bad) refused
            | inr fine ↦ rw (good, fine) (polled_lem (resolve me.handles sqe.handle))
          ]
  ]
