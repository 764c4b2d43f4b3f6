-- ===== src/Kernel/Ops/Balance.antt =====
-- `dispatch` keeps the ring's accounts, whatever the opcode and whatever the kernel answers.
use koru.Prelude.{
  ℕ, ◌<◌, ◌≡◌, refl, ◌∙◌, inl, inr, true, false, not, ◌||◌, Option, none, some, arith, get_elem?,
  ltb, ◌==◌, Bool-cases, if◌then◌else◌,
}
use koru.Prelude.Partial.{◌>>=◌}
use koru.Kernel.Abi.{
  Sqe, Cqe, Res, value, failed, ok, err, Opcode, opcode_of, einval, enoent, ealready, ecanceled,
  koru_max_delay_ns, koru_sqe_flags_all,
}
use koru.Kernel.Ring.Queue.{IsSound}
use koru.Kernel.Submit.Accounts
use koru.Kernel.Setup.{unknown_flags}
use koru.Kernel.Handles.Laws.{index}
use koru.Kernel.Host.{Host}
use koru.Kernel.Submit.{cqe}
use koru.Kernel.Ctx.{RingCtx, OpWork, pending_find}
use koru.Kernel.Defer.{
  Deferral, holds_slot, holds_handle, held_slot, held_handle, readdir_op, delay_jiffies,
}
use koru.Kernel.Cancel.{cancel_op, cancel_found, cancelled, cancel_won, finished, remove_at}
use koru.Kernel.Ops.{
  dispatch, dispatch_as, plain, deferring, inline, handle_answer, cancel_answer, nop_op, delay_op,
}
use koru.Kernel.Taken.{Step}
use koru.Kernel.PathOps.{path_op}
use koru.Kernel.Open.{close_op}
use koru.Kernel.Ops.Shifts.{Shift-refl, only, nothing}
use koru.Kernel.Ops.Deferrals.{IsFresh, Left, Leaves, defer_lem}
use koru.Kernel.Ops.Holding.{
  read_op_lem, write_op_lem, stat_op_lem, checksum_op_lem, readdir_op_lem,
}
use koru.Kernel.Ops.Polls.{poll_op_lem}
use koru.Kernel.Ops.Inline.{Keeps, Inline}
use koru.Kernel.Ops.PathCalls.{Answered, path_op_lem}
use koru.Kernel.Ops.Opens.{do_open_lem, do_adopt_lem, close_op_lem}
use koru.Kernel.Ops.Accounts.{
  IsAccounted, Balanced, Balanced-inline, Balanced-deferred, held, claims,
}
use koru.Kernel.Ops.Finished.{Finished, Removed-remove_at, finish_lem}
use koru.Kernel.Ops.Balances.{pending_find_lem, Balances, Left-as}

module _ (sqe : Sqe) where
  -- What the opcode holds while it is deferred.
  slot_held : (x : ℕ) → held_slot sqe ≡ some sqe.slot → only sqe.slot x ≡ held sqe x
  unfolding held
  slot_held x e = rw e refl

  slot_free : (x : ℕ) → held_slot sqe ≡ none → nothing x ≡ held sqe x
  unfolding held
  slot_free x e = rw e refl

  handle_held :
      (i : ℕ) → held_handle sqe ≡ some sqe.handle → only (index sqe.handle) i ≡ claims sqe i
  unfolding claims
  handle_held i e = rw e refl

  handle_free : (i : ℕ) → held_handle sqe ≡ none → nothing i ≡ claims sqe i
  unfolding claims
  handle_free i e = rw e refl

module _ (host : Host) (sqe : Sqe) (me : RingCtx) (acc : IsAccounted me) (w : IsSound me.state)
    (idle : me.state.inflight < me.state.reserved) (fresh : IsFresh host me.pending) where
  unchanged : (a : Res × ℕ) → Balanced me (some a) me
  unchanged a = Balanced-inline me me acc w idle a refl (Shift-refl me)

  plain_lem : (res : Res) → Balances me (plain res me)
  plain_lem res = (some (res, 0), me, refl, unchanged (res, 0))

  deferring_lem :
      (a : Option Res) (t : RingCtx)
      → Left host sqe (held sqe) (claims sqe) me a t
      → Balances me (deferring (a, t))
  deferring_lem none t left = (none, t, refl, Balanced-deferred me t acc w idle host sqe fresh left)
  deferring_lem (some res) t (ops, p) =
      (some (res, 0), t, refl, Balanced-inline me t acc w idle (res, 0) ops p)

  left_lem :
      (d h : ℕ → ℕ) (o : Deferral)
      → ((x : ℕ) → d x ≡ held sqe x)
      → ((i : ℕ) → h i ≡ claims sqe i)
      → Leaves host sqe d h me o
      → Balances me (o >>= deferring)
  left_lem d h o e f (a, t, run, left) =
      rw run (deferring_lem a t (Left-as host sqe d (held sqe) h (claims sqe) me a t e f left))

  inline_lem : (o : Option ((Res × ℕ) × RingCtx)) → Answered me o → Balances me (o >>= inline)
  inline_lem o (a, t, run, (ops, p)) =
      (some a, t, rw run refl, Balanced-inline me t acc w idle a ops p)

  handle_lem : (o : Step ℕ) → Inline me o → Balances me (o >>= handle_answer)
  handle_lem o (ok handle, t, run, (ops, p)) = (
    some (value handle, 0),
    t,
    rw run refl,
    Balanced-inline me t acc w idle (value handle, 0) ops p,
  )
  handle_lem o (err e, t, run, (ops, p)) =
      (some (failed e, 0), t, rw run refl, Balanced-inline me t acc w idle (failed e, 0) ops p)

  close_lem : (r : Res × RingCtx) → Keeps me r.1 → Balances me (cancel_answer r)
  close_lem (res, t) (ops, p) =
      (some (res, 0), t, refl, Balanced-inline me t acc w idle (res, 0) ops p)

  -- The target of a CANCEL is answered by a completion of its own.
  Balanced-Finished :
      (op : OpWork) (c : Cqe) (t : RingCtx) (a : Res × ℕ)
      → Finished op c me t
      → Balanced me (some a) t
  Balanced-Finished op c t a f = (
    f.accounts,
    (f.sound, omega (arith, f.inflight, f.len), omega (arith, f.reserved, f.len)),
    f.config,
  )

  cancelled_lem :
      (i : ℕ) (op : OpWork)
      → get_elem? me.pending i ≡ some op
      → Balances me (cancelled host i op me >>= cancel_answer)
  unfolding cancelled finished
  cancelled_lem i op there = elim (Bool-cases (cancel_won host op)) [
    | inl won ↦
        let m : RingCtx = record me { pending = remove_at me.pending i } in
        let (s, run, f) =
          finish_lem me m op (remove_at me.pending i) (cqe op.sqe (failed ecanceled)) acc w
            (Removed-remove_at me.pending i op acc.apart there) refl refl refl in
        (some (value 0, 0), _, rw (won, run) refl, Balanced-Finished op _ _ (value 0, 0) f)
    | inr lost ↦ rw lost (plain_lem (failed ealready))
  ]

  found_lem :
      (o : Option ℕ)
      → pending_find me.pending sqe.off ≡ o
      → Balances me (cancel_found host me o >>= cancel_answer)
  unfolding cancel_found
  found_lem none e = plain_lem (failed enoent)
  found_lem (some i) e =
      let (op, there) = pending_find_lem me.pending sqe.off i e in
      rw there (cancelled_lem i op there)

  cancel_lem : Balances me (cancel_op host sqe me >>= cancel_answer)
  unfolding cancel_op
  cancel_lem =
      elim (Bool-cases (not (sqe.len == 0) || (not (sqe.slot == 0) || not (sqe.handle == 0)))) [
        | inl bad ↦ rw bad (plain_lem (failed einval))
        | inr good ↦ rw good (found_lem (pending_find me.pending sqe.off) refl)
      ]

  -- The claims that the opcode stands for.
  opcode_slot :
      (op : Opcode)
      → opcode_of sqe.opcode ≡ op
      → held_slot sqe ≡ (if holds_slot op then some sqe.slot else none)
  unfolding held_slot
  opcode_slot op e = rw e refl

  opcode_handle :
      (op : Opcode)
      → opcode_of sqe.opcode ≡ op
      → held_handle sqe ≡ (if holds_handle op then some sqe.handle else none)
  unfolding held_handle
  opcode_handle op e = rw e refl

  -- A deferred operation that holds its slot, one that holds nothing, and READDIR.
  slotted :
      (op : Opcode) (o : Deferral)
      → opcode_of sqe.opcode ≡ op
      → holds_slot op ≡ true
      → holds_handle op ≡ false
      → Leaves host sqe (only sqe.slot) nothing me o
      → Balances me (o >>= deferring)
  slotted op o e s h left =
      left_lem (only sqe.slot) nothing o (λ x. slot_held sqe x (opcode_slot op e ∙ rw s refl))
        (λ i. handle_free sqe i (opcode_handle op e ∙ rw h refl)) left

  unclaimed :
      (op : Opcode) (o : Deferral)
      → opcode_of sqe.opcode ≡ op
      → holds_slot op ≡ false
      → holds_handle op ≡ false
      → Leaves host sqe nothing nothing me o
      → Balances me (o >>= deferring)
  unclaimed op o e s h left =
      left_lem nothing nothing o (λ x. slot_free sqe x (opcode_slot op e ∙ rw s refl))
        (λ i. handle_free sqe i (opcode_handle op e ∙ rw h refl)) left

  readdir_lem :
      opcode_of sqe.opcode ≡ Opcode.readdir → Balances me (readdir_op host sqe me >>= deferring)
  unfolding holds_slot holds_handle
  readdir_lem e =
      left_lem (only sqe.slot) (only (index sqe.handle)) (readdir_op host sqe me)
        (λ x. slot_held sqe x (opcode_slot Opcode.readdir e))
        (λ i. handle_held sqe i (opcode_handle Opcode.readdir e))
        (readdir_op_lem host sqe me fresh acc.covers)

  delay_left : Leaves host sqe nothing nothing me (delay_op host sqe me)
  unfolding delay_op
  delay_left =
      elim (Bool-cases (not (sqe.len == 0) || (not (sqe.slot == 0) || not (sqe.handle == 0)))) [
        | inl bad ↦ rw bad (some (failed einval), me, refl, (refl, Shift-refl me))
        | inr good ↦ elim (Bool-cases (ltb koru_max_delay_ns sqe.off)) [
          | inl long ↦ rw (good, long) (some (failed einval), me, refl, (refl, Shift-refl me))
          | inr fine ↦
              rw (good, fine) (defer_lem host sqe (delay_jiffies host sqe.off) none me fresh)
        ]
      ]

  path_lem : Balances me (path_op host sqe me >>= inline)
  path_lem = inline_lem (path_op host sqe me) (path_op_lem host sqe me acc.covers)

  as_lem : (op : Opcode) → opcode_of sqe.opcode ≡ op → Balances me (dispatch_as op host sqe me)
  unfolding dispatch_as holds_slot holds_handle
  as_lem Opcode.nop e = plain_lem (nop_op sqe)
  as_lem Opcode.delay_ns e = unclaimed Opcode.delay_ns _ e refl refl delay_left
  as_lem Opcode.open_file e = handle_lem _ (do_open_lem host sqe me acc.covers)
  as_lem Opcode.close e = close_lem (close_op sqe me) (close_op_lem host sqe me acc.covers)
  as_lem Opcode.read e =
      slotted Opcode.read _ e refl refl (read_op_lem host sqe me fresh acc.covers)
  as_lem Opcode.write e =
      slotted Opcode.write _ e refl refl (write_op_lem host sqe me fresh acc.covers)
  as_lem Opcode.adopt_fd e = handle_lem _ (do_adopt_lem host sqe me acc.covers)
  as_lem Opcode.poll_add e = unclaimed Opcode.poll_add _ e refl refl (poll_op_lem host sqe me fresh)
  as_lem Opcode.stat e =
      slotted Opcode.stat _ e refl refl (stat_op_lem host sqe me fresh acc.covers)
  as_lem Opcode.readdir e = readdir_lem e
  as_lem Opcode.cancel e = cancel_lem
  as_lem Opcode.checksum e =
      slotted Opcode.checksum _ e refl refl (checksum_op_lem host sqe me fresh acc.covers)
  as_lem Opcode.unknown e = plain_lem (failed einval)
  as_lem Opcode.truncate e = path_lem
  as_lem Opcode.utimes e = path_lem
  as_lem Opcode.readlink e = path_lem
  as_lem Opcode.statx_at e = path_lem
  as_lem Opcode.mkdir e = path_lem
  as_lem Opcode.symlink e = path_lem
  as_lem Opcode.unlink e = path_lem
  as_lem Opcode.rmdir e = path_lem
  as_lem Opcode.rename e = path_lem

  dispatched : Balances me (dispatch host sqe me)
  unfolding dispatch
  dispatched =
      elim (Bool-cases (not (sqe.rsvd0 == 0) || unknown_flags sqe.flags koru_sqe_flags_all)) [
        | inl bad ↦ rw bad (plain_lem (failed einval))
        | inr good ↦ rw good (as_lem (opcode_of sqe.opcode) refl)
      ]

-- On an accounted, sound ring with a place reserved for the submission, `dispatch` does not panic,
-- whatever the opcode, the arguments, and what the kernel answers, as long as a new operation lies
-- where none is registered. The accounts hold afterwards: every operation in flight is registered,
-- and every slot and every handle is claimed exactly while one registered operation holds it. The
-- contract of `submit` is kept, and the configuration.
pub dispatch_lem :
    (host : Host) (sqe : Sqe) (me : RingCtx)
    → IsAccounted me
    → IsSound me.state
    → me.state.inflight < me.state.reserved
    → IsFresh host me.pending
    → (a : Option (Res × ℕ)) × (t : RingCtx) × (dispatch host sqe me ≡ some (a, t))
      × IsAccounted t
      × Accounts.Keeps me.state (a, t.state)
      × (t.config ≡ me.config)
dispatch_lem host sqe me acc w idle fresh =
    let (a, t, run, (accounts, keeps, config)) = dispatched host sqe me acc w idle fresh in
    (a, t, run, accounts, keeps, config)
