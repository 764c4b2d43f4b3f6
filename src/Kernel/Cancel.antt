-- ===== src/Kernel/Cancel.antt =====
-- CANCEL of kernel/koru_ops.rs: an operation withdrawn before it runs. `none` is a panic.
use koru.Prelude.{
  ℕ, zero, suc, Bool, not, ◌||◌, Option, none, some, List, [], ◌∷◌, get_elem?, ◌==◌, if◌then◌else◌,
}
use koru.Prelude.Partial.{◌>>=◌}
use koru.Kernel.Abi.{Sqe, Res, value, failed, opcode_of, einval, enoent, ealready, ecanceled}
use koru.Kernel.Submit.{complete, cqe}
use koru.Kernel.Host.{Host}
use koru.Kernel.Ctx.{RingCtx, OpWork, pending_find}
use koru.Kernel.Defer.{is_poll, held_slot, release_handle}

-- `KVec::remove`
unfoldable pub remove_at {ℓ} : {A : Type ℓ} → List A → ℕ → List A
remove_at [] i = []
remove_at (x ∷ xs) zero = xs
remove_at (x ∷ xs) (suc i) = x ∷ remove_at xs i

-- Whether the cancel takes the operation before anybody runs it.
unfoldable pub cancel_won : Host → OpWork → Bool
unfolding is_poll
cancel_won host op =
    if is_poll (opcode_of op.sqe.opcode) then not op.taken else host.cancel_delayed_work op.address

-- The target gets its own completion, and what it held is free again.
unfoldable pub finished : OpWork → Res → RingCtx → Option RingCtx
unfolding release_handle held_slot
finished op res me = complete me.state (cqe op.sqe res) (held_slot op.sqe) >>= λ s.
    some (record (release_handle op.sqe me) { state = s })

unfoldable pub cancelled : Host → ℕ → OpWork → RingCtx → Option (Res × RingCtx)
cancelled host i op me =
    if cancel_won host op
    then (finished op (failed ecanceled) (record me { pending = remove_at me.pending i }) >>= λ t.
        some (value 0, t))
    else some (failed ealready, me)

unfoldable pub cancel_found : Host → RingCtx → Option ℕ → Option (Res × RingCtx)
cancel_found host me none = some (failed enoent, me)
cancel_found host me (some i) = get_elem? me.pending i >>= λ op. cancelled host i op me

unfoldable pub cancel_op : Host → Sqe → RingCtx → Option (Res × RingCtx)
unfolding cancel_found cancelled cancel_won finished
cancel_op host sqe me =
    if not (sqe.len == 0) || (not (sqe.slot == 0) || not (sqe.handle == 0))
    then some (failed einval, me)
    else cancel_found host me (pending_find me.pending sqe.off)
