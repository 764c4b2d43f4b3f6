-- ===== src/Kernel/Submission.antt =====
-- `submit` and `wait` of kernel/koru.rs, on the device. What the kernel proper answers, what the copies
-- of SQEs answer, and which operations workers finish meanwhile are arguments. `none` is a panic.
pub mod Worked
pub mod Accounts
use koru.Prelude.{
  ℕ, zero, suc, Bool, true, false, Option, none, some, List, [], ◌∷◌, leb, ◌==◌, ◌||◌,
  if◌then◌else◌,
}
use koru.Prelude.Partial.{◌>>=◌}
use koru.Kernel.Abi.{Sqe, Result, ok, err}
use koru.Kernel.Ring.{reserve, unreserve, quiescent}
use koru.Kernel.Host.{Host, Worker}
use koru.Kernel.Ctx.{RingCtx}
use koru.Kernel.Submit.{Reader, faulted, finish}
use koru.Kernel.Work.{run_all}
use koru.Kernel.Ops.{dispatch}

-- Around each SQE, by how many were consumed before: the workers that run between its reservation and
-- its dispatch, and what the kernel answers to the dispatch.
pub record Around : Type 0 where
  pub workers : ℕ → List (Worker × ℕ)
  pub host : ℕ → RingCtx → Host

module _ (around : Around) where
  -- One SQE that was read, or the fault; `next` submits the rest.
  unfoldable pub consume :
      (RingCtx → Option (Result ℕ × RingCtx))
      → ℕ
      → RingCtx
      → Result Sqe
      → Option (Result ℕ × RingCtx)
  unfolding faulted finish dispatch
  consume next consumed me (ok sqe) = run_all (around.workers consumed) me >>= λ m.
      dispatch (around.host consumed m) sqe m >>= λ r.
      finish sqe (r.0, r.1.state) >>= λ s. next (record r.1 { state = s })
  consume next consumed me (err e) =
      unreserve me.state >>= λ s. some (faulted consumed e, record me { state = s })

  unfoldable pub submit_from : Reader → ℕ → ℕ → RingCtx → Option (Result ℕ × RingCtx)
  unfolding consume
  submit_from sq zero consumed me = some (ok consumed, me)
  submit_from sq (suc rounds) consumed me =
      let (room, s) = reserve me.state in
      let more =
        consume (submit_from sq rounds (suc consumed)) consumed (record me { state = s })
          (sq consumed) in
      if room then more else some (ok consumed, me)

  unfoldable pub submit : Reader → ℕ → RingCtx → Option (Result ℕ × RingCtx)
  unfolding submit_from
  submit sq to_submit me = submit_from sq to_submit 0 me

-- What ends one sleep, and the workers that ran before it.
pub data Wake : Type 0 where
  woken timed_out signalled : List (Worker × ℕ) → Wake

-- Enough completions wait, or none will come.
abbrev pub ready : RingCtx → ℕ → Bool
ready me min_complete = leb min_complete me.state.len || quiescent me.state

-- Whether a signal arrived, and the device then; `some none`: still asleep when the wakes run out.
unfoldable pub wait_on : List Wake → RingCtx → ℕ → Option (Option (Bool × RingCtx))
unfolding run_all
wait_on [] me m = some (if ready me m then some (false, me) else none)
wait_on (woken ws ∷ wakes) me m =
    let later = run_all ws me >>= λ t. wait_on wakes t m in
    if ready me m then some (some (false, me)) else later
wait_on (timed_out ws ∷ wakes) me m =
    let late = run_all ws me >>= λ t. some (some (false, t)) in
    if ready me m then some (some (false, me)) else late
wait_on (signalled ws ∷ wakes) me m =
    let late = run_all ws me >>= λ t. some (some (true, t)) in
    if ready me m then some (some (false, me)) else late

unfoldable pub wait : List Wake → RingCtx → ℕ → Option (Option (Bool × RingCtx))
unfolding wait_on
wait wakes me m = if m == 0 then some (some (false, me)) else wait_on wakes me m
