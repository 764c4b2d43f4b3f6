-- ===== src/Kernel/Tests/Calls.antt =====
-- Concrete inputs for the theorems on `submit` and `enter`.
use koru.Prelude.{ℕ, zero, suc, ◌+◌, ◌≤◌, ◌≡◌, ◌≢◌, true, some, List, [], ◌∷◌, arith, All}
use koru.Prelude.Partial.{some_inj}
use koru.Kernel.Abi.{KoruEnter, Result, ok, err, efault}
use koru.Kernel.Submit.{Reader}
use koru.Kernel.Ctx.{RingCtx, OpWork}
use koru.Kernel.Ops.History.{IsSettled}
use koru.Kernel.Submission.{Around, submit, woken, signalled}
use koru.Kernel.Submission.Worked.{owed}
use koru.Kernel.Submission.Accounts.{AllFresh, consumed_of, submit_lem}
use koru.Kernel.Enter.{User, enter}
use koru.Kernel.Enter.Answered.{Answers, enter_lem}
use koru.Kernel.Tests.Operations.{host, worker, sum_sqe, start, start-IsSettled}

-- An address past all that are registered.
abbrev past : List OpWork → ℕ
past [] = 7
past (op ∷ ops) = op.address + past ops + 1

below : (ops : List OpWork) (a : ℕ) → past ops ≤ a → All (λ op. op.address ≢ a) ops
below [] a h = tt
below (op ∷ ops) a h = (λ e. omega (arith, h, e), below ops a (omega (arith, h)))

-- Before the second SQE a worker finishes what the first left in flight.
abbrev around : Around
around = record {
  workers = λ n. (worker, 0) ∷ [];
  host = λ n me. record host { alloc_op = some (past me.pending) };
}

around-AllFresh : AllFresh around
around-AllFresh n me a e =
    let same : past me.pending ≡ a = some_inj e in rw (← same) (below me.pending _ (omega arith))

-- Two checksums of a byte, and a fault.
abbrev sq : Reader
sq zero = ok sum_sqe
sq (suc zero) = ok sum_sqe
sq _ = err efault

submit_lem_example :
    (r : Result ℕ) × (t : RingCtx) × (submit around sq 3 start ≡ some (r, t))
    × IsSettled t
    × (t.config ≡ start.config)
    × (owed t.state ≡ owed start.state + consumed_of r)
    × (consumed_of r ≤ 3)
submit_lem_example = submit_lem around sq 3 start around-AllFresh start-IsSettled

-- The wait ends with a signal, after a worker ran.
abbrev user : User
user = record {
  sq = sq;
  around = around;
  writes = λ k. true;
  writable = true;
  wakes = woken [] ∷ signalled ((worker, 0) ∷ []) ∷ [];
}

abbrev request : KoruEnter
request = record {
  sq_addr = 0;
  cq_addr = 0;
  timeout_ns = 0;
  to_submit = 1;
  cq_space = 2;
  min_complete = 2;
  flags = 0;
  completed = 0;
  submitted = 0;
  reserved = 0 ∷ 0 ∷ [];
}

enter_lem_example : Answers start (enter user (ok request) start)
enter_lem_example = enter_lem user (ok request) start around-AllFresh start-IsSettled
