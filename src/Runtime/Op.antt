-- ===== src/Runtime/Op.antt =====
-- rust/runtime/src/op.rs: the state of an operation and its transitions. The slot type is the
-- parameter of the source; a waker is the cookie of the task that it wakes.
pub mod Machine
use koru.Prelude.{ℕ, ◌≡◌, Bool, Option, none, some, ◌==◌, ◌&&◌, if◌then◌else◌}
use koru.Prelude.Int.{ℤ}

pub data State : Type 0 where
  queued live abandoned dead cancel_probe : State
  ready : ℤ → ℕ → State

pub data Landed : Type 0 where
  woke discard impossible : Landed

pub data Abandon : Type 0 where
  drop_sqe cancel remove impossible : Abandon

pub record Op {ℓ} (S : Type ℓ) : Type ℓ where
  pub state : State
  pub slot : Option S
  pub waker : Option ℕ

pub data Stall : Type 0 where
  nothing_can_arrive : Stall

submitted : State → State
submitted queued = live
submitted s = s

module _ {ℓ} {S : Type ℓ} where
  unfoldable pub queue_op : Option S → Op S
  queue_op slot = record { state = queued; slot = slot; waker = none }

  unfoldable pub probe : Op S
  probe = record { state = cancel_probe; slot = none; waker = none }

  unfoldable pub on_submitted : Op S → Op S
  unfolding submitted
  on_submitted o = record o { state = submitted o.state }

  landed : State → ℤ → ℕ → Op S → Op S × Landed
  landed live res extra o = (record o { state = ready res extra }, woke)
  landed abandoned res extra o = (o, discard)
  landed cancel_probe res extra o = (o, discard)
  landed _ res extra o = (o, Landed.impossible)

  unfoldable pub on_cqe : Op S → ℤ → ℕ → Op S × Landed
  unfolding landed
  on_cqe o res extra = landed o.state res extra o

  dropped : State → Op S → Op S × Abandon
  dropped queued o = (record o { state = dead }, drop_sqe)
  dropped live o = (record o { state = abandoned; waker = none }, cancel)
  dropped (ready res extra) o = (o, remove)
  dropped _ o = (o, Abandon.impossible)

  unfoldable pub on_abandon : Op S → Op S × Abandon
  unfolding dropped
  on_abandon o = dropped o.state o

unfoldable pub stall : ℕ → ℕ → ℕ → Option Stall
stall inflight queued_count ready_count =
    if ready_count == 0 && (queued_count == 0 && inflight == 0)
    then some nothing_can_arrive
    else none
