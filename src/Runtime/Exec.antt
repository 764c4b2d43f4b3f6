-- ===== src/Runtime/Exec.antt =====
-- rust/runtime/src/exec.rs: the task slab, the ready queue and the loops that poll. A future is a
-- value of a type that is an argument, and so is what polling one does to it and to the runtime.
-- The ready queue, which the wakers share, stands in the reactor's state; a waker is its task's
-- cookie. `panicked` and `unfinished` are the reactor's.
pub mod Ready
pub mod Tasks
use koru.Prelude.{
  ℕ, zero, suc, Bool, true, false, not, Option, none, some, List, [], ◌∷◌, length, ◌==◌,
  if◌then◌else◌,
}
use koru.Prelude.Partial.{◌>>=◌}
use koru.Runtime.Cookie.{Cookie}
use koru.Runtime.Slab
use koru.Runtime.Slab.{Slab}
use koru.Runtime.Op.{Stall, nothing_can_arrive, stall}
use koru.Runtime.Reactor.{Inner, wake}
use koru.Runtime.Reactor.Turn.{Turned, finished, failed, panicked, unfinished}

pub record Task (F : Type 0) : Type 0 where
  pub fut : Option F
  pub waker : Option Cookie

pub record Runtime (F : Type 0) : Type 0 where
  pub inner : Inner
  pub tasks : Slab (Task F)

-- `Cookie(0)`: the root of `block_on`.
abbrev pub root : Cookie
root = 0

-- Whether a poll was ready, the future after it, and the runtime.
abbrev pub Poll : Type 0 → Type 0
Poll F = F → Cookie → Runtime F → Bool × F × Runtime F

module _ {F : Type 0} where
  unfoldable pub mark_ready : Runtime F → Cookie → Runtime F
  mark_ready s id = record s { inner = wake s.inner id }

  unfoldable pub take_ready : Runtime F → List Cookie × Runtime F
  take_ready s = (s.inner.ready_queue, record s { inner = record s.inner { ready_queue = [] } })

  unfoldable pub ready_len : Runtime F → ℕ
  ready_len s = length s.inner.ready_queue

  unfoldable pub tasks_left : Runtime F → ℕ
  tasks_left s = Slab.len s.tasks

  -- `zip`: both, or neither.
  unfoldable pub both : Option F → Option Cookie → Option (F × Cookie)
  both (some f) (some w) = some (f, w)
  both _ _ = none

  unfoldable pub taken : Option (Task F) → Option (F × Cookie)
  unfolding both
  taken none = none
  taken (some t) = both t.fut t.waker

  -- The future is moved out of its task while it is polled.
  unfoldable pub hollow : Runtime F → Cookie → Runtime F
  hollow s id = record s { tasks = Slab.get_mut s.tasks id (λ t. record t { fut = none }) }

  -- A finished future is dropped with its task; a pending one goes back, or is dropped where the
  -- task is gone.
  unfoldable pub put_back : Cookie → Bool × F × Runtime F → Runtime F
  put_back id (true, fut, s) = record s { tasks = (Slab.remove s.tasks id).1 }
  put_back id (false, fut, s) = record s {
    tasks = Slab.get_mut s.tasks id (λ t. record t { fut = some fut });
  }

  unfoldable pub polled : Poll F → Cookie → Runtime F → Option (F × Cookie) → Runtime F
  unfolding put_back
  polled poll id s none = s
  polled poll id s (some (fut, waker)) = put_back id (poll fut waker s)

  unfoldable pub poll_task : Poll F → Runtime F → Cookie → Runtime F
  unfolding polled taken hollow
  poll_task poll s id = polled poll id (hollow s id) (taken (Slab.get s.tasks id))

  unfoldable pub spawn : Runtime F → F → Option (Cookie × Runtime F)
  unfolding mark_ready
  spawn s fut = Slab.insert s.tasks (record { fut = some fut; waker = none }) >>= λ r. some (
    r.0,
    mark_ready (record s { tasks = Slab.get_mut r.1 r.0 (λ t. record t { waker = some r.0 }) }) r.0,
  )

  -- `run`'s pass over what was ready: the root is no task.
  unfoldable pub poll_ready : Poll F → List Cookie → Runtime F → Runtime F
  unfolding poll_task
  poll_ready poll [] s = s
  poll_ready poll (id ∷ ids) s = poll_ready poll ids (if id == root then s else poll_task poll s id)

  -- `none`: a panic, where every task is pending and nothing can arrive, or where the turn fails.
  unfoldable pub turned : Runtime F → Turned → Option (Runtime F)
  turned s (finished inner) = some (record s { inner = inner })
  turned s _ = none

  unfoldable pub stalled : Option Stall → Option (Runtime F) → Option (Runtime F)
  stalled none r = r
  stalled (some nothing_can_arrive) r = none

  unfoldable pub pump : (Bool → Inner → Turned) → Runtime F → Option (Runtime F)
  unfolding stalled turned
  pump turn s =
      stalled (stall s.inner.inflight (length s.inner.pending) (ready_len s))
        (turned s (turn (ready_len s == 0) s.inner))

  -- How the loop of `run` ends: every task is done, a panic, or the fuel is gone.
  unfoldable pub run : (Bool → Inner → Turned) → Poll F → ℕ → Runtime F → Option (Runtime F)
  unfolding pump poll_ready
  run turn poll zero s = none
  run turn poll (suc fuel) s =
      let (ids, t) = take_ready s in
      let u = poll_ready poll ids t in
      let next = pump turn u >>= run turn poll fuel in if tasks_left u == 0 then some u else next

  -- Every task dropped, the queue emptied, and the ring quiesced. What the drops of the futures do
  -- to the reactor is an argument.
  unfoldable pub drop_tasks :
      (List (Task F) → Inner → Inner) → (Inner → Turned) → Runtime F → Option (Runtime F)
  unfolding turned
  drop_tasks dropped drain s =
      let (gone, tasks) = Slab.take_all s.tasks in
      let inner = record (dropped gone s.inner) { ready_queue = [] } in
      turned (record { inner = inner; tasks = tasks }) (drain inner)
