-- ===== src/Runtime/Reactor.antt =====
-- rust/runtime/src/reactor.rs: the op slab, the pending batch, and the turn that calls `ENTER`.
-- A buffer slot is its index, and dropping one returns it to the pool. A waker is the cookie of its
-- task, and waking one queues the cookie. What `ENTER` answers is the kernel's, an argument of the
-- turn. `none` is a panic.
pub mod Turn
pub mod Drops
pub mod Rounds
pub mod Batch
pub mod Inflight
pub mod Progress
pub mod Pending
pub mod Slots
pub mod World
use koru.Prelude.{
  ℕ, zero, suc, ◌+◌, ◌-◌, ◌≡◌, Bool, true, false, not, Option, none, some, List, [], ◌∷◌, ◌++◌,
  length, take, drop, min, ltb, leb, ◌==◌, ◌&&◌, ◌||◌, if◌then◌else◌,
}
use koru.Prelude.Int.{ℤ}
use koru.Prelude.Partial.{◌>>=◌}
use koru.Sys.Abi.{Sqe, Cqe}
use koru.Sys.Abi
use koru.Sys.Pool
use koru.Sys.Pool.{BufPool, drop_slot}
use koru.Runtime.Cookie.{Cookie}
use koru.Runtime.Slab
use koru.Runtime.Slab.{Slab}
use koru.Runtime.Op.{
  Op, State, ready, dead, queued, Landed, woke, discard, Abandon, drop_sqe, cancel, remove,
  queue_op, probe, on_submitted, on_cqe, on_abandon,
}

pub record Stats : Type 0 where
  pub enters : ℕ
  pub sqes_submitted : ℕ
  pub cqes_reaped : ℕ
  pub cancels_submitted : ℕ
  pub eintrs : ℕ
  -- gauges: `stats` fills them in
  pub inflight : ℕ
  pub free_slots : ℕ
  pub slab_live : ℕ

pub record Inner : Type 0 where
  pub pool : BufPool
  pub slab : Slab (Op ℕ)
  pub pending : List Sqe
  pub inflight : ℕ
  pub counters : Stats
  -- the executor's ready queue
  pub ready_queue : List Cookie

abbrev pub no_stats : Stats
no_stats = record {
  enters = 0;
  sqes_submitted = 0;
  cqes_reaped = 0;
  cancels_submitted = 0;
  eintrs = 0;
  inflight = 0;
  free_slots = 0;
  slab_live = 0;
}

unfoldable pub new : BufPool → Inner
new pool = record {
  pool = pool;
  slab = Slab.new;
  pending = [];
  inflight = 0;
  counters = no_stats;
  ready_queue = [];
}

unfoldable pub stats : Inner → Stats
stats s = record s.counters {
  inflight = s.inflight;
  free_slots = Pool.free_count s.pool;
  slab_live = Slab.len s.slab;
}

abbrev pub contains : List Cookie → Cookie → Bool
contains [] id = false
contains (x ∷ xs) id = x == id || contains xs id

-- `TaskWaker::wake_by_ref`
unfoldable pub wake : Inner → Cookie → Inner
wake s id =
    if contains s.ready_queue id then s else record s { ready_queue = s.ready_queue ++ id ∷ [] }

-- The drop of an `Option<BufSlot>`.
unfoldable pub drop_held : Inner → Option ℕ → Inner
drop_held s none = s
drop_held s (some index) = record s { pool = drop_slot s.pool index }

abbrev pub held_of : Option (Op ℕ) → Option ℕ
held_of none = none
held_of (some o) = o.slot

-- An entry is taken out of the slab and dropped, its slot with it.
unfoldable pub drop_entry : Inner → Cookie → Inner
unfolding drop_held
drop_entry s cookie =
    let (op, slab) = Slab.remove s.slab cookie in drop_held (record s { slab = slab }) (held_of op)

unfoldable pub register : Inner → Option ℕ → (Cookie → Sqe) → Option (Cookie × Inner)
register s slot make = Slab.insert s.slab (queue_op slot) >>= λ r.
    some (r.0, record s { slab = r.1; pending = s.pending ++ make r.0 ∷ [] })

-- What the entry that a poll took out answers.
answer : Option (Op ℕ) → Slab (Op ℕ) → Inner → State → Option (Option (ℤ × ℕ × Option ℕ) × Inner)
answer (some op) slab s (ready res extra) =
    some (some (res, extra, op.slot), record s { slab = slab })
answer _ slab s _ = none

polled : Inner → Cookie → ℕ → Option (Op ℕ) → Option (Option (ℤ × ℕ × Option ℕ) × Inner)
unfolding answer
polled s cookie waker none = none
polled s cookie waker (some o) = elim o.state [
  | ready res extra ↦
      let (op, slab) = Slab.remove s.slab cookie in answer op slab s (ready res extra)
  | _ ↦ some (
    none,
    record s { slab = Slab.get_mut s.slab cookie (λ op. record op { waker = some waker }) },
  )
]

unfoldable pub poll_op : Inner → Cookie → ℕ → Option (Option (ℤ × ℕ × Option ℕ) × Inner)
unfolding polled
poll_op s cookie waker = polled s cookie waker (Slab.get s.slab cookie)

-- The state after `on_abandon` has written the entry.
unfoldable pub abandoning : Inner → Cookie → Abandon → Option Inner
unfolding drop_held drop_entry
abandoning s cookie drop_sqe = some (
    drop_held (record s { slab = Slab.get_mut s.slab cookie (λ op. record op { slot = none }) })
      (held_of (Slab.get s.slab cookie)))
abandoning s cookie remove = some (drop_entry s cookie)
abandoning s cookie cancel = Slab.insert s.slab probe >>= λ r. some (record s {
  slab = r.1;
  pending = s.pending ++ Abi.cancel r.0 cookie ∷ [];
  counters = record s.counters { cancels_submitted = s.counters.cancels_submitted + 1 };
})
abandoning s cookie Abandon.impossible = none

unfoldable pub abandon : Inner → Cookie → Option Inner
unfolding abandoning
abandon s cookie = elim (Slab.get s.slab cookie) [
  | none ↦ some s
  | some op ↦
      abandoning (record s { slab = Slab.get_mut s.slab cookie (λ o. (on_abandon o).0) }) cookie
        (on_abandon op).1
]

is_dead : Slab (Op ℕ) → Sqe → Bool
is_dead slab sqe = elim (Slab.get slab sqe.user_data) [
  | none ↦ false
  | some o ↦ elim o.state [ dead ↦ true | _ ↦ false ]
]

-- `retain`: the entries that stay, and the cookies of the dead.
unfoldable pub retain_live : Slab (Op ℕ) → List Sqe → List Sqe × List Cookie
unfolding is_dead
retain_live slab [] = ([], [])
retain_live slab (sqe ∷ rest) =
    let (kept, gone) = retain_live slab rest in
    if is_dead slab sqe then (kept, sqe.user_data ∷ gone) else (sqe ∷ kept, gone)

unfoldable pub drop_all : Inner → List Cookie → Inner
drop_all s [] = s
drop_all s (c ∷ cs) = drop_all (drop_entry s c) cs

unfoldable pub take_batch : Inner → List Sqe × Inner
take_batch s =
    let (batch, gone) = retain_live s.slab s.pending in
    (batch, drop_all (record s { pending = [] }) gone)

unfoldable pub requeue : Inner → List Sqe → Inner
requeue s tail = record s { pending = tail ++ s.pending }

unfoldable pub submit_all : Slab (Op ℕ) → List Sqe → Slab (Op ℕ)
submit_all slab [] = slab
submit_all slab (sqe ∷ rest) = submit_all (Slab.get_mut slab sqe.user_data on_submitted) rest

unfoldable pub mark_live : Inner → List Sqe → Inner
unfolding submit_all
mark_live s consumed = record s {
  slab = submit_all s.slab consumed;
  inflight = s.inflight + length consumed;
  counters = record s.counters { sqes_submitted = s.counters.sqes_submitted + length consumed };
}
