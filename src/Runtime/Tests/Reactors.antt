-- ===== src/Runtime/Tests/Reactors.antt =====
-- Concrete inputs for the theorems on operations and the reactor.
use koru.Prelude.{
  ℕ, length, ◌*◌, ◌+◌, ◌≤◌, ◌≡◌, ◌≢◌, refl, false, Option, none, some, List, [], ◌∷◌, ◌++◌, arith,
  drop, ltb, if◌then◌else◌,
}
use koru.Prelude.Int.{pos}
use koru.Sys.Abi.{Sqe, Cqe, nop}
use koru.Sys.Abi
use koru.Sys.Pool
use koru.Sys.Pool.{BufPool, acquire, slots_from}
use koru.Runtime.Cookie.{Cookie, index, generation}
use koru.Runtime.Slab.{free, live, get, get_mut}
use koru.Runtime.Slab.Invariant.{IsValid}
use koru.Runtime.Op.{Op, State, abandoned, queue_op, on_abandon, probe}
use koru.Runtime.Op.Machine.{Event, submit, complete, wakes, history, queue_op_once, abandon_silent}
use koru.Runtime.Reactor.{
  Inner, new, no_stats, abandon, take_batch, retain_live, drop_all, requeue, mark_live, submit_all,
}
use koru.Runtime.Reactor.Turn.{Enter, turn, unfinished, conclude, settle, interrupted}
use koru.Runtime.Reactor.Rounds.{left}
use koru.Runtime.Reactor.Drops.{abandon_live}
use koru.Runtime.Reactor.Progress.{stalls, turn_progress}
use koru.Runtime.Reactor.Pending.{Handed, pending-turn}
use koru.Runtime.Reactor.World.{World, Reach, start, after, acquires, places, fresh, places_lem}
use koru.Runtime.Tests.Slabs.{held}

abbrev kept_slot : Option ℕ
kept_slot = some 3

abbrev events : List Event
events = submit ∷ complete (pos 0) 0 ∷ complete (pos 0) 0 ∷ []

queue_op_once_example :
    (wakes (queue_op kept_slot) events ≤ 1)
    × ((history (queue_op kept_slot) events).slot ≡ kept_slot)
queue_op_once_example = queue_op_once kept_slot events

abbrev op : Op ℕ
op = record { state = State.live; slot = some 3; waker = some 11 }

abandon_silent_example : wakes (on_abandon op).0 events ≡ 0
abandon_silent_example = abandon_silent op events

-- An operation in flight with slot 3, and the others of the four slots in the pool.
abbrev pub inner : Inner
inner = record {
  pool = record { slot_size = 4096; slot_count = 4; free = 0 ∷ 1 ∷ 2 ∷ [] };
  slab = record { entries = free 4 ∷ live 2 op ∷ []; free_list = 0 ∷ []; live_count = 1 };
  pending = nop 5 ∷ nop 6 ∷ [];
  inflight = 1;
  counters = no_stats;
  ready_queue = [];
}

inner-IsValid : IsValid inner.slab
inner-IsValid = record {
  generations = ((omega arith, omega arith), ((omega arith, omega arith), tt));
  frees = ((4, refl), tt);
  distinct = (tt, tt);
  counted = refl;
  addressable = omega arith;
}

inner-get : get inner.slab held ≡ some op
unfolding get index generation
inner-get = refl

abandon_live_example :
    (p : Cookie) × (t : Inner) × (abandon inner held ≡ some t)
    × IsValid t.slab
    × (t.pool ≡ inner.pool)
    × (t.pending ≡ inner.pending ++ Abi.cancel p held ∷ [])
    × (get t.slab held ≡ some (record op { state = abandoned; waker = none }))
    × (get t.slab p ≡ some probe)
    × (p ≢ held)
abandon_live_example =
    abandon_live inner held op inner-IsValid (omega arith) (omega arith) inner-get refl

-- Each call takes one entry and completes nothing.
abbrev enter : Enter
enter n r = record { submitted = 1; completed = 0; cq = []; errno = none }

-- The ring is full, and nothing completes.
abbrev full : Enter
full n r = record { submitted = 0; completed = 0; cq = []; errno = none }

full-turn : turn full 1 false none 6 inner ≡ unfinished
unfolding turn take_batch retain_live get index generation requeue conclude settle interrupted nop
    drop_all
full-turn = refl

turn_progress_example :
    6
    ≤ 2 * length inner.pending
      + inner.inflight
      + stalls full 1 none 6 (take_batch inner).1 (take_batch inner).0 0
turn_progress_example = turn_progress full 1 none (omega arith) 6 inner full-turn

abbrev turned : Inner
turned = record inner {
  pending = [];
  inflight = 3;
  counters = record no_stats { enters = 2; sqes_submitted = 2 };
}

inner-turn : left (turn enter 1 false none 3 inner) ≡ some turned
unfolding turn take_batch retain_live get index generation requeue mark_live submit_all get_mut
    conclude settle interrupted nop drop_all
inner-turn = refl

pending-turn_example :
    (c : ℕ) × (n : ℕ) × Handed enter 1 none (take_batch inner).0 inner.counters.enters c n
    × (turned.counters.enters ≡ inner.counters.enters + c)
    × (turned.counters.sqes_submitted ≡ inner.counters.sqes_submitted + n)
    × (turned.pending ≡ drop n (take_batch inner).0)
pending-turn_example = pending-turn enter 1 false none 3 inner turned inner-turn

-- One slot acquired, in a pool of four.
abbrev rest : BufPool
rest = record { slot_size = 4096; slot_count = 4; free = 1 ∷ 2 ∷ 3 ∷ [] }

abbrev one_out : World
one_out = record {
  inner = record (fresh 4096 4).inner { pool = rest };
  out = 0 ∷ (fresh 4096 4).out;
}

one_out-Reach : Reach (fresh 4096 4) one_out
unfolding fresh new Pool.new acquire slots_from
one_out-Reach = after (fresh 4096 4) one_out start (acquires 0 rest refl)

places_lem_example : places 2 one_out ≡ (if ltb 2 4 then 1 else 0)
places_lem_example = places_lem 2 4096 4 one_out one_out-Reach
