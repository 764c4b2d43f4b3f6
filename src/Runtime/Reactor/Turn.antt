-- ===== src/Runtime/Reactor/Turn.antt =====
-- `dispatch`, `turn` and `drain` of rust/runtime/src/reactor.rs. `ENTER` is a function of how many
-- calls came before and of what is asked, so that it may answer anything, differently each time.
use koru.Prelude.{
  ℕ, zero, suc, ◌+◌, ◌-◌, Bool, true, false, not, Option, none, some, List, [], ◌∷◌, length, take,
  drop, ltb, ◌==◌, ◌&&◌, ◌||◌, if◌then◌else◌,
}
use koru.Prelude.Partial.{◌>>=◌}
use koru.Sys.Abi.{Sqe, Cqe}
use koru.Runtime.Slab
use koru.Runtime.Op.{Op, Landed, woke, discard, on_cqe}
use koru.Runtime.Reactor.{Inner, wake, drop_entry, take_batch, requeue, mark_live}

-- `sys::error::EINTR`
abbrev pub eintr : ℕ
eintr = 4

pub record Request : Type 0 where
  pub sq : List Sqe
  pub want : ℕ
  pub timeout : Option ℕ

-- What the call wrote back, the completions it stored, and the errno of a failure.
pub record Answer : Type 0 where
  pub submitted : ℕ
  pub completed : ℕ
  pub cq : List Cqe
  pub errno : Option ℕ

abbrev pub Enter : Type 0
Enter = ℕ → Request → Answer

unfoldable pub woken : Option ℕ → Inner → Inner × ℕ
woken none s = (s, 0)
woken (some w) s = (wake s w, 1)

unfoldable pub route : Inner → Cqe → Landed → Option (Inner × ℕ)
unfolding woken
route s cqe woke =
    let waker = Slab.get s.slab cqe.user_data >>= λ (op : Op ℕ). op.waker in
    some (
      woken waker
        (record s { slab = Slab.get_mut s.slab cqe.user_data (λ op. record op { waker = none }) }))
route s cqe discard = some (drop_entry s cqe.user_data, 0)
route s cqe Landed.impossible = none

-- One completion: the state after it, and whether it woke a future.
unfoldable pub dispatch_one : Inner → Cqe → Option (Inner × ℕ)
unfolding route
dispatch_one s cqe = elim (Slab.get s.slab cqe.user_data) [
  | none ↦ some (record s { inflight = s.inflight - 1 }, 0)
  | some op ↦
      route
        (record s {
          inflight = s.inflight - 1;
          slab = Slab.get_mut s.slab cqe.user_data (λ o. (on_cqe o cqe.res cqe.extra).0);
        })
        cqe (on_cqe op cqe.res cqe.extra).1
]

unfoldable pub dispatch_from : Inner → List Cqe → ℕ → Option (Inner × ℕ)
unfolding dispatch_one
dispatch_from s [] count = some (s, count)
dispatch_from s (cqe ∷ rest) count =
    dispatch_one s cqe >>= λ r. dispatch_from r.0 rest (count + r.1)

unfoldable pub dispatch : Inner → List Cqe → Option (Inner × ℕ)
unfolding dispatch_from
dispatch s cqes = dispatch_from s cqes 0 >>= λ r. some (
  record r.0 {
    counters = record r.0.counters { cqes_reaped = r.0.counters.cqes_reaped + length cqes };
  },
  r.1,
)

pub data Turned : Type 0 where
  finished : Inner → Turned
  failed : ℕ → Inner → Turned
  panicked : Turned
  -- the fuel ran out
  unfinished : Turned

abbrev pub is_empty {ℓ} : {A : Type ℓ} → List A → Bool
is_empty [] = true
is_empty (x ∷ xs) = false

-- 1 where it makes sense to wait for a completion.
abbrev wanted : Bool → Inner → ℕ → List Sqe → ℕ
wanted wait s woke_count tail =
    if wait && (woke_count == 0 && (not (s.inflight == 0) || not (is_empty tail))) then 1 else 0

-- The consumed prefix goes live.
unfoldable pub gone_live : Inner → List Sqe → Answer → Inner
gone_live s rest a = if ltb 0 a.submitted then mark_live s (take a.submitted rest) else s

-- The completions go out.
unfoldable pub all_landed : Inner → Answer → Option (Inner × ℕ)
all_landed s a = if ltb 0 a.completed then dispatch s (take a.completed a.cq) else some (s, 0)

unfoldable pub entered : Inner → Inner
entered s = record s { counters = record s.counters { enters = s.counters.enters + 1 } }

-- The writeback of one call put to use; what a slice past its end would panic on is refused first.
unfoldable pub settle : Inner → List Sqe → ℕ → Answer → Option (Inner × List Sqe × ℕ)
unfolding gone_live all_landed entered
settle s rest woke_count a =
    if ltb (length rest) a.submitted || ltb (length a.cq) a.completed
    then none
    else (all_landed (gone_live (entered s) rest a) a >>= λ r.
        some (r.0, drop a.submitted rest, woke_count + r.1))

-- EINTR is counted and the loop goes on.
unfoldable pub interrupted : Inner → Inner
interrupted s = record s { counters = record s.counters { eintrs = s.counters.eintrs + 1 } }

module _ (wait : Bool) where
  -- The end of a round: whether the loop breaks.
  unfoldable pub breaks : Inner → List Sqe → List Sqe → ℕ → ℕ → Bool
  breaks s tail rest submitted woke_count =
      let blocked = submitted == 0 && not (is_empty tail) in
      let done = is_empty rest && (not wait || (ltb 0 woke_count || s.inflight == 0)) in
      done || (blocked && s.inflight == 0)

  module _ (next : Inner → List Sqe → ℕ → Turned) (tail : List Sqe) (submitted : ℕ) where
    unfoldable pub again : Inner → List Sqe → ℕ → Turned
    unfolding breaks
    again s rest woke_count =
        if breaks s tail rest submitted woke_count
        then finished (requeue s rest)
        else next s rest woke_count

    unfoldable pub after_errno : Inner → List Sqe → ℕ → Option ℕ → Turned
    unfolding again interrupted
    after_errno s rest woke_count none = again s rest woke_count
    after_errno s rest woke_count (some e) =
        if e == eintr then again (interrupted s) rest woke_count else failed e (requeue s rest)

    -- The rest of a round, from the writeback on; `next` is the rounds after it.
    unfoldable pub conclude : Option ℕ → Option (Inner × List Sqe × ℕ) → Turned
    unfolding after_errno
    conclude errno none = panicked
    conclude errno (some (s, rest, woke_count)) = after_errno s rest woke_count errno

module _ (enter : Enter) (sq_len : ℕ) (wait : Bool) (timeout : Option ℕ) where
  -- What the kernel answers to the next call.
  unfoldable pub call : Inner → List Sqe → ℕ → Answer
  call s rest woke_count =
      let tail = take sq_len rest in
      enter s.counters.enters
        (record { sq = tail; want = wanted wait s woke_count tail; timeout = timeout })

  unfoldable pub rounds : ℕ → Inner → List Sqe → ℕ → Turned
  unfolding settle conclude call
  rounds zero s rest woke_count = unfinished
  rounds (suc fuel) s rest woke_count =
      let a = call s rest woke_count in
      conclude wait (rounds fuel) (take sq_len rest) a.submitted a.errno
        (settle s rest woke_count a)

  unfoldable pub turn : ℕ → Inner → Turned
  unfolding rounds
  turn fuel s = let (batch, s') = take_batch s in rounds fuel s' batch 0

-- A turn of `drain`: an error ends it.
unfoldable pub drained : (Inner → Turned) → Turned → Turned
drained next (finished s) = next s
drained next (failed e s) = finished s
drained next panicked = panicked
drained next unfinished = unfinished

unfoldable pub drain_rounds : (Inner → Turned) → ℕ → Inner → Turned
unfolding drained
drain_rounds turn_once zero s = finished s
drain_rounds turn_once (suc n) s =
    if s.inflight == 0 && is_empty s.pending
    then finished s
    else drained (drain_rounds turn_once n) (turn_once s)

-- At most 64 turns that wait up to 200 ms each, in nanoseconds.
unfoldable pub drain : Enter → ℕ → ℕ → Inner → Turned
unfolding turn drain_rounds
drain enter sq_len fuel s = drain_rounds (turn enter sq_len true (some 200000000) fuel) 64 s
