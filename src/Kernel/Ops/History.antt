-- ===== src/Kernel/Ops/History.antt =====
-- Histories of a ring: submissions, workers, reaps, and what the process writes into the arena.
use koru.Prelude.{
  ℕ, ◌+◌, ◌<◌, ◌≡◌, refl, sym, ap, ◌∙◌, true, Option, none, some, arith, length, get_elem?, subst,
}
use koru.Kernel.Abi.{Sqe, Res}
use koru.Kernel.Ring.{RingState, capacity, reserve, pop}
use koru.Kernel.Ring.Slots.{owned_of_busy}
use koru.Kernel.Ring.Queue.{IsSound, pop_lem, post_lem}
use koru.Kernel.Submit.{finish, cqe_extra}
use koru.Kernel.Submit.Accounts.{Keeps}
use koru.Prelude.Partial.{some_inj}
use koru.Kernel.Host.{Host, Worker}
use koru.Kernel.Ctx.{RingCtx, OpWork, Arena}
use koru.Kernel.Ops.{dispatch}
use koru.Kernel.Work.{run}
use koru.Kernel.Ops.Shifts.{one_if}
use koru.Kernel.Ops.Deferrals.{IsFresh}
use koru.Kernel.Ops.Accounts.{IsAccounted}
use koru.Kernel.Ops.Balance.{dispatch_lem}
use koru.Kernel.Ops.Workers.{run_lem}
use koru.Kernel.Ops.Completed.{post_keeps}

-- One SQE of `submit`, one operation that a worker runs, one completion that is reaped, and a write
-- of the process to its arena.
pub data Step (me : RingCtx) : RingCtx → Type 0 where
  submitted :
      (host : Host) (sqe : Sqe) (s u : RingState) (a : Option (Res × ℕ)) (t : RingCtx)
      → IsFresh host me.pending
      → reserve me.state ≡ (true, s)
      → dispatch host sqe (record me { state = s }) ≡ some (a, t)
      → finish sqe (a, t.state) ≡ some u
      → Step me (record t { state = u })
  worked :
      (w : Worker) (i : ℕ) (op : OpWork) (t : RingCtx)
      → get_elem? me.pending i ≡ some op
      → run w op me ≡ some t
      → Step me t
  reaped :
      (s : RingState) → 0 < me.state.len → pop me.state ≡ some s → Step me (record me { state = s })
  stored : (arena : Arena) → Step me (record me { arena = arena })

pub data Reach (me : RingCtx) : RingCtx → Type 0 where
  here : Reach me me
  next : {t u : RingCtx} → Reach me t → Step t u → Reach me u

-- Between steps nothing is reserved but what is in flight.
pub record IsSettled (me : RingCtx) : Type 0 where
  pub accounts : IsAccounted me
  pub sound : IsSound me.state
  pub even : me.state.reserved ≡ me.state.inflight

pub Accounted-state :
    (t : RingCtx) (v : RingState)
    → IsAccounted t
    → v.inflight ≡ t.state.inflight
    → v.slot_busy ≡ t.state.slot_busy
    → IsAccounted (record t { state = v })
Accounted-state t v acc fly busy = record {
  registered = acc.registered ∙ sym fly;
  slots = λ x. acc.slots x ∙ ap one_if (sym (owned_of_busy v t.state x busy));
  handles = acc.handles;
  apart = acc.apart;
  covers = λ cfg e. omega (arith, acc.covers cfg e, ap length busy);
}

pub reserve_inv :
    (s t : RingState)
    → reserve s ≡ (true, t)
    → (s.len + s.reserved < capacity s) × (t ≡ record s { reserved = s.reserved + 1 })
unfolding reserve
reserve_inv s t h = ground (arith, h)

pop_keeps :
    (s t : RingState)
    → pop s ≡ some t
    → (t.slot_busy ≡ s.slot_busy) × (t.inflight ≡ s.inflight) × (t.reserved ≡ s.reserved)
unfolding pop
pop_keeps s t h = ground (arith, h)

-- The one SQE that was dispatched is answered, or in flight.
pub finish-IsSettled :
    (sqe : Sqe) (s u : RingState) (a : Option (Res × ℕ)) (t : RingCtx)
    → s.reserved ≡ s.inflight + 1
    → IsAccounted t
    → Keeps s (a, t.state)
    → finish sqe (a, t.state) ≡ some u
    → IsSettled (record t { state = u })
unfolding finish
finish-IsSettled sqe s u none t even acc (w, more, room) h =
    let same : t.state ≡ u = some_inj h in
    rw (← same) (record { accounts = acc; sound = w; even = omega (arith, even, more, room) })
finish-IsSettled sqe s u (some (res, extra)) t even acc (w, more, room) h =
    let c = cqe_extra sqe res extra in
    let (v, put, sound, _, res', fly) = post_lem t.state c w (omega (arith, even, more, room)) in
    let (busy, _) = post_keeps t.state v c put in
    let same : v ≡ u = some_inj (sym put ∙ h) in
    rw (← same) (record {
      accounts = Accounted-state t v acc fly busy;
      sound = sound;
      even = omega (arith, even, more, room, res', fly);
    })

module _ (me : RingCtx) (i : IsSettled me) where
  submitted-IsSettled :
      (host : Host) (sqe : Sqe) (s u : RingState) (a : Option (Res × ℕ)) (t : RingCtx)
      → IsFresh host me.pending
      → reserve me.state ≡ (true, s)
      → dispatch host sqe (record me { state = s }) ≡ some (a, t)
      → finish sqe (a, t.state) ≡ some u
      → IsSettled (record t { state = u })
  submitted-IsSettled host sqe s u a t fresh got d f =
      let (room, made) = reserve_inv me.state s got in
      let s' : RingState = record me.state { reserved = me.state.reserved + 1 } in
      let acc = Accounted-state me s' i.accounts refl refl in
      let sound : IsSound s' = record {
        bounded = omega (arith, room);
        placed = i.sound.placed;
        deferred = omega (arith, i.even);
      } in
      let (a', t', run, acc', keeps, _) =
        dispatch_lem host sqe (record me { state = s' }) acc sound (omega (arith, i.even)) fresh in
      let same : (a', t') ≡ (a, t) = some_inj (
        sym run
        ∙ ap (λ (r : RingState). dispatch host sqe (record me { state = r })) (sym made)
        ∙ d) in
      let (acc'', keeps') =
        subst (λ (p : Option (Res × ℕ) × RingCtx). IsAccounted p.1 × Keeps s' (p.0, p.1.state)) same
          (acc', keeps) in
      finish-IsSettled sqe s' u a t (omega (arith, i.even)) acc'' keeps' f

  worked-IsSettled :
      (w : Worker) (k : ℕ) (op : OpWork) (t : RingCtx)
      → get_elem? me.pending k ≡ some op
      → run w op me ≡ some t
      → IsSettled t
  worked-IsSettled w k op t there h =
      let (t', run', f) = run_lem w me k op i.accounts i.sound there in
      let same : t' ≡ t = some_inj (sym run' ∙ h) in
      rw (← same) (record {
        accounts = f.accounts;
        sound = f.sound;
        even = omega (arith, i.even, f.inflight, f.reserved);
      })

  reaped-IsSettled :
      (s : RingState)
      → 0 < me.state.len
      → pop me.state ≡ some s
      → IsSettled (record me { state = s })
  reaped-IsSettled s full h =
      let (s', c, seen, popped, sound, _, _, _) = pop_lem me.state i.sound full in
      let same : s' ≡ s = some_inj (sym popped ∙ h) in
      let (busy, fly, res) = pop_keeps me.state s h in
      record {
        accounts = Accounted-state me s i.accounts fly busy;
        sound = subst IsSound same sound;
        even = omega (arith, i.even, fly, res);
      }

pub Step-IsSettled : {me t : RingCtx} → Step me t → IsSettled me → IsSettled t
Step-IsSettled {me} (submitted host sqe s u a t fresh got d f) i =
    submitted-IsSettled me i host sqe s u a t fresh got d f
Step-IsSettled {me} (worked w k op t there h) i = worked-IsSettled me i w k op t there h
Step-IsSettled {me} (reaped s full h) i = reaped-IsSettled me i s full h
Step-IsSettled {me} (stored arena) i = record {
  accounts = record {
    registered = i.accounts.registered;
    slots = i.accounts.slots;
    handles = i.accounts.handles;
    apart = i.accounts.apart;
    covers = i.accounts.covers;
  };
  sound = i.sound;
  even = i.even;
}

pub Reach-IsSettled : {me t : RingCtx} → Reach me t → IsSettled me → IsSettled t
Reach-IsSettled here i = i
Reach-IsSettled (next r st) i = Step-IsSettled st (Reach-IsSettled r i)
