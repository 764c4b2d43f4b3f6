-- ===== src/Kernel/Submission/Accounts.antt =====
-- Every SQE that `submit` consumes is answered once: by a completion that waits, or by an operation
-- in flight that has a place reserved for its completion.
use koru.Prelude.{
  ℕ, zero, suc, ◌+◌, ◌-◌, ◌≤◌, ◌≡◌, refl, ◌∙◌, inl, inr, false, Option, none, some, arith,
  Bool-cases, leb,
}
use koru.Prelude.Partial.{◌>>=◌}
use koru.Kernel.Abi.{Sqe, Cqe, Res, Result, ok, err, Errno}
use koru.Kernel.Ring.{RingState, capacity, reserve, unreserve, post}
use koru.Kernel.Ring.Queue.{IsSound, post_lem}
use koru.Kernel.Submit.{Reader, finish, faulted, cqe_extra}
use koru.Kernel.Submit.Accounts.{Keeps}
use koru.Kernel.Ctx.{RingCtx}
use koru.Kernel.Ops.{dispatch}
use koru.Kernel.Ops.Deferrals.{IsFresh}
use koru.Kernel.Ops.Accounts.{IsAccounted}
use koru.Kernel.Ops.Balance.{dispatch_lem}
use koru.Kernel.Ops.History.{IsSettled, Accounted-state, finish-IsSettled}
use koru.Kernel.Submission.{Around, consume, submit_from, submit}
use koru.Kernel.Submission.Worked.{owed, Kept, run_all-Kept}

-- How many SQEs a submit consumed.
abbrev pub consumed_of : Result ℕ → ℕ
consumed_of (ok n) = n
consumed_of (err e) = 0

-- The kernel allocates a new operation where none is registered.
abbrev pub AllFresh : Around → Type 0
AllFresh around = (n : ℕ) (me : RingCtx) → IsFresh (around.host n me) me.pending

-- What `submit` owes from `me` on, with `consumed` SQEs behind it and `rounds` to go.
Owes : ℕ → ℕ → RingCtx → Option (Result ℕ × RingCtx) → Type 0
Owes rounds consumed me o =
    (r : Result ℕ) × (t : RingCtx) × (k : ℕ) × (o ≡ some (r, t))
    × IsSettled t
    × (t.config ≡ me.config)
    × (owed t.state ≡ owed me.state + k)
    × (k ≤ rounds)
    × (consumed_of r ≡ consumed + k)

-- The device with a place reserved for the SQE in hand.
record Claimed (me m : RingCtx) : Type 0 where
  accounts : IsAccounted m
  sound : IsSound m.state
  one_more : m.state.reserved ≡ m.state.inflight + 1
  config : m.config ≡ me.config
  same : owed m.state ≡ owed me.state

with_place : RingCtx → RingCtx
with_place me = record me { state = record me.state { reserved = me.state.reserved + 1 } }

with_place-Claimed :
    (me : RingCtx)
    → IsSettled me
    → leb (capacity me.state) (me.state.len + me.state.reserved) ≡ false
    → Claimed me (with_place me)
unfolding with_place
with_place-Claimed me i room = record {
  accounts =
      Accounted-state me (record me.state { reserved = me.state.reserved + 1 }) i.accounts refl
        refl;
  sound = record {
    bounded = ground (arith, i.sound.bounded, room);
    placed = i.sound.placed;
    deferred = omega (arith, i.even);
  };
  one_more = omega (arith, i.even);
  config = refl;
  same = refl;
}

-- Workers that finish their operations leave the SQE in hand its place.
Claimed-Kept : (me m t : RingCtx) → Claimed me m → Kept m t → Claimed me t
Claimed-Kept me m t c k = record {
  accounts = k.accounts;
  sound = k.sound;
  one_more = omega (arith, c.one_more, k.owes, k.places);
  config = k.config ∙ c.config;
  same = k.owes ∙ c.same;
}

len-post : (s t : RingState) (c : Cqe) → post s c ≡ some t → t.len ≡ s.len + 1
unfolding post
len-post s t c h = ground (arith, h)

-- The answer to an SQE is one more, posted now or owed.
finish_lem :
    (sqe : Sqe) (s : RingState) (a : Option (Res × ℕ)) (t : RingState)
    → s.reserved ≡ s.inflight + 1
    → Keeps s (a, t)
    → (u : RingState) × (finish sqe (a, t) ≡ some u) × (owed u ≡ owed s + 1)
unfolding finish
finish_lem sqe s none t even (w, more, room) = (t, refl, omega (arith, more))
finish_lem sqe s (some (res, extra)) t even (w, more, room) =
    let (v, put, sound, _, res', fly) =
      post_lem t (cqe_extra sqe res extra) w (omega (arith, even, more, room)) in
    (v, put, omega (arith, more, len-post t v _ put, fly))

unreserve-with_place :
    (me : RingCtx)
    → unreserve (with_place me).state
      ≡ some (record me.state { reserved = me.state.reserved + 1 - 1 })
unfolding unreserve with_place
unreserve-with_place me = ground arith

consumed_of-faulted : (n : ℕ) (e : Errno) → consumed_of (faulted n e) ≡ n
unfolding faulted
consumed_of-faulted n e = ground arith

module _ (around : Around) (fresh : AllFresh around) (sq : Reader) where
  module _ (rounds consumed : ℕ) (next : RingCtx → Option (Result ℕ × RingCtx)) (me : RingCtx)
      (later : (t : RingCtx) → IsSettled t → Owes rounds (suc consumed) t (next t)) where
    -- One more SQE was consumed and is answered for by `u`.
    Owes-later :
        (u : RingCtx)
        → IsSettled u
        → u.config ≡ me.config
        → owed u.state ≡ owed me.state + 1
        → Owes (suc rounds) consumed me (next u)
    unfolding Owes
    Owes-later u i config more =
        let (r, t, k, run, settled, config', answered, few, total) = later u i in
        (
          r,
          t,
          suc k,
          run,
          settled,
          config' ∙ config,
          omega (arith, answered, more),
          omega (arith, few),
          omega (arith, total),
        )

    Owes-dispatch :
        (sqe : Sqe) (m : RingCtx)
        → Claimed me m
        → Owes (suc rounds) consumed me (
            dispatch (around.host consumed m) sqe m >>= λ r.
            finish sqe (r.0, r.1.state) >>= λ s. next (record r.1 { state = s }))
    Owes-dispatch sqe m c =
        let (a, t, run, acc, keeps, config) =
          dispatch_lem (around.host consumed m) sqe m c.accounts c.sound (omega (arith, c.one_more))
            (fresh consumed m) in
        let (u, done, more) = finish_lem sqe m.state a t.state c.one_more keeps in
        rw (run, done)
          (Owes-later (record t { state = u })
            (finish-IsSettled sqe m.state u a t c.one_more acc keeps done) (config ∙ c.config)
            (omega (arith, more, c.same)))

    Owes-consume :
        (x : Result Sqe)
        → IsSettled me
        → Claimed me (with_place me)
        → Owes (suc rounds) consumed me (consume around next consumed (with_place me) x)
    unfolding consume Owes with_place
    Owes-consume (ok sqe) i c =
        let (m, run, k) =
          run_all-Kept (around.workers consumed) (with_place me) c.accounts c.sound in
        rw run (Owes-dispatch sqe m (Claimed-Kept me (with_place me) m c k))
    Owes-consume (err e) i c =
        let s : RingState = record me.state { reserved = me.state.reserved + 1 - 1 } in
        rw (unreserve-with_place me) (
          faulted consumed e,
          record me { state = s },
          0,
          refl,
          record {
            accounts = Accounted-state me s i.accounts refl refl;
            sound = record {
              bounded = omega (arith, i.sound.bounded);
              placed = i.sound.placed;
              deferred = omega (arith, i.sound.deferred);
            };
            even = omega (arith, i.even);
          },
          refl,
          omega arith,
          omega arith,
          omega (arith, consumed_of-faulted consumed e),
        )

  Owes-submit :
      (rounds consumed : ℕ) (me : RingCtx)
      → IsSettled me
      → Owes rounds consumed me (submit_from around sq rounds consumed me)
  unfolding submit_from reserve Owes with_place
  Owes-submit zero consumed me i =
      (ok consumed, me, 0, refl, i, refl, omega arith, omega arith, omega arith)
  Owes-submit (suc rounds) consumed me i =
      elim (Bool-cases (leb (capacity me.state) (me.state.len + me.state.reserved))) [
        | inl full ↦
            rw full (ok consumed, me, 0, refl, i, refl, omega arith, omega arith, omega arith)
        | inr room ↦ rw room (
            Owes-consume rounds consumed (submit_from around sq rounds (suc consumed)) me
              (λ t i'. Owes-submit rounds (suc consumed) t i') (sq consumed) i
              (with_place-Claimed me i room))
      ]

-- On a settled device `submit` returns, whatever the SQEs ask, the kernel answers and workers finish
-- meanwhile, as long as a new operation lies where none is registered. It leaves the device settled:
-- its accounts hold, and nothing is reserved but what is in flight. It consumes no more SQEs than
-- asked, and what is in flight or queued grows by exactly as many as it consumed, also where the
-- copy of an SQE faults or the queue fills up.
pub submit_lem :
    (around : Around) (sq : Reader) (to_submit : ℕ) (me : RingCtx)
    → AllFresh around
    → IsSettled me
    → (r : Result ℕ) × (t : RingCtx) × (submit around sq to_submit me ≡ some (r, t))
      × IsSettled t
      × (t.config ≡ me.config)
      × (owed t.state ≡ owed me.state + consumed_of r)
      × (consumed_of r ≤ to_submit)
unfolding submit Owes
submit_lem around sq to_submit me fresh i =
    let (r, t, k, run, settled, config, answered, few, total) =
      Owes-submit around fresh sq to_submit 0 me i in
    (r, t, run, settled, config, omega (arith, answered, total), omega (arith, few, total))
