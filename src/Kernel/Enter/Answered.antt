-- ===== src/Kernel/Enter/Answered.antt =====
-- What a call of `enter` in kernel/koru.rs leaves, and what it accounts for.
use koru.Prelude.{
  ℕ, ◌+◌, ◌≡◌, refl, ap, ◌∙◌, ◌⊎◌, inl, inr, Bool, true, false, Option, none, some, List, [], ◌∷◌,
  arith, length, length-append, ◌==◌, if◌then◌else◌, Bool-cases,
}
use koru.Prelude.Partial.{◌>>=◌}
use koru.Kernel.Abi.{KoruEnter, Cqe, Result, ok, err}
use koru.Kernel.Ring.Queue.{queue, length-queue}
use koru.Kernel.Host.{Worker}
use koru.Kernel.Ctx.{RingCtx}
use koru.Kernel.Submit.Reap.{reap_lem, busy-reap}
use koru.Kernel.Ops.History.{IsSettled, Accounted-state}
use koru.Kernel.Work.{run_all}
use koru.Kernel.Submission.{Wake, woken, timed_out, signalled, ready, wait, wait_on}
use koru.Kernel.Submission.Worked.{owed, Kept, run_all-Kept}
use koru.Kernel.Submission.Accounts.{AllFresh, consumed_of, submit_lem}
use koru.Kernel.Enter.{
  Entered, Outcome, returned, asleep, panicked, User, accepts, reported, reaped, waited, enter,
}

-- What a returned call owes: a settled device, and each of the `k` consumed SQEs accounted for.
pub Settled : RingCtx → Entered → Type 0
Settled me e =
    IsSettled e.device
    × (e.device.config ≡ me.config)
    × (k : ℕ) × (owed e.device.state + length e.cq ≡ owed me.state + k)
    × ((e.writeback ≡ none)
        ⊎ ((w : KoruEnter) × (e.writeback ≡ some w)
            × (w.submitted ≡ k)
            × (w.completed ≡ length e.cq)))

pub Answers : RingCtx → Outcome → Type 0
Answers me (returned e) = Settled me e
Answers me asleep = Unit
Answers me panicked = ⊥

-- A settled device that owes the same.
Rests : RingCtx → RingCtx → Type 0
Rests me t = IsSettled t × (t.config ≡ me.config) × (owed t.state ≡ owed me.state)

Rests-Kept : (me t : RingCtx) → IsSettled me → Kept me t → Rests me t
unfolding Rests
Rests-Kept me t i k = (
  record { accounts = k.accounts; sound = k.sound; even = omega (arith, i.even, k.owes, k.places) },
  k.config,
  k.owes,
)

-- A wait that ends, ends in a settled device that owes what the first did; it never panics.
Ends : RingCtx → Option (Option (Bool × RingCtx)) → Type 0
Ends me o = (o ≡ some none) ⊎ ((b : Bool) × (t : RingCtx) × (o ≡ some (some (b, t))) × Rests me t)

Ends-if :
    (me : RingCtx) (now : Bool) (later : Option (Option (Bool × RingCtx)))
    → IsSettled me
    → Ends me later
    → Ends me (if now then some (some (false, me)) else later)
unfolding Ends Rests
Ends-if me true later i h = inr (false, me, refl, (i, refl, refl))
Ends-if me false later i h = h

Ends-last :
    (b : Bool) (ws : List (Worker × ℕ)) (me : RingCtx)
    → IsSettled me
    → Ends me (run_all ws me >>= λ t. some (some (b, t)))
unfolding Ends
Ends-last b ws me i =
    let (t, run, k) = run_all-Kept ws me i.accounts i.sound in
    rw run (inr (b, t, refl, Rests-Kept me t i k))

Ends-after :
    (me t : RingCtx) (o : Option (Option (Bool × RingCtx))) → Rests me t → Ends t o → Ends me o
unfolding Ends Rests
Ends-after me t o r (inl e) = inl e
Ends-after me t o (i, config, same) (inr (b, u, e, (i', config', same'))) =
    inr (b, u, e, (i', config' ∙ config, same' ∙ same))

wait_on-Ends :
    (wakes : List Wake) (me : RingCtx) (m : ℕ) → IsSettled me → Ends me (wait_on wakes me m)
unfolding wait_on Ends Rests
wait_on-Ends [] me m i = elim (Bool-cases (ready me m)) [
  | inl now ↦ rw now (inr (false, me, refl, (i, refl, refl)))
  | inr later ↦ rw later (inl refl)
]
wait_on-Ends (woken ws ∷ wakes) me m i =
    let (t, run, k) = run_all-Kept ws me i.accounts i.sound in
    let r = Rests-Kept me t i k in
    rw run (
      Ends-if me (ready me m) (wait_on wakes t m) i
        (Ends-after me t (wait_on wakes t m) r (wait_on-Ends wakes t m r.0)))
wait_on-Ends (timed_out ws ∷ wakes) me m i = Ends-if me (ready me m) _ i (Ends-last false ws me i)
wait_on-Ends (signalled ws ∷ wakes) me m i = Ends-if me (ready me m) _ i (Ends-last true ws me i)

wait-Ends : (wakes : List Wake) (me : RingCtx) (m : ℕ) → IsSettled me → Ends me (wait wakes me m)
unfolding wait
wait-Ends wakes me m i = Ends-if me (m == 0) (wait_on wakes me m) i (wait_on-Ends wakes me m i)

Answers-reported :
    (me t : RingCtx) (writable : Bool) (req : KoruEnter) (k : ℕ) (interrupted : Bool)
    (cq : List Cqe)
    → IsSettled t
    → t.config ≡ me.config
    → owed t.state + length cq ≡ owed me.state + k
    → Answers me (reported writable req k interrupted cq t)
unfolding Answers Settled reported
Answers-reported me t true req k interrupted cq w config same = (
  w,
  config,
  k,
  same,
  inr (record req { submitted = k; completed = length cq }, refl, refl, refl),
)
Answers-reported me t false req k interrupted cq w config same = (w, config, k, same, inl refl)

Answers-reaped :
    (me t : RingCtx) (user : User) (req : KoruEnter) (k : ℕ) (interrupted : Bool)
    → IsSettled t
    → t.config ≡ me.config
    → owed t.state ≡ owed me.state + k
    → Answers me (reaped user req k (interrupted, t))
unfolding reaped
Answers-reaped me t user req k interrupted w config same =
    let (cq, u, run, sound, rest, few, res, fly, _) =
      reap_lem user.writes t.state req.cq_space w.sound in
    rw (run, reaped)
      (Answers-reported me (record t { state = u }) user.writable req k interrupted cq
        (record {
          accounts =
              Accounted-state t u w.accounts fly
                (busy-reap user.writes t.state u cq req.cq_space run);
          sound = sound;
          even = omega (arith, res, fly, w.even);
        })
        config
        (omega (
          arith,
          same,
          fly,
          ap length rest,
          length-append cq (queue u),
          length-queue t.state w.sound,
          length-queue u sound,
        )))

Answers-waited :
    (me t : RingCtx) (user : User) (req : KoruEnter) (r : Result ℕ)
    → IsSettled t
    → t.config ≡ me.config
    → owed t.state ≡ owed me.state + consumed_of r
    → Answers me (waited user req (r, t))
unfolding waited Answers Settled Ends Rests
Answers-waited me t user req (err e) w config same = (w, config, 0, omega (arith, same), inl refl)
Answers-waited me t user req (ok k) w config same =
    elim (wait-Ends user.wakes t req.min_complete w) [
      | inl e ↦ rw (e, waited) tt
      | inr (b, u, e, (w', config', same')) ↦
          rw (e, waited) (Answers-reaped me u user req k b w' (config' ∙ config) (same' ∙ same))
    ]

-- On a settled device `ENTER` never panics, whatever is asked, the kernel answers and workers finish
-- meanwhile, as long as a new operation lies where none is registered. If it returns, the device is
-- settled and keeps its configuration, and what is in flight, queued or copied out afterwards is
-- what was in flight or queued before and what it consumed. Where it writes back, `submitted` and
-- `completed` say how many it consumed and copied out, also on an interrupted call.
pub enter_lem :
    (user : User) (req : Result KoruEnter) (me : RingCtx)
    → AllFresh user.around
    → IsSettled me
    → Answers me (enter user req me)
unfolding enter Answers Settled
enter_lem user (err e) me fresh w = (w, refl, 0, omega arith, inl refl)
enter_lem user (ok req) me fresh w = elim (Bool-cases (accepts me.config req)) [
  | inr refused ↦ rw (refused, enter) (w, refl, 0, omega arith, inl refl)
  | inl good ↦
      let (r, t, run, settled, config, answered, few) =
        submit_lem user.around user.sq req.to_submit me fresh w in
      rw (good, enter, run) (Answers-waited me t user req r settled config answered)
]
