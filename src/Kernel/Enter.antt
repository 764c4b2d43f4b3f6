-- ===== src/Kernel/Enter.antt =====
-- `RingCtx::enter` of kernel/koru.rs. What the user's memory answers is an argument, and what workers do
-- around an SQE and during the wait.
pub mod Answered
use koru.Prelude.{
  ℕ, zero, suc, ◌*◌, ◌-◌, Bool, true, false, not, ◌||◌, Option, none, some, List, ltb, ◌==◌, ◌&&◌,
  [], length, if◌then◌else◌,
}
use koru.Prelude.Partial.{◌>>=◌}
use koru.Prelude.Words.{u64_mod}
use koru.Kernel.Abi.{
  KoruEnter, KoruParams, Cqe, Result, ok, err, Errno, einval, eintr, efault, enotty, eproto,
  koru_enter_flags_all,
}
use koru.Kernel.Setup.{RingConfig, unknown_flags, any_nonzero}
use koru.Kernel.Submit.{Reader, reap}
use koru.Kernel.Submission.{Around, Wake, submit, wait}
use koru.Kernel.Ctx.{RingCtx}

-- The size of an `Sqe`, and of a `Cqe`.
abbrev entry_size : ℕ
entry_size = 32

unfoldable pub allowed : RingConfig → KoruEnter → Bool
allowed cfg req = not (
    ltb cfg.sq_entries req.to_submit
    || (ltb cfg.cq_entries req.cq_space
        || (ltb req.cq_space req.min_complete
            || (ltb (u64_mod - 1) (req.to_submit * entry_size)
                || ltb (u64_mod - 1) (req.cq_space * entry_size)))))

-- The protocol checks, before anything is consumed.
unfoldable pub accepts : Option RingConfig → KoruEnter → Bool
unfolding allowed
accepts none req = false
accepts (some cfg) req =
    not (unknown_flags req.flags koru_enter_flags_all || any_nonzero req.reserved)
    && allowed cfg req

-- What the ioctl returns, what it writes back if it gets there, what it copied out, and the device.
pub record Entered : Type 0 where
  pub result : Result ℕ
  pub writeback : Option KoruEnter
  pub cq : List Cqe
  pub device : RingCtx

-- `asleep`: the wakes run out before the wait ends.
pub data Outcome : Type 0 where
  returned : Entered → Outcome
  asleep : Outcome
  panicked : Outcome

-- The environment of one call: the SQEs in the user's memory, what happens around each of them, which
-- copies of completions succeed, whether the writeback does, and what ends the sleeps of the wait.
pub record User : Type 0 where
  pub sq : Reader
  pub around : Around
  pub writes : ℕ → Bool
  pub writable : Bool
  pub wakes : List Wake

unfoldable pub reported : Bool → KoruEnter → ℕ → Bool → List Cqe → RingCtx → Outcome
reported writable req consumed interrupted cq me =
    if writable
    then returned (record {
      result = if interrupted then err eintr else ok consumed;
      writeback = some (record req { submitted = consumed; completed = length cq });
      cq = cq;
      device = me;
    })
    else returned (record { result = err efault; writeback = none; cq = cq; device = me })

unfoldable pub reaped : User → KoruEnter → ℕ → Bool × RingCtx → Outcome
unfolding reported
reaped user req consumed (interrupted, me) = elim (reap user.writes me.state req.cq_space) [
  | none ↦ panicked
  | some (cq, s) ↦ reported user.writable req consumed interrupted cq (record me { state = s })
]

-- From the end of `submit` on: its error fails the call at once.
unfoldable pub waited : User → KoruEnter → Result ℕ × RingCtx → Outcome
unfolding reaped
waited user req (err e, me) =
    returned (record { result = err e; writeback = none; cq = []; device = me })
waited user req (ok consumed, me) = elim (wait user.wakes me req.min_complete) [
  | none ↦ panicked
  | some none ↦ asleep
  | some (some r) ↦ reaped user req consumed r
]

-- What reads the ioctl's argument answers the request, or an error.
unfoldable pub enter : User → Result KoruEnter → RingCtx → Outcome
unfolding waited
enter user (err e) me = returned (record { result = err e; writeback = none; cq = []; device = me })
enter user (ok req) me =
    if accepts me.config req
    then elim (submit user.around user.sq req.to_submit me) [
      | none ↦ panicked
      | some r ↦ waited user req r
    ]
    else returned (record { result = err einval; writeback = none; cq = []; device = me })
