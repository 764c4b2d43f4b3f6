-- ===== src/Kernel/Ops.antt =====
-- `RingCtx::dispatch` of kernel/koru_ops.rs. `none` is a panic.
pub mod Shifts
pub mod Deferrals
pub mod Undone
pub mod Holding
pub mod Polls
pub mod Inline
pub mod PathCalls
pub mod Opens
pub mod Accounts
pub mod Completed
pub mod Finished
pub mod Balances
pub mod Balance
pub mod Workers
pub mod History
pub mod Leaks
use Prim.Native.Nat.{bit_and}
use koru.Prelude.{ℕ, Bool, not, ◌||◌, Option, none, some, ltb, ◌==◌, if◌then◌else◌}
use koru.Prelude.Partial.{◌>>=◌}
use koru.Kernel.Abi.{
  Sqe, Res, value, failed, Result, ok, err, Opcode, opcode_of, einval, koru_sqe_flags_all,
  koru_max_delay_ns,
}
use koru.Kernel.Setup.{unknown_flags}
use koru.Kernel.Host.{Host}
use koru.Kernel.Ctx.{RingCtx}
use koru.Kernel.Defer.{
  Deferral, defer, delay_jiffies, read_op, write_op, stat_op, readdir_op, checksum_op, poll_op,
}
use koru.Kernel.Cancel.{cancel_op}
use koru.Kernel.PathOps.{path_op}
use koru.Kernel.Open.{do_open, do_adopt, close_op}

-- `none` beside the ring: deferred. Otherwise `res` and `extra` of an inline completion.
abbrev pub Dispatched : Type 0
Dispatched = Option (Option (Res × ℕ) × RingCtx)

abbrev pub plain : Res → RingCtx → Dispatched
plain res me = some (some (res, 0), me)

-- What an operation that may be deferred answers, with no `extra`.
abbrev pub deferring : Option Res × RingCtx → Dispatched
deferring (none, me) = some (none, me)
deferring (some res, me) = plain res me

abbrev pub inline : (Res × ℕ) × RingCtx → Dispatched
inline (answer, me) = some (some answer, me)

abbrev pub handle_answer : Result ℕ × RingCtx → Dispatched
handle_answer (ok handle, me) = plain (value handle) me
handle_answer (err e, me) = plain (failed e) me

abbrev pub cancel_answer : Res × RingCtx → Dispatched
cancel_answer (res, me) = plain res me

nop_op : Sqe → Res
nop_op sqe =
    if not (sqe.len == 0) || (not (sqe.off == 0) || (not (sqe.slot == 0) || not (sqe.handle == 0)))
    then failed einval
    else value 0

delay_op : Host → Sqe → RingCtx → Deferral
delay_op host sqe me =
    if not (sqe.len == 0) || (not (sqe.slot == 0) || not (sqe.handle == 0))
    then some (some (failed einval), me)
    else if ltb koru_max_delay_ns sqe.off
    then some (some (failed einval), me)
    else defer host sqe (delay_jiffies host sqe.off) none me

unfoldable pub dispatch_as : Opcode → Host → Sqe → RingCtx → Dispatched
unfolding nop_op delay_op
dispatch_as Opcode.nop host sqe me = plain (nop_op sqe) me
dispatch_as Opcode.delay_ns host sqe me = delay_op host sqe me >>= deferring
dispatch_as Opcode.open_file host sqe me = do_open host sqe me >>= handle_answer
dispatch_as Opcode.close host sqe me = cancel_answer (close_op sqe me)
dispatch_as Opcode.read host sqe me = read_op host sqe me >>= deferring
dispatch_as Opcode.write host sqe me = write_op host sqe me >>= deferring
dispatch_as Opcode.adopt_fd host sqe me = do_adopt host sqe me >>= handle_answer
dispatch_as Opcode.poll_add host sqe me = poll_op host sqe me >>= deferring
dispatch_as Opcode.stat host sqe me = stat_op host sqe me >>= deferring
dispatch_as Opcode.readdir host sqe me = readdir_op host sqe me >>= deferring
dispatch_as Opcode.cancel host sqe me = cancel_op host sqe me >>= cancel_answer
dispatch_as Opcode.checksum host sqe me = checksum_op host sqe me >>= deferring
dispatch_as Opcode.unknown host sqe me = plain (failed einval) me
dispatch_as _ host sqe me = path_op host sqe me >>= inline

unfoldable pub dispatch : Host → Sqe → RingCtx → Dispatched
unfolding dispatch_as
dispatch host sqe me =
    if not (sqe.rsvd0 == 0) || unknown_flags sqe.flags koru_sqe_flags_all
    then plain (failed einval) me
    else dispatch_as (opcode_of sqe.opcode) host sqe me
