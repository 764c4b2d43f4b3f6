-- ===== src/Kernel/Defer.antt =====
-- The operations of kernel/koru_ops.rs that a worker finishes: what they hold meanwhile, how they
-- are counted, registered and queued, and POLL_ADD. `none` is a panic.
use Prim.Native.Nat.{bit_and, bit_or}
use koru.Prelude.{
  ℕ, ◌+◌, ◌-◌, ◌/◌, Bool, true, false, not, ◌||◌, Option, none, some, List, [], ◌∷◌, ◌++◌, ltb,
  ◌==◌, if◌then◌else◌,
}
use koru.Prelude.Partial.{minus, ◌>>=◌}
use koru.Prelude.Words.{u32_mod, complement}
use koru.Kernel.Abi.{
  Sqe, Res, value, failed, Result, ok, err, Opcode, opcode_of, einval, ebusy, enomem, eagain,
  eopnotsupp,
}
use koru.Kernel.Ring.{RingState, slot_try_acquire, slot_release}
use koru.Kernel.Handles.{HandleTable, resolve, try_claim, unclaim}
use koru.Kernel.Poll.{poll_to_kernel, poll_to_koru, poll_always, koru_poll_events_all}
use koru.Kernel.Host.{Host}
use koru.Kernel.Arena.{check_range}
use koru.Kernel.Files.{read_validate, write_validate, readdir_validate, stat_validate}
use koru.Kernel.Ctx.{RingCtx, OpWork, pending_remove}

-- `none`: deferred. Otherwise the result of an inline completion.
abbrev pub Deferral : Type 0
Deferral = Option (Option Res × RingCtx)

unfoldable pub holds_slot : Opcode → Bool
holds_slot Opcode.checksum = true
holds_slot Opcode.read = true
holds_slot Opcode.write = true
holds_slot Opcode.stat = true
holds_slot Opcode.readdir = true
holds_slot _ = false

unfoldable pub holds_handle : Opcode → Bool
holds_handle Opcode.readdir = true
holds_handle _ = false

unfoldable pub is_poll : Opcode → Bool
is_poll Opcode.poll_add = true
is_poll _ = false

-- The slot that an operation owns while it is deferred, and the handle that it claims.
unfoldable pub held_slot : Sqe → Option ℕ
unfolding holds_slot
held_slot sqe = if holds_slot (opcode_of sqe.opcode) then some sqe.slot else none

unfoldable pub held_handle : Sqe → Option ℕ
unfolding holds_handle
held_handle sqe = if holds_handle (opcode_of sqe.opcode) then some sqe.handle else none

abbrev pub given_back : Option ℕ → HandleTable → HandleTable
given_back none t = t
given_back (some handle) t = unclaim t handle

unfoldable pub release_handle : Sqe → RingCtx → RingCtx
unfolding held_handle
release_handle sqe me = record me { handles = given_back (held_handle sqe) me.handles }

-- `inflight -= 1`
unfoldable pub uncount : RingCtx → Option RingCtx
uncount me =
    minus me.state.inflight 1 >>= λ n. some (record me { state = record me.state { inflight = n } })

abbrev pub new_op : Sqe → Option ℕ → ℕ → ℕ → OpWork
new_op sqe file interest address = record {
  address = address;
  sqe = sqe;
  file = file;
  interest = interest;
  taken = false;
}

abbrev pub counted : RingCtx → RingCtx
counted me = record me { state = record me.state { inflight = me.state.inflight + 1 } }

-- The new operation is counted, and then registered, unless the registry takes no more.
unfoldable pub registered : Host → RingCtx → OpWork → Option (Result OpWork × RingCtx)
unfolding uncount
registered host me op =
    if host.can_push
    then some (ok op, record me { pending = me.pending ++ op ∷ [] })
    else (uncount me >>= λ t. some (err enomem, t))

unfoldable pub alloc_at :
    Host → Sqe → Option ℕ → ℕ → RingCtx → Option ℕ → Option (Result OpWork × RingCtx)
alloc_at host sqe file interest me none = some (err enomem, me)
alloc_at host sqe file interest me (some address) =
    registered host (counted me) (new_op sqe file interest address)

unfoldable pub alloc_op : Host → Sqe → Option ℕ → ℕ → RingCtx → Option (Result OpWork × RingCtx)
unfolding alloc_at registered
alloc_op host sqe file interest me = alloc_at host sqe file interest me host.alloc_op

-- The operation is off the registry and no longer in flight: the completion is the caller's.
unfoldable pub withdrawn : OpWork → Res → RingCtx → Deferral
unfolding uncount
withdrawn op res me =
    uncount (record me { pending = pending_remove me.pending op }) >>= λ t. some (some res, t)

unfoldable pub enqueued : Host → ℕ → Result OpWork × RingCtx → Deferral
unfolding withdrawn
enqueued host jiffies (err e, me) = some (some (failed e), me)
enqueued host jiffies (ok op, me) =
    if host.enqueue_delayed jiffies then some (none, me) else withdrawn op (failed eagain) me

unfoldable pub defer : Host → Sqe → ℕ → Option ℕ → RingCtx → Deferral
unfolding alloc_op enqueued
defer host sqe jiffies file me = alloc_op host sqe file 0 me >>= λ r. enqueued host jiffies r

unfoldable pub let_go : ℕ → Option Res × RingCtx → Deferral
let_go slot (none, me) = some (none, me)
let_go slot (some res, me) =
    slot_release me.state slot >>= λ s. some (some res, record me { state = s })

unfoldable pub defer_holding_slot : Host → Sqe → Option ℕ → RingCtx → Deferral
unfolding defer let_go
defer_holding_slot host sqe file me = defer host sqe 0 file me >>= λ r. let_go sqe.slot r

-- The claim of the slot that READ, WRITE, STAT and CHECKSUM share.
unfoldable pub claimed_slot : Host → Sqe → Option ℕ → RingCtx → Bool × RingState → Deferral
claimed_slot host sqe file me (false, s) = some (some (failed ebusy), record me { state = s })
claimed_slot host sqe file me (true, s) = defer_holding_slot host sqe file (record me { state = s })

unfoldable pub claim_slot : Host → Sqe → Option ℕ → RingCtx → Deferral
unfolding claimed_slot defer_holding_slot
claim_slot host sqe file me =
    slot_try_acquire me.state sqe.slot >>= λ r. claimed_slot host sqe file me r

abbrev pub validated : Host → Sqe → Result ℕ → RingCtx → Deferral
validated host sqe (err e) me = some (some (failed e), me)
validated host sqe (ok file) me = claim_slot host sqe (some file) me

unfoldable pub read_op : Host → Sqe → RingCtx → Deferral
unfolding claim_slot
read_op host sqe me = validated host sqe (read_validate host sqe me) me

unfoldable pub write_op : Host → Sqe → RingCtx → Deferral
unfolding claim_slot
write_op host sqe me = validated host sqe (write_validate host sqe me) me

unfoldable pub stat_op : Host → Sqe → RingCtx → Deferral
unfolding claim_slot
stat_op host sqe me = validated host sqe (stat_validate sqe me) me

abbrev pub ranged : Host → Sqe → Result {0} Unit → RingCtx → Deferral
ranged host sqe (err e) me = some (some (failed e), me)
ranged host sqe (ok _) me = claim_slot host sqe none me

-- The arm of CHECKSUM in `dispatch`.
unfoldable pub checksum_op : Host → Sqe → RingCtx → Deferral
unfolding claim_slot
checksum_op host sqe me =
    if not (sqe.handle == 0)
    then some (some (failed einval), me)
    else ranged host sqe (check_range me.config sqe) me

-- READDIR gives both claims back where it did not queue.
unfoldable pub unwound : Sqe → Option Res × RingCtx → Deferral
unwound sqe (none, me) = some (none, me)
unwound sqe (some res, me) = slot_release me.state sqe.slot >>= λ s.
    some (some res, record me { state = s; handles = unclaim me.handles sqe.handle })

unfoldable pub claimed_both : Host → Sqe → ℕ → RingCtx → Bool × RingState → Deferral
claimed_both host sqe file me (false, s) =
    some (some (failed ebusy), record me { state = s; handles = unclaim me.handles sqe.handle })
claimed_both host sqe file me (true, s) =
    defer host sqe 0 (some file) (record me { state = s }) >>= λ r. unwound sqe r

unfoldable pub claimed_handle : Host → Sqe → ℕ → RingCtx → Result HandleTable → Deferral
claimed_handle host sqe file me (err e) = some (some (failed e), me)
claimed_handle host sqe file me (ok t) = slot_try_acquire me.state sqe.slot >>= λ r.
    claimed_both host sqe file (record me { handles = t }) r

unfoldable pub readable_dir : Host → Sqe → RingCtx → Result ℕ → Deferral
readable_dir host sqe me (err e) = some (some (failed e), me)
readable_dir host sqe me (ok file) =
    claimed_handle host sqe file me (try_claim me.handles sqe.handle)

unfoldable pub readdir_op : Host → Sqe → RingCtx → Deferral
unfolding readable_dir claimed_handle claimed_both unwound defer
readdir_op host sqe me = readable_dir host sqe me (readdir_validate host sqe me)

-- `msecs_to_jiffies(ns.div_ceil(1_000_000).try_into().unwrap_or(u32::MAX))`
unfoldable pub delay_jiffies : Host → ℕ → ℕ
delay_jiffies host ns =
    let ms = (ns + 999_999) / 1_000_000 in
    host.msecs_to_jiffies (if ltb ms u32_mod then ms else u32_mod - 1)

-- The answer of a poll that need not wait.
abbrev pub poll_answer : ℕ → ℕ → Option Res
poll_answer ready heads =
    if ltb 1 heads
    then some (failed eopnotsupp)
    else if not (ready == 0) || heads == 0
    then some (value (poll_to_koru ready))
    else none

abbrev pub take_token : OpWork → OpWork
take_token op = record op { taken = true }

-- The last operation of the registry, with its token taken.
unfoldable pub mark_taken : List OpWork → OpWork → List OpWork
mark_taken [] op = []
mark_taken (e ∷ es) op =
    let rest = mark_taken es op in if e.address == op.address then take_token e ∷ es else e ∷ rest

-- A wake that won the token has queued the work, which completes it.
unfoldable pub settled : Host → OpWork → RingCtx → Option Res → Deferral
settled host op me answer =
    if host.poll_woken
    then some (none, record me { pending = mark_taken me.pending op })
    else elim answer [ none ↦ some (none, me) | some res ↦ withdrawn op res me ]

unfoldable pub armed : Host → ℕ → ℕ → Result OpWork × RingCtx → Deferral
armed host file interest (err e, me) = some (some (failed e), me)
armed host file interest (ok op, me) =
    let (mask, heads) = host.poll_arm file interest in
    settled host op me (poll_answer (bit_and mask (bit_or interest poll_always)) heads)

unfoldable pub polled : Host → Sqe → RingCtx → Result ℕ → Deferral
polled host sqe me (err e) = some (some (failed e), me)
polled host sqe me (ok file) =
    let interest = poll_to_kernel sqe.len in
    alloc_op host sqe (some file) interest me >>= λ r. armed host file interest r

unfoldable pub poll_op : Host → Sqe → RingCtx → Deferral
unfolding polled armed settled mark_taken withdrawn alloc_op
poll_op host sqe me =
    if not (sqe.off == 0) || not (sqe.slot == 0)
    then some (some (failed einval), me)
    else if sqe.len == 0 || not (bit_and sqe.len (complement 32 koru_poll_events_all) == 0)
    then some (some (failed einval), me)
    else polled host sqe me (resolve me.handles sqe.handle)
