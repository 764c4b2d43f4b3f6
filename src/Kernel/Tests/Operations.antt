-- ===== src/Kernel/Tests/Operations.antt =====
-- Concrete inputs for the theorems on `dispatch`, `run` and histories: a CHECKSUM of one byte, on a
-- device with one slot of one small page.
use koru.Prelude.{ℕ, ◌≡◌, ◌<◌, refl, true, false, Option, none, some, [], ◌∷◌, arith, length}
use koru.Kernel.Abi.{opcode_of, Sqe, Res, value, ok, err, enoent}
use koru.Kernel.Ring.{RingState, reserve, slot_try_acquire, slot_release, post}
use koru.Kernel.Ring.Slots.{owned}
use koru.Kernel.Ring.Queue.{IsSound}
use koru.Kernel.Setup.{RingConfig}
use koru.Kernel.Submit.Accounts.{Keeps}
use koru.Kernel.Submit.{finish, complete, give_back, cqe_full}
use koru.Kernel.Arena.{check_range, slot_offset}
use koru.Kernel.Defer.{checksum_op, held_slot, release_handle}
use koru.Kernel.Host.{Host, FileInfo, OpenFlags, Worker}
use koru.Kernel.Ctx.{RingCtx, OpWork, opened, configured, default_cqe, pending_remove}
use koru.Kernel.Ops.{dispatch}
use koru.Kernel.Work.{run, work}
use koru.Kernel.Checksum.{checksum, fnv}
use koru.Kernel.Ops.Shifts.{one_if, claimed}
use koru.Kernel.Ops.Deferrals.{IsFresh}
use koru.Kernel.Ops.Accounts.{IsAccounted, holders, claimants}
use koru.Kernel.Ops.Balance.{dispatch_lem}
use koru.Kernel.Ops.Finished.{Finished}
use koru.Kernel.Ops.Workers.{run_lem, completion}
use koru.Kernel.Ops.History.{
  Reach, here, next, submitted, worked, IsSettled, Reach-IsSettled, Accounted-state,
}
use koru.Kernel.Ops.Leaks.{configured-IsSettled, reach_lem, idle_lem}

abbrev small : RingConfig
small = record {
  sq_entries = 1;
  cq_entries = 2;
  slot_size = 4;
  slot_count = 1;
  arena_size = 4;
  handle_count = 1;
}

abbrev no_flags : OpenFlags
no_flags = record {
  o_rdonly = 0;
  o_wronly = 1;
  o_rdwr = 2;
  o_nofollow = 4;
  o_directory = 8;
  o_nonblock = 16;
  o_creat = 32;
  o_excl = 64;
  o_trunc = 128;
  o_append = 256;
  o_largefile = 512;
  o_noctty = 1024;
}

abbrev regular : FileInfo
regular = record {
  f_mode = 7;
  f_flags = 0;
  file_type = 8;
  read = false;
  read_iter = true;
  write = false;
  write_iter = true;
  iterate_shared = false;
}

abbrev pub host : Host
host = record {
  page_size = 4;
  path_max = 4096;
  s_ifreg = 8;
  flags = no_flags;
  memory = λ n. true;
  msecs_to_jiffies = λ n. n;
  info = λ f. regular;
  filp_open = λ p f m. ok 1;
  fget = λ f. ok f;
  is_ring = λ f. false;
  vfs_mkdir = λ p m. none;
  vfs_remove = λ p l d. none;
  vfs_rename = λ p q. none;
  vfs_symlink = λ p q. none;
  vfs_truncate = λ p n. none;
  vfs_utimes = λ p t. none;
  vfs_get_link = λ p. err enoent;
  getattr_at = λ p. err enoent;
  statx_bits = [];
  alloc_op = some 7;
  can_push = true;
  enqueue_delayed = λ j. true;
  poll_arm = λ f i. (0, 1);
  poll_woken = false;
  cancel_delayed_work = λ a. true;
}

abbrev pub worker : Worker
worker = record {
  page_size = 4;
  memory = λ n. true;
  read_at = λ f p d n. ok [];
  write_at = λ f p d b. ok 0;
  getattr = λ f. err enoent;
  statx_bits = [];
  vfs_llseek = λ f p. none;
  dir_entries = λ f. [];
  iterate_dir = λ f. none;
  dir_pos = λ f n. 0;
  fired = 0;
  poll_mask_now = 0;
}

abbrev pub sum_sqe : Sqe
sum_sqe = record {
  opcode = 6;
  flags = 0;
  rsvd0 = 0;
  len = 1;
  off = 0;
  user_data = 5;
  slot = 0;
  handle = 0;
}

abbrev pub start : RingCtx
unfolding opened configured
start = configured 4 opened small

abbrev reserved_state : RingState
unfolding opened configured reserve
reserved_state = (reserve start.state).1

-- The device with the operation in flight, as the accounts' proofs compute it.
abbrev sum_op : OpWork
sum_op = record { address = 7; sqe = sum_sqe; file = none; interest = 0; taken = false }

abbrev busy_ctx : RingCtx
unfolding start
busy_ctx = record start {
  state = record start.state { reserved = 1; inflight = 1; slot_busy = 1 ∷ [] };
  pending = sum_op ∷ [];
}

pub start-IsSettled : IsSettled start
unfolding start
start-IsSettled = configured-IsSettled 4 opened small

IsFresh-host : IsFresh host []
IsFresh-host a e = tt

dispatch-sum :
    dispatch host sum_sqe (record start { state = reserved_state }) ≡ some (none, busy_ctx)
unfolding dispatch start reserved_state busy_ctx opcode_of checksum_op check_range slot_try_acquire
dispatch-sum = refl

-- The device once the worker is done.
abbrev done_ctx : RingCtx
unfolding start
done_ctx = record start {
  state = record start.state {
    cq =
        record { user_data = 5; res = value 3414781078840391647; flags = 0; rsvd0 = 0; extra = 0 }
        ∷ default_cqe
        ∷ [];
    len = 1;
    slot_busy = 0 ∷ [];
  };
}

run-sum : run worker sum_op busy_ctx ≡ some done_ctx
unfolding run start busy_ctx done_ctx complete opcode_of give_back held_slot slot_release post
    release_handle cqe_full pending_remove checksum check_range slot_offset fnv
run-sum = refl

submitted_reach : Reach start busy_ctx
unfolding start busy_ctx reserved_state finish
submitted_reach = next here (
    submitted host sum_sqe reserved_state busy_ctx.state none busy_ctx IsFresh-host refl
      dispatch-sum refl)

done_reach : Reach start done_ctx
unfolding start busy_ctx
done_reach = next submitted_reach (worked worker 0 sum_op done_ctx refl run-sum)

reserved_accounts : IsAccounted (record start { state = reserved_state })
unfolding start reserved_state
reserved_accounts = Accounted-state start reserved_state start-IsSettled.accounts refl refl

reserved-IsSound : IsSound reserved_state
unfolding start reserved_state
reserved-IsSound = record { bounded = omega arith; placed = grind arith; deferred = omega arith }

reserved_idle : reserved_state.inflight < reserved_state.reserved
unfolding start reserved_state
reserved_idle = omega arith

dispatch_lem_example :
    (a : Option (Res × ℕ)) × (t : RingCtx) × (dispatch host sum_sqe
        (record start { state = reserved_state })
      ≡ some (a, t))
    × IsAccounted t
    × Keeps reserved_state (a, t.state)
    × (t.config ≡ start.config)
unfolding start
dispatch_lem_example =
    dispatch_lem host sum_sqe (record start { state = reserved_state }) reserved_accounts
      reserved-IsSound reserved_idle IsFresh-host

busy-IsSettled : IsSettled busy_ctx
busy-IsSettled = Reach-IsSettled submitted_reach start-IsSettled

run_lem_example :
    (t : RingCtx) × (run worker sum_op busy_ctx ≡ some t)
    × Finished sum_op (completion sum_op (work worker sum_op busy_ctx).0) busy_ctx t
unfolding start busy_ctx
run_lem_example = run_lem worker busy_ctx 0 sum_op busy-IsSettled.accounts busy-IsSettled.sound refl

reach_lem_example :
    IsSound busy_ctx.state
    × (busy_ctx.state.reserved ≡ busy_ctx.state.inflight)
    × (length busy_ctx.pending ≡ busy_ctx.state.inflight)
    × (holders busy_ctx.pending 0 ≡ one_if (owned busy_ctx.state 0))
    × (claimants busy_ctx.pending 0 ≡ one_if (claimed busy_ctx.handles 0))
unfolding start
reach_lem_example = reach_lem 4 opened busy_ctx small 0 0 submitted_reach

idle_lem_example : (owned done_ctx.state 0 ≡ false) × (claimed done_ctx.handles 0 ≡ false)
unfolding start done_ctx
idle_lem_example = idle_lem 4 opened done_ctx small 0 0 done_reach refl
