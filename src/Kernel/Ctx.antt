-- ===== src/Kernel/Ctx.antt =====
-- `RingCtx` of kernel/koru.rs: one open device, and the calls on it. The page size, whether memory
-- can be had, what a copy from or to the user answers, and what the VMA is, are arguments. Locks
-- are not modelled: each call is one step.
pub mod Configured
use Prim.Native.Nat.{bit_and}
use koru.Prelude.{
  ℕ, zero, suc, ◌+◌, ◌-◌, ◌*◌, ◌/◌, ◌%◌, ◌^◌, Bool, true, false, not, ◌&&◌, ◌||◌, Option, none,
  some, List, [], ◌∷◌, replicate, length, ltb, ◌==◌, if◌then◌else◌,
}
use koru.Kernel.Abi.{
  KoruParams, Sqe, Cqe, Res, value, Result, ok, err, Errno, einval, ebusy, enomem, efault, enotty,
  eproto, enoent,
}
use koru.Kernel.Ring.{RingState}
use koru.Kernel.Setup.{RingConfig, validate, fill_caps, fill_config, default_params}
use koru.Kernel.Handles
use koru.Kernel.Handles.{HandleTable}

pub record Arena : Type 0 where
  -- the bytes of each page
  pub pages : List (List ℕ)
  pub mapped : Bool

-- A deferred operation. `address` stands for where it lies, `taken` is the one-shot token of an
-- armed poll, and `interest` the mask that it waits for. The back pointer to the ring and the
-- credentials are left out.
pub record OpWork : Type 0 where
  pub address : ℕ
  pub sqe : Sqe
  pub file : Option ℕ
  pub interest : ℕ
  pub taken : Bool

abbrev pub user_data : OpWork → ℕ
user_data op = op.sqe.user_data

pub record RingCtx : Type 0 where
  pub config : Option RingConfig
  pub state : RingState
  pub arena : Arena
  pub handles : HandleTable
  pub pending : List OpWork

unfoldable pub opened : RingCtx
opened = record {
  config = none;
  state = record { cq = []; head = 0; len = 0; reserved = 0; inflight = 0; slot_busy = [] };
  arena = record { pages = []; mapped = false };
  handles = Handles.new;
  pending = [];
}

abbrev pub shifted : Option ℕ → Option ℕ
shifted none = none
shifted (some i) = some (suc i)

unfoldable pub pending_find : List OpWork → ℕ → Option ℕ
pending_find [] key = none
pending_find (op ∷ ops) key =
    let rest = pending_find ops key in if user_data op == key then some 0 else shifted rest

unfoldable pub pending_remove : List OpWork → OpWork → List OpWork
pending_remove [] op = []
pending_remove (e ∷ es) op =
    let rest = pending_remove es op in if e.address == op.address then es else e ∷ rest

-- `Cqe::default()`
abbrev pub default_cqe : Cqe
default_cqe = record { user_data = 0; res = value 0; flags = 0; rsvd0 = 0; extra = 0 }

unfoldable pub configured : ℕ → RingCtx → RingConfig → RingCtx
configured page_size me cfg = record me {
  config = some cfg;
  state = record {
    cq = replicate cfg.cq_entries default_cqe;
    head = 0;
    len = 0;
    reserved = 0;
    inflight = 0;
    slot_busy = replicate ((cfg.slot_count + 63) / 64) 0;
  };
  arena = record {
    pages = replicate (cfg.arena_size / page_size) (replicate page_size 0);
    mapped = false;
  };
  handles = record { entries = Handles.alloc cfg.handle_count };
  pending = [];
}

-- What the caller is told, once the ring is configured.
unfoldable pub written_back : RingConfig → Bool → Result KoruParams
written_back cfg writable =
    if writable then ok (fill_config (fill_caps default_params) cfg) else err efault

-- A validated request: the allocations come first, and the one configuration last.
unfoldable pub install :
    ℕ → Bool → Bool → RingCtx → RingConfig → Option RingConfig → Result KoruParams × RingCtx
unfolding written_back
install page_size memory writable me cfg (some old) = (err (if memory then ebusy else enomem), me)
install page_size memory writable me cfg none =
    if memory then (written_back cfg writable, configured page_size me cfg) else (err enomem, me)

unfoldable pub judged : ℕ → Bool → Bool → RingCtx → Result RingConfig → Result KoruParams × RingCtx
unfolding install
judged page_size memory writable me (err e) = (err e, me)
judged page_size memory writable me (ok cfg) = install page_size memory writable me cfg me.config

-- What `SETUP` returns, with the parameters that it writes, and the context after it.
unfoldable pub setup : ℕ → Bool → Bool → RingCtx → Result KoruParams → Result KoruParams × RingCtx
unfolding judged
setup page_size memory writable me (err e) = (err e, me)
setup page_size memory writable me (ok req) =
    judged page_size memory writable me (validate page_size req)

unfoldable pub params_of : Option RingConfig → KoruParams
params_of none = fill_caps default_params
params_of (some cfg) = fill_config (fill_caps default_params) cfg

unfoldable pub get_params : Bool → RingCtx → Result KoruParams
unfolding params_of
get_params writable me = if writable then ok (params_of me.config) else err efault

-- What `mmap` reads of the VMA.
pub record Vma : Type 0 where
  pub pgoff : ℕ
  pub length : ℕ
  pub shared : Bool

-- The insertion of each page, in order; the first that fails ends it.
unfoldable pub insert_pages : (ℕ → Option Errno) → ℕ → ℕ → Option Errno
insert_pages insert_page first zero = none
insert_pages insert_page first (suc n) = elim (insert_page first) [
  | none ↦ insert_pages insert_page (suc first) n
  | some e ↦ some e
]

unfoldable pub inserted : RingCtx → Option Errno → Option Errno × RingCtx
inserted me none = (none, record me { arena = record me.arena { mapped = true } })
inserted me (some e) = (some e, me)

unfoldable pub mmap_as :
    Option RingConfig → (ℕ → Option Errno) → Vma → RingCtx → Option Errno × RingCtx
unfolding inserted insert_pages
mmap_as none insert_page vma me = (some einval, me)
mmap_as (some cfg) insert_page vma me =
    if not (vma.pgoff == 0)
    then (some einval, me)
    else if not (vma.length == cfg.arena_size)
    then (some einval, me)
    else if not vma.shared
    then (some einval, me)
    else if me.arena.mapped
    then (some ebusy, me)
    else inserted me (insert_pages insert_page 0 (length me.arena.pages))

-- The errno of a failure, and the context after the call.
unfoldable pub mmap : (ℕ → Option Errno) → Vma → RingCtx → Option Errno × RingCtx
unfolding mmap_as
mmap insert_page vma me = mmap_as me.config insert_page vma me
