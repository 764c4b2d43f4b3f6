-- ===== src/Kernel/Submit.antt =====
-- `complete` and `reap` of kernel/koru.rs, and the ends of its `submit`, on the ring's state. What the
-- copies from and to the user's memory answer is an argument. `none` is a panic.
pub mod Reap
pub mod Accounts
pub mod Complete
use koru.Prelude.{
  ℕ, zero, suc, ◌+◌, ◌-◌, Bool, true, false, Option, none, some, List, [], ◌∷◌, leb, ltb, ◌==◌,
  ◌||◌, if◌then◌else◌,
}
use koru.Prelude.Partial.{minus, ◌>>=◌}
use koru.Kernel.Abi.{Sqe, Cqe, Res, Result, ok, err, Errno}
use koru.Kernel.Ring.{RingState, reserve, unreserve, post, front, pop, quiescent, slot_release}

unfoldable pub cqe_full : Sqe → Res → ℕ → ℕ → Cqe
cqe_full sqe res extra flags = record {
  user_data = sqe.user_data;
  res = res;
  flags = flags;
  rsvd0 = 0;
  extra = extra;
}

unfoldable pub cqe_extra : Sqe → Res → ℕ → Cqe
cqe_extra sqe res extra = cqe_full sqe res extra 0

unfoldable pub cqe : Sqe → Res → Cqe
cqe sqe res = cqe_extra sqe res 0

-- The release of a deferred operation's slot, where it has one.
unfoldable pub give_back : RingState → Option ℕ → Option RingState
give_back s none = some s
give_back s (some slot) = slot_release s slot

unfoldable pub complete : RingState → Cqe → Option ℕ → Option RingState
complete s cqe free_slot =
    minus s.inflight 1 >>= λ n. give_back (record s { inflight = n }) free_slot >>= λ t. post t cqe

-- The peeked completion copied out and popped, and what `next` reaps after it.
unfoldable pub popped :
    (RingState → Option (List Cqe × RingState))
    → Bool
    → RingState
    → Option Cqe
    → Option (List Cqe × RingState)
popped next _ s none = some ([], s)
popped next false s (some c) = some ([], s)
popped next true s (some c) = pop s >>= λ t. next t >>= λ r. some (c ∷ r.0, r.1)

-- Up to `space` more completions. The copy of a completion fails where `writes` says so, by how
-- many were written before.
unfoldable pub reap_from : (ℕ → Bool) → ℕ → ℕ → RingState → Option (List Cqe × RingState)
unfolding popped
reap_from writes zero done s = some ([], s)
reap_from writes (suc space) done s =
    front s >>= λ c. popped (reap_from writes space (suc done)) (writes done) s c

unfoldable pub reap : (ℕ → Bool) → RingState → ℕ → Option (List Cqe × RingState)
reap writes s cq_space = reap_from writes cq_space 0 s

-- What the copy of the next SQE answers, by how many were read before.
abbrev pub Reader : Type 0
Reader = ℕ → Result Sqe

-- How a `submit` ends: how many SQEs were consumed, or the errno of a fault on the first.
unfoldable pub faulted : ℕ → Errno → Result ℕ
faulted consumed e = if consumed == 0 then err e else ok consumed

unfoldable pub finish : Sqe → Option (Res × ℕ) × RingState → Option RingState
finish sqe (none, s) = some s
finish sqe (some (res, extra), s) = post s (cqe_extra sqe res extra)
