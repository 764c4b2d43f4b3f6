-- ===== src/Kernel/Submit/Accounts.antt =====
-- What `submit` expects of the dispatch of one SQE: the contract that `Kernel.Ops.dispatch` keeps.
use koru.Prelude.{ℕ, suc, ◌+◌, ◌≡◌, Option, none, some}
use koru.Kernel.Abi.{Res}
use koru.Kernel.Ring.{RingState}
use koru.Kernel.Ring.Queue.{IsSound}

-- What became of one SQE: the ring stays sound, no place is lost, and one answer more is owed or
-- none.
abbrev pub Keeps : RingState → Option (Res × ℕ) × RingState → Type 0
Keeps s (none, t) =
    IsSound t
    × (t.inflight + t.len ≡ suc (s.inflight + s.len))
    × (t.reserved + t.len ≡ s.reserved + s.len)
Keeps s (some a, t) =
    IsSound t
    × (t.inflight + t.len ≡ s.inflight + s.len)
    × (t.reserved + t.len ≡ s.reserved + s.len)
