-- ===== src/Kernel/Ops/Finished.antt =====
-- An operation that is finished, by a worker or by a CANCEL: its completion is posted, and what it
-- held is free.
use koru.Prelude.{
  ℕ, zero, suc, ◌+◌, ◌≡◌, ◌≢◌, sym, ap, ◌∙◌, some, List, [], ◌∷◌, ◌++◌, arith, length, All,
  get_elem?, ==_refl, ==_ne,
}
use koru.Kernel.Abi.{Cqe}
use koru.Kernel.Ring.{RingState}
use koru.Kernel.Ring.Queue.{IsSound, queue}
use koru.Kernel.Ring.Slots.{owned}
use koru.Kernel.Submit.{complete}
use koru.Kernel.Handles.{HandleTable}
use koru.Kernel.Ctx.{RingCtx, OpWork, pending_remove}
use koru.Kernel.Defer.{held_slot, held_handle, given_back, release_handle}
use koru.Kernel.Cancel.{remove_at}
use koru.Kernel.Ops.Shifts.{one_if, claimed}
use koru.Kernel.Ops.Accounts.{held, claims, holders, claimants, Apart, IsAccounted}
use koru.Kernel.Ops.Completed.{complete_all, given_back_lem}

-- The registry without the operation.
pub record Removed (ops : List OpWork) (op : OpWork) (rest : List OpWork) : Type 0 where
  pub shorter : length rest + 1 ≡ length ops
  pub fewer_holders : (x : ℕ) → holders rest x + held op.sqe x ≡ holders ops x
  pub fewer_claimants : (i : ℕ) → claimants rest i + claims op.sqe i ≡ claimants ops i
  pub apart : Apart rest
  pub off : All (λ e. e.address ≢ op.address) rest
  pub kept : (a : ℕ) → All (λ e. e.address ≢ a) ops → All (λ e. e.address ≢ a) rest

Removed-head : (op : OpWork) (ops : List OpWork) → Apart (op ∷ ops) → Removed (op ∷ ops) op ops
Removed-head op ops h = record {
  shorter = omega arith;
  fewer_holders = λ x. omega arith;
  fewer_claimants = λ i. omega arith;
  apart = h.1;
  off = h.0;
  kept = λ a k. k.1;
}

Removed-tail :
    (e op : OpWork) (ops rest : List OpWork)
    → All (λ f. f.address ≢ e.address) ops
    → e.address ≢ op.address
    → Removed ops op rest
    → Removed (e ∷ ops) op (e ∷ rest)
Removed-tail e op ops rest h k r = record {
  shorter = omega (arith, r.shorter);
  fewer_holders = λ x. omega (arith, r.fewer_holders x);
  fewer_claimants = λ i. omega (arith, r.fewer_claimants i);
  apart = (r.kept e.address h, r.apart);
  off = (k, r.off);
  kept = λ a k. (k.0, r.kept a k.1);
}

address_ne :
    (ops : List OpWork) (i a : ℕ) (op : OpWork)
    → All (λ e. e.address ≢ a) ops
    → get_elem? ops i ≡ some op
    → op.address ≢ a
address_ne [] i a op h e = absurd (cc e)
address_ne (x ∷ ops) zero a op h e = let same : x ≡ op = cc e in rw (← same) h.0
address_ne (x ∷ ops) (suc i) a op h e = address_ne ops i a op h.1 e

pub Removed-remove_at :
    (ops : List OpWork) (i : ℕ) (op : OpWork)
    → Apart ops
    → get_elem? ops i ≡ some op
    → Removed ops op (remove_at ops i)
unfolding remove_at
Removed-remove_at [] i op h e = absurd (cc e)
Removed-remove_at (x ∷ ops) zero op h e =
    let same : x ≡ op = cc e in rw same (Removed-head op ops (rw same at h))
Removed-remove_at (x ∷ ops) (suc i) op h e =
    Removed-tail x op ops (remove_at ops i) h.0 (λ q. address_ne ops i x.address op h.0 e (sym q))
      (Removed-remove_at ops i op h.1 e)

pub Removed-pending_remove :
    (ops : List OpWork) (i : ℕ) (op : OpWork)
    → Apart ops
    → get_elem? ops i ≡ some op
    → Removed ops op (pending_remove ops op)
unfolding pending_remove
Removed-pending_remove [] i op h e = absurd (cc e)
Removed-pending_remove (x ∷ ops) zero op h e =
    let same : x ≡ op = cc e in
    rw same (rw (==_refl op.address) (Removed-head op ops (rw same at h)))
Removed-pending_remove (x ∷ ops) (suc i) op h e =
    let other = address_ne ops i x.address op h.0 e in
    rw (==_ne x.address op.address (λ q. other (sym q))) (
      Removed-tail x op ops (pending_remove ops op) h.0 (λ q. other (sym q))
        (Removed-pending_remove ops i op h.1 e))

-- What an operation that is finished with `c` leaves: `c` is the last completion of the queue, the
-- operation is off the registry, what it held of the slots and the handles is free and the others
-- are as they were, and the accounts hold.
pub record Finished (op : OpWork) (c : Cqe) (me t : RingCtx) : Type 0 where
  pub posted : queue t.state ≡ queue me.state ++ c ∷ []
  pub removed : Removed me.pending op t.pending
  pub slots : (x : ℕ) → one_if (owned t.state x) + held op.sqe x ≡ one_if (owned me.state x)
  pub handles :
      (i : ℕ) → one_if (claimed t.handles i) + claims op.sqe i ≡ one_if (claimed me.handles i)
  pub accounts : IsAccounted t
  pub sound : IsSound t.state
  pub config : t.config ≡ me.config
  pub inflight : t.state.inflight + 1 ≡ me.state.inflight
  pub reserved : t.state.reserved + 1 ≡ me.state.reserved
  pub len : t.state.len ≡ me.state.len + 1

module _ (me m : RingCtx) (op : OpWork) (rest : List OpWork) (c : Cqe) (acc : IsAccounted me)
    (w : IsSound me.state) (gone : Removed me.pending op rest) (config : m.config ≡ me.config)
    (state : m.state ≡ me.state) (handles : m.handles ≡ me.handles) where
  -- The operation is finished from a state that has only the arena changed.
  pub finish_lem :
      (s : RingState) × (complete m.state c (held_slot op.sqe) ≡ some s)
      × Finished op c me (record (release_handle op.sqe m) { state = s; pending = rest })
  unfolding release_handle held claims
  finish_lem =
      let (s, run, done) =
        complete_all me.state c (held_slot op.sqe) w (omega (arith, acc.registered, gone.shorter))
          (λ x. omega (arith, acc.slots x, gone.fewer_holders x)) in
      let claim : (i : ℕ)
          → one_if (claimed (given_back (held_handle op.sqe) m.handles) i) + claims op.sqe i
            ≡ one_if (claimed me.handles i) =
        λ i. omega (
          arith,
          given_back_lem me.handles (held_handle op.sqe) i
              (omega (arith, acc.handles i, gone.fewer_claimants i)),
          ap (λ (t : HandleTable). one_if (claimed (given_back (held_handle op.sqe) t) i)) handles,
        ) in
      (
        s,
        rw state run,
        record {
          posted = done.posted;
          removed = gone;
          slots = done.slots;
          handles = claim;
          accounts = record {
            registered = omega (arith, acc.registered, gone.shorter, done.inflight);
            slots = λ x. omega (arith, acc.slots x, gone.fewer_holders x, done.slots x);
            handles = λ i. omega (arith, acc.handles i, gone.fewer_claimants i, claim i);
            apart = gone.apart;
            covers = λ cfg e. omega (arith, acc.covers cfg (sym config ∙ e), done.words);
          };
          sound = done.sound;
          config = config;
          inflight = done.inflight;
          reserved = done.reserved;
          len = done.len;
        },
      )
