-- ===== src/Kernel/Ops/Balances.antt =====
-- What a call of `dispatch` leaves, as a balance of slots, handles and operations in flight.
use koru.Prelude.{
  ℕ, zero, suc, ◌≡◌, refl, inl, inr, Option, none, some, List, [], ◌∷◌, arith, get_elem?, ◌==◌,
  Bool-cases,
}
use koru.Kernel.Abi.{Sqe, Res}
use koru.Kernel.Host.{Host}
use koru.Kernel.Ctx.{RingCtx, OpWork, pending_find, user_data, shifted}
use koru.Kernel.Ops.{Dispatched}
use koru.Kernel.Ops.Deferrals.{Left}
use koru.Kernel.Ops.Accounts.{Balanced}

shifted_inv : (o : Option ℕ) (i : ℕ) → shifted o ≡ some (suc i) → o ≡ some i
shifted_inv none i h = absurd (cc h)
shifted_inv (some j) i h = ground (arith, h)

-- What `pending_find` finds is there.
pub pending_find_lem :
    (ops : List OpWork) (key i : ℕ)
    → pending_find ops key ≡ some i
    → (op : OpWork) × (get_elem? ops i ≡ some op)
unfolding pending_find
pending_find_lem [] key i h = absurd (cc h)
pending_find_lem (x ∷ ops) key zero h = (x, refl)
pending_find_lem (x ∷ ops) key (suc i) h = elim (Bool-cases (user_data x == key)) [
  | inl here ↦ absurd (ground (arith, h, here))
  | inr later ↦ pending_find_lem ops key i (shifted_inv (pending_find ops key) i (rw later at h))
]

-- `dispatch` returns, and what it leaves is balanced.
abbrev pub Balances : RingCtx → Dispatched → Type 0
Balances me o = (a : Option (Res × ℕ)) × (t : RingCtx) × (o ≡ some (a, t)) × Balanced me a t

pub Left-as :
    (host : Host) (sqe : Sqe) (d d' h h' : ℕ → ℕ) (me : RingCtx) (a : Option Res) (t : RingCtx)
    → ((x : ℕ) → d x ≡ d' x)
    → ((i : ℕ) → h i ≡ h' i)
    → Left host sqe d h me a t
    → Left host sqe d' h' me a t
Left-as host sqe d d' h h' me none t e f (op, same, at, ops, p) = (
  op,
  same,
  at,
  ops,
  record {
    config = p.config;
    cq = p.cq;
    head = p.head;
    len = p.len;
    reserved = p.reserved;
    inflight = p.inflight;
    words = p.words;
    slots = λ x. omega (arith, p.slots x, e x);
    handles = λ i. omega (arith, p.handles i, f i);
  },
)
Left-as host sqe d d' h h' me (some res) t e f left = left
