-- ===== src/Kernel/Ops/Accounts.antt =====
-- The ring's accounts: every operation in flight is registered, and a slot or a handle is claimed
-- exactly while one registered operation holds it.
use koru.Prelude.{
  ℕ, ◌+◌, ◌≤◌, ◌<◌, ◌≡◌, ◌≢◌, sym, ap, ◌∙◌, inl, inr, Option, none, some, List, [], ◌∷◌, ◌++◌,
  arith, length, length-append, All, subst,
}
use koru.Kernel.Abi.{Sqe, Res}
use koru.Kernel.Ring.{capacity}
use koru.Kernel.Ring.Slots.{owned}
use koru.Kernel.Ring.Queue.{IsSound}
use koru.Kernel.Submit.Accounts.{Keeps}
use koru.Kernel.Handles.Laws.{index}
use koru.Kernel.Host.{Host}
use koru.Kernel.Ctx.{RingCtx, OpWork}
use koru.Kernel.Defer.{held_slot, held_handle}
use koru.Kernel.Ops.Shifts.{Shift, Covers, Covers-Shift, one_if, only, nothing, claimed}
use koru.Kernel.Ops.Deferrals.{IsFresh, Left}

abbrev pub at_slot : Option ℕ → ℕ → ℕ
at_slot none x = 0
at_slot (some slot) x = only slot x

abbrev pub at_handle : Option ℕ → ℕ → ℕ
at_handle none i = 0
at_handle (some handle) i = only (index handle) i

-- What one operation holds of a slot, and of the entry of a handle.
unfoldable pub held : Sqe → ℕ → ℕ
held sqe x = at_slot (held_slot sqe) x

unfoldable pub claims : Sqe → ℕ → ℕ
claims sqe i = at_handle (held_handle sqe) i

-- How many registered operations hold the slot, and the entry.
abbrev pub holders : List OpWork → ℕ → ℕ
holders [] x = 0
holders (op ∷ ops) x = held op.sqe x + holders ops x

abbrev pub claimants : List OpWork → ℕ → ℕ
claimants [] i = 0
claimants (op ∷ ops) i = claims op.sqe i + claimants ops i

-- No two registered operations lie at one address.
abbrev pub Apart : List OpWork → Type 0
Apart [] = Unit
Apart (op ∷ ops) = All (λ e. e.address ≢ op.address) ops × Apart ops

pub record IsAccounted (me : RingCtx) : Type 0 where
  pub registered : length me.pending ≡ me.state.inflight
  pub slots : (x : ℕ) → holders me.pending x ≡ one_if (owned me.state x)
  pub handles : (i : ℕ) → claimants me.pending i ≡ one_if (claimed me.handles i)
  pub apart : Apart me.pending
  pub covers : Covers me

holders-append :
    (ops : List OpWork) (op : OpWork) (x : ℕ)
    → holders (ops ++ op ∷ []) x ≡ holders ops x + held op.sqe x
holders-append [] op x = omega arith
holders-append (e ∷ es) op x = omega (arith, holders-append es op x)

claimants-append :
    (ops : List OpWork) (op : OpWork) (i : ℕ)
    → claimants (ops ++ op ∷ []) i ≡ claimants ops i + claims op.sqe i
claimants-append [] op i = omega arith
claimants-append (e ∷ es) op i = omega (arith, claimants-append es op i)

All-last :
    (ops : List OpWork) (op : OpWork) (a : ℕ)
    → All (λ e. e.address ≢ a) ops
    → op.address ≢ a
    → All (λ e. e.address ≢ a) (ops ++ op ∷ [])
All-last [] op a h k = (k, tt)
All-last (e ∷ es) op a h k = (h.0, All-last es op a h.1 k)

Apart-append :
    (ops : List OpWork) (op : OpWork)
    → Apart ops
    → All (λ e. e.address ≢ op.address) ops
    → Apart (ops ++ op ∷ [])
Apart-append [] op h k = (tt, tt)
Apart-append (e ∷ es) op h k =
    (All-last es op e.address h.0 (λ q. k.0 (sym q)), Apart-append es op h.1 k.1)

-- What every step leaves: the accounts, the contract of `submit`, and the configuration.
abbrev pub Balanced : RingCtx → Option (Res × ℕ) → RingCtx → Type 0
Balanced me a t = IsAccounted t × Keeps me.state (a, t.state) × (t.config ≡ me.config)

IsSound-Shift :
    (me t : RingCtx) (d h : ℕ → ℕ) (n : ℕ)
    → Shift me t d h n
    → me.state.inflight + n ≤ me.state.reserved
    → IsSound me.state
    → IsSound t.state
IsSound-Shift me t d h n p few w =
    let cap : capacity t.state ≡ capacity me.state = ap length p.cq in
    record {
      bounded = omega (arith, p.len, p.reserved, cap, w.bounded);
      placed = elim w.placed [
        | inl empty ↦ inl (cap ∙ empty)
        | inr within ↦ inr (omega (arith, p.head, cap, within))
      ];
      deferred = omega (arith, p.inflight, p.reserved, few);
    }

module _ (me t : RingCtx) (acc : IsAccounted me) (w : IsSound me.state)
    (idle : me.state.inflight < me.state.reserved) where
  -- An answer that changed nothing keeps the accounts.
  pub Balanced-inline :
      (a : Res × ℕ) → t.pending ≡ me.pending → Shift me t nothing nothing 0 → Balanced me (some a) t
  Balanced-inline a ops p = (
    record {
      registered = ap length ops ∙ omega (arith, acc.registered, p.inflight);
      slots =
          λ x. ap (λ (l : List OpWork). holders l x) ops ∙ omega (arith, acc.slots x, p.slots x);
      handles = λ i.
          ap (λ (l : List OpWork). claimants l i) ops ∙ omega (arith, acc.handles i, p.handles i);
      apart = subst Apart (sym ops) acc.apart;
      covers = Covers-Shift me t nothing nothing 0 p acc.covers;
    },
    (
      IsSound-Shift me t nothing nothing 0 p (omega (arith, idle)) w,
      omega (arith, p.inflight, p.len),
      omega (arith, p.reserved, p.len),
    ),
    p.config,
  )

  -- An operation that was registered with what it holds keeps the accounts.
  pub Balanced-deferred :
      (host : Host) (sqe : Sqe)
      → IsFresh host me.pending
      → Left host sqe (held sqe) (claims sqe) me none t
      → Balanced me none t
  Balanced-deferred host sqe fresh (op, same, at, ops, p) = (
    record {
      registered =
          ap length ops
          ∙ omega (arith, length-append me.pending (op ∷ []), acc.registered, p.inflight);
      slots = λ x.
          ap (λ (l : List OpWork). holders l x) ops
          ∙ omega (
            arith,
            holders-append me.pending op x,
            acc.slots x,
            p.slots x,
            ap (λ (s : Sqe). held s x) same,
          );
      handles = λ i.
          ap (λ (l : List OpWork). claimants l i) ops
          ∙ omega (
            arith,
            claimants-append me.pending op i,
            acc.handles i,
            p.handles i,
            ap (λ (s : Sqe). claims s i) same,
          );
      apart = subst Apart (sym ops) (Apart-append me.pending op acc.apart (fresh op.address at));
      covers = Covers-Shift me t (held sqe) (claims sqe) 1 p acc.covers;
    },
    (
      IsSound-Shift me t (held sqe) (claims sqe) 1 p (omega (arith, idle)) w,
      omega (arith, p.inflight, p.len),
      omega (arith, p.reserved, p.len),
    ),
    p.config,
  )
