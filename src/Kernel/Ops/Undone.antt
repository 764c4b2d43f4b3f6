-- ===== src/Kernel/Ops/Undone.antt =====
-- A claimed slot or handle given back when an operation cannot be deferred.
use koru.Prelude.{
  ℕ, ◌≡◌, refl, ap, ◌∙◌, inl, inr, Bool, true, false, Option, none, some, List, [], ◌∷◌, ◌++◌,
  arith, ==_refl, ==_ne, ℕ-cases, if◌then◌else◌,
}
use koru.Kernel.Abi.{Sqe, Res, failed, ebusy}
use koru.Kernel.Ring.{RingState}
use koru.Kernel.Ring.Slots.{InArena}
use koru.Kernel.Handles.{unclaim}
use koru.Kernel.Handles.Laws.{index}
use koru.Kernel.Host.{Host}
use koru.Kernel.Ctx.{RingCtx, OpWork}
use koru.Kernel.Ops.Shifts.{
  Shift, Shift-trans, Shift-acquire, Shift-release, Shift-handles, only, nothing, claimed-unclaim,
}
use koru.Kernel.Defer.{let_go, defer_holding_slot, claimed_slot, claim_slot, unwound}
use koru.Kernel.Ops.Deferrals.{IsFresh, Left, Leaves, defer_lem}

-- An operation that was queued under claims that were taken before.
abbrev Under : Host → Sqe → (ℕ → ℕ) → (ℕ → ℕ) → RingCtx → Option Res → RingCtx → Type 0
Under host sqe d h me none t = Left host sqe d h me none t
Under host sqe d h me (some res) t = (t.pending ≡ me.pending) × Shift me t d h 0

pub Left-Under :
    (host : Host) (sqe : Sqe) (d h : ℕ → ℕ) (me m t : RingCtx) (a : Option Res)
    → m.pending ≡ me.pending
    → Shift me m d h 0
    → Left host sqe nothing nothing m a t
    → Under host sqe d h me a t
Left-Under host sqe d h me m t none same p (op, s, at, ops, q) = (
  op,
  s,
  at,
  ops ∙ ap (λ (l : List OpWork). l ++ op ∷ []) same,
  Shift-trans me m t d nothing h nothing d h 0 1 p q (λ x. omega arith) (λ i. omega arith),
)
Left-Under host sqe d h me m t (some res) same p (ops, q) = (
  ops ∙ same,
  Shift-trans me m t d nothing h nothing d h 0 0 p q (λ x. omega arith) (λ i. omega arith),
)

pub InArena-Shift :
    (me t : RingCtx) (d h : ℕ → ℕ) (n slot : ℕ)
    → Shift me t d h n
    → InArena me.state slot
    → InArena t.state slot
InArena-Shift me t d h n slot p room = omega (arith, p.words, room)

let_go_lem :
    (host : Host) (sqe : Sqe) (me t : RingCtx) (a : Option Res)
    → InArena me.state sqe.slot
    → Under host sqe (only sqe.slot) nothing me a t
    → Leaves host sqe (only sqe.slot) nothing me (let_go sqe.slot (a, t))
unfolding let_go
let_go_lem host sqe me t none room left = (none, t, refl, left)
let_go_lem host sqe me t (some res) room (ops, p) =
    let (s, run, q) =
      Shift-release me t sqe.slot nothing 0
        (InArena-Shift me t (only sqe.slot) nothing 0 sqe.slot p room) p in
    (some res, record t { state = s }, rw run refl, (ops, q))

claimed_slot_lem :
    (host : Host) (sqe : Sqe) (file : Option ℕ) (me : RingCtx) (got : Bool) (s : RingState)
    → IsFresh host me.pending
    → InArena me.state sqe.slot
    → Shift me (record me { state = s }) (λ x. if got then only sqe.slot x else 0) nothing 0
    → Leaves host sqe (only sqe.slot) nothing me (claimed_slot host sqe file me (got, s))
unfolding claimed_slot defer_holding_slot
claimed_slot_lem host sqe file me false s fresh room p =
    (some (failed ebusy), record me { state = s }, refl, (refl, p))
claimed_slot_lem host sqe file me true s fresh room p =
    let m : RingCtx = record me { state = s } in
    let (a, t, run, left) = defer_lem host sqe 0 file m fresh in
    rw run (
      let_go_lem host sqe me t a room
        (Left-Under host sqe (only sqe.slot) nothing me m t a refl p left))

-- READ, WRITE, STAT and CHECKSUM, once they were accepted: the operation holds its slot for as long
-- as it is registered, and lets go of it where it never was.
pub claim_slot_lem :
    (host : Host) (sqe : Sqe) (file : Option ℕ) (me : RingCtx)
    → IsFresh host me.pending
    → InArena me.state sqe.slot
    → Leaves host sqe (only sqe.slot) nothing me (claim_slot host sqe file me)
unfolding claim_slot
claim_slot_lem host sqe file me fresh room =
    let (got, s, run, p) = Shift-acquire me sqe.slot room in
    rw run (claimed_slot_lem host sqe file me got s fresh room p)

-- The handle is given back.
pub Shift-unclaim :
    (me t : RingCtx) (d : ℕ → ℕ) (n handle : ℕ)
    → Shift me t d (only (index handle)) n
    → Shift me (record t { handles = unclaim t.handles handle }) d nothing n
Shift-unclaim me t d n handle p =
    Shift-handles me t d (only (index handle)) nothing n (unclaim t.handles handle) p (λ i.
      elim (ℕ-cases i (index handle)) [
        | inl same ↦
            rw (claimed-unclaim t.handles handle i, same, ==_refl (index handle))
              (ground (arith, p.handles (index handle), ==_refl (index handle)))
        | inr ne ↦ rw (claimed-unclaim t.handles handle i, ==_ne i (index handle) ne) (omega arith)
      ])

pub unwound_lem :
    (host : Host) (sqe : Sqe) (me t : RingCtx) (a : Option Res)
    → InArena me.state sqe.slot
    → Under host sqe (only sqe.slot) (only (index sqe.handle)) me a t
    → Leaves host sqe (only sqe.slot) (only (index sqe.handle)) me (unwound sqe (a, t))
unfolding unwound
unwound_lem host sqe me t none room left = (none, t, refl, left)
unwound_lem host sqe me t (some res) room (ops, p) =
    let (s, run, q) =
      Shift-release me t sqe.slot (only (index sqe.handle)) 0
        (InArena-Shift me t (only sqe.slot) (only (index sqe.handle)) 0 sqe.slot p room) p in
    (
      some res,
      record t { state = s; handles = unclaim t.handles sqe.handle },
      rw run refl,
      (ops, Shift-unclaim me (record t { state = s }) nothing 0 sqe.handle q),
    )
