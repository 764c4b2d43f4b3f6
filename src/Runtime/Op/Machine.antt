-- ===== src/Runtime/Op/Machine.antt =====
-- The life of an operation, under any order of submission, completions and drops.
use koru.Prelude.{ℕ, ◌+◌, ◌≤◌, ◌≡◌, refl, ◌∙◌, Option, List, [], ◌∷◌, arith}
use koru.Prelude.Int.{ℤ}
use koru.Runtime.Op.{
  Op, State, queued, live, Landed, woke, queue_op, on_submitted, on_cqe, on_abandon,
}

pub data Event : Type 0 where
  submit : Event
  complete : ℤ → ℕ → Event
  abandon : Event

abbrev is_woke : Landed → ℕ
is_woke woke = 1
is_woke _ = 0

-- Wakes that an operation can still give.
abbrev left : State → ℕ
left queued = 1
left live = 1
left _ = 0

module _ {S : Type 0} where
  unfoldable pub after : Op S → Event → Op S
  after o submit = on_submitted o
  after o (complete res extra) = (on_cqe o res extra).0
  after o abandon = (on_abandon o).0

  -- 1 where the event wakes a waiter.
  wakes_by : Op S → Event → ℕ
  wakes_by o (complete res extra) = is_woke (on_cqe o res extra).1
  wakes_by o _ = 0

  unfoldable pub wakes : Op S → List Event → ℕ
  unfolding wakes_by
  wakes o [] = 0
  wakes o (e ∷ es) = wakes_by o e + wakes (after o e) es

  unfoldable pub history : Op S → List Event → Op S
  unfolding after
  history o [] = o
  history o (e ∷ es) = history (after o e) es

  step-left : (o : Op S) (e : Event) → wakes_by o e + left (after o e).state ≤ left o.state
  unfolding wakes_by after on_submitted on_cqe on_abandon
  step-left o submit = ground arith
  step-left o (complete res extra) = ground arith
  step-left o abandon = ground arith

  wakes-le-left : (o : Op S) (es : List Event) → wakes o es ≤ left o.state
  unfolding wakes
  wakes-le-left o [] = omega arith
  wakes-le-left o (e ∷ es) = omega (arith, step-left o e, wakes-le-left (after o e) es)

  step-slot : (o : Op S) (e : Event) → (after o e).slot ≡ o.slot
  unfolding after on_submitted on_cqe on_abandon
  step-slot o submit = refl
  step-slot o (complete res extra) = ground arith
  step-slot o abandon = ground arith

  slot-history : (o : Op S) (es : List Event) → (history o es).slot ≡ o.slot
  unfolding history
  slot-history o [] = refl
  slot-history o (e ∷ es) = slot-history (after o e) es ∙ step-slot o e

  -- Whatever submissions, completions and drops follow, a queued operation wakes its waiter once at
  -- most, and no transition lets go of its slot.
  pub queue_op_once :
      (slot : Option S) (es : List Event)
      → (wakes (queue_op slot) es ≤ 1) × ((history (queue_op slot) es).slot ≡ slot)
  unfolding queue_op
  queue_op_once slot es = (wakes-le-left (queue_op slot) es, slot-history (queue_op slot) es)

  dropped-left : (o : Op S) → left (on_abandon o).0.state ≡ 0
  unfolding on_abandon
  dropped-left o = ground arith

  -- An operation that was dropped wakes nobody, whatever comes later.
  pub abandon_silent : (o : Op S) (es : List Event) → wakes (on_abandon o).0 es ≡ 0
  abandon_silent o es = omega (arith, wakes-le-left (on_abandon o).0 es, dropped-left o)
