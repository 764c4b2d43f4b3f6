-- ===== src/Runtime/Reactor/Slots/Conserved.antt =====
-- Each operation of the reactor hands a buffer slot on: it neither loses nor doubles one.
use koru.Prelude.{
  ℕ, ◌+◌, ◌≡◌, ◌≢◌, refl, ap, subst, sym, ◌∙◌, inl, inr, Option, none, some, [], ◌∷◌, ◌++◌, arith,
  Option-cases,
}
use koru.Prelude.Int.{ℤ}
use koru.Prelude.Partial.{some_inj}
use koru.Sys.Abi.{Sqe}
use koru.Sys.Pool.{drop_slot}
use koru.Runtime.Cookie.{Cookie}
use koru.Runtime.Slab.{Slab, get, get_mut, remove, insert}
use koru.Runtime.Slab.Update.{get_mut_miss}
use koru.Runtime.Slab.Remove.{remove-eq-get}
use koru.Runtime.Op.{
  Op, State, queued, ready, on_abandon, on_submitted, on_cqe, queue_op, probe, Abandon, drop_sqe,
  cancel,
}
use koru.Runtime.Reactor.{
  Inner, abandoning, drop_held, drop_entry, held_of, register, poll_op, abandon,
}
use koru.Runtime.Reactor.Slots.{tally, held, listed, copies}
use koru.Runtime.Reactor.Slots.Entries.{held-remove, held-insert, held-get_mut, held-get_mut-some}

-- The slot that a poll hands to its future.
abbrev pub handed : Option (ℤ × ℕ × Option ℕ) → Option ℕ
handed none = none
handed (some (res, extra, slot)) = slot

-- No transition of an operation touches its slot.
pub slot-on_submitted : (o : Op ℕ) → (on_submitted o).slot ≡ o.slot
unfolding on_submitted
slot-on_submitted o = refl

pub slot-on_cqe : (o : Op ℕ) (res : ℤ) (extra : ℕ) → (on_cqe o res extra).0.slot ≡ o.slot
unfolding on_cqe
slot-on_cqe o res extra = ground arith

pub slot-on_abandon : (o : Op ℕ) → (on_abandon o).0.slot ≡ o.slot
unfolding on_abandon
slot-on_abandon o = ground arith

slot-probe : (x : ℕ) → tally x (probe {S = ℕ}).slot ≡ 0
unfolding probe
slot-probe x = refl

module _ (x : ℕ) where
  pub copies-drop_held :
      (s : Inner) (o : Option ℕ) → copies x (drop_held s o) ≡ copies x s + tally x o
  unfolding drop_held drop_slot
  copies-drop_held s none = omega arith
  copies-drop_held s (some i) = omega arith

  pub copies-drop_entry : (s : Inner) (c : Cookie) → copies x (drop_entry s c) ≡ copies x s
  unfolding drop_entry
  copies-drop_entry s c = omega (
    arith,
    copies-drop_held (record s { slab = (remove s.slab c).1 }) (held_of (remove s.slab c).0),
    held-remove x s.slab c,
  )

  registered :
      (s : Inner) (u : Slab (Op ℕ)) (slot : Option ℕ) (make : Cookie → Sqe) (d : Cookie)
      → insert s.slab (queue_op slot) ≡ some (d, u)
      → copies x (record s { slab = u; pending = s.pending ++ make d ∷ [] })
        ≡ copies x s + tally x slot
  unfolding queue_op
  registered s u slot make d e =
      omega
        (arith, held-insert x s.slab u (record { state = queued; slot = slot; waker = none }) d e)

  register_eq :
      (s : Inner) (u : Slab (Op ℕ)) (slot : Option ℕ) (make : Cookie → Sqe) (d : Cookie)
      → insert s.slab (queue_op slot) ≡ some (d, u)
      → register s slot make ≡ some (d, record s { slab = u; pending = s.pending ++ make d ∷ [] })
  unfolding register
  register_eq s u slot make d e = ground (arith, e)

  -- Registering an operation puts its slot into the slab.
  pub copies-register :
      (s t : Inner) (slot : Option ℕ) (make : Cookie → Sqe) (c : Cookie)
      → register s slot make ≡ some (c, t)
      → copies x t ≡ copies x s + tally x slot
  unfolding register
  copies-register s t slot make c h = elim (Option-cases (insert s.slab (queue_op slot))) [
    | inl e ↦ ground (arith, e)
    | inr ((d, u), e) ↦
        let to_t = some_inj (sym (register_eq s u slot make d e) ∙ h) in
        subst (λ (p : Cookie × Inner). copies x p.1 ≡ copies x s + tally x slot) to_t
          (registered s u slot make d e)
  ]

  -- A poll of an operation that is done takes it out, its slot with it.
  poll_op-ready :
      (s : Inner) (c : Cookie) (w : ℕ) (o : Op ℕ) (res : ℤ) (extra : ℕ)
      → get s.slab c ≡ some o
      → o.state ≡ ready res extra
      → poll_op s c w ≡ some (some (res, extra, o.slot), record s { slab = (remove s.slab c).1 })
  unfolding poll_op
  poll_op-ready s c w o res extra e k = ground (arith, e, k, remove-eq-get s.slab c)

  poll_op_miss : (s : Inner) (c : Cookie) (w : ℕ) → get s.slab c ≡ none → poll_op s c w ≡ none
  unfolding poll_op
  poll_op_miss s c w e = ground (arith, e)

  await : Inner → Cookie → ℕ → Inner
  await s c w = record s { slab = get_mut s.slab c (λ op. record op { waker = some w }) }

  copies-await : (s : Inner) (c : Cookie) (w : ℕ) → copies x (await s c w) ≡ copies x s
  unfolding await
  copies-await s c w =
      omega (arith, held-get_mut x s.slab c (λ op. record op { waker = some w }) (λ o. refl))

  poll_op_pending :
      (s : Inner) (c : Cookie) (w : ℕ) (o : Op ℕ) (st : State)
      → get s.slab c ≡ some o
      → o.state ≡ st
      → ((res : ℤ) (extra : ℕ) → st ≢ ready res extra)
      → poll_op s c w ≡ some (none, await s c w)
  unfolding poll_op await
  poll_op_pending s c w o (ready res extra) e k n = absurd (n res extra refl)
  poll_op_pending s c w o _ e k n = ground (arith, e, k)

  copies-polled :
      (s t : Inner) (c : Cookie) (w : ℕ) (o : Op ℕ) (st : State) (r : Option (ℤ × ℕ × Option ℕ))
      → get s.slab c ≡ some o
      → o.state ≡ st
      → poll_op s c w ≡ some (r, t)
      → copies x t + tally x (handed r) ≡ copies x s
  copies-polled s t c w o (ready res extra) r e k h =
      let to_t = some_inj (sym (poll_op-ready s c w o res extra e k) ∙ h) in
      subst
        (λ (p : Option (ℤ × ℕ × Option ℕ) × Inner).
          copies x p.1 + tally x (handed p.0) ≡ copies x s)
        to_t
        (omega (
          arith,
          held-remove x s.slab c,
          ap (λ v. tally x (held_of v)) (remove-eq-get s.slab c ∙ e),
        ))
  copies-polled s t c w o st r e k h =
      let to_t = some_inj (sym (poll_op_pending s c w o st e k (ground arith)) ∙ h) in
      subst
        (λ (p : Option (ℤ × ℕ × Option ℕ) × Inner).
          copies x p.1 + tally x (handed p.0) ≡ copies x s)
        to_t (omega (arith, copies-await s c w))

  -- A poll either hands the slot to its future or leaves it in the slab.
  pub copies-poll_op :
      (s t : Inner) (c : Cookie) (w : ℕ) (r : Option (ℤ × ℕ × Option ℕ))
      → poll_op s c w ≡ some (r, t)
      → copies x t + tally x (handed r) ≡ copies x s
  copies-poll_op s t c w r h = elim (Option-cases (get s.slab c)) [
    | inl e ↦ absurd (cc (poll_op_miss s c w e, h))
    | inr (o, e) ↦ copies-polled s t c w o o.state r e refl h
  ]

  -- The slab after the abandoning transition.
  let_go : Inner → Cookie → Inner
  let_go s c = record s { slab = get_mut s.slab c (λ o. (on_abandon o).0) }

  copies-let_go : (s : Inner) (c : Cookie) → copies x (let_go s c) ≡ copies x s
  unfolding let_go
  copies-let_go s c = omega (arith, held-get_mut x s.slab c (λ o. (on_abandon o).0) slot-on_abandon)

  -- Dropping an SQE that never went out returns the slot at once and empties the entry.
  unslotted : Inner → Cookie → Inner
  unslotted s c =
      drop_held (record s { slab = get_mut s.slab c (λ op. record op { slot = none }) })
        (held_of (get s.slab c))

  copies-unslotted : (s : Inner) (c : Cookie) → copies x (unslotted s c) ≡ copies x s
  unfolding unslotted
  copies-unslotted s c =
      let f : Op ℕ → Op ℕ = λ op. record op { slot = none } in
      elim (Option-cases (get s.slab c)) [
        | inl e ↦ rw e (
            omega (
              arith,
              copies-drop_held (record s { slab = get_mut s.slab c f }) none,
              ap (λ (u : Slab (Op ℕ)). held x u.entries) (get_mut_miss f s.slab c e),
            ))
        | inr (o, e) ↦ rw e (
            omega (
              arith,
              copies-drop_held (record s { slab = get_mut s.slab c f }) o.slot,
              held-get_mut-some x s.slab c f o e,
            ))
      ]

  probed :
      (s : Inner) (u : Slab (Op ℕ)) (d : Cookie)
      → insert s.slab probe ≡ some (d, u)
      → listed x s.pool.free + held x u.entries ≡ copies x s
  probed s u d e = omega (arith, held-insert x s.slab u probe d e, slot-probe x)

  copies-abandoning :
      (s t : Inner) (c : Cookie) (a : Abandon) → abandoning s c a ≡ some t → copies x t ≡ copies x s
  unfolding abandoning unslotted
  copies-abandoning s t c drop_sqe h =
      subst (λ (i : Inner). copies x i ≡ copies x s) (some_inj h) (copies-unslotted s c)
  copies-abandoning s t c Abandon.remove h =
      subst (λ (i : Inner). copies x i ≡ copies x s) (some_inj h) (copies-drop_entry s c)
  copies-abandoning s t c cancel h = elim (Option-cases (insert s.slab probe)) [
    | inl e ↦ ground (arith, e)
    | inr ((d, u), e) ↦
        subst (λ (i : Inner). copies x i ≡ copies x s) (some_inj (rw (abandoning, e) at h))
          (probed s u d e)
  ]
  copies-abandoning s t c Abandon.impossible h = absurd (cc h)

  abandon_miss : (s : Inner) (c : Cookie) → get s.slab c ≡ none → abandon s c ≡ some s
  unfolding abandon
  abandon_miss s c e = rw (e, abandon)

  abandon_hit :
      (s : Inner) (c : Cookie) (o : Op ℕ)
      → get s.slab c ≡ some o
      → abandon s c ≡ abandoning (let_go s c) c (on_abandon o).1
  unfolding abandon let_go
  abandon_hit s c o e = rw (e, abandon)

  -- Dropping a future leaves every slot where it is, or returns it to the pool.
  pub copies-abandon : (s t : Inner) (c : Cookie) → abandon s c ≡ some t → copies x t ≡ copies x s
  copies-abandon s t c h = elim (Option-cases (get s.slab c)) [
    | inl e ↦
        subst (λ (i : Inner). copies x i ≡ copies x s) (some_inj (sym (abandon_miss s c e) ∙ h))
          refl
    | inr (o, e) ↦
        copies-abandoning (let_go s c) t c (on_abandon o).1 (sym (abandon_hit s c o e) ∙ h)
        ∙ copies-let_go s c
  ]
