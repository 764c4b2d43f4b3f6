-- ===== src/Runtime/Reactor/Slots/Landing.antt =====
-- What a turn does with a batch and with completions hands every buffer slot on.
use koru.Prelude.{
  ℕ, ◌+◌, ◌-◌, ◌≡◌, refl, subst, sym, ◌∙◌, inl, inr, Option, none, some, List, [], ◌∷◌, arith,
  Option-cases,
}
use koru.Prelude.Partial.{◌>>=◌, >>=-eq-some, some_inj}
use koru.Sys.Abi.{Sqe, Cqe}
use koru.Runtime.Cookie.{Cookie}
use koru.Runtime.Slab.{Slab, get, get_mut}
use koru.Runtime.Op.{Op, on_submitted, on_cqe, Landed, woke, discard}
use koru.Runtime.Reactor.{
  Inner, wake, drop_entry, submit_all, drop_all, take_batch, retain_live, mark_live,
}
use koru.Runtime.Reactor.Turn.{woken, route, dispatch_one, dispatch_from, dispatch}
use koru.Runtime.Reactor.Slots.{held, copies}
use koru.Runtime.Reactor.Slots.Entries.{held-get_mut}
use koru.Runtime.Reactor.Slots.Conserved.{copies-drop_entry, slot-on_submitted, slot-on_cqe}

module _ (x : ℕ) where
  held-submit_all :
      (s : Slab (Op ℕ)) (sqes : List Sqe) → held x (submit_all s sqes).entries ≡ held x s.entries
  unfolding submit_all
  held-submit_all s [] = refl
  held-submit_all s (sqe ∷ rest) =
      held-submit_all (get_mut s sqe.user_data on_submitted) rest
      ∙ held-get_mut x s sqe.user_data on_submitted slot-on_submitted

  pub copies-mark_live : (s : Inner) (sqes : List Sqe) → copies x (mark_live s sqes) ≡ copies x s
  unfolding mark_live
  copies-mark_live s sqes = omega (arith, held-submit_all s.slab sqes)

  copies-drop_all : (s : Inner) (cs : List Cookie) → copies x (drop_all s cs) ≡ copies x s
  unfolding drop_all
  copies-drop_all s [] = refl
  copies-drop_all s (c ∷ cs) = copies-drop_all (drop_entry s c) cs ∙ copies-drop_entry x s c

  pub copies-take_batch : (s : Inner) → copies x (take_batch s).1 ≡ copies x s
  unfolding take_batch
  copies-take_batch s = copies-drop_all (record s { pending = [] }) (retain_live s.slab s.pending).1

  copies-wake : (s : Inner) (c : Cookie) → copies x (wake s c) ≡ copies x s
  unfolding wake
  copies-wake s c = ground arith

  copies-woken : (s : Inner) (w : Option ℕ) → copies x (woken w s).0 ≡ copies x s
  unfolding woken
  copies-woken s none = refl
  copies-woken s (some w) = copies-wake s w

  cleared : Inner → Cookie → Inner
  cleared s c = record s { slab = get_mut s.slab c (λ op. record op { waker = none }) }

  copies-cleared : (s : Inner) (c : Cookie) → copies x (cleared s c) ≡ copies x s
  unfolding cleared
  copies-cleared s c =
      omega (arith, held-get_mut x s.slab c (λ op. record op { waker = none }) (λ o. refl))

  copies-route :
      (s t : Inner) (cqe : Cqe) (l : Landed) (n : ℕ)
      → route s cqe l ≡ some (t, n)
      → copies x t ≡ copies x s
  unfolding route cleared
  copies-route s t cqe woke n h =
      subst (λ (p : Inner × ℕ). copies x p.0 ≡ copies x s) (some_inj h)
        (copies-woken (cleared s cqe.user_data)
            (get s.slab cqe.user_data >>= λ (op : Op ℕ). op.waker)
          ∙ copies-cleared s cqe.user_data)
  copies-route s t cqe discard n h =
      subst (λ (p : Inner × ℕ). copies x p.0 ≡ copies x s) (some_inj h)
        (copies-drop_entry x s cqe.user_data)
  copies-route s t cqe Landed.impossible n h = absurd (cc h)

  completed : Inner → Cqe → Inner
  completed s cqe = record s {
    inflight = s.inflight - 1;
    slab = get_mut s.slab cqe.user_data (λ o. (on_cqe o cqe.res cqe.extra).0);
  }

  copies-completed : (s : Inner) (cqe : Cqe) → copies x (completed s cqe) ≡ copies x s
  unfolding completed
  copies-completed s cqe = omega (
    arith,
    held-get_mut x s.slab cqe.user_data (λ o. (on_cqe o cqe.res cqe.extra).0)
        (λ o. slot-on_cqe o cqe.res cqe.extra),
  )

  dispatch_one_miss :
      (s : Inner) (cqe : Cqe)
      → get s.slab cqe.user_data ≡ none
      → dispatch_one s cqe ≡ some (record s { inflight = s.inflight - 1 }, 0)
  unfolding dispatch_one
  dispatch_one_miss s cqe e = rw (e, dispatch_one)

  dispatch_one_hit :
      (s : Inner) (cqe : Cqe) (o : Op ℕ)
      → get s.slab cqe.user_data ≡ some o
      → dispatch_one s cqe ≡ route (completed s cqe) cqe (on_cqe o cqe.res cqe.extra).1
  unfolding dispatch_one completed
  dispatch_one_hit s cqe o e = rw (e, dispatch_one)

  copies-dispatch_one :
      (s t : Inner) (cqe : Cqe) (n : ℕ) → dispatch_one s cqe ≡ some (t, n) → copies x t ≡ copies x s
  copies-dispatch_one s t cqe n h = elim (Option-cases (get s.slab cqe.user_data)) [
    | inl e ↦
        subst (λ (p : Inner × ℕ). copies x p.0 ≡ copies x s)
          (some_inj (sym (dispatch_one_miss s cqe e) ∙ h)) refl
    | inr (o, e) ↦
        copies-route (completed s cqe) t cqe (on_cqe o cqe.res cqe.extra).1 n
          (sym (dispatch_one_hit s cqe o e) ∙ h)
        ∙ copies-completed s cqe
  ]

  copies-dispatch_from :
      (s t : Inner) (cqes : List Cqe) (k n : ℕ)
      → dispatch_from s cqes k ≡ some (t, n)
      → copies x t ≡ copies x s
  unfolding dispatch_from
  copies-dispatch_from s t [] k n h =
      subst (λ (p : Inner × ℕ). copies x p.0 ≡ copies x s) (some_inj h) refl
  copies-dispatch_from s t (cqe ∷ rest) k n h =
      let ((u, m), e, p) = >>=-eq-some (dispatch_one s cqe) _ h in
      copies-dispatch_from u t rest (k + m) n p ∙ copies-dispatch_one s u cqe m e

  -- Completions land without moving a slot, but for the entries that they end.
  pub copies-dispatch :
      (s t : Inner) (cqes : List Cqe) (n : ℕ)
      → dispatch s cqes ≡ some (t, n)
      → copies x t ≡ copies x s
  unfolding dispatch
  copies-dispatch s t cqes n h =
      let ((u, m), e, p) = >>=-eq-some (dispatch_from s cqes 0) _ h in
      subst (λ (q : Inner × ℕ). copies x q.0 ≡ copies x s) (some_inj p)
        (copies-dispatch_from s u cqes 0 m e)
