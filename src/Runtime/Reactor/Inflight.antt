-- ===== src/Runtime/Reactor/Inflight.antt =====
-- How many operations are in flight along a turn of rust/runtime/src/reactor.rs.
use koru.Prelude.{
  ℕ, ◌+◌, ◌-◌, ◌≤◌, ◌≡◌, refl, ap, sym, ◌∙◌, inl, inr, Option, none, some, List, [], ◌∷◌, arith,
  length, take, length-take, Option-cases, Bool-cases, ltb, ◌||◌,
}
use koru.Prelude.Partial.{◌>>=◌, >>=-eq-some, some_inj}
use koru.Sys.Abi.{Sqe, Cqe}
use koru.Runtime.Cookie.{Cookie}
use koru.Runtime.Slab.{get}
use koru.Runtime.Op.{Op, Landed, woke, discard}
use koru.Runtime.Reactor.{
  Inner, wake, take_batch, mark_live, drop_all, drop_entry, drop_held, retain_live,
}
use koru.Runtime.Reactor.Turn.{
  settle, Answer, gone_live, all_landed, entered, dispatch, dispatch_from, dispatch_one, route,
  woken,
}

inflight-drop_held : (s : Inner) (o : Option ℕ) → (drop_held s o).inflight ≡ s.inflight
unfolding drop_held
inflight-drop_held s none = refl
inflight-drop_held s (some i) = refl

inflight-drop_entry : (s : Inner) (c : Cookie) → (drop_entry s c).inflight ≡ s.inflight
unfolding drop_entry
inflight-drop_entry s c = inflight-drop_held _ _

inflight-drop_all : (s : Inner) (cs : List Cookie) → (drop_all s cs).inflight ≡ s.inflight
unfolding drop_all
inflight-drop_all s [] = refl
inflight-drop_all s (c ∷ cs) = inflight-drop_all (drop_entry s c) cs ∙ inflight-drop_entry s c

pub inflight-take_batch : (s : Inner) → (take_batch s).1.inflight ≡ s.inflight
unfolding take_batch
inflight-take_batch s =
    inflight-drop_all (record s { pending = [] }) (retain_live s.slab s.pending).1

inflight-woken : (w : Option ℕ) (s : Inner) → (woken w s).0.inflight ≡ s.inflight
unfolding woken wake
inflight-woken none s = refl
inflight-woken (some w) s = ground arith

inflight-route :
    (s t : Inner) (cqe : Cqe) (l : Landed) (n : ℕ)
    → route s cqe l ≡ some (t, n)
    → t.inflight ≡ s.inflight
unfolding route
inflight-route s t cqe woke n h =
    sym (ap (λ (p : Inner × ℕ). p.0.inflight) (some_inj h))
    ∙ inflight-woken (get s.slab cqe.user_data >>= λ (op : Op ℕ). op.waker) _
inflight-route s t cqe discard n h =
    sym (ap (λ (p : Inner × ℕ). p.0.inflight) (some_inj h)) ∙ inflight-drop_entry s cqe.user_data
inflight-route s t cqe Landed.impossible n h = absurd (cc h)

-- A completion is one operation less in flight, down to none.
inflight-dispatch_one :
    (s t : Inner) (cqe : Cqe) (n : ℕ)
    → dispatch_one s cqe ≡ some (t, n)
    → t.inflight ≡ s.inflight - 1
unfolding dispatch_one
inflight-dispatch_one s t cqe n h = elim (Option-cases (get s.slab cqe.user_data)) [
  | inl e ↦ sym (ap (λ (p : Inner × ℕ). p.0.inflight) (some_inj (rw (dispatch_one, e) at h)))
  | inr (o, e) ↦ inflight-route _ t cqe _ n (rw (dispatch_one, e) at h)
]

inflight-dispatch_from :
    (s t : Inner) (cqes : List Cqe) (k n : ℕ)
    → dispatch_from s cqes k ≡ some (t, n)
    → t.inflight ≡ s.inflight - length cqes
unfolding dispatch_from
inflight-dispatch_from s t [] k n h =
    omega (arith, ap (λ (p : Inner × ℕ). p.0.inflight) (some_inj h))
inflight-dispatch_from s t (cqe ∷ rest) k n h =
    let ((u, m), e, p) = >>=-eq-some (dispatch_one s cqe) _ h in
    omega (arith, inflight-dispatch_from u t rest (k + m) n p, inflight-dispatch_one s u cqe m e)

inflight-all_landed :
    (s t : Inner) (a : Answer) (n : ℕ)
    → a.completed ≤ length a.cq
    → all_landed s a ≡ some (t, n)
    → t.inflight ≡ s.inflight - a.completed
unfolding all_landed dispatch
inflight-all_landed s t a n fits h = elim (Bool-cases (ltb 0 a.completed)) [
  | inl e ↦
      let ((u, m), f, p) = >>=-eq-some (dispatch_from s (take a.completed a.cq) 0) _ (rw e at h) in
      omega (
        arith,
        fits,
        length-take a.completed a.cq,
        ap (λ (q : Inner × ℕ). q.0.inflight) (some_inj p),
        inflight-dispatch_from s u (take a.completed a.cq) 0 m f,
      )
  | inr e ↦
      let same = ap (λ (p : Inner × ℕ). p.0.inflight) (some_inj (rw e at h)) in
      ground (arith, e, same)
]

inflight-gone_live :
    (s : Inner) (rest : List Sqe) (a : Answer)
    → a.submitted ≤ length rest
    → (gone_live s rest a).inflight ≡ s.inflight + a.submitted
unfolding gone_live mark_live
inflight-gone_live s rest a h = ground (arith, length-take a.submitted rest)

-- What one call makes of the operations in flight.
pub inflight-settle :
    (s t : Inner) (rest rest' : List Sqe) (w w' : ℕ) (a : Answer)
    → settle s rest w a ≡ some (t, rest', w')
    → (a.submitted ≤ length rest) × (t.inflight ≡ s.inflight + a.submitted - a.completed)
unfolding settle entered
inflight-settle s t rest rest' w w' a h =
    elim (Bool-cases (ltb (length rest) a.submitted || ltb (length a.cq) a.completed)) [
      | inl over ↦ absurd (cc (rw over at h))
      | inr within ↦
          let fits : a.submitted ≤ length rest = ground (arith, within) in
          let ((u, n), e, p) =
            >>=-eq-some (all_landed (gone_live (entered s) rest a) a) _ (rw within at h) in
          (
            fits,
            omega (
              arith,
              ap (λ (q : Inner × List Sqe × ℕ). q.0.inflight) (some_inj p),
              inflight-all_landed (gone_live (entered s) rest a) u a n (ground (arith, within)) e,
              inflight-gone_live (entered s) rest a fits,
            ),
          )
    ]
