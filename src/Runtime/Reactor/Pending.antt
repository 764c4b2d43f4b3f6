-- ===== src/Runtime/Reactor/Pending.antt =====
-- Where the batch of a turn goes: the pending list and the count of what was submitted.
use koru.Prelude.{
  drop-drop, ℕ, suc, ◌+◌, ◌≡◌, Bool, refl, ap, sym, ◌∙◌, inl, inr, Option, none, some, List, [],
  ◌∷◌, ◌++◌, ◌≤◌, arith, length-take, length, take, drop, append-nil, Option-cases, Bool-cases, ltb,
  ◌||◌,
}
use koru.Prelude.Partial.{◌>>=◌, >>=-eq-some, some_inj}
use koru.Sys.Abi.{Sqe, Cqe}
use koru.Runtime.Cookie.{Cookie}
use koru.Runtime.Slab.{get}
use koru.Runtime.Op.{Op, Landed, woke, discard}
use koru.Runtime.Reactor.{
  Inner, wake, take_batch, requeue, mark_live, drop_all, drop_entry, drop_held, retain_live,
}
use koru.Runtime.Reactor.Turn.{
  settle, Answer, Enter, gone_live, all_landed, entered, interrupted, turn, call, dispatch,
  dispatch_from, dispatch_one, route, woken,
}
use koru.Runtime.Reactor.Rounds.{left, turn-keeps}
use koru.Runtime.Reactor.Batch.{settle_rest}

-- The pending SQEs, how many were counted as submitted, and how many calls were made.
abbrev trail : Inner → List Sqe × ℕ × ℕ
trail s = (s.pending, s.counters.sqes_submitted, s.counters.enters)

trail-drop_held : (s : Inner) (o : Option ℕ) → trail (drop_held s o) ≡ trail s
unfolding drop_held
trail-drop_held s none = refl
trail-drop_held s (some i) = refl

trail-drop_entry : (s : Inner) (c : Cookie) → trail (drop_entry s c) ≡ trail s
unfolding drop_entry
trail-drop_entry s c = trail-drop_held _ _

trail-drop_all : (s : Inner) (cs : List Cookie) → trail (drop_all s cs) ≡ trail s
unfolding drop_all
trail-drop_all s [] = refl
trail-drop_all s (c ∷ cs) = trail-drop_all (drop_entry s c) cs ∙ trail-drop_entry s c

trail-take_batch :
    (s : Inner) → trail (take_batch s).1 ≡ ([], s.counters.sqes_submitted, s.counters.enters)
unfolding take_batch
trail-take_batch s = trail-drop_all (record s { pending = [] }) (retain_live s.slab s.pending).1

trail-woken : (w : Option ℕ) (s : Inner) → trail (woken w s).0 ≡ trail s
unfolding woken wake
trail-woken none s = refl
trail-woken (some w) s = ground arith

trail-route :
    (s t : Inner) (cqe : Cqe) (l : Landed) (n : ℕ) → route s cqe l ≡ some (t, n) → trail t ≡ trail s
unfolding route
trail-route s t cqe woke n h =
    sym (ap (λ (p : Inner × ℕ). trail p.0) (some_inj h))
    ∙ trail-woken (get s.slab cqe.user_data >>= λ (op : Op ℕ). op.waker) _
trail-route s t cqe discard n h =
    sym (ap (λ (p : Inner × ℕ). trail p.0) (some_inj h)) ∙ trail-drop_entry s cqe.user_data
trail-route s t cqe Landed.impossible n h = absurd (cc h)

trail-dispatch_one :
    (s t : Inner) (cqe : Cqe) (n : ℕ) → dispatch_one s cqe ≡ some (t, n) → trail t ≡ trail s
unfolding dispatch_one
trail-dispatch_one s t cqe n h = elim (Option-cases (get s.slab cqe.user_data)) [
  | inl e ↦ sym (ap (λ (p : Inner × ℕ). trail p.0) (some_inj (rw (dispatch_one, e) at h)))
  | inr (o, e) ↦ trail-route _ t cqe _ n (rw (dispatch_one, e) at h)
]

trail-dispatch_from :
    (s t : Inner) (cqes : List Cqe) (k n : ℕ)
    → dispatch_from s cqes k ≡ some (t, n)
    → trail t ≡ trail s
unfolding dispatch_from
trail-dispatch_from s t [] k n h = sym (ap (λ (p : Inner × ℕ). trail p.0) (some_inj h))
trail-dispatch_from s t (cqe ∷ rest) k n h =
    let ((u, m), e, p) = >>=-eq-some (dispatch_one s cqe) _ h in
    trail-dispatch_from u t rest (k + m) n p ∙ trail-dispatch_one s u cqe m e

trail-all_landed :
    (s t : Inner) (a : Answer) (n : ℕ) → all_landed s a ≡ some (t, n) → trail t ≡ trail s
unfolding all_landed dispatch
trail-all_landed s t a n h = elim (Bool-cases (ltb 0 a.completed)) [
  | inl e ↦
      let ((u, m), f, p) = >>=-eq-some (dispatch_from s (take a.completed a.cq) 0) _ (rw e at h) in
      sym (ap (λ (q : Inner × ℕ). trail q.0) (some_inj p))
      ∙ trail-dispatch_from s u (take a.completed a.cq) 0 m f
  | inr e ↦ sym (ap (λ (p : Inner × ℕ). trail p.0) (some_inj (rw e at h)))
]

-- The counter goes up by what went live.
trail-gone_live :
    (s : Inner) (rest : List Sqe) (a : Answer)
    → a.submitted ≤ length rest
    → trail (gone_live s rest a)
      ≡ (s.pending, s.counters.sqes_submitted + a.submitted, s.counters.enters)
unfolding gone_live mark_live
trail-gone_live s rest a h = elim (Bool-cases (ltb 0 a.submitted)) [
  | inl e ↦
      let all : length (take a.submitted rest) ≡ a.submitted =
        omega (arith, length-take a.submitted rest, h) in
      rw (e, all)
  | inr e ↦
      let zero_more : s.counters.sqes_submitted ≡ s.counters.sqes_submitted + a.submitted =
        ground (arith, e) in
      rw e (ap (λ (k : ℕ). (s.pending, k, s.counters.enters)) zero_more)
]

trail-settle :
    (s t : Inner) (rest rest' : List Sqe) (w w' : ℕ) (a : Answer)
    → settle s rest w a ≡ some (t, rest', w')
    → trail t ≡ (s.pending, s.counters.sqes_submitted + a.submitted, s.counters.enters + 1)
unfolding settle entered
trail-settle s t rest rest' w w' a h =
    elim (Bool-cases (ltb (length rest) a.submitted || ltb (length a.cq) a.completed)) [
      | inl over ↦ absurd (cc (rw over at h))
      | inr within ↦
          let ((u, n), e, p) =
            >>=-eq-some (all_landed (gone_live (entered s) rest a) a) _ (rw within at h) in
          sym (ap (λ (q : Inner × List Sqe × ℕ). trail q.0) (some_inj p))
          ∙ trail-all_landed (gone_live (entered s) rest a) u a n e
          ∙ trail-gone_live (entered s) rest a (ground (arith, within))
    ]

-- Of a batch, `c` calls from the call of index `k` on, each handed the first `sq_len` entries that are
-- not submitted yet, answered to have submitted `n` in all.
pub data Handed (enter : Enter) (sq_len : ℕ) (timeout : Option ℕ) (batch : List Sqe) (k : ℕ)
    : ℕ → ℕ → Type 0 where
  nothing_yet : Handed enter sq_len timeout batch k 0 0
  call_more :
      {c n : ℕ} (want : ℕ)
      → Handed enter sq_len timeout batch k c n
      → Handed enter sq_len timeout batch k (suc c) (
          n
          + (enter (k + c) (record {
            sq = take sq_len (drop n batch);
            want = want;
            timeout = timeout;
          })).submitted)

-- Where a turn stands: what is left of the batch follows what was handed out and submitted.
Pruned : Enter → ℕ → Option ℕ → List Sqe → Inner → Inner → List Sqe → Type 0
Pruned enter sq_len timeout batch s u rest =
    (u.pending ≡ [])
    × (c : ℕ) × (n : ℕ) × Handed enter sq_len timeout batch s.counters.enters c n
    × (u.counters.enters ≡ s.counters.enters + c)
    × (u.counters.sqes_submitted ≡ s.counters.sqes_submitted + n)
    × (rest ≡ drop n batch)

module _ (enter : Enter) (sq_len : ℕ) (wait : Bool) (timeout : Option ℕ) where
  Handed-call :
      (batch rest : List Sqe) (k c n w : ℕ) (u : Inner)
      → Handed enter sq_len timeout batch k c n
      → u.counters.enters ≡ k + c
      → rest ≡ drop n batch
      → Handed enter sq_len timeout batch k
          (suc c)
          (n + (call enter sq_len wait timeout u rest w).submitted)
  unfolding call
  Handed-call batch rest k c n w u h e p = rw (e, p) (call_more _ h)

  Pruned-settle :
      (batch : List Sqe) (s u v : Inner) (rest rest' : List Sqe) (w w' : ℕ) (a : Answer)
      → a ≡ call enter sq_len wait timeout u rest w
      → settle u rest w a ≡ some (v, rest', w')
      → Pruned enter sq_len timeout batch s u rest
      → Pruned enter sq_len timeout batch s v rest'
  unfolding Pruned
  Pruned-settle batch s u v rest rest' w w' a asked q (h, c, n, handed, calls, counted, p) =
      let moved = trail-settle u v rest rest' w w' a q in
      (
        ap (λ (x : List Sqe × ℕ × ℕ). x.0) moved ∙ h,
        suc c,
        n + a.submitted,
        rw asked (Handed-call batch rest s.counters.enters c n w u handed calls p),
        omega (arith, ap (λ (x : List Sqe × ℕ × ℕ). x.2) moved, calls),
        omega (arith, ap (λ (x : List Sqe × ℕ × ℕ). x.1) moved, counted),
        settle_rest u v rest rest' w w' a q
            ∙ ap (drop a.submitted) p
            ∙ drop-drop a.submitted n batch,
      )

  -- A turn that ends, with an error or without, has handed `ENTER`, call after call, the first
  -- `sq_len` entries of the batch that were not submitted yet. It counts as submitted what the calls
  -- answered, `n` in all, and leaves exactly the entries after the first `n` pending, in their order.
  pub pending-turn :
      (fuel : ℕ) (s t : Inner)
      → left (turn enter sq_len wait timeout fuel s) ≡ some t
      → (c : ℕ) × (n : ℕ) × Handed enter sq_len timeout (take_batch s).0 s.counters.enters c n
        × (t.counters.enters ≡ s.counters.enters + c)
        × (t.counters.sqes_submitted ≡ s.counters.sqes_submitted + n)
        × (t.pending ≡ drop n (take_batch s).0)
  unfolding Pruned interrupted requeue
  pending-turn fuel s t e =
      let batch = (take_batch s).0 in
      let k = s.counters.enters in
      let took = trail-take_batch s in
      turn-keeps enter sq_len wait timeout (Pruned enter sq_len timeout batch s)
        (λ u.
          (c : ℕ) × (n : ℕ) × Handed enter sq_len timeout batch k c n
          × (u.counters.enters ≡ k + c)
          × (u.counters.sqes_submitted ≡ s.counters.sqes_submitted + n)
          × (u.pending ≡ drop n batch))
        (λ u rest (h, c, n, handed, calls, counted, q).
          (c, n, handed, calls, counted, ap (λ (l : List Sqe). rest ++ l) h ∙ append-nil rest ∙ q))
        (λ u rest h. h)
        (λ u v rest rest' w w' a asked q h. Pruned-settle batch s u v rest rest' w w' a asked q h)
        fuel s t
        (
          ap (λ (x : List Sqe × ℕ × ℕ). x.0) took,
          0,
          0,
          nothing_yet,
          omega (arith, ap (λ (x : List Sqe × ℕ × ℕ). x.2) took),
          omega (arith, ap (λ (x : List Sqe × ℕ × ℕ). x.1) took),
          refl,
        )
        e
