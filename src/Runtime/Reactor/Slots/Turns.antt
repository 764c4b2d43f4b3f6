-- ===== src/Runtime/Reactor/Slots/Turns.antt =====
-- A whole turn of the reactor, and a drain, hand every buffer slot on.
use koru.Prelude.{
  ℕ, ◌≡◌, Bool, refl, subst, ◌∙◌, inl, inr, Option, some, List, arith, Bool-cases, ltb, take, ◌||◌,
  length,
}
use koru.Prelude.Partial.{>>=-eq-some, some_inj}
use koru.Sys.Abi.{Sqe}
use koru.Runtime.Reactor.{Inner, requeue}
use koru.Runtime.Reactor.Turn.{
  gone_live, all_landed, entered, settle, Answer, Enter, interrupted, turn,
}
use koru.Runtime.Reactor.Rounds.{left, turn-keeps}
use koru.Runtime.Reactor.Slots.{copies}
use koru.Runtime.Reactor.Slots.Landing.{copies-take_batch, copies-mark_live, copies-dispatch}

module _ (x : ℕ) where
  copies-requeue : (s : Inner) (sqes : List Sqe) → copies x (requeue s sqes) ≡ copies x s
  unfolding requeue
  copies-requeue s sqes = refl

  copies-interrupted : (s : Inner) → copies x (interrupted s) ≡ copies x s
  unfolding interrupted
  copies-interrupted s = refl

  copies-gone_live :
      (s : Inner) (rest : List Sqe) (a : Answer) → copies x (gone_live s rest a) ≡ copies x s
  unfolding gone_live
  copies-gone_live s rest a = elim (Bool-cases (ltb 0 a.submitted)) [
    | inl e ↦ rw e (copies-mark_live x s (take a.submitted rest))
    | inr e ↦ rw e
  ]

  copies-all_landed :
      (s t : Inner) (a : Answer) (n : ℕ) → all_landed s a ≡ some (t, n) → copies x t ≡ copies x s
  unfolding all_landed
  copies-all_landed s t a n h = elim (Bool-cases (ltb 0 a.completed)) [
    | inl e ↦ copies-dispatch x s t (take a.completed a.cq) n (rw e at h)
    | inr e ↦ subst (λ (p : Inner × ℕ). copies x p.0 ≡ copies x s) (some_inj (rw e at h)) refl
  ]

  copies-settle :
      (s t : Inner) (rest rest' : List Sqe) (w w' : ℕ) (a : Answer)
      → settle s rest w a ≡ some (t, rest', w')
      → copies x t ≡ copies x s
  unfolding settle entered
  copies-settle s t rest rest' w w' a h =
      elim (Bool-cases (ltb (length rest) a.submitted || ltb (length a.cq) a.completed)) [
        | inl over ↦ absurd (ground (arith, over))
        | inr within ↦
            let ((u, n), e, p) =
              >>=-eq-some (all_landed (gone_live (entered s) rest a) a) _ (rw within at h) in
            subst (λ (q : Inner × List Sqe × ℕ). copies x q.0 ≡ copies x s) (some_inj p)
              (copies-all_landed (gone_live (entered s) rest a) u a n e
                ∙ copies-gone_live (entered s) rest a)
      ]

  module _ (enter : Enter) (sq_len : ℕ) (wait : Bool) (timeout : Option ℕ) where
    -- However the kernel answers, a turn that ends, with an error or without, leaves every slot as
    -- often in the pool and the slab together as it was.
    pub copies-turn :
        (fuel : ℕ) (s t : Inner)
        → left (turn enter sq_len wait timeout fuel s) ≡ some t
        → copies x t ≡ copies x s
    copies-turn fuel s t e =
        turn-keeps enter sq_len wait timeout (λ u rest. copies x u ≡ copies x s)
          (λ u. copies x u ≡ copies x s) (λ u rest h. copies-requeue u rest ∙ h)
          (λ u rest h. copies-interrupted u ∙ h)
          (λ u v rest rest' w w' a asked q h. copies-settle u v rest rest' w w' a q ∙ h) fuel s t
          (copies-take_batch x s) e
