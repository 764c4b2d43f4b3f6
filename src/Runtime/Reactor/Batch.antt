-- ===== src/Runtime/Reactor/Batch.antt =====
-- What becomes of a batch: a call consumes a prefix of it.
use koru.Prelude.{
  ℕ, ◌≤◌, ◌≡◌, ap, sym, inl, inr, some, List, [], ◌∷◌, arith, length, drop, Bool-cases, ltb, ◌||◌,
}
use koru.Prelude.Partial.{>>=-eq-some, some_inj}
use koru.Sys.Abi.{Sqe}
use koru.Runtime.Slab.{Slab}
use koru.Runtime.Op.{Op}
use koru.Runtime.Reactor.{Inner, take_batch, retain_live}
use koru.Runtime.Reactor.Turn.{settle, Answer, gone_live, all_landed, entered}

-- What one call consumes is cut off the front of the batch.
pub settle_rest :
    (s t : Inner) (rest rest' : List Sqe) (w w' : ℕ) (a : Answer)
    → settle s rest w a ≡ some (t, rest', w')
    → rest' ≡ drop a.submitted rest
unfolding settle
settle_rest s t rest rest' w w' a h =
    elim (Bool-cases (ltb (length rest) a.submitted || ltb (length a.cq) a.completed)) [
      | inl over ↦ absurd (cc (rw over at h))
      | inr within ↦
          let (r, e, p) =
            >>=-eq-some (all_landed (gone_live (entered s) rest a) a) _ (rw within at h) in
          sym (ap (λ (q : Inner × List Sqe × ℕ). q.1) (some_inj p))
    ]

kept_length :
    (slab : Slab (Op ℕ)) (sqes : List Sqe) → length (retain_live slab sqes).0 ≤ length sqes
unfolding retain_live
kept_length slab [] = omega arith
kept_length slab (sqe ∷ rest) = ground (arith, kept_length slab rest)

pub length-take_batch : (s : Inner) → length (take_batch s).0 ≤ length s.pending
unfolding take_batch
length-take_batch s = kept_length s.slab s.pending
