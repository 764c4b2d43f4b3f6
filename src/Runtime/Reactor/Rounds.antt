-- ===== src/Runtime/Reactor/Rounds.antt =====
-- What holds along the rounds of a turn holds of the state that the turn leaves.
use koru.Prelude.{
  ℕ, zero, suc, ◌≡◌, Bool, true, false, refl, subst, Option, none, some, List, take, if◌then◌else◌,
  ◌==◌,
}
use koru.Prelude.Partial.{some_inj}
use koru.Sys.Abi.{Sqe}
use koru.Runtime.Reactor.{Inner, take_batch, requeue}
use koru.Runtime.Reactor.Turn.{
  Turned, finished, failed, panicked, unfinished, settle, Answer, Enter, conclude, after_errno,
  again, breaks, interrupted, rounds, turn, eintr, call,
}

-- The state that an outcome leaves, where there is one.
abbrev pub left : Turned → Option Inner
left (finished s) = some s
left (failed e s) = some s
left panicked = none
left unfinished = none

-- `P` holds of the state that an outcome leaves.
Leaves {κ} : (Inner → Type κ) → Turned → Type κ
Leaves P r = (t : Inner) → left r ≡ some t → P t

module _ {κ} (P : Inner → Type κ) where
  Leaves-if : (b : Bool) (p q : Turned) → Leaves P p → Leaves P q → Leaves P (if b then p else q)
  Leaves-if true p q h k = h
  Leaves-if false p q h k = k

  Leaves-finished : (s : Inner) → P s → Leaves P (finished s)
  unfolding Leaves
  Leaves-finished s h t e = subst P (some_inj e) h

  Leaves-failed : (k : ℕ) (s : Inner) → P s → Leaves P (failed k s)
  unfolding Leaves
  Leaves-failed k s h t e = subst P (some_inj e) h

  Leaves-panicked : Leaves P panicked
  unfolding Leaves
  Leaves-panicked t e = absurd (cc e)

  Leaves-unfinished : Leaves P unfinished
  unfolding Leaves
  Leaves-unfinished t e = absurd (cc e)

module _ {κ μ} (I : Inner → List Sqe → Type κ) (P : Inner → Type μ)
    (ends : (s : Inner) (rest : List Sqe) → I s rest → P (requeue s rest))
    (resumes : (s : Inner) (rest : List Sqe) → I s rest → I (interrupted s) rest) where
  module _ (wait : Bool) (next : Inner → List Sqe → ℕ → Turned) (tail : List Sqe) (submitted : ℕ)
      (later : (s : Inner) (rest : List Sqe) (w : ℕ) → I s rest → Leaves P (next s rest w)) where
    Leaves-again :
        (s : Inner) (rest : List Sqe) (w : ℕ)
        → I s rest
        → Leaves P (again wait next tail submitted s rest w)
    unfolding again
    Leaves-again s rest w h =
        Leaves-if P (breaks wait s tail rest submitted w) (finished (requeue s rest))
          (next s rest w) (Leaves-finished P (requeue s rest) (ends s rest h)) (later s rest w h)

    Leaves-after_errno :
        (s : Inner) (rest : List Sqe) (w : ℕ) (errno : Option ℕ)
        → I s rest
        → Leaves P (after_errno wait next tail submitted s rest w errno)
    unfolding after_errno
    Leaves-after_errno s rest w none h = Leaves-again s rest w h
    Leaves-after_errno s rest w (some e) h =
        Leaves-if P (e == eintr) (again wait next tail submitted (interrupted s) rest w)
          (failed e (requeue s rest)) (Leaves-again (interrupted s) rest w (resumes s rest h))
          (Leaves-failed P e (requeue s rest) (ends s rest h))

    Leaves-conclude :
        (errno : Option ℕ) (o : Option (Inner × List Sqe × ℕ))
        → ((s : Inner) (rest : List Sqe) (w : ℕ) → o ≡ some (s, rest, w) → I s rest)
        → Leaves P (conclude wait next tail submitted errno o)
    unfolding conclude
    Leaves-conclude errno none h = Leaves-panicked P
    Leaves-conclude errno (some (s, rest, w)) h =
        Leaves-after_errno s rest w errno (h s rest w refl)

module _ {κ μ} (enter : Enter) (sq_len : ℕ) (wait : Bool) (timeout : Option ℕ)
    (I : Inner → List Sqe → Type κ) (P : Inner → Type μ)
    (ends : (s : Inner) (rest : List Sqe) → I s rest → P (requeue s rest))
    (resumes : (s : Inner) (rest : List Sqe) → I s rest → I (interrupted s) rest)
    (settles : (s t : Inner) (rest rest' : List Sqe) (w w' : ℕ) (a : Answer)
      → a ≡ call enter sq_len wait timeout s rest w
      → settle s rest w a ≡ some (t, rest', w')
      → I s rest
      → I t rest') where
  rounds-keeps :
      (fuel : ℕ) (s : Inner) (rest : List Sqe) (w : ℕ)
      → I s rest
      → Leaves P (rounds enter sq_len wait timeout fuel s rest w)
  unfolding rounds
  rounds-keeps zero s rest w h = Leaves-unfinished P
  rounds-keeps (suc fuel) s rest w h =
      let a = call enter sq_len wait timeout s rest w in
      Leaves-conclude I P ends resumes wait (rounds enter sq_len wait timeout fuel)
        (take sq_len rest) a.submitted (rounds-keeps fuel) a.errno (settle s rest w a)
        (λ t rest' w' e. settles s t rest rest' w w' a refl e h)

  pub turn-keeps :
      (fuel : ℕ) (s t : Inner)
      → I (take_batch s).1 (take_batch s).0
      → left (turn enter sq_len wait timeout fuel s) ≡ some t
      → P t
  unfolding turn Leaves
  turn-keeps fuel s t h e = rounds-keeps fuel (take_batch s).1 (take_batch s).0 0 h t e
