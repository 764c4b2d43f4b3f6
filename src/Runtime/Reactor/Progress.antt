-- ===== src/Runtime/Reactor/Progress.antt =====
-- How the rounds of a turn come to an end: `turn` of rust/runtime/src/reactor.rs without `wait`.
use koru.Prelude.{
  ℕ, zero, suc, ◌+◌, ◌-◌, ◌*◌, ◌<◌, ◌≤◌, ◌≡◌, false, refl, ap, ◌∙◌, inl, inr, Option, none, some,
  List, [], ◌∷◌, arith, length, take, length-take, length-drop, Bool-cases, ltb, ◌==◌, ◌&&◌,
  if◌then◌else◌,
}
use koru.Sys.Abi.{Sqe}
use koru.Runtime.Reactor.{Inner, take_batch}
use koru.Runtime.Reactor.Turn.{
  Turned, unfinished, settle, Answer, Enter, conclude, after_errno, again, breaks, interrupted,
  rounds, turn, eintr, call,
}
use koru.Runtime.Reactor.Inflight.{inflight-take_batch, inflight-settle}
use koru.Runtime.Reactor.Batch.{settle_rest, length-take_batch}

-- A call that submitted nothing and stored nothing, with something in flight after it.
abbrev stall : Answer → Inner → ℕ
stall a t = if a.submitted == 0 && (a.completed == 0 && ltb 0 t.inflight) then 1 else 0

-- The state that the next round starts from.
abbrev carried : Option ℕ → Inner → Inner
carried none t = t
carried (some e) t = if e == eintr then interrupted t else t

abbrev stalls_after : (Inner → List Sqe → ℕ → ℕ) → Answer → Option (Inner × List Sqe × ℕ) → ℕ
stalls_after next a none = 0
stalls_after next a (some (t, rest, w)) = stall a t + next (carried a.errno t) rest w

-- How many of the first `fuel` calls stall.
pub stalls : Enter → ℕ → Option ℕ → ℕ → Inner → List Sqe → ℕ → ℕ
stalls enter sq_len timeout zero s rest w = 0
stalls enter sq_len timeout (suc fuel) s rest w =
    let a = call enter sq_len false timeout s rest w in
    stalls_after (stalls enter sq_len timeout fuel) a (settle s rest w a)

-- What a round may still bring: a submission and a completion for an entry, a completion for an
-- operation in flight.
abbrev ahead : Inner → List Sqe → ℕ
ahead s rest = 2 * length rest + s.inflight

-- Where the loop goes on, something is left; and what a call did not take, though it was handed
-- some, waits for an operation in flight.
goes_on :
    (t : Inner) (tail rest : List Sqe) (n w : ℕ)
    → breaks false t tail rest n w ≡ false
    → (0 < length rest) × (n ≡ 0 → 0 < length tail → 0 < t.inflight)
unfolding breaks
goes_on t tail [] n w h = absurd (cc h)
goes_on t [] (r ∷ rs) n w h = (omega arith, λ z full. absurd (omega (arith, full)))
goes_on t (x ∷ xs) (r ∷ rs) n w h = (omega arith, λ z full. ground (arith, h, z))

module _ (next : Inner → List Sqe → ℕ → Turned) (tail rest : List Sqe) (n : ℕ) where
  -- A round after which the loop goes on, from `u`.
  Goes : Inner → ℕ → Type 0
  Goes u w =
      (next u rest w ≡ unfinished) × (0 < length rest) × (n ≡ 0 → 0 < length tail → 0 < u.inflight)

  again-Goes : (t : Inner) (w : ℕ) → again false next tail n t rest w ≡ unfinished → Goes t w
  unfolding again Goes
  again-Goes t w h = elim (Bool-cases (breaks false t tail rest n w)) [
    | inl stop ↦ absurd (cc (rw stop at h))
    | inr on ↦ let (more, fly) = goes_on t tail rest n w on in (rw on at h, more, fly)
  ]

  conclude-Goes :
      (t : Inner) (w : ℕ) (errno : Option ℕ)
      → conclude false next tail n errno (some (t, rest, w)) ≡ unfinished
      → Goes (carried errno t) w
  unfolding conclude after_errno
  conclude-Goes t w none h = again-Goes t w h
  conclude-Goes t w (some k) h = elim (Bool-cases (k == eintr)) [
    | inl q ↦ rw q (again-Goes (interrupted t) w (rw q at h))
    | inr q ↦ absurd (cc (rw q at h))
  ]

inflight-carried : (errno : Option ℕ) (t : Inner) → (carried errno t).inflight ≡ t.inflight
unfolding interrupted
inflight-carried none t = refl
inflight-carried (some k) t = ground arith

-- A call submits, or completes, or stalls.
moved :
    (a : Answer) (t : Inner) (before fly fly' : ℕ)
    → a.submitted ≤ before
    → t.inflight ≡ fly + a.submitted - a.completed
    → fly' ≡ t.inflight
    → (a.submitted ≡ 0 → 0 < fly')
    → 2 * (before - a.submitted) + fly' < 2 * before + fly + stall a t
moved a t before fly fly' fits made same held = ground (arith, fits, made, same, held)

module _ (enter : Enter) (sq_len : ℕ) (timeout : Option ℕ) (room : 0 < sq_len) where
  tail_held : (rest : List Sqe) → 0 < length rest → 0 < length (take sq_len rest)
  tail_held rest h = omega (arith, h, room, length-take sq_len rest)

  round_progress :
      (fuel : ℕ) (s : Inner) (rest : List Sqe) (w : ℕ) (o : Option (Inner × List Sqe × ℕ))
      → ((t : Inner) (rest' : List Sqe) (w' : ℕ)
          → rounds enter sq_len false timeout fuel t rest' w' ≡ unfinished
          → fuel ≤ ahead t rest' + stalls enter sq_len timeout fuel t rest' w')
      → settle s rest w (call enter sq_len false timeout s rest w) ≡ o
      → conclude false
          (rounds enter sq_len false timeout fuel)
          (take sq_len rest)
          (call enter sq_len false timeout s rest w).submitted
          (call enter sq_len false timeout s rest w).errno
          o
        ≡ unfinished
      → suc fuel
        ≤ ahead s rest
          + stalls_after
              (stalls enter sq_len timeout fuel)
              (call enter sq_len false timeout s rest w)
              o
  unfolding conclude Goes
  round_progress fuel s rest w none later e h = absurd (cc h)
  round_progress fuel s rest w (some (t, rest', w')) later e h =
      let a = call enter sq_len false timeout s rest w in
      let u = carried a.errno t in
      let (on, more, held) =
        conclude-Goes (rounds enter sq_len false timeout fuel) (take sq_len rest) rest' a.submitted
          t w' a.errno h in
      let (fits, made) = inflight-settle s t rest rest' w w' a e in
      let cut : length rest' ≡ length rest - a.submitted =
        ap length (settle_rest s t rest rest' w w' a e) ∙ length-drop a.submitted rest in
      let whole : 0 < length rest = omega (arith, more, cut) in
      omega (
        arith,
        later u rest' w' on,
        cut,
        moved a t (length rest) s.inflight u.inflight fits made (inflight-carried a.errno t)
            (λ z. held z (tail_held rest whole)),
      )

  rounds_progress :
      (fuel : ℕ) (s : Inner) (rest : List Sqe) (w : ℕ)
      → rounds enter sq_len false timeout fuel s rest w ≡ unfinished
      → fuel ≤ ahead s rest + stalls enter sq_len timeout fuel s rest w
  unfolding rounds stalls
  rounds_progress zero s rest w h = omega arith
  rounds_progress (suc fuel) s rest w h =
      round_progress fuel s rest w _ (rounds_progress fuel) refl h

  -- Where a call may carry an entry, and however the kernel answers, a turn that does not wait and
  -- is still running after `fuel` rounds has made calls that neither submitted nor completed
  -- anything, each with an operation in flight after it: at least as many as `fuel` exceeds the
  -- operations in flight and twice the pending SQEs.
  pub turn_progress :
      (fuel : ℕ) (s : Inner)
      → turn enter sq_len false timeout fuel s ≡ unfinished
      → fuel
        ≤ 2 * length s.pending
          + s.inflight
          + stalls enter sq_len timeout fuel (take_batch s).1 (take_batch s).0 0
  unfolding turn
  turn_progress fuel s h = omega (
    arith,
    rounds_progress fuel (take_batch s).1 (take_batch s).0 0 h,
    length-take_batch s,
    inflight-take_batch s,
  )
