-- ===== src/Kernel/Ops/Inline.antt =====
-- The operations that complete inline: what they claim for a while they give back, and a file that
-- is opened or closed takes no claim along.
use koru.Prelude.{
  ℕ, ◌≡◌, refl, ◌∙◌, inl, inr, Bool, true, false, not, some, ◌==◌, Bool-cases, if◌then◌else◌,
}
use koru.Prelude.Partial.{◌>>=◌}
use koru.Kernel.Abi.{Sqe, Result, ok, err, ebusy}
use koru.Kernel.Ring.{RingState}
use koru.Kernel.Ring.Slots.{InArena}
use koru.Kernel.Handles
use koru.Kernel.Handles.{HandleTable}
use koru.Kernel.Host.{Host}
use koru.Kernel.Arena.{path_validate, check_range}
use koru.Kernel.Ctx.{RingCtx}
use koru.Kernel.Ctx.Configured.{Result-cases}
use koru.Kernel.Ops.Shifts.{Shift, Shift-refl, Shift-acquire, Shift-release, only, nothing, Covers}
use koru.Kernel.Ops.Holding.{ranged-InArena}
use koru.Kernel.Ops.Undone.{InArena-Shift}
use koru.Kernel.Taken.{
  Step, released, under_claim, holding, after, take_path, take_path_pair, pair_validate,
  path_and_arg_raw, arg_validate, then_check,
}

-- Nothing has changed but the contents of the arena and the files of the table.
abbrev pub Keeps : RingCtx → RingCtx → Type 0
Keeps me t = (t.pending ≡ me.pending) × Shift me t nothing nothing 0

-- An operation that returns, and leaves the rest as it was.
abbrev pub Inline : {A : Type 0} → RingCtx → Step A → Type 0
Inline {A} me o = (r : Result A) × (t : RingCtx) × (o ≡ some (r, t)) × Keeps me t

pub Keeps-refl : (me : RingCtx) → Keeps me me
Keeps-refl me = (refl, Shift-refl me)

-- What work under a claim may do: write the arena.
abbrev pub IsQuiet : {A : Type 0} → (RingCtx → Result A × RingCtx) → Type 0
IsQuiet work =
    (me : RingCtx)
    → ((work me).1.config ≡ me.config)
      × ((work me).1.state ≡ me.state)
      × ((work me).1.handles ≡ me.handles)
      × ((work me).1.pending ≡ me.pending)

Shift-quiet :
    (me t u : RingCtx) (d : ℕ → ℕ)
    → Shift me t d nothing 0
    → u.config ≡ t.config
    → u.state ≡ t.state
    → u.handles ≡ t.handles
    → Shift me u d nothing 0
Shift-quiet me t u d p c s h = record {
  config = c ∙ p.config;
  cq = rw s p.cq;
  head = rw s p.head;
  len = rw s p.len;
  reserved = rw s p.reserved;
  inflight = rw s p.inflight;
  words = rw s p.words;
  slots = λ x. rw s (p.slots x);
  handles = λ i. rw h (p.handles i);
}

module _ {A : Type 0} (slot : ℕ) (work : RingCtx → Result A × RingCtx) (quiet : IsQuiet work)
    (me : RingCtx) (room : InArena me.state slot) where
  under_claim_lem :
      (got : Bool) (s : RingState)
      → Shift me (record me { state = s }) (λ x. if got then only slot x else 0) nothing 0
      → Inline me (under_claim slot work me (got, s))
  unfolding under_claim released
  under_claim_lem false s p = (err ebusy, record me { state = s }, refl, (refl, p))
  under_claim_lem true s p =
      let m : RingCtx = record me { state = s } in
      let (c, st, h, ops) = quiet m in
      let q = Shift-quiet me m (work m).1 (only slot) p c st h in
      let (s', run, back) =
        Shift-release me (work m).1 slot nothing 0
          (InArena-Shift me (work m).1 (only slot) nothing 0 slot q room) q in
      ((work m).0, record (work m).1 { state = s' }, rw run refl, (ops, back))

  -- The claim that lasts for the work is given back, however that ends.
  pub holding_lem : Inline me (holding slot work me)
  unfolding holding
  holding_lem =
      let (got, s, run, p) = Shift-acquire me slot room in rw run (under_claim_lem got s p)

pub after_lem :
    {A B : Type 0} (r : Result A) (f : A → RingCtx → Step B) (me : RingCtx)
    → ((a : A) → r ≡ ok a → Inline me (f a me))
    → Inline me (after r f me)
after_lem (ok a) f me h = h a refl
after_lem (err e) f me h = (err e, me, refl, Keeps-refl me)

pub then_check_lem :
    {A B : Type 0} (f : A → Result B) (me : RingCtx) (o : Step A)
    → Inline me o
    → Inline me (o >>= λ r. then_check f r)
unfolding then_check
then_check_lem f me o (r, t, run, keeps) = rw run (Handles.bind r f, t, refl, keeps)

pub path_validate-InArena :
    (host : Host) (me : RingCtx) (sqe : Sqe) (pos : ℕ)
    → Covers me
    → path_validate host.path_max me.config sqe ≡ ok pos
    → InArena me.state sqe.slot
unfolding path_validate
path_validate-InArena host me sqe pos covers h = elim (Result-cases (check_range me.config sqe)) [
  | inl (e, bad) ↦ absurd (cc (rw bad at h))
  | inr (u, good) ↦ ranged-InArena me sqe covers me.config refl good
]

pair_validate-InArena :
    (host : Host) (me : RingCtx) (sqe : Sqe) (pos : ℕ)
    → Covers me
    → pair_validate host sqe me ≡ ok pos
    → InArena me.state sqe.slot
unfolding pair_validate
pair_validate-InArena host me sqe pos covers h = elim (Bool-cases (not (sqe.handle == 0))) [
  | inl bad ↦ absurd (cc (rw bad at h))
  | inr good ↦ elim (Result-cases (check_range me.config sqe)) [
    | inl (e, bad) ↦ absurd (cc (rw (good, bad) at h))
    | inr (u, fine) ↦ ranged-InArena me sqe covers me.config refl fine
  ]
]

arg_validate-InArena :
    (host : Host) (me : RingCtx) (sqe : Sqe) (size : ℕ) (p : ℕ × ℕ)
    → Covers me
    → arg_validate host sqe size me ≡ ok p
    → InArena me.state sqe.slot
unfolding arg_validate
arg_validate-InArena host me sqe size p covers h =
    elim (Result-cases (path_validate host.path_max me.config sqe)) [
      | inl (e, bad) ↦ absurd (cc (rw bad at h))
      | inr (pos, good) ↦ path_validate-InArena host me sqe pos covers good
    ]

module _ (host : Host) (sqe : Sqe) (me : RingCtx) (covers : Covers me) where
  pub take_path_lem : Inline me (take_path host sqe me)
  unfolding take_path
  take_path_lem = after_lem (path_validate host.path_max me.config sqe) _ me (λ pos e.
      holding_lem sqe.slot _ (λ m. (refl, refl, refl, refl)) me
        (path_validate-InArena host me sqe pos covers e))

  pub take_path_pair_lem : Inline me (take_path_pair host sqe me)
  unfolding take_path_pair
  take_path_pair_lem = after_lem (pair_validate host sqe me) _ me (λ pos e.
      holding_lem sqe.slot _ (λ m. (refl, refl, refl, refl)) me
        (pair_validate-InArena host me sqe pos covers e))

  pub path_and_arg_raw_lem : (size : ℕ) → Inline me (path_and_arg_raw host sqe size me)
  unfolding path_and_arg_raw
  path_and_arg_raw_lem size = after_lem (arg_validate host sqe size me) _ me (λ p e.
      holding_lem sqe.slot _ (λ m. (refl, refl, refl, refl)) me
        (arg_validate-InArena host me sqe size p covers e))
