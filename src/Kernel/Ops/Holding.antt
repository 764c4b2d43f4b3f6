-- ===== src/Kernel/Ops/Holding.antt =====
-- The operations that hold a slot, and a handle, while they are deferred.
use koru.Prelude.{
  ℕ, ◌<◌, ◌≡◌, refl, inl, inr, Bool, true, false, Option, none, some, arith, ◌==◌, Bool-cases,
  if◌then◌else◌,
}
use koru.Kernel.Abi.{Sqe, failed, Result, ok, err, einval, ebusy}
use koru.Kernel.Ring.{RingState}
use koru.Kernel.Ring.Slots.{InArena}
use koru.Kernel.Setup.{RingConfig}
use koru.Kernel.Handles.{HandleTable, try_claim, unclaim}
use koru.Kernel.Handles.Laws.{index}
use koru.Kernel.Host.{Host}
use koru.Kernel.Arena.{check_range}
use koru.Kernel.Files.{read_validate, write_validate, readdir_validate, stat_validate, in_slot}
use koru.Kernel.Ctx.{RingCtx}
use koru.Kernel.Ops.Shifts.{
  Shift, Shift-refl, Shift-trans, Shift-acquire, Shift-handles, only, nothing, claimed-try_claim,
  Covers,
}
use koru.Kernel.Defer.{
  claimed_both, claimed_handle, validated, ranged, readable_dir, read_op, write_op, stat_op,
  checksum_op, readdir_op,
}
use koru.Kernel.Ctx.Configured.{Result-cases}
use koru.Kernel.Ops.Deferrals.{IsFresh, Leaves, defer_lem}
use koru.Kernel.Ops.Undone.{Left-Under, claim_slot_lem, Shift-unclaim, unwound_lem}

module _ (host : Host) (sqe : Sqe) (file : ℕ) (me : RingCtx) (u : HandleTable)
    (fresh : IsFresh host me.pending) (room : InArena me.state sqe.slot)
    (claim : Shift me (record me { handles = u }) nothing (only (index sqe.handle)) 0) where
  abbrev marked : RingCtx
  marked = record me { handles = u }

  claimed_both_lem :
      (got : Bool) (s : RingState)
      → Shift marked
          (record marked { state = s })
          (λ x. if got then only sqe.slot x else 0)
          nothing
          0
      → Leaves host sqe
          (only sqe.slot)
          (only (index sqe.handle))
          me
          (claimed_both host sqe file marked (got, s))
  unfolding claimed_both
  claimed_both_lem false s p =
      let q =
        Shift-trans me marked (record marked { state = s }) nothing nothing
          (only (index sqe.handle)) nothing nothing (only (index sqe.handle)) 0 0 claim p
          (λ x. omega arith) (λ i. omega arith) in
      (
        some (failed ebusy),
        record marked { state = s; handles = unclaim u sqe.handle },
        refl,
        (refl, Shift-unclaim me (record marked { state = s }) nothing 0 sqe.handle q),
      )
  claimed_both_lem true s p =
      let m : RingCtx = record marked { state = s } in
      let q =
        Shift-trans me marked m nothing (only sqe.slot) (only (index sqe.handle)) nothing
          (only sqe.slot) (only (index sqe.handle)) 0 0 claim p (λ x. omega arith)
          (λ i. omega arith) in
      let (a, t, run, left) = defer_lem host sqe 0 (some file) m fresh in
      rw run (
        unwound_lem host sqe me t a room
          (Left-Under host sqe (only sqe.slot) (only (index sqe.handle)) me m t a refl q left))

-- READDIR, once it was accepted: the operation holds its slot and its handle for as long as it is
-- registered, and neither where it never was.
pub claimed_handle_lem :
    (host : Host) (sqe : Sqe) (file : ℕ) (me : RingCtx) (r : Result HandleTable)
    → IsFresh host me.pending
    → InArena me.state sqe.slot
    → try_claim me.handles sqe.handle ≡ r
    → Leaves host sqe
        (only sqe.slot)
        (only (index sqe.handle))
        me
        (claimed_handle host sqe file me r)
unfolding claimed_handle
claimed_handle_lem host sqe file me (err e) fresh room h =
    (some (failed e), me, refl, (refl, Shift-refl me))
claimed_handle_lem host sqe file me (ok u) fresh room h =
    let claim =
      Shift-handles me me nothing nothing (only (index sqe.handle)) 0 u (Shift-refl me)
        (λ i. omega (arith, claimed-try_claim me.handles u sqe.handle i h)) in
    let (got, s, run, p) = Shift-acquire (record me { handles = u }) sqe.slot room in
    rw run (claimed_both_lem host sqe file me u fresh room claim got s p)

in_slot-InArena :
    (me : RingCtx) (sqe : Sqe)
    → Covers me
    → (c : Option RingConfig) → me.config ≡ c
    → in_slot c sqe ≡ true
    → InArena me.state sqe.slot
in_slot-InArena me sqe covers none e h = absurd (cc h)
in_slot-InArena me sqe covers (some cfg) e h =
    let low : sqe.slot < cfg.slot_count = ground (arith, h) in omega (arith, covers cfg e, low)

-- What was accepted names a slot of the arena.
pub ranged-InArena :
    (me : RingCtx) (sqe : Sqe)
    → Covers me
    → (c : Option RingConfig) → me.config ≡ c
    → check_range c sqe ≡ ok tt
    → InArena me.state sqe.slot
unfolding check_range
ranged-InArena me sqe covers none e h = absurd (cc h)
ranged-InArena me sqe covers (some cfg) e h =
    let low : sqe.slot < cfg.slot_count = ground (arith, h) in omega (arith, covers cfg e, low)

read_validate-InArena :
    (host : Host) (sqe : Sqe) (me : RingCtx) (f : ℕ)
    → Covers me
    → read_validate host sqe me ≡ ok f
    → InArena me.state sqe.slot
unfolding read_validate
read_validate-InArena host sqe me f covers h = elim (Bool-cases (in_slot me.config sqe)) [
  | inl e ↦ in_slot-InArena me sqe covers me.config refl e
  | inr e ↦ absurd (cc (rw e at h))
]

write_validate-InArena :
    (host : Host) (sqe : Sqe) (me : RingCtx) (f : ℕ)
    → Covers me
    → write_validate host sqe me ≡ ok f
    → InArena me.state sqe.slot
unfolding write_validate
write_validate-InArena host sqe me f covers h = elim (Bool-cases (in_slot me.config sqe)) [
  | inl e ↦ in_slot-InArena me sqe covers me.config refl e
  | inr e ↦ absurd (cc (rw e at h))
]

readdir_validate-InArena :
    (host : Host) (sqe : Sqe) (me : RingCtx) (f : ℕ)
    → Covers me
    → readdir_validate host sqe me ≡ ok f
    → InArena me.state sqe.slot
unfolding readdir_validate
readdir_validate-InArena host sqe me f covers h = elim (Bool-cases (in_slot me.config sqe)) [
  | inl e ↦ in_slot-InArena me sqe covers me.config refl e
  | inr e ↦ absurd (cc (rw e at h))
]

stat_validate-InArena :
    (sqe : Sqe) (me : RingCtx) (f : ℕ)
    → Covers me
    → stat_validate sqe me ≡ ok f
    → InArena me.state sqe.slot
unfolding stat_validate
stat_validate-InArena sqe me f covers h = elim (Result-cases (check_range me.config sqe)) [
  | inl (e, bad) ↦ absurd (cc (rw bad at h))
  | inr (u, good) ↦ ranged-InArena me sqe covers me.config refl good
]

validated_lem :
    (host : Host) (sqe : Sqe) (me : RingCtx) (r : Result ℕ)
    → IsFresh host me.pending
    → ((f : ℕ) → r ≡ ok f → InArena me.state sqe.slot)
    → Leaves host sqe (only sqe.slot) nothing me (validated host sqe r me)
validated_lem host sqe me (err e) fresh room = (some (failed e), me, refl, (refl, Shift-refl me))
validated_lem host sqe me (ok f) fresh room =
    claim_slot_lem host sqe (some f) me fresh (room f refl)

module _ (host : Host) (sqe : Sqe) (me : RingCtx) (fresh : IsFresh host me.pending)
    (covers : Covers me) where
  pub read_op_lem : Leaves host sqe (only sqe.slot) nothing me (read_op host sqe me)
  unfolding read_op
  read_op_lem =
      validated_lem host sqe me (read_validate host sqe me) fresh
        (λ f. read_validate-InArena host sqe me f covers)

  pub write_op_lem : Leaves host sqe (only sqe.slot) nothing me (write_op host sqe me)
  unfolding write_op
  write_op_lem =
      validated_lem host sqe me (write_validate host sqe me) fresh
        (λ f. write_validate-InArena host sqe me f covers)

  pub stat_op_lem : Leaves host sqe (only sqe.slot) nothing me (stat_op host sqe me)
  unfolding stat_op
  stat_op_lem =
      validated_lem host sqe me (stat_validate sqe me) fresh
        (λ f. stat_validate-InArena sqe me f covers)

  ranged_lem :
      (r : Result {0} Unit)
      → check_range me.config sqe ≡ r
      → Leaves host sqe (only sqe.slot) nothing me (ranged host sqe r me)
  ranged_lem (err e) h = (some (failed e), me, refl, (refl, Shift-refl me))
  ranged_lem (ok u) h =
      claim_slot_lem host sqe none me fresh (ranged-InArena me sqe covers me.config refl h)

  pub checksum_op_lem : Leaves host sqe (only sqe.slot) nothing me (checksum_op host sqe me)
  unfolding checksum_op
  checksum_op_lem = elim (Bool-cases (sqe.handle == 0)) [
    | inl zero_ ↦ rw zero_ (ranged_lem (check_range me.config sqe) refl)
    | inr other ↦ rw other (some (failed einval), me, refl, (refl, Shift-refl me))
  ]

  readable_dir_lem :
      (r : Result ℕ)
      → ((f : ℕ) → r ≡ ok f → InArena me.state sqe.slot)
      → Leaves host sqe (only sqe.slot) (only (index sqe.handle)) me (readable_dir host sqe me r)
  unfolding readable_dir
  readable_dir_lem (err e) room = (some (failed e), me, refl, (refl, Shift-refl me))
  readable_dir_lem (ok f) room =
      claimed_handle_lem host sqe f me (try_claim me.handles sqe.handle) fresh (room f refl) refl

  pub readdir_op_lem :
      Leaves host sqe (only sqe.slot) (only (index sqe.handle)) me (readdir_op host sqe me)
  unfolding readdir_op
  readdir_op_lem =
      readable_dir_lem (readdir_validate host sqe me)
        (λ f. readdir_validate-InArena host sqe me f covers)
