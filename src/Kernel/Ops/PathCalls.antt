-- ===== src/Kernel/Ops/PathCalls.antt =====
-- The path operations, OPEN, ADOPT_FD and CLOSE return, and leave every claim as it was.
use koru.Prelude.{
  ℕ, ◌+◌, ◌-◌, ◌%◌, ◌≡◌, ◌≤◌, refl, inl, inr, Bool, true, false, not, Option, none, some, List, [],
  ◌∷◌, ◌++◌, length, ltb, ◌==◌, Bool-cases, if◌then◌else◌, arith,
}
use koru.Prelude.Partial.{◌>>=◌}
use koru.Kernel.Abi.{
  Sqe, Res, value, failed, Result, ok, err, Errno, Opcode, opcode_of, einval, koru_stat_size,
  koru_times_size, word_size,
}
use koru.Kernel.Ring.Slots.{InArena}
use koru.Kernel.Setup.{RingConfig}
use koru.Kernel.Handles
use koru.Kernel.Host.{Host}
use koru.Kernel.Arena.{path_validate, check_range}
use koru.Kernel.Ctx.{RingCtx}
use koru.Kernel.Ctx.Configured.{Result-cases}
use koru.Kernel.Ops.Shifts.{Covers}
use koru.Kernel.Ops.Inline.{
  Keeps, Keeps-refl, Inline, IsQuiet, holding_lem, after_lem, then_check_lem, take_path_lem,
  take_path_pair_lem, path_and_arg_raw_lem, path_validate-InArena,
}
use koru.Kernel.Taken.{Step, path_and_arg, copy_path}
use koru.Kernel.PathOps.{
  do_mkdir, do_rename, do_remove, do_symlink, do_truncate, do_utimes, do_statx_at, do_readlink,
  statx_validate, readlink_validate, statx_at_held, readlink_held, room_of, path_op_as, path_op,
  plain, counted, extended, statx_answer, link_answer,
}
use koru.Kernel.Store.{stored, write_slot}

refused :
    {A : Type 0} (b : Bool) (e : Errno) (me : RingCtx) (o : Step A)
    → Inline me o
    → Inline me (if b then some (err e, me) else o)
refused true e me o h = (err e, me, refl, Keeps-refl me)
refused false e me o h = h

-- What `stored` writes is the arena.
pub stored-IsQuiet :
    {A : Type 0} (page_size : ℕ) (me : RingCtx) (pos : ℕ) (bytes : List ℕ) (a : A)
    → ((stored page_size me pos bytes a).1.config ≡ me.config)
      × ((stored page_size me pos bytes a).1.state ≡ me.state)
      × ((stored page_size me pos bytes a).1.handles ≡ me.handles)
      × ((stored page_size me pos bytes a).1.pending ≡ me.pending)
unfolding stored
stored-IsQuiet page_size me pos bytes a =
    elim (Result-cases (write_slot page_size me.arena.pages pos bytes)) [
      | inl (e, bad) ↦ rw bad (refl, refl, refl, refl)
      | inr (p, good) ↦ rw good (refl, refl, refl, refl)
    ]

statx_at_held-IsQuiet : (host : Host) (sqe : Sqe) (pos : ℕ) → IsQuiet (statx_at_held host sqe pos)
unfolding statx_at_held statx_answer
statx_at_held-IsQuiet host sqe pos me = elim (Result-cases (copy_path host pos sqe.len me)) [
  | inl (e, bad) ↦ rw bad (refl, refl, refl, refl)
  | inr (path, good) ↦ rw good (elim (Result-cases (host.getattr_at path)) [
    | inl (e, bad) ↦ rw bad (refl, refl, refl, refl)
    | inr ((out, mask), fine) ↦ rw fine (stored-IsQuiet host.page_size me pos out _)
  ])
]

link_quiet :
    (host : Host) (pos room : ℕ) (target : List ℕ) (me : RingCtx)
    → ((link_answer host pos room (ok target) me).1.config ≡ me.config)
      × ((link_answer host pos room (ok target) me).1.state ≡ me.state)
      × ((link_answer host pos room (ok target) me).1.handles ≡ me.handles)
      × ((link_answer host pos room (ok target) me).1.pending ≡ me.pending)
unfolding link_answer
link_quiet host pos room target me = elim (Bool-cases (ltb room (length target + 1))) [
  | inl long ↦ rw long (refl, refl, refl, refl)
  | inr short ↦ rw short (elim (Bool-cases (host.memory (length target + 1))) [
    | inl room ↦ rw room (stored-IsQuiet host.page_size me pos (target ++ 0 ∷ []) (length target))
    | inr full ↦ rw full (refl, refl, refl, refl)
  ])
]

readlink_held-IsQuiet :
    (host : Host) (sqe : Sqe) (pos room : ℕ) → IsQuiet (readlink_held host sqe pos room)
unfolding readlink_held
readlink_held-IsQuiet host sqe pos room me = elim (Result-cases (copy_path host pos sqe.len me)) [
  | inl (e, bad) ↦ rw bad (refl, refl, refl, refl)
  | inr (path, good) ↦ rw good (elim (Result-cases (host.vfs_get_link path)) [
    | inl (e, bad) ↦ rw bad (refl, refl, refl, refl)
    | inr (target, fine) ↦ rw fine (link_quiet host pos room target me)
  ])
]

-- A range that was checked starts in its slot.
room_of_lem :
    (host : Host) (sqe : Sqe) (c : Option RingConfig) (pos : ℕ)
    → path_validate host.path_max c sqe ≡ ok pos
    → (r : Result ℕ) × (room_of c sqe ≡ some r)
unfolding path_validate check_range
room_of_lem host sqe none pos h = (err einval, refl)
room_of_lem host sqe (some cfg) pos h =
    let fits : sqe.off ≤ cfg.slot_size = ground (arith, h) in
    (ok (cfg.slot_size - sqe.off), ground (arith, fits))

module _ (host : Host) (sqe : Sqe) (me : RingCtx) (covers : Covers me) where
  statx_validate_lem :
      (r : Result ℕ) × (statx_validate host sqe me ≡ some r)
      × ((pos : ℕ) → r ≡ ok pos → InArena me.state sqe.slot)
  unfolding statx_validate
  statx_validate_lem = elim (Bool-cases (not (sqe.handle == 0))) [
    | inl bad ↦ (err einval, rw bad refl, λ pos e. absurd (cc e))
    | inr good ↦ elim (Result-cases (path_validate host.path_max me.config sqe)) [
      | inl (e, bad) ↦ (err e, rw (good, bad) refl, λ pos q. absurd (cc q))
      | inr (pos, fine) ↦ elim (Bool-cases (not (sqe.off % 8 == 0))) [
        | inl bad ↦ (err einval, rw (good, fine, bad) refl, λ p q. absurd (cc q))
        | inr even ↦
            let (room, there) = room_of_lem host sqe me.config pos fine in
            (
              Handles.bind room (λ n. if ltb n koru_stat_size then err einval else ok pos),
              rw (good, fine, even, there) refl,
              λ p q. path_validate-InArena host me sqe pos covers fine,
            )
      ]
    ]
  ]

  readlink_validate_lem :
      (r : Result (ℕ × ℕ)) × (readlink_validate host sqe me ≡ some r)
      × ((p : ℕ × ℕ) → r ≡ ok p → InArena me.state sqe.slot)
  unfolding readlink_validate
  readlink_validate_lem = elim (Bool-cases (not (sqe.handle == 0))) [
    | inl bad ↦ (err einval, rw bad refl, λ p e. absurd (cc e))
    | inr good ↦ elim (Result-cases (path_validate host.path_max me.config sqe)) [
      | inl (e, bad) ↦ (err e, rw (good, bad) refl, λ p q. absurd (cc q))
      | inr (pos, fine) ↦
          let (room, there) = room_of_lem host sqe me.config pos fine in
          (
            Handles.bind room (λ n. ok (pos, n)),
            rw (good, fine, there) refl,
            λ p q. path_validate-InArena host me sqe pos covers fine,
          )
    ]
  ]

  do_statx_at_lem : Inline me (do_statx_at host sqe me)
  unfolding do_statx_at
  do_statx_at_lem =
      let (r, run, room) = statx_validate_lem in
      rw run (
        after_lem r _ me (λ pos e.
          holding_lem sqe.slot (statx_at_held host sqe pos) (statx_at_held-IsQuiet host sqe pos) me
            (room pos e)))

  do_readlink_lem : Inline me (do_readlink host sqe me)
  unfolding do_readlink
  do_readlink_lem =
      let (r, run, room) = readlink_validate_lem in
      rw run (
        after_lem r _ me (λ p e.
          holding_lem sqe.slot (readlink_held host sqe p.0 p.1)
            (readlink_held-IsQuiet host sqe p.0 p.1) me (room p e)))

  do_mkdir_lem : Inline me (do_mkdir host sqe me)
  unfolding do_mkdir
  do_mkdir_lem =
      refused _ einval me _
        (refused _ einval me _ (then_check_lem _ me _ (take_path_lem host sqe me covers)))

  do_rename_lem : Inline me (do_rename host sqe me)
  unfolding do_rename
  do_rename_lem = then_check_lem _ me _ (take_path_pair_lem host sqe me covers)

  do_symlink_lem : Inline me (do_symlink host sqe me)
  unfolding do_symlink
  do_symlink_lem = then_check_lem _ me _ (take_path_pair_lem host sqe me covers)

  do_remove_lem : (isdir : Bool) → Inline me (do_remove host sqe isdir me)
  unfolding do_remove
  do_remove_lem isdir =
      refused _ einval me _ (then_check_lem _ me _ (take_path_lem host sqe me covers))

  path_and_arg_lem : (size : ℕ) → Inline me (path_and_arg host sqe size me)
  unfolding path_and_arg
  path_and_arg_lem size = refused _ einval me _ (path_and_arg_raw_lem host sqe me covers size)

  do_truncate_lem : Inline me (do_truncate host sqe me)
  unfolding do_truncate
  do_truncate_lem = then_check_lem _ me _ (path_and_arg_lem word_size)

  do_utimes_lem : Inline me (do_utimes host sqe me)
  unfolding do_utimes
  do_utimes_lem = then_check_lem _ me _ (path_and_arg_lem koru_times_size)

-- An inline completion.
abbrev pub Answered : RingCtx → Option ((Res × ℕ) × RingCtx) → Type 0
Answered me o = (a : Res × ℕ) × (t : RingCtx) × (o ≡ some (a, t)) × Keeps me t

plain_lem : (me : RingCtx) (o : Step Unit) → Inline me o → Answered me (o >>= plain)
plain_lem me o (ok u, t, run, keeps) = ((value 0, 0), t, rw run refl, keeps)
plain_lem me o (err e, t, run, keeps) = ((failed e, 0), t, rw run refl, keeps)

counted_lem : (me : RingCtx) (o : Step ℕ) → Inline me o → Answered me (o >>= counted)
counted_lem me o (ok n, t, run, keeps) = ((value n, 0), t, rw run refl, keeps)
counted_lem me o (err e, t, run, keeps) = ((failed e, 0), t, rw run refl, keeps)

extended_lem : (me : RingCtx) (o : Step (ℕ × ℕ)) → Inline me o → Answered me (o >>= extended)
extended_lem me o (ok p, t, run, keeps) = ((value p.0, p.1), t, rw run refl, keeps)
extended_lem me o (err e, t, run, keeps) = ((failed e, 0), t, rw run refl, keeps)

module _ (host : Host) (sqe : Sqe) (me : RingCtx) (covers : Covers me) where
  path_op_as_lem : (op : Opcode) → Answered me (path_op_as op host sqe me)
  unfolding path_op_as
  path_op_as_lem Opcode.truncate = plain_lem me _ (do_truncate_lem host sqe me covers)
  path_op_as_lem Opcode.utimes = plain_lem me _ (do_utimes_lem host sqe me covers)
  path_op_as_lem Opcode.statx_at = extended_lem me _ (do_statx_at_lem host sqe me covers)
  path_op_as_lem Opcode.mkdir = plain_lem me _ (do_mkdir_lem host sqe me covers)
  path_op_as_lem Opcode.symlink = plain_lem me _ (do_symlink_lem host sqe me covers)
  path_op_as_lem Opcode.unlink = plain_lem me _ (do_remove_lem host sqe me covers false)
  path_op_as_lem Opcode.rmdir = plain_lem me _ (do_remove_lem host sqe me covers true)
  path_op_as_lem Opcode.rename = plain_lem me _ (do_rename_lem host sqe me covers)
  path_op_as_lem Opcode.nop = counted_lem me _ (do_readlink_lem host sqe me covers)
  path_op_as_lem Opcode.readlink = counted_lem me _ (do_readlink_lem host sqe me covers)
  path_op_as_lem _ = counted_lem me _ (do_readlink_lem host sqe me covers)

  pub path_op_lem : Answered me (path_op host sqe me)
  unfolding path_op
  path_op_lem = path_op_as_lem (opcode_of sqe.opcode)
