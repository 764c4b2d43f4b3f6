-- ===== src/Kernel/Ops/Opens.antt =====
-- OPEN, ADOPT_FD and CLOSE change the files of the handle table and no claim.
use koru.Prelude.{
  ℕ, ◌≡◌, refl, ap, ◌∙◌, inl, inr, not, ◌||◌, some, List, ◌==◌, Bool-cases, Option-cases, arith,
}
use koru.Prelude.Partial.{◌>>=◌}
use koru.Kernel.Abi.{Sqe, Result, ok, err, emfile, word_size}
use koru.Kernel.Handles
use koru.Kernel.Host.{Host}
use koru.Kernel.Files.{open_flags, has_bit, koru_o_creat}
use koru.Kernel.Ctx.{RingCtx}
use koru.Kernel.Ops.Shifts.{
  Shift-refl, Shift-trans, Shift-handles, nothing, one_if, Covers, Covers-Shift, claimed-insert,
  claimed-close,
}
use koru.Kernel.Ops.Inline.{
  Keeps, Keeps-refl, Inline, after_lem, then_check_lem, take_path_lem, path_and_arg_raw_lem,
}
use koru.Kernel.Taken.{Step, then_check, take_path_and_mode, with_mode}
use koru.Kernel.Open.{
  inserted, opened_as, do_open, adopt_validate, do_adopt, close_op, closed_as, put_in,
}

Keeps-trans : (me t u : RingCtx) → Keeps me t → Keeps t u → Keeps me u
Keeps-trans me t u (e, p) (f, q) = (
  f ∙ e,
  Shift-trans me t u nothing nothing nothing nothing nothing nothing 0 0 p q (λ x. omega arith)
      (λ i. omega arith),
)

module _ (host : Host) (sqe : Sqe) (me : RingCtx) (covers : Covers me) where
  inserted_lem : (file : ℕ) → Inline me (some (inserted file me))
  unfolding inserted put_in
  inserted_lem file = elim (Option-cases (Handles.insert me.handles file)) [
    | inl full ↦ (err emfile, me, rw full refl, Keeps-refl me)
    | inr ((h, u), put) ↦ (
      ok h,
      record me { handles = u },
      rw put refl,
      (
        refl,
        Shift-handles me me nothing nothing nothing 0 u (Shift-refl me)
            (λ i. omega (arith, ap one_if (claimed-insert me.handles u file h i put))),
      ),
    )
  ]

  -- A step that goes on with one that keeps the ring.
  opened_as_lem :
      (r : Result ℕ) (t : RingCtx)
      → Keeps me t
      → ((file : ℕ) → Inline me (some (inserted file t)))
      → Inline me (opened_as (r, t))
  opened_as_lem (err e) t keeps put = (err e, t, refl, keeps)
  opened_as_lem (ok file) t keeps put = put file

  pub do_adopt_lem : Inline me (do_adopt host sqe me)
  unfolding do_adopt
  do_adopt_lem = opened_as_lem (adopt_validate host sqe) me (Keeps-refl me) inserted_lem

  pub closed_as_lem :
      (r : Result (ℕ × Handles.HandleTable))
      → Handles.close me.handles sqe.handle ≡ r
      → Keeps me (closed_as me r).1
  unfolding closed_as
  closed_as_lem (err e) h = Keeps-refl me
  closed_as_lem (ok (file, u)) h = (
    refl,
    Shift-handles me me nothing nothing nothing 0 u (Shift-refl me)
        (λ i. omega (arith, ap one_if (claimed-close me.handles u file sqe.handle i h))),
  )

  pub close_op_lem : Keeps me (close_op sqe me).1
  unfolding close_op
  close_op_lem =
      elim (Bool-cases (not (sqe.len == 0) || (not (sqe.off == 0) || not (sqe.slot == 0)))) [
        | inl bad ↦ rw bad (Keeps-refl me)
        | inr good ↦ rw good (closed_as_lem (Handles.close me.handles sqe.handle) refl)
      ]

  take_path_and_mode_lem : Inline me (take_path_and_mode host sqe me)
  unfolding take_path_and_mode
  take_path_and_mode_lem = elim (Bool-cases (has_bit sqe.handle koru_o_creat)) [
    | inl creat ↦
        rw creat (then_check_lem with_mode me _ (path_and_arg_raw_lem host sqe me covers word_size))
    | inr plain_ ↦
        rw plain_ (then_check_lem (λ path. ok (path, 0)) me _ (take_path_lem host sqe me covers))
  ]

-- The file goes into the table that the copy of the path left.
open_on :
    (host : Host) (sqe : Sqe) (flags : ℕ) (me : RingCtx) (o : Step (List ℕ × ℕ))
    → Covers me
    → Inline me o
    → Inline me (o >>= λ r. then_check (λ p. host.filp_open p.0 flags p.1) r >>= opened_as)
unfolding then_check
open_on host sqe flags me o covers (r, t, run, keeps) =
    let next = Handles.bind r (λ p. host.filp_open p.0 flags p.1) in
    let (a, u, made, kept) = opened_as_lem host sqe me covers next t keeps (λ file.
      let (b, v, put, after_) =
        inserted_lem host sqe t (Covers-Shift me t nothing nothing 0 keeps.1 covers) file in
      (b, v, put, Keeps-trans me t v keeps after_)) in
    (a, u, rw run made, kept)

pub do_open_lem :
    (host : Host) (sqe : Sqe) (me : RingCtx) → Covers me → Inline me (do_open host sqe me)
unfolding do_open
do_open_lem host sqe me covers = after_lem (open_flags host.flags sqe.handle) _ me (λ flags e.
    open_on host sqe flags me (take_path_and_mode host sqe me) covers
      (take_path_and_mode_lem host sqe me covers))
