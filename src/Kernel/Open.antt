-- ===== src/Kernel/Open.antt =====
-- OPEN, ADOPT_FD and CLOSE of kernel/koru_ops.rs. `none` is a panic.
use koru.Prelude.{ℕ, ◌-◌, ◌^◌, not, ◌||◌, Option, none, some, ltb, ◌==◌, if◌then◌else◌}
use koru.Prelude.Partial.{◌>>=◌}
use koru.Kernel.Abi.{Sqe, Res, value, failed, Result, ok, err, einval, emfile, eloop}
use koru.Kernel.Handles
use koru.Kernel.Handles.{HandleTable, bind}
use koru.Kernel.Host.{Host}
use koru.Kernel.Files.{open_flags}
use koru.Kernel.Ctx.{RingCtx}
use koru.Kernel.Taken.{Step, after, take_path_and_mode, then_check}

unfoldable pub put_in : RingCtx → Option (ℕ × HandleTable) → Result ℕ × RingCtx
put_in me none = (err emfile, me)
put_in me (some (handle, t)) = (ok handle, record me { handles = t })

-- A file goes into the table, or is dropped where that is full.
unfoldable pub inserted : ℕ → RingCtx → Result ℕ × RingCtx
unfolding put_in
inserted file me = put_in me (Handles.insert me.handles file)

abbrev pub opened_as : Result ℕ × RingCtx → Step ℕ
opened_as (err e, me) = some (err e, me)
opened_as (ok file, me) = some (inserted file me)

unfoldable pub do_open : Host → Sqe → RingCtx → Step ℕ
unfolding inserted then_check take_path_and_mode
do_open host sqe me =
    after (open_flags host.flags sqe.handle)
      (λ flags me'. take_path_and_mode host sqe me' >>= λ r.
        then_check (λ p. host.filp_open p.0 flags p.1) r >>= opened_as)
      me

unfoldable pub adopt_validate : Host → Sqe → Result ℕ
adopt_validate host sqe =
    if not (sqe.len == 0) || (not (sqe.slot == 0) || not (sqe.handle == 0))
    then err einval
    else if ltb (2 ^ 31 - 1) sqe.off
    then err einval
    else bind (host.fget sqe.off) λ file. if host.is_ring file then err eloop else ok file

unfoldable pub do_adopt : Host → Sqe → RingCtx → Step ℕ
unfolding inserted
do_adopt host sqe me = opened_as (adopt_validate host sqe, me)

unfoldable pub closed_as : RingCtx → Result (ℕ × HandleTable) → Res × RingCtx
closed_as me (err e) = (failed e, me)
closed_as me (ok (file, t)) = (value 0, record me { handles = t })

unfoldable pub close_op : Sqe → RingCtx → Res × RingCtx
unfolding closed_as
close_op sqe me =
    if not (sqe.len == 0) || (not (sqe.off == 0) || not (sqe.slot == 0))
    then (failed einval, me)
    else closed_as me (Handles.close me.handles sqe.handle)
