-- ===== src/Kernel/Work.antt =====
-- What a worker does of kernel/koru_ops.rs: `do_read`, `do_write`, `do_stat` and `run`. A worker's answers from the kernel are parameters. `none` is a panic.
use Prim.Native.Nat.{bit_and, bit_or}
use koru.Prelude.{
  ℕ, zero, suc, ◌+◌, ◌-◌, ◌*◌, ◌/◌, ◌%◌, Option, none, some, List, [], ◌∷◌, length, get_elem?, set,
  take, drop, min, ltb, ◌==◌, if◌then◌else◌,
}
use koru.Prelude.Partial.{◌>>=◌}
use koru.Kernel.Abi.{
  Sqe, Res, value, failed, Result, ok, err, Errno, Opcode, opcode_of, einval, enomem,
  koru_stat_size,
}
use koru.Kernel.Setup.{RingConfig}
use koru.Kernel.Handles.{bind}
use koru.Kernel.Poll.{poll_to_koru, poll_always}
use koru.Kernel.Submit.{complete, cqe_full}
use koru.Kernel.Host.{Worker}
use koru.Kernel.Arena.{slot_offset, fits}
use koru.Kernel.Ctx.{RingCtx, OpWork, pending_remove}
use koru.Prelude.Runs.{overwrite}
use koru.Kernel.PathOps.{statx_to_koru}
use koru.Kernel.Store.{stored, with_pages}
use koru.Kernel.Defer.{release_handle, held_slot}
use koru.Kernel.Checksum.{checksum}
use koru.Kernel.Readdir.{do_readdir}

-- A failed transfer after the first is a short count.
unfoldable pub short : ℕ → Errno → Result ℕ
short done e = if done == 0 then err e else ok done

-- `n` bytes went into the page that holds `pos`; `write_raw` refuses what a page has no room for.
unfoldable pub into_page : ℕ → RingCtx → ℕ → List ℕ → Option (List ℕ) → Result RingCtx
into_page page_size me pos bytes none = err einval
into_page page_size me pos bytes (some page) =
    if ltb page_size (pos % page_size + length bytes)
    then err einval
    else ok (
        with_pages me
          (set me.arena.pages (pos / page_size) (overwrite page (pos % page_size) bytes)))

unfoldable pub read_on :
    (ℕ → RingCtx → Result ℕ × RingCtx) → ℕ → RingCtx → Result RingCtx → Result ℕ × RingCtx
read_on next done me (err e) = (err e, me)
read_on next done me (ok me') = next done me'

unfoldable pub read_in :
    (ℕ → RingCtx → Result ℕ × RingCtx) → ℕ → ℕ → ℕ → RingCtx → Result (List ℕ) → Result ℕ × RingCtx
read_in next page_size base done me (err e) = (short done e, me)
read_in next page_size base done me (ok []) = (ok done, me)
read_in next page_size base done me (ok (b ∷ bs)) = read_on next (done + length (b ∷ bs)) me (
    into_page page_size me (base + done) (b ∷ bs)
      (get_elem? me.arena.pages ((base + done) / page_size)))

-- How much the next transfer asks for.
abbrev pub wanted : ℕ → ℕ → ℕ → ℕ
wanted page_size pos left = min left (page_size - pos % page_size)

-- At most `rounds` rounds; one reads a byte at least, or ends.
unfoldable pub read_loop : Worker → ℕ → Sqe → ℕ → ℕ → ℕ → RingCtx → Result ℕ × RingCtx
unfolding read_in read_on into_page short
read_loop w file sqe base zero done me = (ok done, me)
read_loop w file sqe base (suc rounds) done me =
    if ltb done sqe.len
    then read_in (read_loop w file sqe base rounds) w.page_size base done me
        (w.read_at file sqe.off done (wanted w.page_size (base + done) (sqe.len - done)))
    else (ok done, me)

-- Where the slot starts, for a file that is there.
unfoldable pub transfer_base : Option ℕ → Option RingConfig → Sqe → Result (ℕ × ℕ)
transfer_base none config sqe = err einval
transfer_base (some file) none sqe = err einval
transfer_base (some file) (some cfg) sqe = bind (fits (sqe.slot * cfg.slot_size)) λ b. ok (file, b)

-- The bounce buffer of a page.
abbrev pub bounced : Worker → Result (ℕ × ℕ) → Result (ℕ × ℕ)
bounced w r = bind r λ p. if w.memory w.page_size then ok p else err enomem

unfoldable pub read_from : Worker → Sqe → RingCtx → Result (ℕ × ℕ) → Result ℕ × RingCtx
unfolding read_loop
read_from w sqe me (err e) = (err e, me)
read_from w sqe me (ok (file, base)) = read_loop w file sqe base sqe.len 0 me

unfoldable pub do_read : Worker → Sqe → Option ℕ → RingCtx → Result ℕ × RingCtx
unfolding read_from transfer_base
do_read w sqe file me = read_from w sqe me (bounced w (transfer_base file me.config sqe))

unfoldable pub write_out : (ℕ → Result ℕ) → ℕ → Result ℕ → Result ℕ
write_out next done (err e) = short done e
write_out next done (ok zero) = ok done
write_out next done (ok (suc n)) = next (done + suc n)

unfoldable pub from_page : Worker → (ℕ → Result ℕ) → ℕ → Sqe → ℕ → ℕ → Option (List ℕ) → Result ℕ
from_page w next file sqe base done none = err einval
from_page w next file sqe base done (some page) =
    let pos = base + done in
    write_out next done (
      w.write_at file sqe.off done
        (take (wanted w.page_size pos (sqe.len - done)) (drop (pos % w.page_size) page)))

unfoldable pub write_loop : Worker → ℕ → Sqe → ℕ → ℕ → ℕ → RingCtx → Result ℕ
unfolding from_page write_out short
write_loop w file sqe base zero done me = ok done
write_loop w file sqe base (suc rounds) done me =
    if ltb done sqe.len
    then from_page w (λ d. write_loop w file sqe base rounds d me) file sqe base done
        (get_elem? me.arena.pages ((base + done) / w.page_size))
    else ok done

unfoldable pub do_write : Worker → Sqe → Option ℕ → RingCtx → Result ℕ
unfolding write_loop transfer_base
do_write w sqe file me =
    bind (bounced w (transfer_base file me.config sqe)) λ p. write_loop w p.0 sqe p.1 sqe.len 0 me

unfoldable pub stat_answer :
    Worker → Sqe → ℕ → Result (List ℕ × ℕ) → RingCtx → Result (ℕ × ℕ) × RingCtx
stat_answer w sqe pos (err e) me = (err e, me)
stat_answer w sqe pos (ok (out, mask)) me =
    let n = min sqe.len koru_stat_size in
    stored w.page_size me pos (take n out) (n, statx_to_koru w.statx_bits mask)

unfoldable pub stat_at : Worker → Sqe → ℕ → RingCtx → Result ℕ → Result (ℕ × ℕ) × RingCtx
stat_at w sqe file me (err e) = (err e, me)
stat_at w sqe file me (ok pos) = stat_answer w sqe pos (w.getattr file) me

unfoldable pub do_stat : Worker → Sqe → Option ℕ → RingCtx → Result (ℕ × ℕ) × RingCtx
unfolding stat_at stat_answer stored
do_stat w sqe none me = (err einval, me)
do_stat w sqe (some file) me = stat_at w sqe file me (slot_offset me.config sqe)

-- `res`, `extra` and `flags` of the completion.
pub record Ran : Type 0 where
  pub res : Res
  pub extra : ℕ
  pub flags : ℕ

abbrev plainly : Result ℕ → Ran
plainly (ok n) = record { res = value n; extra = 0; flags = 0 }
plainly (err e) = record { res = failed e; extra = 0; flags = 0 }

abbrev extended : Result (ℕ × ℕ) → Ran
extended (ok (n, extra)) = record { res = value n; extra = extra; flags = 0 }
extended (err e) = record { res = failed e; extra = 0; flags = 0 }

abbrev listed : Result (ℕ × ℕ × ℕ) → Ran
listed (ok (n, extra, flags)) = record { res = value n; extra = extra; flags = flags }
listed (err e) = record { res = failed e; extra = 0; flags = 0 }

-- A keyless wake leaves nothing to report, so the file is asked.
unfoldable pub fired_mask : Worker → OpWork → ℕ
fired_mask w op =
    let mask = if w.fired == 0 then w.poll_mask_now else w.fired in
    bit_and mask (bit_or op.interest poll_always)

unfoldable pub work_as : Opcode → Worker → OpWork → RingCtx → Ran × RingCtx
work_as Opcode.delay_ns w op me = (plainly (ok 0), me)
work_as Opcode.checksum w op me = (plainly (checksum w.page_size op.sqe me), me)
work_as Opcode.read w op me = let (r, t) = do_read w op.sqe op.file me in (plainly r, t)
work_as Opcode.write w op me = (plainly (do_write w op.sqe op.file me), me)
work_as Opcode.stat w op me = let (r, t) = do_stat w op.sqe op.file me in (extended r, t)
work_as Opcode.readdir w op me = let (r, t) = do_readdir w op.sqe op.file me in (listed r, t)
work_as Opcode.poll_add w op me = (plainly (ok (poll_to_koru (fired_mask w op))), me)
work_as _ w op me = (plainly (err einval), me)

-- What the operation did, before anything of it is given back.
unfoldable pub work : Worker → OpWork → RingCtx → Ran × RingCtx
unfolding work_as fired_mask
work w op me = work_as (opcode_of op.sqe.opcode) w op me

-- The handle goes back, the completion is posted and the slot freed; the registry comes last.
unfoldable pub settle : OpWork → Ran × RingCtx → Option RingCtx
settle op (r, me) =
    complete me.state (cqe_full op.sqe r.res r.extra r.flags) (held_slot op.sqe) >>= λ s.
    some (record (release_handle op.sqe me) { state = s; pending = pending_remove me.pending op })

unfoldable pub run : Worker → OpWork → RingCtx → Option RingCtx
unfolding work settle
run w op me = settle op (work w op me)

-- What a worker makes of the operation at an index of the registry, where there is one.
unfoldable pub run_at : Worker → RingCtx → Option OpWork → Option RingCtx
unfolding run
run_at w me none = some me
run_at w me (some op) = run w op me

-- Workers that run one after the other, each on the operation at an index of the registry.
unfoldable pub run_all : List (Worker × ℕ) → RingCtx → Option RingCtx
unfolding run_at
run_all [] me = some me
run_all ((w, i) ∷ ws) me = run_at w me (get_elem? me.pending i) >>= λ t. run_all ws t
