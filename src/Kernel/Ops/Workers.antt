-- ===== src/Kernel/Ops/Workers.antt =====
-- `run` keeps the ring's accounts: one completion for one registered operation, which lets go of
-- all it held.
use koru.Prelude.{
  ℕ, zero, suc, ◌+◌, ◌-◌, ◌/◌, ◌%◌, ◌≡◌, refl, ◌∙◌, inl, inr, ◌&&◌, Option, none, some, List, [],
  ◌∷◌, length, get_elem?, set, ltb, ◌==◌, Bool-cases,
}
use koru.Kernel.Abi.{Sqe, Cqe, Result, ok, err, Errno, Opcode, opcode_of}
use koru.Kernel.Ring.Queue.{IsSound}
use koru.Kernel.Host.{Worker}
use koru.Kernel.Submit.{cqe_full}
use koru.Kernel.Arena.{slot_offset, slot_pos}
use koru.Kernel.Ctx.{RingCtx, OpWork, pending_remove}
use koru.Kernel.Ctx.Configured.{Result-cases}
use koru.Prelude.Runs.{overwrite}
use koru.Kernel.Work.{
  Ran, run, work, work_as, settle, do_read, do_stat, read_loop, read_in, read_on, into_page,
  stat_at, stat_answer, transfer_base, read_from, wanted, bounced,
}
use koru.Kernel.Readdir.{
  do_readdir, dir_sought, dir_iterated, dir_answer, dir_stored, DirContext, iterated, empty_context,
}
use koru.Kernel.Defer.{release_handle}
use koru.Kernel.Ops.PathCalls.{stored-IsQuiet}
use koru.Kernel.Ops.Accounts.{IsAccounted}
use koru.Kernel.Ops.Finished.{Finished, Removed-pending_remove, finish_lem}

-- Only the arena has changed.
abbrev Quiet : RingCtx → RingCtx → Type 0
Quiet me t =
    (t.config ≡ me.config)
    × (t.state ≡ me.state)
    × (t.handles ≡ me.handles)
    × (t.pending ≡ me.pending)

Quiet-refl : (me : RingCtx) → Quiet me me
Quiet-refl me = (refl, refl, refl, refl)

Quiet-trans : (me t u : RingCtx) → Quiet me t → Quiet t u → Quiet me u
Quiet-trans me t u (a, b, c, d) (e, f, g, h) = (e ∙ a, f ∙ b, g ∙ c, h ∙ d)

read_on-Quiet :
    (next : ℕ → RingCtx → Result ℕ × RingCtx) (done : ℕ) (me : RingCtx) (page_size pos : ℕ)
    (bytes : List ℕ) (page : Option (List ℕ))
    → ((d : ℕ) (t : RingCtx) → Quiet t (next d t).1)
    → Quiet me (read_on next done me (into_page page_size me pos bytes page)).1
unfolding read_on into_page
read_on-Quiet next done me page_size pos bytes none h = Quiet-refl me
read_on-Quiet next done me page_size pos bytes (some page) h =
    elim (Bool-cases (ltb page_size (pos % page_size + length bytes))) [
      | inl over ↦ rw over (Quiet-refl me)
      | inr fine ↦ rw fine (
          h done (record me {
            arena = record me.arena {
              pages = set me.arena.pages (pos / page_size) (overwrite page (pos % page_size) bytes);
            };
          }))
    ]

read_in-Quiet :
    (next : ℕ → RingCtx → Result ℕ × RingCtx) (page_size base done : ℕ) (me : RingCtx)
    (r : Result (List ℕ))
    → ((d : ℕ) (t : RingCtx) → Quiet t (next d t).1)
    → Quiet me (read_in next page_size base done me r).1
unfolding read_in
read_in-Quiet next page_size base done me (err e) h = Quiet-refl me
read_in-Quiet next page_size base done me (ok []) h = Quiet-refl me
read_in-Quiet next page_size base done me (ok (b ∷ bs)) h =
    read_on-Quiet next (done + length (b ∷ bs)) me page_size (base + done) (b ∷ bs)
      (get_elem? me.arena.pages ((base + done) / page_size)) h

read_loop-Quiet :
    (w : Worker) (file : ℕ) (sqe : Sqe) (base rounds done : ℕ) (me : RingCtx)
    → Quiet me (read_loop w file sqe base rounds done me).1
unfolding read_loop
read_loop-Quiet w file sqe base zero done me = Quiet-refl me
read_loop-Quiet w file sqe base (suc rounds) done me = elim (Bool-cases (ltb done sqe.len)) [
  | inl more ↦ rw more (
      read_in-Quiet (read_loop w file sqe base rounds) w.page_size base done me
        (w.read_at file sqe.off done (wanted w.page_size (base + done) (sqe.len - done)))
        (λ d t. read_loop-Quiet w file sqe base rounds d t))
  | inr over ↦ rw over (Quiet-refl me)
]

read_from-Quiet :
    (w : Worker) (sqe : Sqe) (me : RingCtx) (r : Result (ℕ × ℕ)) → Quiet me (read_from w sqe me r).1
unfolding read_from
read_from-Quiet w sqe me (err e) = Quiet-refl me
read_from-Quiet w sqe me (ok (f, base)) = read_loop-Quiet w f sqe base sqe.len 0 me

do_read-Quiet :
    (w : Worker) (sqe : Sqe) (file : Option ℕ) (me : RingCtx) → Quiet me (do_read w sqe file me).1
unfolding do_read
do_read-Quiet w sqe file me =
    read_from-Quiet w sqe me (bounced w (transfer_base file me.config sqe))

stat_at-Quiet :
    (w : Worker) (sqe : Sqe) (file : ℕ) (me : RingCtx) (r : Result ℕ)
    → Quiet me (stat_at w sqe file me r).1
unfolding stat_at stat_answer
stat_at-Quiet w sqe file me (err e) = Quiet-refl me
stat_at-Quiet w sqe file me (ok pos) = elim (Result-cases (w.getattr file)) [
  | inl (e, bad) ↦ rw bad (Quiet-refl me)
  | inr ((out, mask), good) ↦ rw good (stored-IsQuiet w.page_size me pos _ _)
]

do_stat-Quiet :
    (w : Worker) (sqe : Sqe) (file : Option ℕ) (me : RingCtx) → Quiet me (do_stat w sqe file me).1
unfolding do_stat
do_stat-Quiet w sqe none me = Quiet-refl me
do_stat-Quiet w sqe (some file) me = stat_at-Quiet w sqe file me (slot_offset me.config sqe)

dir_stored-Quiet :
    (w : Worker) (me : RingCtx) (next : ℕ) (ctx : DirContext) (r : Result ℕ)
    → Quiet me (dir_stored w me next ctx r).1
unfolding dir_stored
dir_stored-Quiet w me next ctx (err e) = Quiet-refl me
dir_stored-Quiet w me next ctx (ok base) = stored-IsQuiet w.page_size me base _ _

dir_answer-Quiet :
    (w : Worker) (sqe : Sqe) (file : ℕ) (me : RingCtx) (n : ℕ) (ctx : DirContext)
    → Quiet me (dir_answer w sqe file me (n, ctx)).1
unfolding dir_answer
dir_answer-Quiet w sqe file me n ctx = elim (Bool-cases (length ctx.buf == 0 && ctx.full)) [
  | inl small ↦ rw small (Quiet-refl me)
  | inr fine ↦
      rw fine (dir_stored-Quiet w me (w.dir_pos file n) ctx (slot_pos me.config sqe.slot 0))
]

dir_iterated-Quiet :
    (w : Worker) (sqe : Sqe) (file : ℕ) (me : RingCtx) (o : Option Errno)
    → Quiet me (dir_iterated w sqe file me o).1
unfolding dir_iterated
dir_iterated-Quiet w sqe file me (some e) = Quiet-refl me
dir_iterated-Quiet w sqe file me none =
    let (n, ctx) = iterated sqe.len (w.dir_entries file) 0 empty_context in
    dir_answer-Quiet w sqe file me n ctx

dir_sought-Quiet :
    (w : Worker) (sqe : Sqe) (file : ℕ) (me : RingCtx) (o : Option Errno)
    → Quiet me (dir_sought w sqe file me o).1
unfolding dir_sought
dir_sought-Quiet w sqe file me (some e) = Quiet-refl me
dir_sought-Quiet w sqe file me none = dir_iterated-Quiet w sqe file me (w.iterate_dir file)

do_readdir-Quiet :
    (w : Worker) (sqe : Sqe) (file : Option ℕ) (me : RingCtx)
    → Quiet me (do_readdir w sqe file me).1
unfolding do_readdir
do_readdir-Quiet w sqe none me = Quiet-refl me
do_readdir-Quiet w sqe (some file) me = elim (Bool-cases (w.memory sqe.len)) [
  | inl room ↦ rw room (dir_sought-Quiet w sqe file me (w.vfs_llseek file sqe.off))
  | inr full ↦ rw full (Quiet-refl me)
]

work_as-Quiet :
    (code : Opcode) (w : Worker) (op : OpWork) (me : RingCtx) → Quiet me (work_as code w op me).1
unfolding work_as
work_as-Quiet Opcode.delay_ns w op me = Quiet-refl me
work_as-Quiet Opcode.checksum w op me = Quiet-refl me
work_as-Quiet Opcode.read w op me = do_read-Quiet w op.sqe op.file me
work_as-Quiet Opcode.write w op me = Quiet-refl me
work_as-Quiet Opcode.stat w op me = do_stat-Quiet w op.sqe op.file me
work_as-Quiet Opcode.readdir w op me = do_readdir-Quiet w op.sqe op.file me
work_as-Quiet Opcode.poll_add w op me = Quiet-refl me
work_as-Quiet _ w op me = Quiet-refl me

-- The completion of an operation: its own `user_data`, and what the work came to.
pub completion : OpWork → Ran → Cqe
completion op r = record {
  user_data = op.sqe.user_data;
  res = r.res;
  flags = r.flags;
  rsvd0 = 0;
  extra = r.extra;
}

-- A worker that runs a registered operation of an accounted, sound ring does not panic, whatever the
-- opcode and whatever the kernel answers. It posts one completion, at the end of the queue, with
-- the operation's `user_data` and what the work came to; the operation is off the registry and no
-- longer in flight; the slot and the handle that it held, and no others, are let go; and the
-- accounts and the soundness of the ring hold.
pub run_lem :
    (w : Worker) (me : RingCtx) (i : ℕ) (op : OpWork)
    → IsAccounted me
    → IsSound me.state
    → get_elem? me.pending i ≡ some op
    → (t : RingCtx) × (run w op me ≡ some t) × Finished op (completion op (work w op me).0) me t
unfolding run work settle cqe_full completion
run_lem w me i op acc sound there =
    let code = opcode_of op.sqe.opcode in
    let r = (work_as code w op me).0 in
    let m = (work_as code w op me).1 in
    let (config, state, handles, pending) = work_as-Quiet code w op me in
    let rest = pending_remove me.pending op in
    let (s, run, f) =
      finish_lem me m op rest (cqe_full op.sqe r.res r.extra r.flags) acc sound
        (Removed-pending_remove me.pending i op acc.apart there) config state handles in
    (record (release_handle op.sqe m) { state = s; pending = rest }, rw (run, pending) refl, f)
