-- ===== src/Kernel/Readdir.antt =====
-- READDIR of kernel/koru_ops.rs: `koru_filldir` and `do_readdir`. `none` is a panic.
use koru.Prelude.{
  ℕ, zero, suc, ◌+◌, ◌-◌, ◌*◌, ◌/◌, ◌%◌, ◌^◌, Bool, true, false, ◌&&◌, ◌||◌, Option, none, some,
  List, [], ◌∷◌, ◌++◌, length, replicate, ltb, ◌==◌, if◌then◌else◌,
}
use koru.Prelude.Words.{u16_mod}
use koru.Kernel.Abi.{Sqe, Result, ok, err, Errno, einval, enomem}
use koru.Kernel.Host.{Worker, DirEntry}
use koru.Kernel.Path.{slash}
use koru.Kernel.Arena.{slot_pos}
use koru.Kernel.Ctx.{RingCtx}
use koru.Prelude.Runs.{overwrite}
use koru.Kernel.Store.{stored}

-- The state of `koru_filldir`: the bytes so far, where the last record starts, and the two marks.
pub record DirContext : Type 0 where
  pub buf : List ℕ
  pub prev : Option ℕ
  pub full : Bool
  pub skipped : Bool

abbrev pub dirent_size : ℕ
dirent_size = 24

-- `next_multiple_of(KORU_DIRENT_ALIGN)`
unfoldable pub dirent_reclen : ℕ → ℕ
dirent_reclen namelen = (dirent_size + namelen + 1 + 7) / 8 * 8

unfoldable pub le_bytes : ℕ → ℕ → List ℕ
le_bytes zero n = []
le_bytes (suc k) n = n % 256 ∷ le_bytes k (n / 256)

-- A name that no record can hold.
unfoldable pub has_bad_byte : List ℕ → Bool
has_bad_byte [] = false
has_bad_byte (b ∷ bs) = (b == 0 || b == slash) || has_bad_byte bs

unfoldable pub bad_name : List ℕ → Bool
bad_name [] = true
bad_name (b ∷ bs) = has_bad_byte (b ∷ bs)

-- A record: the header with a cookie of 0, the name, and zeros.
unfoldable pub dirent : DirEntry → List ℕ → List ℕ
unfolding dirent_reclen le_bytes
dirent e name =
    le_bytes 8 e.ino
    ++ (le_bytes 8 0
        ++ (le_bytes 2 (dirent_reclen (length name) % u16_mod)
            ++ (le_bytes 2 (length name % u16_mod)
                ++ (e.dtype % 16 ∷ 0 ∷ 0 ∷ 0 ∷ [])
                ++ (name
                    ++ replicate (dirent_reclen (length name) - (dirent_size + length name)) 0))))

-- The cookie of the record that starts at `prev`.
unfoldable pub patched : Option ℕ → ℕ → List ℕ → List ℕ
unfolding le_bytes
patched none offset buf = buf
patched (some prev) offset buf = overwrite buf (prev + 8) (le_bytes 8 offset)

unfoldable pub fill_named : ℕ → DirContext → DirEntry → List ℕ → Bool × DirContext
fill_named budget this e name =
    if bad_name name
    then (true, record this { skipped = true })
    else if ltb budget (length this.buf + dirent_reclen (length name))
    then (false, record this { full = true })
    else (
      true,
      record this {
        buf = patched this.prev e.offset this.buf ++ dirent e name;
        prev = some (length this.buf);
      },
    )

unfoldable pub fill_entry : ℕ → DirContext → DirEntry → Option (List ℕ) → Bool × DirContext
fill_entry budget this e none = (true, record this { skipped = true })
fill_entry budget this e (some name) = fill_named budget this e name

-- Whether the iteration goes on, and the context after the entry.
unfoldable pub koru_filldir : ℕ → DirContext → DirEntry → Bool × DirContext
unfolding fill_entry fill_named bad_name has_bad_byte patched dirent
koru_filldir budget this e = fill_entry budget this e e.name

-- `iterate_dir`: the entries in order, until one is refused; how many were handed over and taken.
unfoldable pub iterated : ℕ → List DirEntry → ℕ → DirContext → ℕ × DirContext
iterated budget [] n this = (n, this)
iterated budget (e ∷ es) n this =
    let (more, this') = koru_filldir budget this e in
    let rest = iterated budget es (suc n) this' in if more then rest else (n, this')

abbrev pub empty_context : DirContext
empty_context = record { buf = []; prev = none; full = false; skipped = false }

abbrev pub koru_cqe_f_skipped : ℕ
koru_cqe_f_skipped = 2 ^ 1

-- The records go into the slot, the last cookie patched.
unfoldable pub dir_stored :
    Worker → RingCtx → ℕ → DirContext → Result ℕ → Result (ℕ × ℕ × ℕ) × RingCtx
dir_stored w me next ctx (err e) = (err e, me)
dir_stored w me next ctx (ok base) =
    stored w.page_size me base (patched ctx.prev next ctx.buf)
      (length ctx.buf, next, if ctx.skipped then koru_cqe_f_skipped else 0)

unfoldable pub dir_answer :
    Worker → Sqe → ℕ → RingCtx → ℕ × DirContext → Result (ℕ × ℕ × ℕ) × RingCtx
dir_answer w sqe file me (n, ctx) =
    if length ctx.buf == 0 && ctx.full
    then (err einval, me)
    else dir_stored w me (w.dir_pos file n) ctx (slot_pos me.config sqe.slot 0)

unfoldable pub dir_iterated :
    Worker → Sqe → ℕ → RingCtx → Option Errno → Result (ℕ × ℕ × ℕ) × RingCtx
dir_iterated w sqe file me (some e) = (err e, me)
dir_iterated w sqe file me none =
    dir_answer w sqe file me (iterated sqe.len (w.dir_entries file) 0 empty_context)

unfoldable pub dir_sought : Worker → Sqe → ℕ → RingCtx → Option Errno → Result (ℕ × ℕ × ℕ) × RingCtx
dir_sought w sqe file me (some e) = (err e, me)
dir_sought w sqe file me none = dir_iterated w sqe file me (w.iterate_dir file)

unfoldable pub do_readdir : Worker → Sqe → Option ℕ → RingCtx → Result (ℕ × ℕ × ℕ) × RingCtx
unfolding dir_sought dir_iterated dir_answer dir_stored iterated koru_filldir patched stored
do_readdir w sqe none me = (err einval, me)
do_readdir w sqe (some file) me =
    if w.memory sqe.len
    then dir_sought w sqe file me (w.vfs_llseek file sqe.off)
    else (err enomem, me)
