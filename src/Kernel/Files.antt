-- ===== src/Kernel/Files.antt =====
-- What READ, WRITE, READDIR and STAT of kernel/koru_ops.rs refuse before they cost a work item, and
-- the translation of open flags.
use Prim.Native.Nat.{bit_and, bit_or}
use koru.Prelude.{
  ℕ, ◌-◌, ◌%◌, ◌^◌, Bool, false, not, ◌&&◌, ◌||◌, Option, none, some, ltb, leb, ◌==◌, if◌then◌else◌,
}
use koru.Prelude.Words.{complement}
use koru.Kernel.Abi.{Sqe, Result, ok, err, einval, ebadf, enotdir}
use koru.Kernel.Setup.{RingConfig}
use koru.Kernel.Handles.{resolve, bind}
use koru.Kernel.Host.{Host, OpenFlags}
use koru.Kernel.Arena.{check_range}
use koru.Kernel.Ctx.{RingCtx}

abbrev pub fmode_read : ℕ
fmode_read = 2 ^ 0

abbrev pub fmode_write : ℕ
fmode_write = 2 ^ 1

abbrev pub fmode_lseek : ℕ
fmode_lseek = 2 ^ 2

abbrev pub fmode_can_read : ℕ
fmode_can_read = 2 ^ 17

abbrev pub fmode_can_write : ℕ
fmode_can_write = 2 ^ 18

abbrev pub i64_max : ℕ
i64_max = 2 ^ 63 - 1

unfoldable pub is_nonblock : Host → ℕ → Bool
is_nonblock host file = not (bit_and (host.info file).f_flags host.flags.o_nonblock == 0)

unfoldable pub is_seekable : Host → ℕ → Bool
is_seekable host file = not (bit_and (host.info file).f_mode fmode_lseek == 0)

unfoldable pub is_directory : Host → ℕ → Bool
is_directory host file = (host.info file).iterate_shared

-- The file mode has every bit of `bits`.
abbrev has_mode : Host → ℕ → ℕ → Bool
has_mode host file bits = bit_and (host.info file).f_mode bits == bits

unfoldable pub check_readable : Host → ℕ → Result {0} Unit
unfolding is_nonblock
check_readable host file =
    if not (has_mode host file (bit_or fmode_read fmode_can_read))
    then err ebadf
    else if not ((host.info file).file_type == host.s_ifreg) && not (is_nonblock host file)
    then err einval
    else if (host.info file).read || not (host.info file).read_iter
    then err einval
    else ok tt

unfoldable pub check_writable : Host → ℕ → Result {0} Unit
unfolding is_nonblock
check_writable host file =
    if not (has_mode host file (bit_or fmode_write fmode_can_write))
    then err ebadf
    else if not ((host.info file).file_type == host.s_ifreg) && not (is_nonblock host file)
    then err einval
    else if (host.info file).write || not (host.info file).write_iter
    then err einval
    else ok tt

-- A transfer at slot offset 0, and a file offset that a signed word holds.
abbrev pub in_slot : Option RingConfig → Sqe → Bool
in_slot none sqe = false
in_slot (some cfg) sqe =
    ltb sqe.slot cfg.slot_count
    && (not (sqe.len == 0) && (leb sqe.len cfg.slot_size && leb sqe.off i64_max))

-- An unseekable file would ignore a position.
placed : Host → Sqe → ℕ → Result ℕ
placed host sqe file =
    if not (sqe.off == 0) && not (is_seekable host file) then err einval else ok file

unfoldable pub read_validate : Host → Sqe → RingCtx → Result ℕ
unfolding placed
read_validate host sqe me =
    if not (in_slot me.config sqe)
    then err einval
    else bind (resolve me.handles sqe.handle)
        λ file. bind (check_readable host file) λ _. placed host sqe file

unfoldable pub write_validate : Host → Sqe → RingCtx → Result ℕ
unfolding placed
write_validate host sqe me =
    if not (in_slot me.config sqe)
    then err einval
    else bind (resolve me.handles sqe.handle)
        λ file. bind (check_writable host file) λ _. placed host sqe file

unfoldable pub readdir_validate : Host → Sqe → RingCtx → Result ℕ
readdir_validate host sqe me =
    if not (in_slot me.config sqe)
    then err einval
    else bind (resolve me.handles sqe.handle) λ file.
      if not (is_directory host file)
      then err enotdir
      else if not (is_seekable host file)
      then err einval
      else ok file

unfoldable pub stat_validate : Sqe → RingCtx → Result ℕ
stat_validate sqe me = bind (check_range me.config sqe) λ _.
    if not (sqe.off % 8 == 0)
    then err einval
    else if sqe.len == 0
    then err einval
    else resolve me.handles sqe.handle

abbrev pub koru_o_accmode : ℕ
koru_o_accmode = 3

abbrev pub koru_o_wronly : ℕ
koru_o_wronly = 1

abbrev pub koru_o_rdwr : ℕ
koru_o_rdwr = 2

abbrev pub koru_o_nofollow : ℕ
koru_o_nofollow = 2 ^ 2

abbrev pub koru_o_directory : ℕ
koru_o_directory = 2 ^ 3

abbrev pub koru_o_nonblock : ℕ
koru_o_nonblock = 2 ^ 4

abbrev pub koru_o_creat : ℕ
koru_o_creat = 2 ^ 5

abbrev pub koru_o_excl : ℕ
koru_o_excl = 2 ^ 6

abbrev pub koru_o_trunc : ℕ
koru_o_trunc = 2 ^ 7

abbrev pub koru_o_append : ℕ
koru_o_append = 2 ^ 8

-- Every known bit.
abbrev pub koru_open_flags_all : ℕ
koru_open_flags_all = 2 ^ 9 - 1

abbrev pub has_bit : ℕ → ℕ → Bool
has_bit flags bit = not (bit_and flags bit == 0)

-- `if flags & bit != 0 { out |= host }`
abbrev add_flag : ℕ → ℕ → ℕ → ℕ → ℕ
add_flag flags bit host out = if has_bit flags bit then bit_or out host else out

access : OpenFlags → ℕ → Result ℕ
access h mode =
    if mode == koru_o_wronly
    then ok h.o_wronly
    else if mode == koru_o_rdwr
    then ok h.o_rdwr
    else if mode == koru_o_accmode
    then err einval
    else ok h.o_rdonly

-- What no `i32` holds is refused.
narrow : ℕ → Result ℕ
narrow out = if ltb out (2 ^ 31) then ok out else err einval

unfoldable pub open_flags : OpenFlags → ℕ → Result ℕ
unfolding access narrow
open_flags h flags =
    if not (bit_and flags (complement 32 koru_open_flags_all) == 0)
    then err einval
    else bind (access h (bit_and flags koru_o_accmode)) λ mode.
      if has_bit flags koru_o_excl && not (has_bit flags koru_o_creat)
      then err einval
      else let a = add_flag flags koru_o_nofollow h.o_nofollow mode in
        let b = add_flag flags koru_o_directory h.o_directory a in
        let c = add_flag flags koru_o_nonblock h.o_nonblock b in
        let d = add_flag flags koru_o_creat h.o_creat c in
        let e = add_flag flags koru_o_excl h.o_excl d in
        let f = add_flag flags koru_o_trunc h.o_trunc e in
        let g = add_flag flags koru_o_append h.o_append f in
        narrow (bit_or g (bit_or h.o_largefile h.o_noctty))
