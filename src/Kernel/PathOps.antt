-- ===== src/Kernel/PathOps.antt =====
-- The path operations of kernel/koru_ops.rs: completed inline, in the submitter's context. `none` is a panic.
use Prim.Native.Nat.{bit_and, bit_or}
use koru.Prelude.{
  ℕ, ◌+◌, ◌%◌, ◌^◌, Bool, true, false, not, Option, none, some, List, [], ◌∷◌, ◌++◌, length, take,
  drop, ltb, ◌==◌, if◌then◌else◌,
}
use koru.Prelude.Partial.{minus, ◌>>=◌}
use koru.Prelude.Words.{u16_mod, complement}
use koru.Kernel.Abi.{
  Sqe, Res, value, failed, Result, ok, err, Errno, Opcode, opcode_of, einval, enametoolong, enomem,
  koru_mkdir_mode_all, koru_stat_size, koru_times_size, word_size,
}
use koru.Kernel.Setup.{RingConfig}
use koru.Kernel.Handles.{bind}
use koru.Kernel.Host.{Host}
use koru.Kernel.Path.{split_path}
use koru.Kernel.Arena.{path_validate}
use koru.Kernel.Files.{i64_max}
use koru.Kernel.Ctx.{RingCtx}
use koru.Kernel.Taken.{
  Step, after, holding, copy_path, take_path, take_path_pair, path_and_arg, of_le_bytes, then_check,
}
use koru.Kernel.Store.{stored}

-- The bits of `KoruStat`'s fields that have a statx bit, in the order of `PAIRS`.
abbrev koru_stat_bits : List ℕ
koru_stat_bits =
    2 ^ 0
    ∷ 2 ^ 1
    ∷ 2 ^ 2
    ∷ 2 ^ 4
    ∷ 2 ^ 5
    ∷ 2 ^ 6
    ∷ 2 ^ 7
    ∷ 2 ^ 8
    ∷ 2 ^ 11
    ∷ 2 ^ 12
    ∷ 2 ^ 13
    ∷ 2 ^ 14
    ∷ []

-- `KORU_STAT_BLKSIZE | KORU_STAT_DEV | KORU_STAT_RDEV`
abbrev always_reported : ℕ
always_reported = 2 ^ 3 + 2 ^ 9 + 2 ^ 10

unfoldable pub mark_fields : ℕ → List ℕ → List ℕ → ℕ → ℕ
mark_fields mask (s ∷ ss) (k ∷ ks) out =
    mark_fields mask ss ks (if bit_and mask s == 0 then out else bit_or out k)
mark_fields mask _ _ out = out

unfoldable pub statx_to_koru : List ℕ → ℕ → ℕ
unfolding mark_fields
statx_to_koru statx_bits mask = mark_fields mask statx_bits koru_stat_bits always_reported

-- What the kernel proper answers with no value.
abbrev vfs : Option Errno → Result {0} Unit
vfs none = ok tt
vfs (some e) = err e

unfoldable pub do_mkdir : Host → Sqe → RingCtx → Step Unit
unfolding then_check take_path
do_mkdir host sqe me =
    if not (bit_and sqe.handle (complement 32 koru_mkdir_mode_all) == 0)
    then some (err einval, me)
    else if not (ltb sqe.handle u16_mod)
    then some (err einval, me)
    else (take_path host sqe me >>= λ r.
        then_check (λ path. vfs (host.vfs_mkdir path sqe.handle)) r)

unfoldable pub do_rename : Host → Sqe → RingCtx → Step Unit
unfolding then_check
do_rename host sqe me = take_path_pair host sqe me >>= λ r.
    then_check
      (λ pair.
        bind (split_path host.memory pair.0)
          λ old. bind (split_path host.memory pair.1) λ new. vfs (host.vfs_rename old new))
      r

unfoldable pub do_remove : Host → Sqe → Bool → RingCtx → Step Unit
unfolding then_check
do_remove host sqe isdir me =
    if not (sqe.handle == 0)
    then some (err einval, me)
    else (take_path host sqe me >>= λ r.
        then_check
          (λ path. bind (split_path host.memory path) λ p. vfs (host.vfs_remove p.0 p.1 isdir)) r)

unfoldable pub do_symlink : Host → Sqe → RingCtx → Step Unit
unfolding then_check
do_symlink host sqe me =
    take_path_pair host sqe me >>= λ r. then_check (λ pair. vfs (host.vfs_symlink pair.0 pair.1)) r

abbrev pub path_then :
    {A : Type 0}
    → (List ℕ → RingCtx → Result A × RingCtx)
    → RingCtx
    → Result (List ℕ)
    → Result A × RingCtx
path_then f me (ok path) = f path me
path_then f me (err e) = (err e, me)

-- A path that was copied, and what becomes of it in the same slot.
abbrev pub with_path :
    {A : Type 0}
    → Host
    → Sqe
    → ℕ
    → (List ℕ → RingCtx → Result A × RingCtx)
    → RingCtx
    → Result A × RingCtx
with_path host sqe pos f me = path_then f me (copy_path host pos sqe.len me)

unfoldable pub statx_answer : Host → ℕ → Result (List ℕ × ℕ) → RingCtx → Result (ℕ × ℕ) × RingCtx
statx_answer host pos (err e) me = (err e, me)
statx_answer host pos (ok (out, mask)) me =
    stored host.page_size me pos out (koru_stat_size, statx_to_koru host.statx_bits mask)

unfoldable pub statx_at_held : Host → Sqe → ℕ → RingCtx → Result (ℕ × ℕ) × RingCtx
unfolding statx_answer stored
statx_at_held host sqe pos me =
    with_path host sqe pos (λ path. statx_answer host pos (host.getattr_at path)) me

-- The room after `off` in a slot; a `u64` that would fall below zero is a panic.
abbrev pub room_of : Option RingConfig → Sqe → Option (Result ℕ)
room_of none sqe = some (err einval)
room_of (some cfg) sqe = minus cfg.slot_size sqe.off >>= λ n. some (ok n)

unfoldable pub statx_validate : Host → Sqe → RingCtx → Option (Result ℕ)
statx_validate host sqe me =
    if not (sqe.handle == 0)
    then some (err einval)
    else elim (path_validate host.path_max me.config sqe) [
      | err e ↦ some (err e)
      | ok pos ↦
          if not (sqe.off % 8 == 0)
          then some (err einval)
          else (room_of me.config sqe >>= λ room.
              some (bind room λ n. if ltb n koru_stat_size then err einval else ok pos))
    ]

unfoldable pub do_statx_at : Host → Sqe → RingCtx → Step (ℕ × ℕ)
unfolding statx_validate holding statx_at_held
do_statx_at host sqe me = statx_validate host sqe me >>= λ r.
    after r (λ pos. holding sqe.slot (statx_at_held host sqe pos)) me

unfoldable pub do_truncate : Host → Sqe → RingCtx → Step Unit
unfolding then_check of_le_bytes
do_truncate host sqe me = path_and_arg host sqe word_size me >>= λ r.
    then_check
      (λ p.
        if ltb i64_max (of_le_bytes p.1)
        then err einval
        else vfs (host.vfs_truncate p.0 (of_le_bytes p.1)))
      r

-- The words of a `KoruTimes`, as bit patterns. `tv_nsec` is a `long` of 64 bits, which an `i64`
-- fits.
abbrev words_of : List ℕ → List ℕ
words_of arg =
    of_le_bytes (take 8 arg)
    ∷ of_le_bytes (take 8 (drop 8 arg))
    ∷ of_le_bytes (take 8 (drop 16 arg))
    ∷ of_le_bytes (take 8 (drop 24 arg))
    ∷ []

unfoldable pub do_utimes : Host → Sqe → RingCtx → Step Unit
unfolding then_check of_le_bytes
do_utimes host sqe me = path_and_arg host sqe koru_times_size me >>= λ r.
    then_check (λ p. vfs (host.vfs_utimes p.0 (words_of p.1))) r

unfoldable pub link_answer : Host → ℕ → ℕ → Result (List ℕ) → RingCtx → Result ℕ × RingCtx
link_answer host pos room (err e) me = (err e, me)
link_answer host pos room (ok target) me =
    if ltb room (length target + 1)
    then (err enametoolong, me)
    else (if host.memory (length target + 1)
        then stored host.page_size me pos (target ++ 0 ∷ []) (length target)
        else (err enomem, me))

unfoldable pub readlink_held : Host → Sqe → ℕ → ℕ → RingCtx → Result ℕ × RingCtx
unfolding link_answer stored
readlink_held host sqe pos room me =
    with_path host sqe pos (λ path. link_answer host pos room (host.vfs_get_link path)) me

unfoldable pub readlink_validate : Host → Sqe → RingCtx → Option (Result (ℕ × ℕ))
readlink_validate host sqe me =
    if not (sqe.handle == 0)
    then some (err einval)
    else elim (path_validate host.path_max me.config sqe) [
      | err e ↦ some (err e)
      | ok pos ↦ room_of me.config sqe >>= λ room. some (bind room λ n. ok (pos, n))
    ]

unfoldable pub do_readlink : Host → Sqe → RingCtx → Step ℕ
unfolding readlink_validate holding readlink_held
do_readlink host sqe me = readlink_validate host sqe me >>= λ r.
    after r (λ p. holding sqe.slot (readlink_held host sqe p.0 p.1)) me

-- The results of a completion: `res`, and `extra`.
abbrev pub plain : Result {0} Unit × RingCtx → Option ((Res × ℕ) × RingCtx)
plain (ok _, me) = some ((value 0, 0), me)
plain (err e, me) = some ((failed e, 0), me)

abbrev pub counted : Result ℕ × RingCtx → Option ((Res × ℕ) × RingCtx)
counted (ok n, me) = some ((value n, 0), me)
counted (err e, me) = some ((failed e, 0), me)

abbrev pub extended : Result (ℕ × ℕ) × RingCtx → Option ((Res × ℕ) × RingCtx)
extended (ok (n, extra), me) = some ((value n, extra), me)
extended (err e, me) = some ((failed e, 0), me)

unfoldable pub path_op_as : Opcode → Host → Sqe → RingCtx → Option ((Res × ℕ) × RingCtx)
path_op_as Opcode.truncate host sqe me = do_truncate host sqe me >>= plain
path_op_as Opcode.utimes host sqe me = do_utimes host sqe me >>= plain
path_op_as Opcode.statx_at host sqe me = do_statx_at host sqe me >>= extended
path_op_as Opcode.mkdir host sqe me = do_mkdir host sqe me >>= plain
path_op_as Opcode.symlink host sqe me = do_symlink host sqe me >>= plain
path_op_as Opcode.unlink host sqe me = do_remove host sqe false me >>= plain
path_op_as Opcode.rmdir host sqe me = do_remove host sqe true me >>= plain
path_op_as Opcode.rename host sqe me = do_rename host sqe me >>= plain
path_op_as _ host sqe me = do_readlink host sqe me >>= counted

unfoldable pub path_op : Host → Sqe → RingCtx → Option ((Res × ℕ) × RingCtx)
unfolding path_op_as
path_op host sqe me = path_op_as (opcode_of sqe.opcode) host sqe me
