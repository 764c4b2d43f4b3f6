-- ===== src/Kernel/Checksum.antt =====
-- CHECKSUM of kernel/koru_ops.rs: FNV-1a of a range of the arena.
pub mod Flat
use Prim.Native.Nat.{bit_and, bit_or, bit_xor}
use koru.Prelude.{
  ℕ, zero, suc, ◌+◌, ◌-◌, ◌*◌, ◌/◌, ◌%◌, ◌^◌, Bool, true, false, ◌&&◌, ◌||◌, Option, none, some,
  List, [], ◌∷◌, ◌++◌, length, get_elem?, set, take, drop, replicate, min, ltb, ◌==◌, if◌then◌else◌,
}
use koru.Prelude.Partial.{◌>>=◌}
use koru.Prelude.Words.{u16_mod, u64_mod}
use koru.Kernel.Abi.{
  Sqe, Res, value, failed, Result, ok, err, Errno, Opcode, opcode_of, einval, enomem,
  koru_stat_size,
}
use koru.Kernel.Setup.{RingConfig}
use koru.Kernel.Handles.{bind}
use koru.Kernel.Poll.{poll_to_koru, poll_always}
use koru.Kernel.Submit.{complete, cqe_full}
use koru.Kernel.Host.{Worker, DirEntry}
use koru.Kernel.Path.{slash}
use koru.Kernel.Arena.{check_range, slot_offset, slot_pos, chunk, fits}
use koru.Kernel.Ctx.{RingCtx, OpWork, pending_remove}
use koru.Prelude.Runs.{overwrite}
use koru.Kernel.PathOps.{statx_to_koru}
use koru.Kernel.Store.{stored, with_pages}
use koru.Kernel.Defer.{release_handle, held_slot}

-- FNV-1a, one byte at a time.
unfoldable pub fnv : ℕ → List ℕ → ℕ
fnv hash [] = hash
fnv hash (b ∷ bs) = fnv (bit_xor hash b * 0x100_0000_01b3 % u64_mod) bs

unfoldable pub hash_page : (ℕ → ℕ → ℕ → Result ℕ) → ℕ → ℕ → ℕ → ℕ → Option (List ℕ) → Result ℕ
hash_page next page_size pos left hash none = err einval
hash_page next page_size pos left hash (some page) =
    let n = chunk page_size pos left in
    next (pos + n) (left - n) (fnv hash (take n (drop (pos % page_size) page)))

unfoldable pub hash_rounds : ℕ → List (List ℕ) → ℕ → ℕ → ℕ → ℕ → Result ℕ
unfolding hash_page
hash_rounds page_size pages zero pos left hash = ok hash
hash_rounds page_size pages (suc rounds) pos left hash =
    if left == 0
    then ok hash
    else hash_page (hash_rounds page_size pages rounds) page_size pos left hash
        (get_elem? pages (pos / page_size))

unfoldable pub checksum : ℕ → Sqe → RingCtx → Result ℕ
unfolding hash_rounds
checksum page_size sqe me = bind (check_range me.config sqe) λ _.
    bind (slot_offset me.config sqe) λ pos.
      bind (hash_rounds page_size me.arena.pages sqe.len pos sqe.len 0xcbf2_9ce4_8422_2325)
        λ hash. ok (bit_and hash (2 ^ 63 - 1))
