-- ===== src/Kernel/Store.antt =====
-- Writes to the arena of kernel/koru_ops.rs: `write_slot`.
pub mod Write
use Prim.Native.Nat.{bit_and, bit_or}
use koru.Prelude.{
  ℕ, zero, suc, ◌+◌, ◌-◌, ◌/◌, ◌%◌, ◌^◌, Bool, true, false, not, ◌||◌, Option, none, some, List, [],
  ◌∷◌, ◌++◌, length, get_elem?, set, take, drop, min, ltb, ◌==◌, if◌then◌else◌,
}
use koru.Prelude.Runs.{overwrite}
use koru.Prelude.Partial.{minus, ◌>>=◌}
use koru.Prelude.Words.{u16_mod, complement}
use koru.Kernel.Abi.{
  Sqe, Res, value, failed, Result, ok, err, Errno, Opcode, opcode_of, einval, emfile, eloop,
  enametoolong, koru_mkdir_mode_all, koru_stat_size, koru_times_size, word_size,
}
use koru.Kernel.Setup.{RingConfig}
use koru.Kernel.Handles
use koru.Kernel.Handles.{HandleTable, bind}
use koru.Kernel.Host.{Host}
use koru.Kernel.Arena.{path_validate}
use koru.Kernel.Files.{open_flags, i64_max}
use koru.Kernel.Ctx.{RingCtx}
use koru.Kernel.Taken.{
  Step, after, holding, copy_path, take_path, take_path_pair, path_and_arg, take_path_and_mode,
  of_le_bytes, then_check,
}

-- One page of `write_slot` at a time; a round writes a byte at least, so as many as there are bytes
-- are enough.
unfoldable pub write_page :
    (List (List ℕ) → ℕ → List ℕ → Result (List (List ℕ)))
    → ℕ
    → List (List ℕ)
    → ℕ
    → List ℕ
    → Option (List ℕ)
    → Result (List (List ℕ))
write_page next page_size pages pos buf none = err einval
write_page next page_size pages pos buf (some page) =
    let n = min (length buf) (page_size - pos % page_size) in
    let pages' = set pages (pos / page_size) (overwrite page (pos % page_size) (take n buf)) in
    next pages' (pos + n) (drop n buf)

unfoldable pub write_rounds : ℕ → ℕ → List (List ℕ) → ℕ → List ℕ → Result (List (List ℕ))
unfolding write_page
write_rounds page_size zero pages pos buf = ok pages
write_rounds page_size (suc rounds) pages pos [] = ok pages
write_rounds page_size (suc rounds) pages pos (b ∷ bs) =
    write_page (write_rounds page_size rounds) page_size pages pos (b ∷ bs)
      (get_elem? pages (pos / page_size))

unfoldable pub write_slot : ℕ → List (List ℕ) → ℕ → List ℕ → Result (List (List ℕ))
unfolding write_rounds
write_slot page_size pages pos buf = write_rounds page_size (length buf) pages pos buf

abbrev pub with_pages : RingCtx → List (List ℕ) → RingCtx
with_pages me pages = record me { arena = record me.arena { pages = pages } }

-- The answer of an operation, once its bytes are in the arena.
abbrev pub written : {A : Type 0} → RingCtx → A → Result (List (List ℕ)) → Result A × RingCtx
written me a (ok pages) = (ok a, with_pages me pages)
written me a (err e) = (err e, me)

unfoldable pub stored : {A : Type 0} → ℕ → RingCtx → ℕ → List ℕ → A → Result A × RingCtx
unfolding write_slot
stored page_size me pos bytes a = written me a (write_slot page_size me.arena.pages pos bytes)
