-- ===== src/Kernel/Arena.antt =====
-- Where an operation's buffer and its path lie in the arena: `check_range`, `slot_pos`,
-- `arg_offset`, `path_validate`, `read_slot` and `split_path` of kernel/koru_ops.rs. A page is the
-- list of its bytes; the page size and the longest path are the kernel's. A `usize` has 64 bits.
pub mod Bounds
pub mod Read
use Prim.Native.Nat.{bit_and}
use koru.Prelude.{
  ℕ, zero, suc, ◌+◌, ◌-◌, ◌*◌, ◌/◌, ◌%◌, ◌^◌, Bool, true, false, not, ◌||◌, Option, none, some,
  List, [], ◌∷◌, ◌++◌, length, get_elem?, take, drop, min, ltb, leb, ◌==◌, if◌then◌else◌,
}
use koru.Prelude.Words.{u64_mod, complement}
use koru.Kernel.Abi.{Sqe, Result, ok, err, einval}
use koru.Kernel.Setup.{RingConfig}
use koru.Kernel.Handles.{bind}

-- `checked_add`, `checked_mul` on a u64, with `ok_or(EINVAL)`.
abbrev pub fits : ℕ → Result ℕ
fits n = if ltb n u64_mod then ok n else err einval

unfoldable pub check_range : Option RingConfig → Sqe → Result {0} Unit
check_range none sqe = err einval
check_range (some cfg) sqe =
    if leb cfg.slot_count sqe.slot
    then err einval
    else bind (fits (sqe.len + sqe.off))
        λ end_. if ltb cfg.slot_size end_ then err einval else ok tt

unfoldable pub slot_pos : Option RingConfig → ℕ → ℕ → Result ℕ
slot_pos none slot off = err einval
slot_pos (some cfg) slot off = bind (fits (slot * cfg.slot_size)) λ base. fits (base + off)

unfoldable pub slot_offset : Option RingConfig → Sqe → Result ℕ
unfolding slot_pos
slot_offset config sqe = slot_pos config sqe.slot sqe.off

-- `(end + 7) & !7`
unfoldable pub aligned : ℕ → ℕ
aligned n = bit_and n (complement 64 7)

unfoldable pub arg_offset : Option RingConfig → Sqe → ℕ → Result ℕ
unfolding aligned
arg_offset none sqe size = err einval
arg_offset (some cfg) sqe size = bind (fits (sqe.off + sqe.len)) λ end_.
    bind (fits (end_ + 7)) λ up.
      bind (fits (aligned up + size))
        λ last. if ltb cfg.slot_size last then err einval else ok (aligned up)

unfoldable pub path_validate : ℕ → Option RingConfig → Sqe → Result ℕ
unfolding check_range slot_offset
path_validate path_max config sqe =
    bind (check_range config sqe)
      λ _. if sqe.len == 0 || leb path_max sqe.len then err einval else slot_offset config sqe

-- The bytes that one round copies, from the page that holds `pos`.
abbrev pub chunk : ℕ → ℕ → ℕ → ℕ
chunk page_size pos left = min (min left (page_size - pos % page_size)) 256

read_page : (ℕ → ℕ → Result (List ℕ)) → ℕ → ℕ → ℕ → Option (List ℕ) → Result (List ℕ)
read_page next page_size pos left none = err einval
read_page next page_size pos left (some page) =
    let n = chunk page_size pos left in
    bind (next (pos + n) (left - n)) λ rest. ok (take n (drop (pos % page_size) page) ++ rest)

-- At most `rounds` rounds; a round copies a byte at least, so as many as there are bytes are
-- enough.
unfoldable pub read_rounds : ℕ → List (List ℕ) → ℕ → ℕ → ℕ → Result (List ℕ)
unfolding read_page
read_rounds page_size pages zero pos left = ok []
read_rounds page_size pages (suc rounds) pos left =
    if left == 0
    then ok []
    else read_page (read_rounds page_size pages rounds) page_size pos left
        (get_elem? pages (pos / page_size))

unfoldable pub read_slot : ℕ → List (List ℕ) → ℕ → ℕ → Result (List ℕ)
unfolding read_rounds
read_slot page_size pages pos len = read_rounds page_size pages len pos len
