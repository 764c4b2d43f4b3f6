-- ===== src/Kernel/Taken.antt =====
-- The arguments that an operation takes out of its slot: `copy_path`, `take_path`, `copy_pair`,
-- `take_path_pair`, `path_and_arg` of kernel/koru_ops.rs, under a claim of the slot that lasts for
-- the copy. `none` is a panic.
use Prim.Native.Nat.{bit_and}
use koru.Prelude.{
  ℕ, suc, ◌+◌, ◌-◌, ◌*◌, Bool, true, false, not, ◌||◌, Option, none, some, List, [], ◌∷◌, ◌++◌,
  take, drop, leb, ◌==◌, if◌then◌else◌,
}
use koru.Prelude.Partial.{◌>>=◌}
use koru.Prelude.Words.{complement}
use koru.Kernel.Abi.{Sqe, Result, ok, err, einval, ebusy, enomem, koru_open_mode_all, word_size}
use koru.Kernel.Ring.{RingState, slot_try_acquire, slot_release}
use koru.Kernel.Handles.{bind}
use koru.Kernel.Host.{Host}
use koru.Kernel.Arena.{check_range, slot_offset, slot_pos, arg_offset, path_validate, read_slot}
use koru.Kernel.Files.{has_bit, koru_o_creat}
use koru.Kernel.Ctx.{RingCtx}

-- What an operation on the ring returns: a result, and the ring after it.
abbrev pub Step : Type 0 → Type 0
Step A = Option (Result A × RingCtx)

-- The slot is let go, whatever the work under the claim came to.
unfoldable pub released : {A : Type 0} → ℕ → Result A × RingCtx → Step A
released slot (r, me) = slot_release me.state slot >>= λ s. some (r, record me { state = s })

-- `none` under the claim is a panic, too.
unfoldable pub under_claim :
    {A : Type 0} → ℕ → (RingCtx → Result A × RingCtx) → RingCtx → Bool × RingState → Step A
unfolding released
under_claim slot work me (false, s) = some (err ebusy, record me { state = s })
under_claim slot work me (true, s) = released slot (work (record me { state = s }))

-- A claim of the slot for as long as `work` takes.
unfoldable pub holding : {A : Type 0} → ℕ → (RingCtx → Result A × RingCtx) → RingCtx → Step A
unfolding under_claim
holding slot work me = slot_try_acquire me.state slot >>= λ r. under_claim slot work me r

-- Work that only reads.
abbrev pub reading : {A : Type 0} → (RingCtx → Result A) → RingCtx → Result A × RingCtx
reading f me = (f me, me)

-- The check that comes before the claim.
abbrev pub after : {A B : Type 0} → Result A → (A → RingCtx → Step B) → RingCtx → Step B
after (ok a) f me = f a me
after (err e) f me = some (err e, me)

abbrev pub reserving : {A : Type 0} → Host → ℕ → Result A → Result A
reserving host n r = if host.memory n then r else err enomem

unfoldable pub has_nul : List ℕ → Bool
has_nul [] = false
has_nul (b ∷ bs) = b == 0 || has_nul bs

-- `CStr::from_bytes_with_nul`: the NUL at the end is the only one.
unfoldable pub terminated : List ℕ → Result (List ℕ)
unfolding has_nul
terminated bytes = if has_nul bytes then err einval else ok (bytes ++ 0 ∷ [])

unfoldable pub copy_path : Host → ℕ → ℕ → RingCtx → Result (List ℕ)
unfolding terminated
copy_path host pos len me =
    reserving host (len + 1) (bind (read_slot host.page_size me.arena.pages pos len) terminated)

unfoldable pub take_path : Host → Sqe → RingCtx → Step (List ℕ)
take_path host sqe me =
    after (path_validate host.path_max me.config sqe)
      (λ pos. holding sqe.slot (reading (copy_path host pos sqe.len))) me

-- Where the one NUL stands.
unfoldable pub the_nul : List ℕ → ℕ → Option ℕ → Result ℕ
the_nul [] i none = err einval
the_nul [] i (some at) = ok at
the_nul (b ∷ bs) i none = the_nul bs (suc i) (if b == 0 then some i else none)
the_nul (b ∷ bs) i (some at) = if b == 0 then err einval else the_nul bs (suc i) (some at)

-- The two halves, each in an allocation of its own.
unfoldable pub split_pair : Host → List ℕ → ℕ → Result (List ℕ × List ℕ)
unfolding the_nul
split_pair host raw len = bind (the_nul raw 0 none) λ at.
    if at == 0 || at + 1 == len
    then err einval
    else reserving host (at + 1)
        (reserving host (len - at) (ok (take (at + 1) raw, drop (at + 1) raw ++ 0 ∷ [])))

unfoldable pub copy_pair : Host → ℕ → ℕ → RingCtx → Result (List ℕ × List ℕ)
unfolding split_pair
copy_pair host pos len me =
    reserving host len
      (bind (read_slot host.page_size me.arena.pages pos len) λ raw. split_pair host raw len)

-- The checks of `take_path_pair`.
unfoldable pub pair_validate : Host → Sqe → RingCtx → Result ℕ
pair_validate host sqe me =
    if not (sqe.handle == 0)
    then err einval
    else bind (check_range me.config sqe) λ _.
      if sqe.len == 0 || leb (2 * host.path_max) sqe.len
      then err einval
      else slot_offset me.config sqe

unfoldable pub take_path_pair : Host → Sqe → RingCtx → Step (List ℕ × List ℕ)
unfolding pair_validate
take_path_pair host sqe me =
    after (pair_validate host sqe me)
      (λ pos. holding sqe.slot (reading (copy_pair host pos sqe.len))) me

-- The places of a path and of the argument of `size` bytes after it.
unfoldable pub arg_validate : Host → Sqe → ℕ → RingCtx → Result (ℕ × ℕ)
arg_validate host sqe size me = bind (path_validate host.path_max me.config sqe) λ pos.
    bind (arg_offset me.config sqe size)
      λ at. bind (slot_pos me.config sqe.slot at) λ apos. ok (pos, apos)

-- The argument's vector grows as it is read.
unfoldable pub both : Host → Sqe → ℕ → ℕ × ℕ → RingCtx → Result (List ℕ × List ℕ)
both host sqe size (pos, apos) me = bind (copy_path host pos sqe.len me) λ path.
    bind (read_slot host.page_size me.arena.pages apos size)
      λ arg. reserving host size (ok (path, arg))

unfoldable pub path_and_arg_raw : Host → Sqe → ℕ → RingCtx → Step (List ℕ × List ℕ)
unfolding arg_validate both
path_and_arg_raw host sqe size me =
    after (arg_validate host sqe size me)
      (λ places. holding sqe.slot (reading (both host sqe size places))) me

unfoldable pub path_and_arg : Host → Sqe → ℕ → RingCtx → Step (List ℕ × List ℕ)
path_and_arg host sqe size me =
    if not (sqe.handle == 0) then some (err einval, me) else path_and_arg_raw host sqe size me

-- The number of little-endian bytes.
unfoldable pub of_le_bytes : List ℕ → ℕ
of_le_bytes [] = 0
of_le_bytes (b ∷ bs) = b + 256 * of_le_bytes bs

-- The path and the mode of an OPEN that creates.
unfoldable pub with_mode : List ℕ × List ℕ → Result (List ℕ × ℕ)
unfolding of_le_bytes
with_mode (path, arg) =
    if bit_and (of_le_bytes arg) (complement 64 koru_open_mode_all) == 0
    then ok (path, of_le_bytes arg)
    else err einval

-- What a step goes on to do, without touching the ring.
unfoldable pub then_check : {A B : Type 0} → (A → Result B) → Result A × RingCtx → Step B
then_check f (r, me) = some (bind r f, me)

unfoldable pub take_path_and_mode : Host → Sqe → RingCtx → Step (List ℕ × ℕ)
unfolding with_mode then_check
take_path_and_mode host sqe me =
    if has_bit sqe.handle koru_o_creat
    then (path_and_arg_raw host sqe word_size me >>= λ r. then_check with_mode r)
    else (take_path host sqe me >>= λ r. then_check (λ path. ok (path, 0)) r)
