-- ===== src/Kernel/Tests/Memory.antt =====
-- Concrete inputs for the theorems on the arena, poll masks and paths.
use koru.Prelude.{
  ◌⊎◌, inl, inr, length, if◌then◌else◌, ℕ, ◌+◌, ◌*◌, ◌≤◌, ◌≡◌, ◌≢◌, refl, Bool, true, some, List,
  [], ◌∷◌, ◌++◌, arith, take, drop, All,
}
use koru.Kernel.Abi.{Sqe, ok, err, einval, enomem}
use koru.Kernel.Setup.Limits.{validate-IsWithinLimits}
use koru.Kernel.Arena.{check_range, slot_offset, read_slot}
use koru.Kernel.Arena.Bounds.{check_range_lem}
use koru.Kernel.Arena.Read.{bytes, read_slot_lem}
use koru.Kernel.Poll.{
  poll_to_koru, poll_to_kernel, koru_poll_err, koru_poll_hup, poll_to_koru-poll_to_kernel,
}
use koru.Kernel.Path.Joined.{split_path-Joins}
use koru.Kernel.Path.{
  split_path, last_slash, halves, checked, without_nul, Joins, Dots, Named, slash, split_path_lem,
}
use Prim.Native.Nat.{bit_or}
use koru.Kernel.Tests.Rings.{config}
use koru.Kernel.Tests.Devices.{params, params-validate}

-- The second half of slot 2.
abbrev upper : Sqe
upper = record {
  opcode = 6;
  flags = 0;
  rsvd0 = 0;
  len = 2048;
  off = 2048;
  user_data = 1;
  slot = 2;
  handle = 0;
}

upper-check_range : check_range (some config) upper ≡ ok tt
unfolding check_range
upper-check_range = refl

check_range_lem_example :
    (pos : ℕ) × (slot_offset (some config) upper ≡ ok pos)
    × (upper.slot * config.slot_size ≤ pos)
    × (pos + upper.len ≤ upper.slot * config.slot_size + config.slot_size)
    × (upper.slot * config.slot_size + config.slot_size ≤ config.arena_size)
check_range_lem_example =
    check_range_lem 4096 config upper (validate-IsWithinLimits 4096 params config params-validate)
      upper-check_range

abbrev pages : List (List ℕ)
pages = (1 ∷ 2 ∷ 3 ∷ 4 ∷ []) ∷ (5 ∷ 6 ∷ 7 ∷ 8 ∷ []) ∷ []

read_slot_lem_example : read_slot 4 pages 2 5 ≡ ok (take 5 (drop 2 (bytes pages)))
read_slot_lem_example = read_slot_lem 4 pages 2 5 (omega arith) (refl, (refl, tt)) (omega arith)

poll_to_koru-poll_to_kernel_example :
    poll_to_koru (poll_to_kernel 5) ≡ bit_or 5 (bit_or koru_poll_err koru_poll_hup)
poll_to_koru-poll_to_kernel_example = poll_to_koru-poll_to_kernel 5 (omega arith)

-- `a/b`
abbrev path : List ℕ
path = 97 ∷ 47 ∷ 98 ∷ []

abbrev plenty : ℕ → Bool
plenty n = true

path-split_path : split_path plenty (path ++ 0 ∷ []) ≡ ok (97 ∷ 0 ∷ [], 98 ∷ [])
unfolding split_path last_slash halves checked without_nul
path-split_path = refl

-- `..` names no last component.
dots-split_path : split_path plenty (46 ∷ 46 ∷ 0 ∷ []) ≡ err einval
unfolding split_path last_slash halves checked without_nul
dots-split_path = refl

-- Nor does a path that ends in a slash.
trailing-split_path : split_path plenty (97 ∷ 47 ∷ 0 ∷ []) ≡ err einval
unfolding split_path last_slash halves checked without_nul
trailing-split_path = refl

abbrev path_parent : List ℕ
path_parent = 97 ∷ 0 ∷ []

abbrev path_last : List ℕ
path_last = 98 ∷ []

split_path_lem_example :
    (dir : List ℕ) × (path_parent ≡ dir ++ 0 ∷ [])
    × Joins path dir path_last
    × All (λ b. b ≢ slash) path_last
    × Named path_last
split_path_lem_example = split_path_lem plenty path path_parent path_last path-split_path

abbrev dots : List ℕ
dots = 47 ∷ 46 ∷ 46 ∷ []

-- `/..`
split_path-Joins_example :
    (Dots (46 ∷ 46 ∷ []) × (split_path plenty (dots ++ 0 ∷ []) ≡ err einval))
    ⊎ (Named (46 ∷ 46 ∷ [])
        × (split_path plenty (dots ++ 0 ∷ []) ≡ (
            if plenty (length (slash ∷ []) + 1)
            then ok ((slash ∷ []) ++ 0 ∷ [], 46 ∷ 46 ∷ [])
            else err enomem)))
split_path-Joins_example =
    split_path-Joins plenty dots (slash ∷ []) (46 ∷ 46 ∷ []) (inr (inl (refl, refl)))
      ((λ e. omega (arith, e)), ((λ e. omega (arith, e)), tt))
