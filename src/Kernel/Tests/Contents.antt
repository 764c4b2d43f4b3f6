-- ===== src/Kernel/Tests/Contents.antt =====
-- Concrete inputs for the theorems on the bytes of the arena: two pages of four bytes, two slots.
use Prim.Native.Nat.{bit_and}
use koru.Prelude.{
  ℕ, ◌-◌, ◌^◌, ◌≡◌, refl, false, some, List, [], ◌∷◌, arith, length, take, drop, All,
}
use koru.Kernel.Abi.{Sqe, ok}
use koru.Kernel.Setup.{RingConfig}
use koru.Kernel.Setup.Limits.{IsWithinLimits}
use koru.Kernel.Handles.{bind}
use koru.Kernel.Arena.{check_range, slot_offset}
use koru.Kernel.Arena.Read.{bytes}
use koru.Kernel.Ctx.{RingCtx, opened}
use koru.Prelude.Runs.{overwrite}
use koru.Kernel.Store.{write_slot}
use koru.Kernel.Store.Write.{write_slot_lem}
use koru.Kernel.Checksum.{fnv, checksum}
use koru.Kernel.Checksum.Flat.{checksum_lem}

abbrev two_pages : List (List ℕ)
two_pages = (1 ∷ 2 ∷ 3 ∷ 4 ∷ []) ∷ (5 ∷ 6 ∷ 7 ∷ 8 ∷ []) ∷ []

abbrev across : List ℕ
across = 9 ∷ 10 ∷ 11 ∷ []

write_slot_lem_example :
    (pages' : List (List ℕ)) × (write_slot 4 two_pages 2 across ≡ ok pages')
    × (length pages' ≡ length two_pages)
    × (All (λ p. length p ≡ 4) pages')
    × (bytes pages' ≡ overwrite (bytes two_pages) 2 across)
write_slot_lem_example =
    write_slot_lem 4 two_pages 2 across (omega arith) (refl, (refl, tt)) (omega arith)

abbrev halved : RingConfig
halved = record {
  sq_entries = 1;
  cq_entries = 2;
  slot_size = 4;
  slot_count = 2;
  arena_size = 8;
  handle_count = 1;
}

halved-IsWithinLimits : IsWithinLimits 4 halved
halved-IsWithinLimits = record {
  sq_positive = omega arith;
  sq_bounded = omega arith;
  cq_deep = omega arith;
  cq_bounded = omega arith;
  slot_positive = omega arith;
  slot_bounded = omega arith;
  slot_paged = refl;
  count_positive = omega arith;
  count_bounded = omega arith;
  arena_exact = refl;
  arena_bounded = omega arith;
  handles_positive = omega arith;
  handles_bounded = omega arith;
}

abbrev filled : RingCtx
filled = record opened {
  config = some halved;
  arena = record { pages = two_pages; mapped = false };
}

-- Three bytes of the second slot.
abbrev second : Sqe
second = record {
  opcode = 6;
  flags = 0;
  rsvd0 = 0;
  len = 3;
  off = 1;
  user_data = 5;
  slot = 1;
  handle = 0;
}

checksum_lem_example :
    checksum 4 second filled
    ≡ bind (check_range (some halved) second) λ _. bind (slot_offset (some halved) second) λ pos.
      ok (bit_and (fnv 0xcbf2_9ce4_8422_2325 (take 3 (drop pos (bytes two_pages)))) (2 ^ 63 - 1))
checksum_lem_example =
    checksum_lem 4 halved second filled (omega arith) refl halved-IsWithinLimits (refl, (refl, tt))
      refl
