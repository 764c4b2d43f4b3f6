-- ===== src/Sys/Abi/Layout.antt =====
-- The halves of a handle, and where a path operation's argument goes.
use Prim.Native.Nat.{bit_and, bit_or}
use koru.Prelude.{ℕ, ◌*◌, ◌/◌, ◌%◌, ◌^◌, ◌<◌, ◌≡◌, arith}
use koru.Prelude.Words.{u16_mod, u32_mod, bit_or_fields, bit_and_mask}
use koru.Sys.Abi.{handle_index, handle_generation, make_handle}

-- A handle is its two halves: it unpacks to what it was made of, and every u32 is made of its
-- halves.
pub make_handle_lem :
    (index generation handle : ℕ)
    → index < u16_mod
    → generation < u16_mod
    → handle < u32_mod
    → (handle_index (make_handle index generation) ≡ index)
      × (handle_generation (make_handle index generation) ≡ generation)
      × (make_handle (handle_index handle) (handle_generation handle) ≡ handle)
unfolding handle_index handle_generation make_handle
make_handle_lem index generation handle h k l = (
  omega (
    arith,
    bit_and_mask 16 (bit_or index (generation * 2 ^ 16)),
    bit_or_fields 16 index generation h,
  ),
  omega (arith, bit_or_fields 16 index generation h),
  omega (
    arith,
    bit_and_mask 16 handle,
    bit_or_fields 16 (bit_and handle 0xffff) (handle / 2 ^ 16 % u16_mod)
        (omega (arith, bit_and_mask 16 handle)),
  ),
)
