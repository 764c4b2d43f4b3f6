-- ===== src/Kernel/Setup.antt =====
-- `RingCtx::validate`, `fill_caps` and `fill_config` of kernel/koru.rs: what `SETUP` accepts and
-- what it reports. The page size is the kernel's.
pub mod Limits
use Prim.Native.Nat.{bit_and}
use koru.Prelude.{
  ℕ, ◌*◌, ◌%◌, ◌^◌, ◌-◌, Bool, true, false, not, ◌||◌, List, [], ◌∷◌, ltb, ◌==◌, if◌then◌else◌,
}
use koru.Prelude.Words.{u64_mod, complement}
use koru.Kernel.Abi.{
  KoruParams, Result, ok, err, eproto, einval, koru_magic, koru_abi_version, koru_setup_flags_all,
  koru_max_sq_entries, koru_max_cq_entries, koru_max_slot_size, koru_max_slot_count,
  koru_max_arena_bytes, koru_max_handles, koru_default_handles, koru_max_delay_ns,
}

pub record RingConfig : Type 0 where
  pub sq_entries : ℕ
  pub cq_entries : ℕ
  pub slot_size : ℕ
  pub slot_count : ℕ
  pub arena_size : ℕ
  pub handle_count : ℕ

abbrev pub any_nonzero : List ℕ → Bool
any_nonzero [] = false
any_nonzero (r ∷ rs) = not (r == 0) || any_nonzero rs

-- `flags & !all != 0` on a u32.
abbrev pub unknown_flags : ℕ → ℕ → Bool
unknown_flags flags all = not (bit_and flags (complement 32 all) == 0)

-- 0 stands for a default.
abbrev pub or_default : ℕ → ℕ → ℕ
or_default n d = if n == 0 then d else n

-- The last checks, with the size of the arena and the number of handles worked out.
checked : KoruParams → ℕ → ℕ → ℕ → Result RingConfig
checked req cq_entries arena_size handle_count =
    if ltb koru_max_arena_bytes arena_size
    then err einval
    else if ltb koru_max_handles handle_count
    then err einval
    else ok (record {
      sq_entries = req.sq_entries;
      cq_entries = cq_entries;
      slot_size = req.slot_size;
      slot_count = req.slot_count;
      arena_size = arena_size;
      handle_count = handle_count;
    })

unfoldable pub validate : ℕ → KoruParams → Result RingConfig
unfolding checked
validate page_size req =
    let cq_entries = or_default req.cq_entries req.sq_entries in
    if not (req.magic == koru_magic) || not (req.abi_version == koru_abi_version)
    then err eproto
    else if unknown_flags req.flags koru_setup_flags_all
    then err einval
    else if any_nonzero req.reserved
    then err einval
    else if req.sq_entries == 0 || ltb koru_max_sq_entries req.sq_entries
    then err einval
    else if ltb koru_max_cq_entries cq_entries
    then err einval
    else if ltb cq_entries req.sq_entries
    then err einval
    else if req.slot_size == 0 || ltb koru_max_slot_size req.slot_size
    then err einval
    else if not (req.slot_size % page_size == 0)
    then err einval
    else if req.slot_count == 0 || ltb koru_max_slot_count req.slot_count
    then err einval
    else if ltb (u64_mod - 1) (req.slot_size * req.slot_count)
    then err einval
    else checked req cq_entries (req.slot_size * req.slot_count)
        (or_default req.handle_count koru_default_handles)

unfoldable pub fill_caps : KoruParams → KoruParams
fill_caps p = record p {
  magic = koru_magic;
  abi_version = koru_abi_version;
  features = 0;
  max_sq_entries = koru_max_sq_entries;
  max_cq_entries = koru_max_cq_entries;
  max_slot_size = koru_max_slot_size;
  max_slot_count = koru_max_slot_count;
  max_arena_bytes = koru_max_arena_bytes;
  max_handles = koru_max_handles;
  max_delay_ns = koru_max_delay_ns;
}

unfoldable pub fill_config : KoruParams → RingConfig → KoruParams
fill_config p cfg = record p {
  sq_entries = cfg.sq_entries;
  cq_entries = cfg.cq_entries;
  slot_size = cfg.slot_size;
  slot_count = cfg.slot_count;
  arena_size = cfg.arena_size;
  handle_count = cfg.handle_count;
  configured = 1;
}

-- `KoruParams::default()`
abbrev pub default_params : KoruParams
default_params = record {
  magic = 0;
  abi_version = 0;
  flags = 0;
  sq_entries = 0;
  cq_entries = 0;
  slot_size = 0;
  slot_count = 0;
  configured = 0;
  features = 0;
  arena_size = 0;
  max_sq_entries = 0;
  max_cq_entries = 0;
  max_slot_size = 0;
  max_slot_count = 0;
  max_arena_bytes = 0;
  handle_count = 0;
  max_handles = 0;
  max_delay_ns = 0;
  reserved = 0 ∷ 0 ∷ [];
}
