-- ===== src/Kernel/Setup/Limits.antt =====
-- What a configuration that `validate` accepts promises to the ring, the arena and the handles.
use koru.Prelude.{ℕ, ◌*◌, ◌%◌, ◌≤◌, ◌<◌, ◌≡◌, refl, arith}
use koru.Kernel.Abi.{
  KoruParams, ok, koru_max_sq_entries, koru_max_cq_entries, koru_max_slot_size, koru_max_slot_count,
  koru_max_arena_bytes, koru_max_handles,
}
use koru.Kernel.Setup.{RingConfig, validate, fill_caps, fill_config, default_params}

-- The limits that the rest of the module relies on.
pub record IsWithinLimits (page_size : ℕ) (cfg : RingConfig) : Type 0 where
  pub sq_positive : 0 < cfg.sq_entries
  pub sq_bounded : cfg.sq_entries ≤ koru_max_sq_entries
  pub cq_deep : cfg.sq_entries ≤ cfg.cq_entries
  pub cq_bounded : cfg.cq_entries ≤ koru_max_cq_entries
  pub slot_positive : 0 < cfg.slot_size
  pub slot_bounded : cfg.slot_size ≤ koru_max_slot_size
  pub slot_paged : cfg.slot_size % page_size ≡ 0
  pub count_positive : 0 < cfg.slot_count
  pub count_bounded : cfg.slot_count ≤ koru_max_slot_count
  pub arena_exact : cfg.arena_size ≡ cfg.slot_size * cfg.slot_count
  pub arena_bounded : cfg.arena_size ≤ koru_max_arena_bytes
  pub handles_positive : 0 < cfg.handle_count
  pub handles_bounded : cfg.handle_count ≤ koru_max_handles

-- A configuration that `validate` returns is within every limit: the queues, the slots in whole
-- pages, the arena exactly the slots, and the handles.
pub validate-IsWithinLimits :
    (page_size : ℕ) (req : KoruParams) (cfg : RingConfig)
    → validate page_size req ≡ ok cfg
    → IsWithinLimits page_size cfg
unfolding validate
validate-IsWithinLimits page_size req cfg h = ground arith

-- What SETUP reports back for a configuration.
abbrev pub report : RingConfig → KoruParams
report cfg = fill_config (fill_caps default_params) cfg

within-validates :
    (page_size : ℕ) (cfg : RingConfig)
    → IsWithinLimits page_size cfg
    → validate page_size (report cfg) ≡ ok cfg
unfolding validate fill_config fill_caps
within-validates page_size cfg w = ground (arith, w.arena_exact)

-- A report carries the very numbers of the configuration.
pub record Reports (p : KoruParams) (cfg : RingConfig) : Type 0 where
  pub sq_entries : p.sq_entries ≡ cfg.sq_entries
  pub cq_entries : p.cq_entries ≡ cfg.cq_entries
  pub slot_size : p.slot_size ≡ cfg.slot_size
  pub slot_count : p.slot_count ≡ cfg.slot_count
  pub arena_size : p.arena_size ≡ cfg.arena_size
  pub handle_count : p.handle_count ≡ cfg.handle_count

-- The report of an accepted request carries the numbers of the accepted configuration, none of which
-- is a 0 that stands for a default, and is itself acceptable for the same configuration.
pub validate-report :
    (page_size : ℕ) (req : KoruParams) (cfg : RingConfig)
    → validate page_size req ≡ ok cfg
    → Reports (report cfg) cfg
      × (0 < (report cfg).sq_entries)
      × (0 < (report cfg).cq_entries)
      × (0 < (report cfg).slot_size)
      × (0 < (report cfg).slot_count)
      × (0 < (report cfg).handle_count)
      × (validate page_size (report cfg) ≡ ok cfg)
unfolding fill_config fill_caps
validate-report page_size req cfg h =
    let w = validate-IsWithinLimits page_size req cfg h in
    (
      record {
        sq_entries = refl;
        cq_entries = refl;
        slot_size = refl;
        slot_count = refl;
        arena_size = refl;
        handle_count = refl;
      },
      w.sq_positive,
      omega (arith, w.sq_positive, w.cq_deep),
      w.slot_positive,
      w.count_positive,
      w.handles_positive,
      within-validates page_size cfg w,
    )
