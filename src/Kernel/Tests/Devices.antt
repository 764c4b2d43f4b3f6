-- ===== src/Kernel/Tests/Devices.antt =====
-- Concrete inputs for the theorems on `validate` and `setup`.
use koru.Prelude.{
  ◌<◌, ◌*◌, length, replicate, All, ◌≡◌, refl, true, false, some, [], arith, if◌then◌else◌,
}
use koru.Kernel.Abi.{KoruParams, ok, err, efault, koru_magic, koru_abi_version}
use koru.Kernel.Ring.{capacity}
use koru.Kernel.Ring.Queue.{IsSound, queue}
use koru.Kernel.Ring.Slots.{owned, InArena}
use koru.Kernel.Setup.{validate, default_params}
use koru.Kernel.Setup.Limits.{
  IsWithinLimits, Reports, report, validate-IsWithinLimits, validate-report,
}
use koru.Kernel.Ctx.{RingCtx, opened, setup}
use koru.Kernel.Ctx.Configured.{setup_lem}
use koru.Kernel.Tests.Rings.{config}

abbrev pub params : KoruParams
params = record default_params {
  magic = koru_magic;
  abi_version = koru_abi_version;
  sq_entries = 4;
  slot_size = 4096;
  slot_count = 8;
  handle_count = 2;
}

pub params-validate : validate 4096 params ≡ ok config
unfolding validate
params-validate = refl

validate-IsWithinLimits_example : IsWithinLimits 4096 config
validate-IsWithinLimits_example = validate-IsWithinLimits 4096 params config params-validate

validate-report_example :
    Reports (report config) config
    × (0 < (report config).sq_entries)
    × (0 < (report config).cq_entries)
    × (0 < (report config).slot_size)
    × (0 < (report config).slot_count)
    × (0 < (report config).handle_count)
    × (validate 4096 (report config) ≡ ok config)
validate-report_example = validate-report 4096 params config params-validate

setup_lem_example :
    (t : RingCtx) × (setup 4096 true true opened (ok params)
      ≡ (if true then ok (report config) else err efault, t))
    × (t.config ≡ some config)
    × IsWithinLimits 4096 config
    × IsSound t.state
    × (capacity t.state ≡ config.cq_entries)
    × (queue t.state ≡ [])
    × InArena t.state 7
    × (owned t.state 7 ≡ false)
    × (t.arena.mapped ≡ false)
    × All (λ page. page ≡ replicate 4096 0) t.arena.pages
    × (length t.arena.pages * 4096 ≡ config.slot_size * config.slot_count)
    × (t.pending ≡ [])
unfolding opened
setup_lem_example = setup_lem 4096 true opened params config 7 refl params-validate (omega arith)
