-- ===== src/Kernel/Ctx/Configured.antt =====
-- What `SETUP` makes of a device.
use native.Mathlib.Nat.{div-mul_cancel, dvd-mul_right_of_dvd, dvd_of_mod-eq-zero}
use koru.Prelude.{
  length, All, List, ◌*◌, ◌%◌, ℕ, zero, suc, ◌+◌, ◌/◌, ◌<◌, ◌≡◌, refl, ◌⊎◌, inl, inr, Bool, true,
  false, none, some, [], arith, replicate, length-replicate, get_elem?, if◌then◌else◌,
}
use koru.Kernel.Abi.{KoruParams, Result, ok, err, Errno, efault}
use koru.Kernel.Ring.{capacity}
use koru.Kernel.Ring.Queue.{IsSound, queue, front_empty}
use koru.Kernel.Ring.Slots.{owned, InArena, owned_clear}
use koru.Kernel.Setup.{RingConfig, validate}
use koru.Kernel.Setup.Limits.{IsWithinLimits, report, validate-IsWithinLimits}
use koru.Kernel.Ctx.{RingCtx, setup, configured, default_cqe}

pub Result-cases {ℓ} :
    {A : Type ℓ} (r : Result A) → ((e : Errno) × (r ≡ err e)) ⊎ ((a : A) × (r ≡ ok a))
Result-cases (ok a) = inr (a, refl)
Result-cases (err e) = inl (e, refl)

pub get_elem?-replicate :
    {A : Type 0} (n i : ℕ) (a : A) → i < n → get_elem? (replicate n a) i ≡ some a
get_elem?-replicate zero i a h = absurd (omega arith)
get_elem?-replicate (suc n) zero a h = refl
get_elem?-replicate (suc n) (suc i) a h = get_elem?-replicate n i a (omega arith)

paged :
    (size count page_size : ℕ)
    → size % page_size ≡ 0
    → size * count / page_size * page_size ≡ size * count
paged size count page_size h =
    div-mul_cancel page_size (dvd-mul_right_of_dvd page_size (dvd_of_mod-eq-zero page_size h) count)

-- Pages of the one size.
All-replicate : {A : Type 0} (P : A → Type 0) (n : ℕ) (a : A) → P a → All P (replicate n a)
All-replicate P zero a h = tt
All-replicate P (suc n) a h = (h, All-replicate P n a h)

-- A valid first `SETUP` that gets its memory configures the device, within every limit: an empty,
-- sound queue of the accepted depth, a bitmap that covers every arena slot and has it free, and the
-- arena in whole pages of zeroes, unmapped, that are as large together as the slots. Nothing is pending.
-- The caller gets the report of the configuration, or a fault.
pub setup_lem :
    (page_size : ℕ) (writable : Bool) (me : RingCtx) (req : KoruParams) (cfg : RingConfig)
    (slot : ℕ)
    → me.config ≡ none
    → validate page_size req ≡ ok cfg
    → slot < cfg.slot_count
    → (t : RingCtx) × (setup page_size true writable me (ok req)
        ≡ (if writable then ok (report cfg) else err efault, t))
      × (t.config ≡ some cfg)
      × IsWithinLimits page_size cfg
      × IsSound t.state
      × (capacity t.state ≡ cfg.cq_entries)
      × (queue t.state ≡ [])
      × InArena t.state slot
      × (owned t.state slot ≡ false)
      × (t.arena.mapped ≡ false)
      × All (λ page. page ≡ replicate page_size 0) t.arena.pages
      × (length t.arena.pages * page_size ≡ cfg.slot_size * cfg.slot_count)
      × (t.pending ≡ [])
unfolding setup configured
setup_lem page_size writable me req cfg slot fresh good h =
    let there : slot / 64 < (cfg.slot_count + 63) / 64 = omega arith in
    let t = configured page_size me cfg in
    let w = validate-IsWithinLimits page_size req cfg good in
    (
      t,
      rw (good, fresh) refl,
      refl,
      w,
      record { bounded = omega arith; placed = grind arith; deferred = omega arith },
      length-replicate cfg.cq_entries default_cqe,
      (front_empty t.state refl).1,
      omega (arith, there, length-replicate {A = ℕ} ((cfg.slot_count + 63) / 64) 0),
      owned_clear t.state slot
          (get_elem?-replicate ((cfg.slot_count + 63) / 64) (slot / 64) 0 there),
      refl,
      All-replicate (λ page. page ≡ replicate page_size 0) (cfg.arena_size / page_size)
          (replicate {A = ℕ} page_size 0) refl,
      rw
          (
            length-replicate {A = List ℕ} (cfg.arena_size / page_size) (replicate page_size 0),
            w.arena_exact,
          )
          (paged cfg.slot_size cfg.slot_count page_size w.slot_paged),
      refl,
    )
