-- ===== src/Kernel/Arena/Bounds.antt =====
-- A checked range lies in its own slot, and a slot in the arena.
use koru.Prelude.{ℕ, ◌+◌, ◌*◌, ◌<◌, ◌≤◌, ◌≡◌, some, arith}
use koru.Kernel.Abi.{Sqe, ok}
use koru.Kernel.Setup.{RingConfig}
use koru.Kernel.Setup.Limits.{IsWithinLimits}
use koru.Kernel.Arena.{check_range, slot_pos, slot_offset}

-- Slots of `size` bytes stand one after the other.
slot_end : (size slot count : ℕ) → slot < count → slot * size + size ≤ size * count
slot_end size slot count h = grind arith

checked :
    (cfg : RingConfig) (sqe : Sqe)
    → check_range (some cfg) sqe ≡ ok tt
    → (sqe.slot < cfg.slot_count) × (sqe.off + sqe.len ≤ cfg.slot_size)
unfolding check_range
checked cfg sqe h = ground (arith, h)

-- Under a configuration within the limits, a range that `check_range` accepts has its place in the
-- arena: `slot_offset` returns, the range starts and ends in the slot that it names, and the slot
-- ends in the arena.
pub check_range_lem :
    (page_size : ℕ) (cfg : RingConfig) (sqe : Sqe)
    → IsWithinLimits page_size cfg
    → check_range (some cfg) sqe ≡ ok tt
    → (pos : ℕ) × (slot_offset (some cfg) sqe ≡ ok pos)
      × (sqe.slot * cfg.slot_size ≤ pos)
      × (pos + sqe.len ≤ sqe.slot * cfg.slot_size + cfg.slot_size)
      × (sqe.slot * cfg.slot_size + cfg.slot_size ≤ cfg.arena_size)
unfolding slot_offset slot_pos
check_range_lem page_size cfg sqe w h =
    let (here, room) = checked cfg sqe h in
    let last = slot_end cfg.slot_size sqe.slot cfg.slot_count here in
    (
      sqe.slot * cfg.slot_size + sqe.off,
      ground (arith, last, room, w.arena_exact, w.arena_bounded),
      omega arith,
      omega (arith, room),
      omega (arith, last, w.arena_exact),
    )
