-- ===== src/Kernel/Tests/Rings.antt =====
-- Concrete inputs for the theorems on the ring and `reap`.
use koru.Prelude.{
  if◌then◌else◌, false, ℕ, ◌+◌, ◌≤◌, ◌≡◌, ◌⊎◌, inr, Bool, false, some, List, [], ◌∷◌, ◌++◌, arith,
  length, ◌==◌,
}
use koru.Kernel.Abi.{Cqe, value}
use koru.Kernel.Ring.{RingState, post, front, pop}
use koru.Kernel.Ring.Queue.{IsSound, queue, post_lem, pop_lem}
use koru.Kernel.Setup.{RingConfig}
use koru.Kernel.Submit.{reap, complete}
use koru.Kernel.Submit.Complete.{complete_lem}
use koru.Kernel.Ring.Slots.{owned}
use koru.Kernel.Submit.Reap.{reap_lem}

abbrev done : ℕ → Cqe
done n = record { user_data = n; res = value 0; flags = 0; rsvd0 = 0; extra = 0 }

-- Four places, one completion waiting in the last of them, two operations in flight, and one place
-- reserved for an SQE in hand. Slot 3 is owned.
abbrev busy_ring : RingState
busy_ring = record {
  cq = done 0 ∷ done 0 ∷ done 0 ∷ done 7 ∷ [];
  head = 3;
  len = 1;
  reserved = 3;
  inflight = 2;
  slot_busy = 8 ∷ [];
}

busy_ring-IsSound : IsSound busy_ring
busy_ring-IsSound = record {
  bounded = omega arith;
  placed = inr (omega arith);
  deferred = omega arith;
}

-- Only the first copy succeeds.
abbrev first_only : ℕ → Bool
first_only k = k == 0

-- The same without the SQE in hand.
abbrev idle_ring : RingState
idle_ring = record busy_ring { reserved = 2 }

idle_ring-IsSound : IsSound idle_ring
idle_ring-IsSound = record {
  bounded = omega arith;
  placed = inr (omega arith);
  deferred = omega arith;
}

post_lem_example :
    (t : RingState) × (post busy_ring (done 9) ≡ some t)
    × IsSound t
    × (queue t ≡ queue busy_ring ++ (done 9) ∷ [])
    × (t.reserved + 1 ≡ busy_ring.reserved)
    × (t.inflight ≡ busy_ring.inflight)
post_lem_example = post_lem busy_ring (done 9) busy_ring-IsSound (omega arith)

pop_lem_example :
    (t : RingState) × (c : Cqe) × (front busy_ring ≡ some (some c))
    × (pop busy_ring ≡ some t)
    × IsSound t
    × (queue busy_ring ≡ c ∷ queue t)
    × (t.reserved ≡ busy_ring.reserved)
    × (t.inflight ≡ busy_ring.inflight)
pop_lem_example = pop_lem busy_ring busy_ring-IsSound (omega arith)

reap_lem_example :
    (out : List Cqe) × (t : RingState) × (reap first_only busy_ring 2 ≡ some (out, t))
    × IsSound t
    × (queue busy_ring ≡ out ++ queue t)
    × (length out ≤ 2)
    × (t.reserved ≡ busy_ring.reserved)
    × (t.inflight ≡ busy_ring.inflight)
    × ((length out ≡ 2) ⊎ ((queue t ≡ []) ⊎ (first_only (0 + length out) ≡ false)))
reap_lem_example = reap_lem first_only busy_ring 2 busy_ring-IsSound

complete_lem_example :
    (t : RingState) × (complete busy_ring (done 9) (some 3) ≡ some t)
    × IsSound t
    × (queue t ≡ queue busy_ring ++ done 9 ∷ [])
    × (t.inflight + 1 ≡ busy_ring.inflight)
    × (t.reserved + 1 ≡ busy_ring.reserved)
    × (owned t 0 ≡ (if 0 == 3 then false else owned busy_ring 0))
complete_lem_example =
    complete_lem busy_ring (done 9) 3 0 busy_ring-IsSound (omega arith) (omega arith)

abbrev pub config : RingConfig
config = record {
  sq_entries = 4;
  cq_entries = 4;
  slot_size = 4096;
  slot_count = 8;
  arena_size = 32768;
  handle_count = 2;
}
