-- ===== src/Kernel/Ring.antt =====
-- `RingState` of kernel/koru.rs: the completion queue, its reservations, and the slot bitmap.
-- `none` is a panic: an index out of range, a subtraction below zero, a remainder by zero.
pub mod Queue
pub mod Slots
use Prim.Native.Nat.{bit_and, bit_or}
use koru.Prelude.{
  ℕ, zero, suc, ◌+◌, ◌-◌, ◌/◌, ◌%◌, ◌^◌, Bool, true, false, Option, none, some, List, [], ◌∷◌,
  length, get_elem?, set, ltb, leb, ◌==◌, if◌then◌else◌,
}
use koru.Prelude.Words.{complement}
use koru.Kernel.Abi.{Cqe}
use koru.Prelude.Partial.{minus, ◌>>=◌}

pub record RingState : Type 0 where
  pub cq : List Cqe
  pub head : ℕ
  pub len : ℕ
  pub reserved : ℕ
  pub inflight : ℕ
  pub slot_busy : List ℕ

abbrev pub capacity : RingState → ℕ
capacity s = length s.cq

-- The write of a Vec element.
abbrev pub put {ℓ} : {A : Type ℓ} → List A → ℕ → A → Option (List A)
put xs i v = if ltb i (length xs) then some (set xs i v) else none

abbrev pub remainder : ℕ → ℕ → Option ℕ
remainder a b = if b == 0 then none else some (a % b)

-- `false`: full; nothing is claimed.
unfoldable pub reserve : RingState → Bool × RingState
reserve s =
    if leb (capacity s) (s.len + s.reserved)
    then (false, s)
    else (true, record s { reserved = s.reserved + 1 })

unfoldable pub unreserve : RingState → Option RingState
unreserve s = minus s.reserved 1 >>= λ r. some (record s { reserved = r })

unfoldable pub post : RingState → Cqe → Option RingState
post s cqe = remainder (s.head + s.len) (capacity s) >>= λ idx. put s.cq idx cqe >>= λ cq.
    minus s.reserved 1 >>= λ r. some (record s { cq = cq; len = s.len + 1; reserved = r })

unfoldable pub front : RingState → Option (Option Cqe)
front s = if ltb 0 s.len then (get_elem? s.cq s.head >>= λ cqe. some (some cqe)) else some none

unfoldable pub pop : RingState → Option RingState
pop s = remainder (s.head + 1) (capacity s) >>= λ h.
    minus s.len 1 >>= λ n. some (record s { head = h; len = n })

unfoldable pub quiescent : RingState → Bool
quiescent s = s.inflight == 0

unfoldable pub slot_try_acquire : RingState → ℕ → Option (Bool × RingState)
slot_try_acquire s slot = get_elem? s.slot_busy (slot / 64) >>= λ w.
    if bit_and w (2 ^ (slot % 64)) == 0
    then some
        (true, record s { slot_busy = set s.slot_busy (slot / 64) (bit_or w (2 ^ (slot % 64))) })
    else some (false, s)

unfoldable pub slot_release : RingState → ℕ → Option RingState
slot_release s slot = get_elem? s.slot_busy (slot / 64) >>= λ w. some (record s {
  slot_busy = set s.slot_busy (slot / 64) (bit_and w (complement 64 (2 ^ (slot % 64))));
})
