-- ===== src/Kernel/Ring/Queue.antt =====
-- The circular completion queue refines a first-in first-out queue of bounded length.
use native.Mathlib.Nat.{div-add-mod, mod-eq_of_lt, mod-add-mod, mod-lt}
use koru.Prelude.{
  ℕ, zero, suc, ◌+◌, ◌-◌, ◌*◌, ◌/◌, ◌%◌, ◌≤◌, ◌<◌, ◌≡◌, ◌≢◌, refl, sym, ap, ◌∙◌, ◌⊎◌, inl, inr,
  Option, none, some, List, [], ◌∷◌, ◌++◌, arith, length, get_elem?, set, get_elem?-some,
  get_elem?-set_self, get_elem?-set_ne, length-set, ltb, if◌then◌else◌, ℕ-cases,
}
use koru.Kernel.Abi.{Cqe}
use koru.Kernel.Ring.{RingState, capacity, reserve, post, front, pop}

-- The element at an index, if there is one, before the others.
abbrev with_front : Option Cqe → List Cqe → List Cqe
with_front none l = l
with_front (some c) l = c ∷ l

-- The `n` entries from index `h` on, round the end.
window : List Cqe → ℕ → ℕ → List Cqe
window cq h zero = []
window cq h (suc n) = with_front (get_elem? cq (h % length cq)) (window cq (suc h) n)

-- The completions that wait, oldest first.
pub queue : RingState → List Cqe
queue s = window s.cq s.head s.len

pub queue_of : (s t : RingState) → s.cq ≡ t.cq → s.head ≡ t.head → s.len ≡ t.len → queue s ≡ queue t
unfolding queue
queue_of s t e f g = rw (e, f, g)

pub record IsSound (s : RingState) : Type 0 where
  pub bounded : s.len + s.reserved ≤ capacity s
  pub placed : (capacity s ≡ 0) ⊎ (s.head < capacity s)
  pub deferred : s.inflight ≤ s.reserved

-- Two places less than one round apart are different.
mod_apart : (x y m : ℕ) → x < y → y < x + m → x % m ≢ y % m
mod_apart x y m p q e =
    let shared : y - x ≡ (y / m - x / m) * m = grind (arith, div-add-mod x m, div-add-mod y m) in
    grind (arith, shared)

-- A write outside a window leaves it.
window-set :
    (cq : List Cqe) (i h n : ℕ) (c : Cqe)
    → h ≤ i
    → h + n ≤ i
    → i < h + length cq
    → window (set cq (i % length cq) c) h n ≡ window cq h n
unfolding window
window-set cq i h zero c a b d = refl
window-set cq i h (suc n) c a b d =
    let size = length-set cq (i % length cq) c in
    let rest = window-set cq i (suc h) n c (omega arith) (omega arith) (omega arith) in
    rw (
      size,
      get_elem?-set_ne cq (i % length cq) (h % length cq) c
          (λ e. mod_apart h i (length cq) (omega arith) d (sym e)),
      rest,
    )

with_front-append : (o : Option Cqe) (l r : List Cqe) → with_front o (l ++ r) ≡ with_front o l ++ r
with_front-append none l r = refl
with_front-append (some c) l r = refl

-- One more entry goes to the end of a window.
window-suc :
    (cq : List Cqe) (h n : ℕ)
    → window cq h (suc n) ≡ window cq h n ++ with_front (get_elem? cq ((h + n) % length cq)) []
unfolding window
window-suc cq h zero = ap (λ (t : ℕ). with_front (get_elem? cq (t % length cq)) []) (omega arith)
window-suc cq h (suc n) =
    ap (with_front (get_elem? cq (h % length cq))) (window-suc cq (suc h) n)
    ∙ with_front-append (get_elem? cq (h % length cq)) (window cq (suc h) n) _
    ∙ ap (λ (t : ℕ). window cq h (suc n) ++ with_front (get_elem? cq (t % length cq)) [])
        (omega arith)

suc-mod : (a b m : ℕ) → a % m ≡ b % m → suc a % m ≡ suc b % m
suc-mod a b m e = grind (arith, mod-add-mod a m 1, mod-add-mod b m 1)

-- A window depends on where it starts up to whole rounds only.
window-mod :
    (cq : List Cqe) (a b n : ℕ) → a % length cq ≡ b % length cq → window cq a n ≡ window cq b n
unfolding window
window-mod cq a b zero e = refl
window-mod cq a b (suc n) e = rw (e, window-mod cq (suc a) (suc b) n (suc-mod a b (length cq) e))

window-post :
    (cq : List Cqe) (h n : ℕ) (c : Cqe)
    → n < length cq
    → window (set cq ((h + n) % length cq) c) h (suc n) ≡ window cq h n ++ c ∷ []
window-post cq h n c room =
    let i = (h + n) % length cq in
    window-suc (set cq i c) h n
    ∙ rw (
      length-set cq i c,
      get_elem?-set_self cq i c (mod-lt (h + n) (omega arith)),
      window-set cq (h + n) h n c (omega arith) (omega arith) (omega arith),
    )

-- On a sound ring with more places reserved than operations in flight, a posted completion goes to
-- the end of the queue and uses up one reserved place; the ring stays sound and nothing in flight
-- changes.
pub post_lem :
    (s : RingState) (c : Cqe)
    → IsSound s
    → s.inflight < s.reserved
    → (t : RingState) × (post s c ≡ some t)
      × IsSound t
      × (queue t ≡ queue s ++ c ∷ [])
      × (t.reserved + 1 ≡ s.reserved)
      × (t.inflight ≡ s.inflight)
unfolding post queue
post_lem s c w h =
    let i = (s.head + s.len) % length s.cq in
    let room : i < length s.cq = omega (arith, w.bounded) in
    let there = get_elem?-set_self s.cq i c room in
    (
      record s { cq = set s.cq i c; len = s.len + 1; reserved = s.reserved - 1 },
      ground (arith, w.bounded),
      record {
        bounded = omega (arith, length-set s.cq i c, w.bounded);
        placed = inr (ground (arith, length-set s.cq i c, w.placed, w.bounded));
        deferred = omega arith;
      },
      ap (window (set s.cq i c) s.head) (omega arith)
          ∙ window-post s.cq s.head s.len c (omega (arith, w.bounded)),
      omega arith,
      refl,
    )

window-pop :
    (cq : List Cqe) (h n : ℕ) (c : Cqe)
    → h < length cq
    → get_elem? cq h ≡ some c
    → window cq h (suc n) ≡ c ∷ window cq ((h + 1) % length cq) n
unfolding window
window-pop cq h n c room there =
    rw (mod-eq_of_lt room, there)
      (ap (λ (l : List Cqe). c ∷ l)
        (window-mod cq (suc h) ((h + 1) % length cq) n (
          ap (λ (t : ℕ). t % length cq) {y = h + 1} (omega arith)
          ∙ sym (mod-eq_of_lt (mod-lt (h + 1) (omega arith))))))

-- On a sound ring that is not empty, the oldest completion is what `front` shows, and `pop` takes
-- it off; the ring stays sound, and what is reserved and in flight does not change.
pub pop_lem :
    (s : RingState)
    → IsSound s
    → 0 < s.len
    → (t : RingState) × (c : Cqe) × (front s ≡ some (some c))
      × (pop s ≡ some t)
      × IsSound t
      × (queue s ≡ c ∷ queue t)
      × (t.reserved ≡ s.reserved)
      × (t.inflight ≡ s.inflight)
unfolding front pop queue window
pop_lem s w h =
    let place : s.head < length s.cq = omega (arith, w.placed, w.bounded) in
    let (c, there) = get_elem?-some s.cq s.head place in
    (
      record s { head = (s.head + 1) % length s.cq; len = s.len - 1 },
      c,
      ground (arith, there),
      ground (arith, place),
      record {
        bounded = omega (arith, w.bounded);
        placed = inr (omega arith);
        deferred = w.deferred;
      },
      ap (window s.cq s.head) {y = suc (s.len - 1)} (omega arith)
          ∙ window-pop s.cq s.head (s.len - 1) c place there,
      refl,
      refl,
    )

-- An empty queue has no front.
pub front_empty : (s : RingState) → s.len ≡ 0 → (front s ≡ some none) × (queue s ≡ [])
unfolding front queue window
front_empty s h = (ground arith, rw h)

-- On a sound ring a place is reserved exactly while the waiting completions and the reserved places
-- do not fill the queue; the ring stays sound and the queue as it was.
pub reserve_lem :
    (s : RingState)
    → IsSound s
    → IsSound (reserve s).1
      × (queue (reserve s).1 ≡ queue s)
      × ((reserve s).0 ≡ ltb (s.len + s.reserved) (capacity s))
      × ((reserve s).1.reserved ≡ (if (reserve s).0 then s.reserved + 1 else s.reserved))
unfolding reserve queue
reserve_lem s w = ground arith

length-window : (cq : List Cqe) (h n : ℕ) → 0 < length cq → length (window cq h n) ≡ n
unfolding window
length-window cq h zero room = refl
length-window cq h (suc n) room =
    let (c, e) = get_elem?-some cq (h % length cq) (mod-lt h room) in
    rw e (ap suc (length-window cq (suc h) n room))

-- The queue is as long as the ring says.
pub length-queue : (s : RingState) → IsSound s → length (queue s) ≡ s.len
unfolding queue window
length-queue s w = elim (ℕ-cases s.len 0) [
  | inl empty ↦ rw empty
  | inr more ↦ length-window s.cq s.head s.len (omega (arith, w.bounded))
]
