-- ===== src/Kernel/Ops/Completed.antt =====
-- `complete` as it changes the ring: one slot less, one operation less, one completion more.
use koru.Prelude.{
  ℕ, ◌+◌, ◌-◌, ◌≤◌, ◌<◌, ◌≡◌, refl, ap, ◌∙◌, inl, inr, Bool, true, false, Option, none, some, [],
  ◌∷◌, ◌++◌, arith, length, ◌==◌, ==_refl, ==_ne, ℕ-cases,
}
use koru.Kernel.Abi.{Cqe}
use koru.Prelude.Partial.{minus}
use koru.Kernel.Ring.{RingState, capacity, post}
use koru.Kernel.Ring.Slots.{owned, owned-InArena, owned_of_busy, release_of}
use koru.Kernel.Ring.Queue.{IsSound, queue, queue_of, post_lem}
use koru.Kernel.Submit.{complete, give_back}
use koru.Kernel.Submit.Complete.{release_keeps}
use koru.Kernel.Handles.{HandleTable}
use koru.Kernel.Handles.Laws.{index}
use koru.Kernel.Defer.{given_back}
use koru.Kernel.Ops.Shifts.{one_if, claimed, claimed-unclaim}
use koru.Kernel.Ops.Accounts.{at_slot, at_handle}

-- The ring after a completion `c` that gives `free` back.
pub record Completed (s t : RingState) (c : Cqe) (free : Option ℕ) : Type 0 where
  pub posted : queue t ≡ queue s ++ c ∷ []
  pub sound : IsSound t
  pub inflight : t.inflight + 1 ≡ s.inflight
  pub reserved : t.reserved + 1 ≡ s.reserved
  pub len : t.len ≡ s.len + 1
  pub words : length t.slot_busy ≡ length s.slot_busy
  pub slots : (x : ℕ) → one_if (owned t x) + at_slot free x ≡ one_if (owned s x)

pub post_keeps :
    (s t : RingState) (c : Cqe)
    → post s c ≡ some t
    → (t.slot_busy ≡ s.slot_busy) × (t.len ≡ s.len + 1)
unfolding post
post_keeps s t c h = ground (arith, h)

-- What a give-back leaves alone, and what it frees.
record GivenBack (s u : RingState) (free : Option ℕ) : Type 0 where
  cq : u.cq ≡ s.cq
  head : u.head ≡ s.head
  len : u.len ≡ s.len
  reserved : u.reserved ≡ s.reserved
  inflight : u.inflight ≡ s.inflight
  words : length u.slot_busy ≡ length s.slot_busy
  slots : (x : ℕ) → one_if (owned u x) + at_slot free x ≡ one_if (owned s x)

one_if-true : (b : Bool) → 1 ≤ one_if b → b ≡ true
one_if-true true h = refl
one_if-true false h = absurd (omega arith)

give_back_lem :
    (s : RingState) (free : Option ℕ)
    → ((x : ℕ) → at_slot free x ≤ one_if (owned s x))
    → (u : RingState) × (give_back s free ≡ some u) × GivenBack s u free
unfolding give_back
give_back_lem s none h = (
  s,
  refl,
  record {
    cq = refl;
    head = refl;
    len = refl;
    reserved = refl;
    inflight = refl;
    words = refl;
    slots = λ x. omega arith;
  },
)
give_back_lem s (some slot) h =
    let mine : owned s slot ≡ true =
      one_if-true (owned s slot) (omega (arith, h slot, ap one_if (==_refl slot))) in
    let (u, run, free, others, words) = release_of s slot (owned-InArena s slot mine) in
    let (cq, head, len, reserved, inflight) = release_keeps s u slot run in
    (
      u,
      run,
      record {
        cq = cq;
        head = head;
        len = len;
        reserved = reserved;
        inflight = inflight;
        words = words;
        slots = λ x. elim (ℕ-cases x slot) [
          | inl same ↦ rw (same, free, mine, ==_refl slot) (omega arith)
          | inr ne ↦ rw (others x ne, ==_ne x slot ne) (omega arith)
        ];
      },
    )

-- A completion of an operation in flight, which owns what it gives back, returns.
pub complete_all :
    (s : RingState) (c : Cqe) (free : Option ℕ)
    → IsSound s
    → 0 < s.inflight
    → ((x : ℕ) → at_slot free x ≤ one_if (owned s x))
    → (t : RingState) × (complete s c free ≡ some t) × Completed s t c free
unfolding complete
complete_all s c free w busy h =
    let s' : RingState = record s { inflight = s.inflight - 1 } in
    let same : (x : ℕ) → owned s' x ≡ owned s x = λ x. owned_of_busy s' s x refl in
    let (u, freed, g) = give_back_lem s' free (λ x. omega (arith, h x, ap one_if (same x))) in
    let cap : capacity u ≡ capacity s = ap length g.cq in
    let (t, put, sound, put_last, res, fly) =
      post_lem u c
        (record {
          bounded = omega (arith, g.len, g.reserved, cap, w.bounded);
          placed = elim w.placed [
            | inl empty ↦ inl (cap ∙ empty)
            | inr within ↦ inr (omega (arith, g.head, cap, within))
          ];
          deferred = omega (arith, g.inflight, g.reserved, w.deferred);
        })
        (omega (arith, g.inflight, g.reserved, w.deferred)) in
    let (kept, more) = post_keeps u t c put in
    let one_less : minus s.inflight 1 ≡ some (s.inflight - 1) = ground arith in
    (
      t,
      rw (one_less, freed) put,
      record {
        posted = put_last ∙ rw (queue_of u s g.cq g.head g.len) refl;
        sound = sound;
        inflight = omega (arith, fly, g.inflight);
        reserved = omega (arith, res, g.reserved);
        len = more ∙ ap (λ (n : ℕ). n + 1) g.len;
        words = ap length kept ∙ g.words;
        slots =
            λ x. omega (arith, ap one_if (owned_of_busy t u x kept), g.slots x, ap one_if (same x));
      },
    )

-- The claim of a handle, given back where there was one.
pub given_back_lem :
    (t : HandleTable) (handle : Option ℕ) (i : ℕ)
    → at_handle handle i ≤ one_if (claimed t i)
    → one_if (claimed (given_back handle t) i) + at_handle handle i ≡ one_if (claimed t i)
given_back_lem t none i h = omega arith
given_back_lem t (some handle) i h = elim (ℕ-cases i (index handle)) [
  | inl same ↦
      let mine : claimed t i ≡ true = one_if-true (claimed t i) (
        omega (
          arith,
          h,
          ap one_if (ap (λ (j : ℕ). j == index handle) same),
          ap one_if (==_refl (index handle)),
        )) in
      rw (claimed-unclaim t handle i, mine, same, ==_refl (index handle)) (omega arith)
  | inr ne ↦ rw (claimed-unclaim t handle i, ==_ne i (index handle) ne) (omega arith)
]
