-- ===== src/Kernel/Ops/Leaks.antt =====
-- From `SETUP` on, no claim of a slot or of a handle outlives the operation that took it.
use koru.Prelude.{
  ℕ, zero, suc, ◌+◌, ◌*◌, ◌/◌, ◌≤◌, ◌<◌, ◌≡◌, refl, sym, ap, ◌∙◌, inl, inr, Bool, true, false, none,
  List, [], ◌∷◌, arith, length, length-replicate, get_elem?, replicate, Bool-cases, subst,
}
use koru.Prelude.Partial.{some_inj}
use koru.Kernel.Ring.Slots.{owned, owned_clear, owned-InArena}
use koru.Kernel.Ring.Queue.{IsSound}
use koru.Kernel.Setup.{RingConfig}
use koru.Kernel.Handles
use koru.Kernel.Handles.{HandleEntry}
use koru.Kernel.Ctx.{RingCtx, OpWork, configured}
use koru.Kernel.Ctx.Configured.{get_elem?-replicate}
use koru.Kernel.Ops.Shifts.{one_if, claimed, entry_busy}
use koru.Kernel.Ops.Accounts.{holders, claimants}
use koru.Kernel.Ops.History.{Reach, IsSettled, Reach-IsSettled}

one_if_zero : (b : Bool) → 0 ≡ one_if b → b ≡ false
one_if_zero true h = absurd (omega arith)
one_if_zero false h = refl

-- A table of fresh entries has no claim.
fresh_idle :
    (n i : ℕ) (e : HandleEntry) → e.busy ≡ false → entry_busy (get_elem? (replicate n e) i) ≡ false
fresh_idle zero i e h = refl
fresh_idle (suc n) zero e h = h
fresh_idle (suc n) (suc i) e h = fresh_idle n i e h

module _ (page_size : ℕ) (me : RingCtx) (cfg : RingConfig) where
  words_zero :
      (x : ℕ)
      → x / 64 < (cfg.slot_count + 63) / 64
      → owned (configured page_size me cfg).state x ≡ false
  unfolding configured
  words_zero x h =
      owned_clear (configured page_size me cfg).state x
        (get_elem?-replicate ((cfg.slot_count + 63) / 64) (x / 64) 0 h)

  start_free : (x : ℕ) → owned (configured page_size me cfg).state x ≡ false
  unfolding configured
  start_free x = elim (Bool-cases (owned (configured page_size me cfg).state x)) [
    | inl held ↦
        let there = owned-InArena (configured page_size me cfg).state x held in
        words_zero x (omega (arith, there, length-replicate {A = ℕ} ((cfg.slot_count + 63) / 64) 0))
    | inr free ↦ free
  ]

  pub configured-IsSettled : IsSettled (configured page_size me cfg)
  unfolding configured Handles.alloc
  configured-IsSettled = record {
    accounts = record {
      registered = refl;
      slots = λ x. sym (ap one_if (start_free x));
      handles = λ i. sym (
          ap one_if (
            fresh_idle cfg.handle_count i (record { file = none; generation = 1; busy = false })
              refl));
      apart = tt;
      covers = λ c e.
          let same : cfg ≡ c = some_inj e in
          subst
            (λ (c' : RingConfig).
              c'.slot_count ≤ 64 * length (replicate {A = ℕ} ((cfg.slot_count + 63) / 64) 0))
            same (omega (arith, length-replicate {A = ℕ} ((cfg.slot_count + 63) / 64) 0));
    };
    sound = record { bounded = omega arith; placed = grind arith; deferred = omega arith };
    even = refl;
  }

empty_of : (ops : List OpWork) → length ops ≡ 0 → ops ≡ []
empty_of [] h = refl
empty_of (op ∷ ops) h = absurd (omega arith)

-- From a configured device on, whatever is submitted, whatever the kernel answers, and in whatever
-- order workers run, completions are reaped and the process writes its arena: every operation in
-- flight is registered and has the one place that is reserved, and each slot and each handle's entry
-- is claimed exactly while one registered operation holds it, and never by two.
pub reach_lem :
    (page_size : ℕ) (me t : RingCtx) (cfg : RingConfig) (x k : ℕ)
    → Reach (configured page_size me cfg) t
    → IsSound t.state
      × (t.state.reserved ≡ t.state.inflight)
      × (length t.pending ≡ t.state.inflight)
      × (holders t.pending x ≡ one_if (owned t.state x))
      × (claimants t.pending k ≡ one_if (claimed t.handles k))
reach_lem page_size me t cfg x k r =
    let i = Reach-IsSettled r (configured-IsSettled page_size me cfg) in
    (i.sound, i.even, i.accounts.registered, i.accounts.slots x, i.accounts.handles k)

-- Nothing leaks: from a configured device on, whenever nothing is in flight, no slot is owned and no
-- handle is claimed.
pub idle_lem :
    (page_size : ℕ) (me t : RingCtx) (cfg : RingConfig) (x k : ℕ)
    → Reach (configured page_size me cfg) t
    → t.state.inflight ≡ 0
    → (owned t.state x ≡ false) × (claimed t.handles k ≡ false)
idle_lem page_size me t cfg x k r idle =
    let (sound, even, registered, slots, handles) = reach_lem page_size me t cfg x k r in
    let none_left = sym (empty_of t.pending (registered ∙ idle)) in
    (
      one_if_zero (owned t.state x) (ap (λ (l : List OpWork). holders l x) none_left ∙ slots),
      one_if_zero (claimed t.handles k)
          (ap (λ (l : List OpWork). claimants l k) none_left ∙ handles),
    )
