-- ===== src/Kernel/Ops/Shifts.antt =====
-- How an operation of kernel/koru_ops.rs moves what the ring keeps: the claims of slots and handles,
-- and the operations in flight.
use koru.Prelude.{
  ℕ, ◌+◌, ◌*◌, ◌≤◌, ◌≡◌, refl, sym, ap, ◌∙◌, inl, inr, Bool, true, false, Option, none, some, arith,
  length, get_elem?, set, get_elem?-set_self, get_elem?-set_ne, get_elem?-lt, ◌==◌, ==_refl, ==_ne,
  ℕ-cases, Option-cases, if◌then◌else◌,
}
use koru.Prelude.Words.{bit_and_mask}
use koru.Kernel.Abi.{ok}
use koru.Kernel.Ring.{RingState, slot_try_acquire, slot_release}
use koru.Kernel.Ring.Slots.{owned, InArena, claim_of, release_of}
use koru.Kernel.Submit.Complete.{release_keeps}
use koru.Kernel.Setup.{RingConfig}
use koru.Kernel.Handles.{
  HandleEntry, HandleTable, try_claim, unclaim, insert, close, next_generation,
}
use koru.Kernel.Handles.Laws.{index, insert_inv}
use koru.Kernel.Handles.Claims.{close_entry}
use koru.Kernel.Ctx.{RingCtx}

abbrev pub one_if : Bool → ℕ
one_if true = 1
one_if false = 0

-- One at the place, and nothing elsewhere.
abbrev pub only : ℕ → ℕ → ℕ
only place x = one_if (x == place)

abbrev pub nothing : ℕ → ℕ
nothing x = 0

abbrev pub entry_busy : Option HandleEntry → Bool
entry_busy none = false
entry_busy (some e) = e.busy

-- A READDIR claims the entry.
abbrev pub claimed : HandleTable → ℕ → Bool
claimed t i = entry_busy (get_elem? t.entries i)

-- From `me` to `t` only claims and the number in flight have changed: `d` more claims of each slot,
-- `h` more of each handle's entry, and `n` more operations.
pub record Shift (me t : RingCtx) (d h : ℕ → ℕ) (n : ℕ) : Type 0 where
  pub config : t.config ≡ me.config
  pub cq : t.state.cq ≡ me.state.cq
  pub head : t.state.head ≡ me.state.head
  pub len : t.state.len ≡ me.state.len
  pub reserved : t.state.reserved ≡ me.state.reserved
  pub inflight : t.state.inflight ≡ me.state.inflight + n
  pub words : length t.state.slot_busy ≡ length me.state.slot_busy
  pub slots : (x : ℕ) → one_if (owned t.state x) ≡ one_if (owned me.state x) + d x
  pub handles : (i : ℕ) → one_if (claimed t.handles i) ≡ one_if (claimed me.handles i) + h i

pub Shift-refl : (me : RingCtx) → Shift me me nothing nothing 0
Shift-refl me = record {
  config = refl;
  cq = refl;
  head = refl;
  len = refl;
  reserved = refl;
  inflight = omega arith;
  words = refl;
  slots = λ x. omega arith;
  handles = λ i. omega arith;
}

pub Shift-trans :
    (me t u : RingCtx) (d d' h h' e f : ℕ → ℕ) (n n' : ℕ)
    → Shift me t d h n
    → Shift t u d' h' n'
    → ((x : ℕ) → d x + d' x ≡ e x)
    → ((i : ℕ) → h i + h' i ≡ f i)
    → Shift me u e f (n + n')
Shift-trans me t u d d' h h' e f n n' p q de hf = record {
  config = q.config ∙ p.config;
  cq = q.cq ∙ p.cq;
  head = q.head ∙ p.head;
  len = q.len ∙ p.len;
  reserved = q.reserved ∙ p.reserved;
  inflight = omega (arith, p.inflight, q.inflight);
  words = q.words ∙ p.words;
  slots = λ x. omega (arith, p.slots x, q.slots x, de x);
  handles = λ i. omega (arith, p.handles i, q.handles i, hf i);
}

-- The bitmap covers every slot of the configuration.
abbrev pub Covers : RingCtx → Type 0
Covers me =
    (cfg : RingConfig) → me.config ≡ some cfg → cfg.slot_count ≤ 64 * length me.state.slot_busy

pub Covers-Shift : (me t : RingCtx) (d h : ℕ → ℕ) (n : ℕ) → Shift me t d h n → Covers me → Covers t
Covers-Shift me t d h n p c cfg e = omega (arith, c cfg (sym p.config ∙ e), p.words)

-- A claim of a slot: one claim more, or none.
pub Shift-acquire :
    (me : RingCtx) (slot : ℕ)
    → InArena me.state slot
    → (got : Bool) × (s : RingState) × (slot_try_acquire me.state slot ≡ some (got, s))
      × Shift me (record me { state = s }) (λ x. if got then only slot x else 0) nothing 0
Shift-acquire me slot room =
    let (got, s, run, c) = claim_of me.state slot room in
    (
      got,
      s,
      run,
      record {
        config = refl;
        cq = ap (λ (r : RingState). r.cq) c.rest;
        head = ap (λ (r : RingState). r.head) c.rest;
        len = ap (λ (r : RingState). r.len) c.rest;
        reserved = ap (λ (r : RingState). r.reserved) c.rest;
        inflight = omega (arith, ap (λ (r : RingState). r.inflight) c.rest);
        words = c.same_words;
        slots = λ x. elim (ℕ-cases x slot) [
          | inl same ↦ rw (same, c.held, ==_refl slot) (ground (arith, c.exactly))
          | inr ne ↦ rw (c.others x ne, ==_ne x slot ne) (ground arith)
        ];
        handles = λ i. omega arith;
      },
    )

-- The claim of a slot is given back.
pub Shift-release :
    (me t : RingCtx) (slot : ℕ) (h : ℕ → ℕ) (n : ℕ)
    → InArena t.state slot
    → Shift me t (only slot) h n
    → (s : RingState) × (slot_release t.state slot ≡ some s)
      × Shift me (record t { state = s }) nothing h n
Shift-release me t slot h n room p =
    let (s, run, free, others, words) = release_of t.state slot room in
    let (cq, head, len, reserved, inflight) = release_keeps t.state s slot run in
    (
      s,
      run,
      record {
        config = p.config;
        cq = cq ∙ p.cq;
        head = head ∙ p.head;
        len = len ∙ p.len;
        reserved = reserved ∙ p.reserved;
        inflight = inflight ∙ p.inflight;
        words = words ∙ p.words;
        slots = λ x. elim (ℕ-cases x slot) [
          | inl same ↦ rw (same, free) (ground (arith, p.slots slot))
          | inr ne ↦ rw (others x ne) (ground (arith, p.slots x, ==_ne x slot ne))
        ];
        handles = p.handles;
      },
    )

-- A table with the same claims, and one more.
pub Shift-handles :
    (me t : RingCtx) (d h h' : ℕ → ℕ) (n : ℕ) (u : HandleTable)
    → Shift me t d h n
    → ((i : ℕ) → one_if (claimed u i) + h i ≡ one_if (claimed t.handles i) + h' i)
    → Shift me (record t { handles = u }) d h' n
Shift-handles me t d h h' n u p q = record {
  config = p.config;
  cq = p.cq;
  head = p.head;
  len = p.len;
  reserved = p.reserved;
  inflight = p.inflight;
  words = p.words;
  slots = p.slots;
  handles = λ i. omega (arith, p.handles i, q i);
}

-- An entry that is written with the mark `b`.
claimed-set :
    (t : HandleTable) (j i : ℕ) (old new : HandleEntry)
    → get_elem? t.entries j ≡ some old
    → claimed (record t { entries = set t.entries j new }) i
      ≡ (if i == j then new.busy else claimed t i)
claimed-set t j i old new e = elim (ℕ-cases i j) [
  | inl same ↦
      rw (same, get_elem?-set_self t.entries j new (get_elem?-lt t.entries j old e), ==_refl j)
  | inr ne ↦ rw (get_elem?-set_ne t.entries j i new (λ q. ne (sym q)), ==_ne i j ne)
]

-- An insertion and a close leave the claims alone.
pub claimed-insert :
    (t u : HandleTable) (file h i : ℕ) → insert t file ≡ some (h, u) → claimed u i ≡ claimed t i
claimed-insert t u file h i r =
    let (j, e, there, _, idle, _, made) = insert_inv t u file h r in
    rw made (
      claimed-set t j i e (record e { file = some file }) there
      ∙ ground (arith, there, ℕ-cases i j))

pub claimed-close :
    (t u : HandleTable) (file h i : ℕ) → close t h ≡ ok (file, u) → claimed u i ≡ claimed t i
claimed-close t u file h i r =
    let (e, there, made) = close_entry t u h file r in
    rw made (
      claimed-set t (index h) i e
        (record e { file = none; generation = next_generation e.generation }) there
      ∙ ground (arith, there, ℕ-cases i (index h)))

-- A claim of a handle marks its entry, which had no mark.
pub claimed-try_claim :
    (t u : HandleTable) (h i : ℕ)
    → try_claim t h ≡ ok u
    → one_if (claimed u i) ≡ one_if (claimed t i) + only (index h) i
unfolding try_claim
claimed-try_claim t u h i r = elim (Option-cases (get_elem? t.entries (index h))) [
  | inl e ↦ absurd (ground (arith, r, e, bit_and_mask 16 h))
  | inr (e, there) ↦
      let idle : e.busy ≡ false = ground (arith, r, there, bit_and_mask 16 h) in
      let made : u ≡ record t { entries = set t.entries (index h) (record e { busy = true }) } =
        ground (arith, r, there, bit_and_mask 16 h) in
      rw (made, claimed-set t (index h) i e (record e { busy = true }) there)
        (ground (arith, there, idle, ℕ-cases i (index h)))
]

pub claimed-unclaim :
    (t : HandleTable) (h i : ℕ)
    → claimed (unclaim t h) i ≡ (if i == index h then false else claimed t i)
unfolding unclaim
claimed-unclaim t h i = elim (Option-cases (get_elem? t.entries (index h))) [
  | inl e ↦
      let kept : unclaim t h ≡ t = ground (arith, e, bit_and_mask 16 h) in
      rw kept (ground (arith, e, ℕ-cases i (index h)))
  | inr (e, there) ↦
      let made : unclaim t h
          ≡ record t { entries = set t.entries (index h) (record e { busy = false }) } =
        ground (arith, there, bit_and_mask 16 h) in
      rw made (claimed-set t (index h) i e (record e { busy = false }) there)
]
