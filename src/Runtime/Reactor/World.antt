-- ===== src/Runtime/Reactor/World.antt =====
-- The runtime's buffer slots as a whole: the pool, the slab, and the slots that the program and its
-- futures own. A step is one use of the reactor.
use koru.Prelude.{
  ℕ, zero, suc, ◌+◌, ◌≡◌, Bool, refl, ◌∙◌, Option, none, some, List, [], ◌∷◌, arith, get_elem?, ltb,
  leb, ◌&&◌, if◌then◌else◌,
}
use koru.Prelude.Int.{ℤ}
use koru.Sys.Abi.{Sqe}
use koru.Sys.Pool
use koru.Sys.Pool.{BufPool, acquire, popped, slots_from}
use koru.Runtime.Cookie.{Cookie}
use koru.Runtime.Slab
use koru.Runtime.Reactor.{Inner, new, register, poll_op, abandon, drop_held}
use koru.Runtime.Reactor.Turn.{Enter, turn}
use koru.Runtime.Reactor.Rounds.{left}
use koru.Runtime.Reactor.Slots.{tally, listed, copies}
use koru.Runtime.Reactor.Slots.Conserved.{
  handed, copies-drop_held, copies-register, copies-poll_op, copies-abandon,
}
use koru.Runtime.Reactor.Slots.Turns.{copies-turn}

-- A list without its element at an index.
abbrev without {ℓ} : {A : Type ℓ} → List A → ℕ → List A
without [] k = []
without (x ∷ xs) zero = xs
without (x ∷ xs) (suc k) = x ∷ without xs k

abbrev gain : Option ℕ → List ℕ → List ℕ
gain none out = out
gain (some i) out = i ∷ out

-- The reactor, and the slots that are owned outside it.
pub record World : Type 0 where
  pub inner : Inner
  pub out : List ℕ

pub data Step (w : World) : World → Type 0 where
  acquires :
      (i : ℕ) (p : BufPool)
      → acquire w.inner.pool ≡ (some i, p)
      → Step w (record { inner = record w.inner { pool = p }; out = i ∷ w.out })
  drops :
      (k i : ℕ)
      → get_elem? w.out k ≡ some i
      → Step w (record { inner = drop_held w.inner (some i); out = without w.out k })
  registers :
      (k i : ℕ) (make : Cookie → Sqe) (c : Cookie) (t : Inner)
      → get_elem? w.out k ≡ some i
      → register w.inner (some i) make ≡ some (c, t)
      → Step w (record { inner = t; out = without w.out k })
  registers_bare :
      (make : Cookie → Sqe) (c : Cookie) (t : Inner)
      → register w.inner none make ≡ some (c, t)
      → Step w (record { inner = t; out = w.out })
  polls :
      (c : Cookie) (waker : ℕ) (r : Option (ℤ × ℕ × Option ℕ)) (t : Inner)
      → poll_op w.inner c waker ≡ some (r, t)
      → Step w (record { inner = t; out = gain (handed r) w.out })
  abandons :
      (c : Cookie) (t : Inner)
      → abandon w.inner c ≡ some t
      → Step w (record { inner = t; out = w.out })
  turns :
      (enter : Enter) (sq_len : ℕ) (wait : Bool) (timeout : Option ℕ) (fuel : ℕ) (t : Inner)
      → left (turn enter sq_len wait timeout fuel w.inner) ≡ some t
      → Step w (record { inner = t; out = w.out })

pub data Reach (w : World) : World → Type 0 where
  start : Reach w w
  after : (u v : World) → Reach w u → Step u v → Reach w v

-- How often the slot `x` stands anywhere.
pub places : ℕ → World → ℕ
places x w = copies x w.inner + listed x w.out

listed-without :
    (x : ℕ) (out : List ℕ) (k i : ℕ)
    → get_elem? out k ≡ some i
    → listed x (without out k) + tally x (some i) ≡ listed x out
listed-without x [] k i h = absurd (cc h)
listed-without x (y ∷ out) zero i h = ground (arith, h)
listed-without x (y ∷ out) (suc k) i h = omega (arith, listed-without x out k i h)

listed-gain :
    (x : ℕ) (o : Option ℕ) (out : List ℕ) → listed x (gain o out) ≡ tally x o + listed x out
listed-gain x none out = omega arith
listed-gain x (some i) out = refl

popped_lem :
    (x : ℕ) (p q : BufPool) (i : ℕ) (fs : List ℕ)
    → popped p fs ≡ (some i, q)
    → listed x fs ≡ tally x (some i) + listed x q.free
unfolding popped
popped_lem x p q i [] h = absurd (cc h)
popped_lem x p q i (j ∷ fs) h = ground (arith, h)

places-Step : (x : ℕ) (w u : World) → Step w u → places x u ≡ places x w
unfolding places acquire
places-Step x w _ (acquires i p h) =
    omega (arith, popped_lem x w.inner.pool p i w.inner.pool.free h)
places-Step x w _ (drops k i h) =
    omega (arith, copies-drop_held x w.inner (some i), listed-without x w.out k i h)
places-Step x w _ (registers k i make c t h r) =
    omega (arith, copies-register x w.inner t (some i) make c r, listed-without x w.out k i h)
places-Step x w _ (registers_bare make c t r) =
    omega (arith, copies-register x w.inner t none make c r)
places-Step x w _ (polls c waker r t h) =
    omega (arith, copies-poll_op x w.inner t c waker r h, listed-gain x (handed r) w.out)
places-Step x w _ (abandons c t h) = omega (arith, copies-abandon x w.inner t c h)
places-Step x w _ (turns enter sq_len wait timeout fuel t h) =
    omega (arith, copies-turn x enter sq_len wait timeout fuel w.inner t h)

listed-slots_from :
    (x first n : ℕ)
    → listed x (slots_from first n) ≡ (if leb first x && ltb x (first + n) then 1 else 0)
unfolding slots_from
listed-slots_from x first zero = ground arith
listed-slots_from x first (suc n) = ground (arith, listed-slots_from x (suc first) n)

unfoldable pub fresh : ℕ → ℕ → World
fresh slot_size slot_count = record { inner = new (Pool.new slot_size slot_count); out = [] }

places-fresh : (x slot_size n : ℕ) → places x (fresh slot_size n) ≡ (if ltb x n then 1 else 0)
unfolding places fresh new Pool.new Slab.new
places-fresh x slot_size n = ground (arith, listed-slots_from x 0 n)

places-Reach : (x : ℕ) (w u : World) → Reach w u → places x u ≡ places x w
places-Reach x w _ start = refl
places-Reach x w u (after v _ r s) = places-Step x v u s ∙ places-Reach x w v r

-- From a new pool of `n` slots on, whatever is acquired, registered, polled, abandoned, dropped and
-- submitted, and however the kernel answers, each of the slots is in exactly one place: the
-- free list, one live operation, or one owner outside. No other index is a slot anywhere.
pub places_lem :
    (x slot_size n : ℕ) (w : World)
    → Reach (fresh slot_size n) w
    → places x w ≡ (if ltb x n then 1 else 0)
places_lem x slot_size n w r = places-Reach x (fresh slot_size n) w r ∙ places-fresh x slot_size n
