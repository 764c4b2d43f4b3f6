-- ===== src/Kernel/Poll.antt =====
-- The masks of `POLL_ADD`, `poll_to_kernel` and `poll_to_koru` of kernel/koru_ops.rs.
use Prim.Native.Nat.{bit_and, bit_or}
use koru.Prelude.{
  ℕ, zero, suc, ◌-◌, ◌^◌, ◌<◌, ◌≡◌, refl, inl, inr, Bool, true, ◌&&◌, arith, ◌==◌, if◌then◌else◌,
  ℕ-cases,
}

abbrev pub koru_poll_in : ℕ
koru_poll_in = 1

abbrev pub koru_poll_out : ℕ
koru_poll_out = 2

abbrev pub koru_poll_pri : ℕ
koru_poll_pri = 4

abbrev pub koru_poll_rdhup : ℕ
koru_poll_rdhup = 8

abbrev pub koru_poll_err : ℕ
koru_poll_err = 16

abbrev pub koru_poll_hup : ℕ
koru_poll_hup = 32

abbrev pollin : ℕ
pollin = 0x0001

abbrev pollpri : ℕ
pollpri = 0x0002

abbrev pollout : ℕ
pollout = 0x0004

abbrev pollerr : ℕ
pollerr = 0x0008

abbrev pollhup : ℕ
pollhup = 0x0010

abbrev pollrdnorm : ℕ
pollrdnorm = 0x0040

abbrev pollwrnorm : ℕ
pollwrnorm = 0x0100

abbrev pollrdhup : ℕ
pollrdhup = 0x2000

-- Every event.
abbrev pub koru_poll_events_all : ℕ
koru_poll_events_all = 2 ^ 6 - 1

abbrev pub poll_always : ℕ
poll_always = bit_or pollerr pollhup

-- `if value & test != 0 { mask |= bits }`
abbrev mark : ℕ → ℕ → ℕ → ℕ → ℕ
mark value test bits mask = if bit_and value test == 0 then mask else bit_or mask bits

unfoldable pub poll_to_kernel : ℕ → ℕ
poll_to_kernel events =
    let a = mark events koru_poll_in (bit_or pollin pollrdnorm) poll_always in
    let b = mark events koru_poll_out (bit_or pollout pollwrnorm) a in
    let c = mark events koru_poll_pri pollpri b in mark events koru_poll_rdhup pollrdhup c

unfoldable pub poll_to_koru : ℕ → ℕ
poll_to_koru mask =
    let a = mark mask (bit_or pollin pollrdnorm) koru_poll_in 0 in
    let b = mark mask (bit_or pollout pollwrnorm) koru_poll_out a in
    let c = mark mask pollpri koru_poll_pri b in
    let d = mark mask pollrdhup koru_poll_rdhup c in
    let e = mark mask pollerr koru_poll_err d in mark mask pollhup koru_poll_hup e

-- The test holds below the bound.
abbrev all_below : (ℕ → Bool) → ℕ → Bool
all_below p zero = true
all_below p (suc n) = p n && all_below p n

all_below_lem : (p : ℕ → Bool) (n i : ℕ) → all_below p n ≡ true → i < n → p i ≡ true
all_below_lem p zero i h k = absurd (omega arith)
all_below_lem p (suc n) i h k = elim (ℕ-cases i n) [
  | inl same ↦ rw same (ground (arith, h))
  | inr ne ↦ all_below_lem p n i (ground (arith, h)) (omega arith)
]

abbrev survives : ℕ → Bool
survives events =
    poll_to_koru (poll_to_kernel events) == bit_or events (bit_or koru_poll_err koru_poll_hup)

all_survive : all_below survives 64 ≡ true
unfolding poll_to_kernel poll_to_koru
all_survive = refl

-- Every set of events that `POLL_ADD` accepts goes to the kernel's mask and back unharmed: none is
-- lost and none is invented, but errors and hangups, which are always reported.
pub poll_to_koru-poll_to_kernel :
    (events : ℕ)
    → events < 64
    → poll_to_koru (poll_to_kernel events) ≡ bit_or events (bit_or koru_poll_err koru_poll_hup)
poll_to_koru-poll_to_kernel events h =
    ground (arith, all_below_lem survives 64 events all_survive h)
