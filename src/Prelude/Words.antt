-- ===== src/Prelude/Words.antt =====
-- Machine words as native numbers, and their bits: the native bit operations act on each bit.
mod Digits
use Digits.{bit_and_step, bit_or_step}
use Prim.Native.Nat.{
  ℕ, zero, suc, ◌+◌, ◌-◌, ◌*◌, ◌/◌, ◌%◌, ◌^◌, ◌≤◌, ◌<◌, min, max, bit_and, bit_or, bit_or-bitwise,
}
use mathlib.Core.Path.{◌≡◌, refl, ap, ◌∙◌}
use mathlib.Core.Logic.{◌≢◌}
use native.Mathlib.Nat.{
  pow-suc, one-le-pow, mod-lt, mod-eq_of_lt, mod-add-div', add-mul-mod_self_left,
}
use native.Mathlib.Omega.{arith}

abbrev pub u16_mod : ℕ
u16_mod = 2 ^ 16

abbrev pub u32_mod : ℕ
u32_mod = 2 ^ 32

abbrev pub u64_mod : ℕ
u64_mod = 2 ^ 64

-- Bit `i` of `a`, the lowest first.
pub bit : ℕ → ℕ → ℕ
bit a zero = a % 2
bit a (suc i) = bit (a / 2) i

pub bit-lt : (i a : ℕ) → bit a i < 2
unfolding bit
bit-lt zero a = omega arith
bit-lt (suc i) a = bit-lt i (a / 2)

pub bit-bit_and : (i a b : ℕ) → bit (bit_and a b) i ≡ min (bit a i) (bit b i)
unfolding bit
bit-bit_and zero a b = omega (arith, bit_and_step a b)
bit-bit_and (suc i) a b =
    let halved : bit_and a b / 2 ≡ bit_and (a / 2) (b / 2) = omega (arith, bit_and_step a b) in
    ap (λ (t : ℕ). bit t i) halved ∙ bit-bit_and i (a / 2) (b / 2)

pub bit-bit_or : (i a b : ℕ) → bit (bit_or a b) i ≡ max (bit a i) (bit b i)
unfolding bit
bit-bit_or zero a b = omega (arith, bit_or_step a b)
bit-bit_or (suc i) a b =
    let halved : bit_or a b / 2 ≡ bit_or (a / 2) (b / 2) = omega (arith, bit_or_step a b) in
    ap (λ (t : ℕ). bit t i) halved ∙ bit-bit_or i (a / 2) (b / 2)

pub bit-zero : (i : ℕ) → bit 0 i ≡ 0
unfolding bit
bit-zero zero = refl
bit-zero (suc i) = bit-zero i

pow_halved : (k : ℕ) → 2 ^ suc k / 2 ≡ 2 ^ k
pow_halved k = omega (arith, pow-suc 2 k)

pub bit-pow_self : (k : ℕ) → bit (2 ^ k) k ≡ 1
unfolding bit
bit-pow_self zero = refl
bit-pow_self (suc k) = ap (λ (t : ℕ). bit t k) (pow_halved k) ∙ bit-pow_self k

pub bit-pow_ne : (k i : ℕ) → k ≢ i → bit (2 ^ k) i ≡ 0
unfolding bit
bit-pow_ne zero zero h = absurd (h refl)
bit-pow_ne zero (suc i) h = bit-zero i
bit-pow_ne (suc k) zero h = omega (arith, pow-suc 2 k)
bit-pow_ne (suc k) (suc i) h =
    ap (λ (t : ℕ). bit t i) (pow_halved k) ∙ bit-pow_ne k i (λ e. h (ap suc e))

-- `!x` on a word of `n` bits.
abbrev pub complement : ℕ → ℕ → ℕ
complement n x = 2 ^ n - 1 - x

pub bit-complement : (n i x : ℕ) → x < 2 ^ n → i < n → bit (complement n x) i ≡ 1 - bit x i
unfolding bit
bit-complement zero i x fits h = absurd (omega arith)
bit-complement (suc n) zero x fits h = omega (arith, pow-suc 2 n)
bit-complement (suc n) (suc i) x fits h =
    let halved : complement (suc n) x / 2 ≡ complement n (x / 2) = omega (arith, pow-suc 2 n) in
    ap (λ (t : ℕ). bit t i) halved
    ∙ bit-complement n i (x / 2) (omega (arith, pow-suc 2 n)) (omega arith)

bit_and-zero_within : (n a : ℕ) → a ≤ n → bit_and a 0 ≡ 0
bit_and-zero_within n zero h = omega (arith, bit_and_step 0 0)
bit_and-zero_within zero (suc a) h = absurd (omega arith)
bit_and-zero_within (suc n) (suc a) h =
    omega (arith, bit_and_step (suc a) 0, bit_and-zero_within n (suc a / 2) (omega arith))

-- A word of one set bit masks exactly that bit.
pub bit_and-pow : (k a : ℕ) → bit_and a (2 ^ k) ≡ bit a k * 2 ^ k
unfolding bit
bit_and-pow zero a =
    omega (arith, bit_and_step a 1, bit_and-zero_within (a / 2) (a / 2) (omega arith))
bit_and-pow (suc k) a =
    let doubled : bit (a / 2) k * 2 ^ suc k ≡ bit (a / 2) k * 2 ^ k * 2 =
      omega (arith, ap (λ (t : ℕ). bit (a / 2) k * t) (pow-suc 2 k)) in
    let halved : bit_and (a / 2) (2 ^ suc k / 2) ≡ bit (a / 2) k * 2 ^ k =
      ap (bit_and (a / 2)) (pow_halved k) ∙ bit_and-pow k (a / 2) in
    omega (arith, bit_and_step a (2 ^ suc k), pow-suc 2 k)

-- The fields of a packed word do not meet: `|` is a sum.
pub bit_or_fields : (k lo hi : ℕ) → lo < 2 ^ k → bit_or lo (hi * 2 ^ k) ≡ lo + hi * 2 ^ k
bit_or_fields zero zero hi h = omega (arith, bit_or-bitwise 0 (hi * 1))
bit_or_fields zero (suc lo) hi h = absurd (omega arith)
bit_or_fields (suc k) lo hi h =
    let doubled : hi * 2 ^ suc k ≡ hi * 2 ^ k * 2 =
      omega (arith, ap (λ (t : ℕ). hi * t) (pow-suc 2 k)) in
    let halved : hi * 2 ^ suc k / 2 ≡ hi * 2 ^ k = omega arith in
    omega (
      arith,
      bit_or_step lo (hi * 2 ^ suc k),
      ap (bit_or (lo / 2)) halved,
      bit_or_fields k (lo / 2) hi (omega (arith, pow-suc 2 k)),
    )

half-mod : (a k : ℕ) → a % 2 ^ suc k ≡ a / 2 % 2 ^ k * 2 + a % 2
half-mod a k =
    let r = a / 2 % 2 ^ k in
    let q = a / 2 / 2 ^ k in
    let small : r * 2 + a % 2 < 2 ^ suc k =
      omega (arith, pow-suc 2 k, mod-lt (a / 2) {m = 2 ^ k} (one-le-pow k 2 (omega arith))) in
    let parts : a ≡ r * 2 + a % 2 + 2 ^ suc k * q =
      omega (arith, mod-add-div' (a / 2) (2 ^ k), ap (λ (t : ℕ). t * q) (pow-suc 2 k)) in
    ap (λ (t : ℕ). t % 2 ^ suc k) parts
    ∙ add-mul-mod_self_left (r * 2 + a % 2) (2 ^ suc k) q
    ∙ mod-eq_of_lt small

-- A mask of the `k` lowest bits is a remainder.
pub bit_and_mask : (k a : ℕ) → bit_and a (2 ^ k - 1) ≡ a % 2 ^ k
bit_and_mask zero a = omega (arith, bit_and-zero_within a a (omega arith))
bit_and_mask (suc k) a =
    let halved : (2 ^ suc k - 1) / 2 ≡ 2 ^ k - 1 = omega (arith, pow-suc 2 k) in
    omega (
      arith,
      bit_and_step a (2 ^ suc k - 1),
      ap (bit_and (a / 2)) halved,
      bit_and_mask k (a / 2),
      pow-suc 2 k,
      one-le-pow k 2 (omega arith),
      half-mod a k,
    )
