-- ===== src/Runtime/Utf8.antt =====
-- The UTF-8 of rust/runtime/src/filebuf.rs: `utf8_decode`, `decode_one`, `is_cont`. A byte and a
-- `char` are numbers; `encode_utf8`, `from_utf8` and `chars` are Rust's.
use Prim.Native.Nat.{bit_and}
use koru.Prelude.{
  ℕ, ◌+◌, ◌*◌, ◌/◌, ◌%◌, ◌≤◌, ◌<◌, ◌⊎◌, Bool, true, false, ◌&&◌, Option, none, some, List, [], ◌∷◌,
  length, take, ltb, leb, ◌==◌, if◌then◌else◌,
}

abbrev pub replacement : ℕ
replacement = 0xfffd

-- What a `char` holds: a code point that is not a surrogate.
abbrev pub IsChar : ℕ → Type 0
IsChar c = (c < 0xd800) ⊎ ((0xe000 ≤ c) × (c < 0x11_0000))

-- `char::encode_utf8`
unfoldable pub encode_utf8 : ℕ → List ℕ
encode_utf8 c =
    if ltb c 0x80
    then c ∷ []
    else if ltb c 0x800
    then (0xc0 + c / 64) ∷ (0x80 + c % 64) ∷ []
    else if ltb c 0x1_0000
    then (0xe0 + c / 4096) ∷ (0x80 + c / 64 % 64) ∷ (0x80 + c % 64) ∷ []
    else (0xf0 + c / 262_144) ∷ (0x80 + c / 4096 % 64) ∷ (0x80 + c / 64 % 64) ∷ (0x80 + c % 64) ∷ []

unfoldable pub is_cont : ℕ → Bool
is_cont b = bit_and b 0xc0 == 0x80

abbrev pub within : ℕ → ℕ → ℕ → Bool
within low high b = leb low b && leb b high

-- Whether `str::from_utf8` accepts the bytes, for more than one byte and one whole sequence: an
-- overlong form, a surrogate and a value past the last code point have a second byte out of range.
unfoldable pub from_utf8 : List ℕ → Bool
from_utf8 (a ∷ b ∷ []) = within 0xc2 0xdf a && within 0x80 0xbf b
from_utf8 (a ∷ b ∷ c ∷ []) =
    within 0xe0 0xef a
    && within (if a == 0xe0 then 0xa0 else 0x80) (if a == 0xed then 0x9f else 0xbf) b
    && within 0x80 0xbf c
from_utf8 (a ∷ b ∷ c ∷ d ∷ []) =
    within 0xf0 0xf4 a
    && within (if a == 0xf0 then 0x90 else 0x80) (if a == 0xf4 then 0x8f else 0xbf) b
    && within 0x80 0xbf c
    && within 0x80 0xbf d
from_utf8 _ = false

-- The length that a lead byte asks for, when it is not one.
unfoldable pub want : ℕ → Option ℕ
want lead =
    if leb lead 0x7f
    then none
    else if within 0xc2 0xdf lead
    then some 2
    else if within 0xe0 0xef lead
    then some 3
    else if within 0xf0 0xf4 lead
    then some 4
    else none

unfoldable pub all_cont : List ℕ → Bool
unfolding is_cont
all_cont [] = true
all_cont (b ∷ bs) = is_cont b && all_cont bs

unfoldable pub measured : ℕ → List ℕ → Option ℕ → ℕ
unfolding all_cont from_utf8
measured lead rest none = 1
measured lead rest (some n) =
    if ltb (length (lead ∷ rest)) n
    then if all_cont rest then 0 else 1
    else if from_utf8 (take n (lead ∷ rest))
    then n
    else 1

unfoldable pub utf8_decode : List ℕ → ℕ
unfolding measured want
utf8_decode [] = 0
utf8_decode (lead ∷ rest) = measured lead rest (want lead)

-- The first of the `chars` of one sequence that is accepted; one byte is, if it is ASCII.
unfoldable pub first_char : List ℕ → ℕ
first_char (a ∷ []) = if ltb a 0x80 then a else replacement
first_char (a ∷ b ∷ []) = a % 32 * 64 + b % 64
first_char (a ∷ b ∷ c ∷ []) = a % 16 * 4096 + b % 64 * 64 + c % 64
first_char (a ∷ b ∷ c ∷ d ∷ []) = a % 8 * 262_144 + b % 64 * 4096 + c % 64 * 64 + d % 64
first_char _ = replacement

-- An empty prefix has no first character.
unfoldable pub decode_one : List ℕ → ℕ
unfolding first_char utf8_decode
decode_one s = first_char (take (utf8_decode s) s)
