-- ===== src/Runtime/Text.antt =====
-- Rust's `str` as the list of its characters, with the byte offsets that the sources use. `none` is
-- the panic of a slice that is out of bounds or off a character boundary.
use koru.Prelude.{
  ℕ, ◌+◌, ◌-◌, ◌≤◌, ◌<◌, ◌≡◌, ◌≢◌, ◌⊎◌, inl, inr, refl, sym, ap, ◌∙◌, Bool, false, ◌||◌, Option,
  none, some, List, [], ◌∷◌, ◌++◌, arith, length, ltb, ◌==◌, if◌then◌else◌, Bool-cases,
}
use koru.Prelude.Partial.{some_inj}
use koru.Runtime.Utf8.{encode_utf8}

-- `char::len_utf8`
abbrev pub len_utf8 : ℕ → ℕ
len_utf8 c = length (encode_utf8 c)

-- `str::len`
unfoldable pub byte_len : List ℕ → ℕ
byte_len [] = 0
byte_len (c ∷ s) = len_utf8 c + byte_len s

-- `&s[at..]`
unfoldable pub suffix_at : List ℕ → ℕ → Option (List ℕ)
suffix_at [] at = if at == 0 then some [] else none
suffix_at (c ∷ s) at =
    let later = suffix_at s (at - len_utf8 c) in
    if at == 0 then some (c ∷ s) else if ltb at (len_utf8 c) then none else later

-- `str::contains`
unfoldable pub contains : List ℕ → ℕ → Bool
contains [] c = false
contains (x ∷ s) c = x == c || contains s c

pub len_utf8-positive : (c : ℕ) → 0 < len_utf8 c
unfolding encode_utf8
len_utf8-positive c = ground arith

pub suffix_at_zero : (w : List ℕ) → suffix_at w 0 ≡ some w
unfolding suffix_at
suffix_at_zero [] = refl
suffix_at_zero (c ∷ s) = refl

-- Past the first character.
suffix_at_past :
    (x : ℕ) (w : List ℕ) (at : ℕ)
    → len_utf8 x ≤ at
    → suffix_at (x ∷ w) at ≡ suffix_at w (at - len_utf8 x)
unfolding suffix_at
suffix_at_past x w at h =
    let started : (at == 0) ≡ false = ground (arith, h, len_utf8-positive x) in
    let beyond : ltb at (len_utf8 x) ≡ false = ground (arith, h) in rw (started, beyond) refl

suffix_at-cases :
    (x : ℕ) (w : List ℕ) (at : ℕ) (s : List ℕ)
    → suffix_at (x ∷ w) at ≡ some s
    → ((at ≡ 0) × (x ∷ w ≡ s)) ⊎ ((len_utf8 x ≤ at) × (suffix_at w (at - len_utf8 x) ≡ some s))
unfolding suffix_at
suffix_at-cases x w at s e = elim (Bool-cases (at == 0)) [
  | inl start ↦ inl (ground (arith, start), some_inj (rw start at e))
  | inr started ↦ elim (Bool-cases (ltb at (len_utf8 x))) [
    | inl inside ↦ absurd (cc (rw (started, inside) at e))
    | inr beyond ↦ inr (ground (arith, beyond), rw (started, beyond) at e)
  ]
]

no_character : (at c : ℕ) (s : List ℕ) → suffix_at [] at ≢ some (c ∷ s)
unfolding suffix_at
no_character at c s e = elim (Bool-cases (at == 0)) [
  | inl start ↦ cc (rw start at e)
  | inr started ↦ cc (rw started at e)
]

ended : (at : ℕ) (s : List ℕ) → suffix_at [] at ≡ some s → at + byte_len s ≡ 0
unfolding suffix_at byte_len
ended at s e = elim (Bool-cases (at == 0)) [
  | inl start ↦
      let nothing : [] ≡ s = some_inj (rw start at e) in
      let here : at ≡ 0 = ground (arith, start) in omega (arith, here, ap byte_len nothing)
  | inr started ↦ absurd (cc (rw started at e))
]

-- From one boundary over a character to the next.
pub suffix_at_next :
    (w : List ℕ) (at c : ℕ) (s : List ℕ)
    → suffix_at w at ≡ some (c ∷ s)
    → suffix_at w (at + len_utf8 c) ≡ some s
suffix_at_next [] at c s e = absurd (no_character at c s e)
suffix_at_next (x ∷ w) at c s e = elim (suffix_at-cases x w at (c ∷ s) e) [
  | inl (start, same) ↦
      let first : x ≡ c = cc same in
      let others : w ≡ s = cc same in
      let over : at + len_utf8 c ≡ len_utf8 x = omega (arith, start, ap len_utf8 first) in
      let none_left : len_utf8 x - len_utf8 x ≡ 0 = omega arith in
      rw over (
        suffix_at_past x w (len_utf8 x) (omega arith)
        ∙ ap (suffix_at w) none_left
        ∙ suffix_at_zero w
        ∙ ap some others)
  | inr (beyond, there) ↦
      let shift : at + len_utf8 c - len_utf8 x ≡ at - len_utf8 x + len_utf8 c =
        omega (arith, beyond) in
      suffix_at_past x w (at + len_utf8 c) (omega (arith, beyond))
      ∙ ap (suffix_at w) shift
      ∙ suffix_at_next w (at - len_utf8 x) c s there
]

pub byte_len-suffix_at :
    (w : List ℕ) (at : ℕ) (s : List ℕ) → suffix_at w at ≡ some s → at + byte_len s ≡ byte_len w
unfolding byte_len
byte_len-suffix_at [] at s e = ended at s e
byte_len-suffix_at (x ∷ w) at s e = elim (suffix_at-cases x w at s e) [
  | inl (start, same) ↦ omega (arith, start, ap byte_len same)
  | inr (beyond, there) ↦ omega (arith, beyond, byte_len-suffix_at w (at - len_utf8 x) s there)
]

at_end : (at : ℕ) (s : List ℕ) → suffix_at [] at ≡ some s → (at ≡ 0) × ([] ≡ s)
unfolding suffix_at
at_end at s e = elim (Bool-cases (at == 0)) [
  | inl start ↦ (ground (arith, start), some_inj (rw start at e))
  | inr started ↦ absurd (cc (rw started at e))
]

-- What stands before a boundary.
pub prefix_at :
    (w : List ℕ) (at : ℕ) (s : List ℕ)
    → suffix_at w at ≡ some s
    → (pre : List ℕ) × (w ≡ pre ++ s) × (byte_len pre ≡ at)
unfolding byte_len
prefix_at [] at s e = let (here, nothing) = at_end at s e in ([], nothing, sym here)
prefix_at (x ∷ w) at s e = elim (suffix_at-cases x w at s e) [
  | inl (start, same) ↦ ([], same, sym start)
  | inr (beyond, there) ↦
      let (pre, cut, len) = prefix_at w (at - len_utf8 x) s there in
      (x ∷ pre, ap (λ (l : List ℕ). x ∷ l) cut, omega (arith, len, beyond))
]
