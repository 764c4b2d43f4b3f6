-- ===== src/Runtime/FileBuf/Unget.antt =====
-- A character that is put back comes out again.
use koru.Prelude.{
  ℕ, zero, suc, ◌+◌, ◌-◌, ◌/◌, ◌%◌, ◌≤◌, ◌<◌, ◌≡◌, ◌⊎◌, inl, inr, refl, sym, ap, ◌∙◌, true, false,
  none, some, List, [], ◌∷◌, ◌++◌, append-nil, arith, length, length-append, take, drop, leb, ltb,
  Bool-cases,
}
use koru.Prelude.Runs.{overwrite, slice, copy_in, copy_within, length-overwrite, drop-overwrite}
use koru.Runtime.FileBuf.{
  FileBuf, got, room_in_front, put_in_front, unget, take_rune, taken, size, consume,
}
use koru.Runtime.FileBuf.Contents.{IsSound, contents, held_lem, consume_lem, length-contents}
use koru.Runtime.Utf8.{
  IsChar, encode_utf8, from_utf8, want, measured, utf8_decode, first_char, decode_one,
}

take-append : (xs ys : List ℕ) → take (length xs) (xs ++ ys) ≡ xs
take-append [] ys = refl
take-append (x ∷ xs) ys = ap (λ (l : List ℕ). x ∷ l) (take-append xs ys)

-- A sequence that `from_utf8` accepts is taken whole, whatever follows.
accepted :
    (a n : ℕ) (s rest : List ℕ)
    → want a ≡ some n
    → length (a ∷ s) ≡ n
    → from_utf8 (a ∷ s) ≡ true
    → utf8_decode (a ∷ s ++ rest) ≡ n
unfolding utf8_decode measured
accepted a n s rest w l good =
    let enough : ltb (length (a ∷ s ++ rest)) n ≡ false = ground (arith, length-append s rest, l) in
    let cut : take n (a ∷ s ++ rest) ≡ a ∷ s =
      ap (λ (k : ℕ). take k (a ∷ s ++ rest)) (sym l) ∙ take-append (a ∷ s) rest in
    rw (w, enough, cut, good) refl

-- What comes out of the bytes of `c`, whatever follows.
abbrev Decodes : ℕ → List ℕ → List ℕ → Type 0
Decodes c s rest =
    (utf8_decode (s ++ rest) ≡ length s) × (decode_one (s ++ rest) ≡ c) × (0 < length s)

Decodes-one : (c : ℕ) (rest : List ℕ) → c < 0x80 → Decodes c (c ∷ []) rest
unfolding utf8_decode measured want decode_one first_char
Decodes-one c rest h =
    let one : utf8_decode (c ∷ rest) ≡ 1 = ground (arith, h) in
    (one, rw one (ground (arith, h)), omega arith)

Decodes-two :
    (c : ℕ) (rest : List ℕ)
    → 0x80 ≤ c
    → c < 0x800
    → Decodes c ((0xc0 + c / 64) ∷ (0x80 + c % 64) ∷ []) rest
unfolding want from_utf8 decode_one first_char
Decodes-two c rest h k =
    let two =
      accepted (0xc0 + c / 64) 2 ((0x80 + c % 64) ∷ []) rest (ground (arith, h, k)) refl
        (ground (arith, h, k)) in
    (two, rw two (omega (arith, h, k)), omega arith)

Decodes-three :
    (c : ℕ) (rest : List ℕ)
    → 0x800 ≤ c
    → c < 0x1_0000
    → IsChar c
    → Decodes c ((0xe0 + c / 4096) ∷ (0x80 + c / 64 % 64) ∷ (0x80 + c % 64) ∷ []) rest
unfolding want from_utf8 decode_one first_char
Decodes-three c rest h k w =
    let three =
      accepted (0xe0 + c / 4096) 3 ((0x80 + c / 64 % 64) ∷ (0x80 + c % 64) ∷ []) rest
        (ground (arith, h, k)) refl (ground (arith, h, k, w)) in
    (three, rw three (omega (arith, h, k)), omega arith)

Decodes-four :
    (c : ℕ) (rest : List ℕ)
    → 0x1_0000 ≤ c
    → c < 0x11_0000
    → Decodes c
        ((0xf0 + c / 262_144)
          ∷ (0x80 + c / 4096 % 64)
          ∷ (0x80 + c / 64 % 64)
          ∷ (0x80 + c % 64)
          ∷ [])
        rest
unfolding want from_utf8 decode_one first_char
Decodes-four c rest h k =
    let four =
      accepted (0xf0 + c / 262_144) 4
        ((0x80 + c / 4096 % 64) ∷ (0x80 + c / 64 % 64) ∷ (0x80 + c % 64) ∷ []) rest
        (ground (arith, h, k)) refl (ground (arith, h, k)) in
    (four, rw four (omega (arith, h, k)), omega arith)

decode-encode : (c : ℕ) (rest : List ℕ) → IsChar c → Decodes c (encode_utf8 c) rest
unfolding encode_utf8
decode-encode c rest w = elim (Bool-cases (ltb c 0x80)) [
  | inl one ↦ rw one (Decodes-one c rest (ground (arith, one)))
  | inr past1 ↦ rw past1 (elim (Bool-cases (ltb c 0x800)) [
    | inl two ↦ rw two (Decodes-two c rest (ground (arith, past1)) (ground (arith, two)))
    | inr past2 ↦ rw past2 (elim (Bool-cases (ltb c 0x1_0000)) [
      | inl three ↦
          rw three (Decodes-three c rest (ground (arith, past2)) (ground (arith, three)) w)
      | inr four ↦ rw four (Decodes-four c rest (ground (arith, four)) (ground (arith, w, four)))
    ])
  ])
]

-- Room for `n` bytes in front: what is held stays.
room_in_front_lem :
    (n : ℕ) (me : FileBuf)
    → IsSound me
    → ((length me.b < me.len - me.pos + n) × (room_in_front n me ≡ some none))
      ⊎ ((t : FileBuf) × (room_in_front n me ≡ some (some t))
          × IsSound t
          × (n ≤ t.pos)
          × (contents t ≡ contents me))
unfolding room_in_front size copy_within slice copy_in
room_in_front_lem n me w = elim (Bool-cases (leb n me.pos)) [
  | inl there ↦ inr (me, rw there refl, w, ground (arith, there), refl)
  | inr short ↦ elim (Bool-cases (ltb (length me.b) (me.len - me.pos + n))) [
    | inl full ↦ inl (ground (arith, full), ground (arith, w, short, full))
    | inr fits ↦
        let xs = contents me in
        let xs' = length-contents me w in
        let inside : n + length xs ≤ length me.b = ground (arith, fits, xs') in
        let t : FileBuf = record { b = overwrite me.b n xs; pos = n; len = me.len - me.pos + n } in
        let same = length-overwrite me.b n xs inside in
        let all : me.len - me.pos + n - n ≡ length xs + 0 = omega (arith, xs') in
        inr (
          t,
          ground (arith, w, short, fits, inside),
          (omega arith, omega (arith, same, inside, xs')),
          omega arith,
          ap (λ (k : ℕ). take k (drop n t.b)) all
              ∙ drop-overwrite me.b n 0 xs inside
              ∙ append-nil xs,
        )
  ]
]

put_in_front_lem :
    (e : List ℕ) (me t : FileBuf)
    → IsSound t
    → length e ≤ t.pos
    → (t' : FileBuf) × (put_in_front e me (some t) ≡ some (true, t'))
      × IsSound t'
      × (contents t' ≡ e ++ contents t)
unfolding put_in_front copy_in
put_in_front_lem e me t w h =
    let at = t.pos - length e in
    let inside : at + length e ≤ length t.b = omega (arith, h, w.0, w.1) in
    let t' : FileBuf = record t { b = overwrite t.b at e; pos = at } in
    let same = length-overwrite t.b at e inside in
    let count : t.len - at ≡ length e + (t.len - t.pos) = omega (arith, h, w.0) in
    let back : at + length e ≡ t.pos = omega (arith, h) in
    (
      t',
      ground (arith, h, inside),
      (omega (arith, w.0), omega (arith, same, w.1)),
      ap (λ (k : ℕ). take k (drop at t'.b)) count
          ∙ drop-overwrite t.b at (t.len - t.pos) e inside
          ∙ ap (λ (k : ℕ). e ++ take (t.len - t.pos) (drop k t.b)) back,
    )

pub unget_lem :
    (c : ℕ) (me : FileBuf)
    → IsSound me
    → ((length me.b < me.len - me.pos + length (encode_utf8 c)) × (unget c me ≡ some (false, me)))
      ⊎ ((t : FileBuf) × (unget c me ≡ some (true, t))
          × IsSound t
          × (contents t ≡ encode_utf8 c ++ contents me))
unfolding unget put_in_front
unget_lem c me w = elim (room_in_front_lem (length (encode_utf8 c)) me w) [
  | inl (full, none_left) ↦ inl (full, rw none_left refl)
  | inr (t, made, w', before, kept) ↦
      let (t', put, w'', all) = put_in_front_lem (encode_utf8 c) me t w' before in
      inr (t', rw made put, w'', all ∙ ap (λ (l : List ℕ). encode_utf8 c ++ l) kept)
]

drop-append : (xs ys : List ℕ) → drop (length xs) (xs ++ ys) ≡ ys
drop-append [] ys = refl
drop-append (x ∷ xs) ys = drop-append xs ys

taken_lem :
    (t t' : FileBuf) (bytes : List ℕ) (n : ℕ)
    → 0 < n
    → consume n t ≡ some t'
    → taken t bytes n ≡ some (got (decode_one bytes), t')
unfolding taken
taken_lem t t' bytes zero h used = absurd (omega arith)
taken_lem t t' bytes (suc n) h used = rw used refl

-- A character put back in front of what is held is refused, with nothing changed, only when the
-- block has no room for it; otherwise the next `take` returns that character, whatever its length
-- and whatever stands behind it, and leaves what was held before.
pub take_rune-unget :
    (c : ℕ) (me : FileBuf)
    → IsChar c
    → IsSound me
    → ((length me.b < me.len - me.pos + length (encode_utf8 c)) × (unget c me ≡ some (false, me)))
      ⊎ ((t : FileBuf) × (t' : FileBuf) × (unget c me ≡ some (true, t))
          × (take_rune t ≡ some (got c, t'))
          × IsSound t'
          × (contents t' ≡ contents me))
unfolding take_rune
take_rune-unget c me is_char w = elim (unget_lem c me w) [
  | inl full ↦ inl full
  | inr (t, back, w', all) ↦
      let e = encode_utf8 c in
      let (measure, same, some_bytes) = decode-encode c (contents me) is_char in
      let (t', used, w'', _, rest) = consume_lem (length e) t w' in
      inr (
        t,
        t',
        back,
        rw (held_lem t w', all, measure)
              (taken_lem t t' (e ++ contents me) (length e) some_bytes used)
            ∙ ap (λ (k : ℕ). some (got k, t')) same,
        w'',
        rest ∙ ap (drop (length e)) all ∙ drop-append e (contents me),
      )
]
