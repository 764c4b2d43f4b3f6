-- ===== src/Runtime/FileBuf/Contents.antt =====
-- What each operation does to the bytes that a buffer holds.
use koru.Prelude.{
  ℕ, zero, suc, ◌+◌, ◌-◌, ◌≤◌, ◌<◌, ◌≡◌, ◌⊎◌, inl, inr, refl, sym, ap, ◌∙◌, Bool, true, false, some,
  List, [], ◌∷◌, ◌++◌, arith, length, length-append, length-take, length-drop, take, drop,
  replicate, min, leb, ◌==◌, drop-drop, take-drop-append, Bool-cases, lt-cases,
}
use koru.Prelude.Runs.{
  overwrite, slice, copy_in, copy_within, length-overwrite, take-overwrite, drop-take,
}
use koru.Runtime.FileBuf.{
  FileBuf, with_capacity, size, held, consume, compact, regrow, resized, room, append,
}

-- Both ends of what is held lie in the block.
abbrev pub IsSound : FileBuf → Type 0
IsSound me = (me.pos ≤ me.len) × (me.len ≤ length me.b)

-- What a reader has not taken, or a writer has not sent.
abbrev pub contents : FileBuf → List ℕ
contents me = take (me.len - me.pos) (drop me.pos me.b)

pub held_lem : (me : FileBuf) → IsSound me → held me ≡ some (contents me)
unfolding held slice
held_lem me w = ground (arith, w)

pub length-contents : (me : FileBuf) → IsSound me → length (contents me) ≡ me.len - me.pos
length-contents me w =
    length-take (me.len - me.pos) (drop me.pos me.b)
    ∙ omega (arith, length-drop me.pos me.b, w.0, w.1)

pub with_capacity_lem :
    (cap : ℕ) → IsSound (with_capacity cap) × (contents (with_capacity cap) ≡ [])
unfolding with_capacity
with_capacity_lem cap = ((omega arith, omega arith), refl)

-- A write to the room behind what is held.
abbrev pub written : List ℕ → FileBuf → FileBuf
written s me = record me { b = overwrite me.b me.len s; len = me.len + length s }

pub written_lem :
    (s : List ℕ) (me : FileBuf)
    → IsSound me
    → me.len + length s ≤ length me.b
    → IsSound (written s me) × (contents (written s me) ≡ contents me ++ s)
written_lem s me w inside =
    let same = length-overwrite me.b me.len s inside in
    let shift : me.len + length s - me.pos ≡ me.len - me.pos + length s = omega (arith, w.0) in
    (
      (omega (arith, w.0), omega (arith, same, inside)),
      ap (λ (n : ℕ). take n (drop me.pos (overwrite me.b me.len s))) shift
          ∙ take-overwrite me.b me.pos me.len s w.0 inside,
    )

pub append_lem :
    (s : List ℕ) (me : FileBuf)
    → IsSound me
    → ((length me.b < me.len + length s) × (append s me ≡ some (false, me)))
      ⊎ ((append s me ≡ some (true, written s me)) × (me.len + length s ≤ length me.b))
unfolding append room copy_in
append_lem s me w = elim (lt-cases (length me.b) (me.len + length s)) [
  | inl full ↦ inl (full, ground (arith, w, full))
  | inr fits ↦
      let inside : me.len + length s ≤ length me.b = omega (arith, fits) in
      inr (ground (arith, w, inside), inside)
]

pub drop-all : (xs : List ℕ) (n : ℕ) → length xs ≤ n → drop n xs ≡ []
drop-all [] zero h = refl
drop-all [] (suc n) h = refl
drop-all (x ∷ xs) zero h = absurd (omega arith)
drop-all (x ∷ xs) (suc n) h = drop-all xs n (omega arith)

pub consume_lem :
    (n : ℕ) (me : FileBuf)
    → IsSound me
    → (t : FileBuf) × (consume n me ≡ some t)
      × IsSound t
      × (t.b ≡ me.b)
      × (contents t ≡ drop n (contents me))
unfolding consume size
consume_lem n me w = elim (Bool-cases (me.pos + min n (me.len - me.pos) == me.len)) [
  | inl whole ↦
      let t : FileBuf = record { b = me.b; pos = 0; len = 0 } in
      let past : length (contents me) ≤ n = ground (arith, w, length-contents me w, whole) in
      (
        t,
        ground (arith, w, whole),
        (omega arith, omega arith),
        refl,
        sym (drop-all (contents me) n past),
      )
  | inr part ↦
      let t : FileBuf = record { b = me.b; pos = me.pos + min n (me.len - me.pos); len = me.len } in
      let few : min n (me.len - me.pos) ≡ n = ground (arith, w, part) in
      let shift : me.len - (me.pos + n) ≡ me.len - me.pos - n = omega arith in
      (
        t,
        ground (arith, w, part),
        (omega (arith, w.0), w.1),
        refl,
        ap (λ (k : ℕ). take (me.len - (me.pos + k)) (drop (me.pos + k) me.b)) few
            ∙ ap (λ (k : ℕ). take k (drop (me.pos + n) me.b)) shift
            ∙ ap (take (me.len - me.pos - n)) (sym (drop-drop n me.pos me.b))
            ∙ sym (drop-take n (me.len - me.pos) (drop me.pos me.b)),
      )
]

pub compact_lem :
    (me : FileBuf)
    → IsSound me
    → (t : FileBuf) × (compact me ≡ some t)
      × IsSound t
      × (length t.b ≡ length me.b)
      × (t.pos ≡ 0)
      × (contents t ≡ contents me)
unfolding compact copy_within copy_in slice
compact_lem me w = elim (Bool-cases (me.pos == 0)) [
  | inl front ↦ (me, rw front refl, w, refl, ground (arith, front), refl)
  | inr moved ↦
      let n = me.len - me.pos in
      let n' = length-contents me w in
      let inside : 0 + length (contents me) ≤ length me.b = omega (arith, n', w.1) in
      let t : FileBuf = record { b = overwrite me.b 0 (contents me); pos = 0; len = n } in
      let same = length-overwrite me.b 0 (contents me) inside in
      let none_before : n - 0 ≡ 0 - 0 + length (contents me) = omega (arith, n') in
      (
        t,
        ground (arith, w, moved, inside),
        (omega arith, omega (arith, same, w.1)),
        same,
        refl,
        ap (λ (k : ℕ). take k (drop 0 t.b)) none_before
            ∙ take-overwrite me.b 0 0 (contents me) (omega arith) inside,
      )
]

take-all : (xs : List ℕ) (n : ℕ) → length xs ≤ n → take n xs ≡ xs
take-all [] zero h = refl
take-all [] (suc n) h = refl
take-all (x ∷ xs) zero h = absurd (omega arith)
take-all (x ∷ xs) (suc n) h = ap (λ (l : List ℕ). x ∷ l) (take-all xs n (omega arith))

pub regrow_lem :
    (cap : ℕ) (me : FileBuf)
    → IsSound me
    → (g : Bool) × (t : FileBuf) × (regrow cap me ≡ some (g, t))
      × IsSound t
      × (contents t ≡ contents me)
unfolding regrow
regrow_lem cap me w = elim (Bool-cases (leb cap (length me.b))) [
  | inl enough ↦ (false, me, rw enough refl, w, refl)
  | inr small ↦
      let (t, packed, w', same, front, kept) = compact_lem me w in
      let t' : FileBuf = record t { b = resized t.b cap } in
      let grown : length t.b ≤ cap = ground (arith, small, same) in
      let longer : resized t.b cap ≡ t.b ++ replicate (cap - length t.b) 0 =
        ap (λ (l : List ℕ). l ++ replicate (cap - length t.b) 0) (take-all t.b cap grown) in
      (
        true,
        t',
        rw (small, packed) refl,
        (w'.0, rw longer (omega (arith, w'.1, length-append t.b (replicate (cap - length t.b) 0)))),
        ap (λ (l : List ℕ). take (t.len - t.pos) (drop t.pos l)) longer
            ∙ take-drop-append t.b (replicate (cap - length t.b) 0) t.pos (t.len - t.pos)
                (omega (arith, w'.0, w'.1))
            ∙ kept,
      )
]
