-- ===== src/Runtime/FileBuf/Lines.antt =====
-- What `take_line` takes.
use koru.Prelude.{
  ℕ, zero, suc, ◌+◌, ◌-◌, ◌<◌, ◌≡◌, ◌≢◌, ◌⊎◌, inl, inr, refl, sym, ap, ◌∙◌, Bool, true, false, none,
  some, List, [], ◌∷◌, ◌++◌, arith, length, length-take, take, drop, ◌==◌, ltb, if◌then◌else◌, All,
  Bool-cases, Option-cases,
}
use koru.Prelude.Runs.{slice, take-append_past}
use koru.Runtime.FileBuf.{
  FileBuf, LineStep, done, more, newline, newline_at, line_taken, take_line, size,
}
use koru.Runtime.FileBuf.Contents.{
  IsSound, contents, held_lem, consume_lem, length-contents, drop-all,
}

newline_at-none : (bs : List ℕ) → newline_at bs ≡ none → All (λ b. b ≢ newline) bs
unfolding newline_at
newline_at-none [] h = tt
newline_at-none (b ∷ bs) h = elim (Option-cases (newline_at bs)) [
  | inl e ↦ (λ same. ground (arith, h, e, same), newline_at-none bs e)
  | inr (i, e) ↦ absurd (ground (arith, h, e))
]

newline_at-some :
    (bs : List ℕ) (i : ℕ)
    → newline_at bs ≡ some i
    → (i < length bs)
      × (bs ≡ take i bs ++ newline ∷ drop (suc i) bs)
      × All (λ b. b ≢ newline) (take i bs)
unfolding newline_at
newline_at-some [] i h = absurd (cc h)
newline_at-some (b ∷ bs) zero h = elim (Bool-cases (b == newline)) [
  | inl here ↦
      let same : b ≡ newline = ground (arith, here) in
      (omega arith, ap (λ (n : ℕ). n ∷ bs) same, tt)
  | inr other ↦ elim (Option-cases (newline_at bs)) [
    | inl e ↦ absurd (ground (arith, h, e, other))
    | inr (j, e) ↦ absurd (ground (arith, h, e, other))
  ]
]
newline_at-some (b ∷ bs) (suc i) h = elim (Bool-cases (b == newline)) [
  | inl here ↦ absurd (ground (arith, h, here))
  | inr other ↦ elim (Option-cases (newline_at bs)) [
    | inl e ↦ absurd (ground (arith, h, e, other))
    | inr (j, e) ↦
        let same : j ≡ i = ground (arith, h, e, other) in
        let (inside, cut, clear) = newline_at-some bs i (e ∙ ap (λ (k : ℕ). some k) same) in
        (
          omega (arith, inside),
          ap (λ (l : List ℕ). b ∷ l) cut,
          (λ (e : b ≡ newline). ground (arith, other, e), clear),
        )
  ]
]

-- How a line lies in what was held: the whole of it, with no newline, or what stands before the
-- first newline, which goes with it only if it is to be kept.
abbrev pub Lines : Bool → List ℕ → LineStep → List ℕ → List ℕ → Type 0
Lines keep_nl bytes step line rest =
    ((step ≡ more) × (line ≡ bytes) × (rest ≡ []) × All (λ b. b ≢ newline) bytes)
    ⊎ ((before : List ℕ) × (step ≡ done)
        × (bytes ≡ before ++ newline ∷ rest)
        × All (λ b. b ≢ newline) before
        × (line ≡ (if keep_nl then before ++ newline ∷ [] else before)))

abbrev ended : Bool → List ℕ → ℕ → List ℕ
ended keep_nl bytes i = take (if keep_nl then i + 1 else i) bytes

sliced :
    (keep_nl : Bool) (bytes : List ℕ) (i : ℕ)
    → i < length bytes
    → slice bytes 0 (if keep_nl then i + 1 else i) ≡ some (ended keep_nl bytes i)
unfolding slice
sliced true bytes i h = ground (arith, h)
sliced false bytes i h = ground (arith, h)

ended_lem :
    (keep_nl : Bool) (bytes : List ℕ) (i : ℕ)
    → bytes ≡ take i bytes ++ newline ∷ drop (suc i) bytes
    → i < length bytes
    → ended keep_nl bytes i ≡ (if keep_nl then take i bytes ++ newline ∷ [] else take i bytes)
ended_lem false bytes i cut h = refl
ended_lem true bytes i cut h =
    let before = take i bytes in
    let upto : i + 1 ≡ length before + 1 = omega (arith, length-take i bytes, h) in
    ap (take (i + 1)) cut
    ∙ ap (λ (k : ℕ). take k (before ++ newline ∷ drop (suc i) bytes)) upto
    ∙ take-append_past before (newline ∷ drop (suc i) bytes) 1

pub take_line_lem :
    (out : List ℕ) (keep_nl : Bool) (me : FileBuf)
    → IsSound me
    → (step : LineStep) × (line : List ℕ) × (t : FileBuf) × (take_line out keep_nl me
        ≡ some (step, (out ++ line, t)))
      × IsSound t
      × Lines keep_nl (contents me) step line (contents t)
unfolding take_line line_taken size
take_line_lem out keep_nl me w = elim (Option-cases (newline_at (contents me))) [
  | inl e ↦
      let n = me.len - me.pos in
      let (t, used, w', _, left) = consume_lem n me w in
      let sized : ltb me.len me.pos ≡ false = ground (arith, w) in
      let all : contents t ≡ [] =
        left ∙ drop-all (contents me) n (omega (arith, length-contents me w)) in
      (
        more,
        contents me,
        t,
        rw (held_lem me w, e, sized, used) refl,
        w',
        inl (refl, refl, all, newline_at-none (contents me) e),
      )
  | inr (i, e) ↦
      let (inside, cut, clear) = newline_at-some (contents me) i e in
      let (t, used, w', _, left) = consume_lem (i + 1) me w in
      let next : suc i ≡ i + 1 = omega arith in
      let same : drop (suc i) (contents me) ≡ contents t =
        ap (λ (k : ℕ). drop k (contents me)) next ∙ sym left in
      let cut' : contents me ≡ take i (contents me) ++ newline ∷ contents t =
        cut ∙ ap (λ (l : List ℕ). take i (contents me) ++ newline ∷ l) same in
      (
        done,
        ended keep_nl (contents me) i,
        t,
        rw (held_lem me w, e, sliced keep_nl (contents me) i inside, used) refl,
        w',
        inr (take i (contents me), refl, cut', clear, ended_lem keep_nl (contents me) i cut inside),
      )
]
