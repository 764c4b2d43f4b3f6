-- ===== src/Runtime/Opt/Letters.antt =====
-- A letter makes progress: what is left to read, and what a letter leaves.
use koru.Prelude.{
  ℕ, zero, suc, ◌+◌, ◌-◌, ◌≤◌, ◌<◌, ◌≡◌, ◌≢◌, ◌⊎◌, inl, inr, refl, ap, ◌∙◌, Bool, true, false,
  Option, none, some, List, [], ◌∷◌, arith, length, get_elem?, get_elem?-some, drop, ltb, leb,
  if◌then◌else◌, Bool-cases,
}
use koru.Runtime.Text.{
  len_utf8, byte_len, suffix_at, contains, len_utf8-positive, suffix_at_next, byte_len-suffix_at,
}
use koru.Runtime.Args.{size, index}
use koru.Runtime.Opt.{
  Opt, OptError, invalid, not_found, OptParse, flag_of, next_word, value_of, letter_of, letter,
}

-- What words weigh: their bytes, and one for each.
abbrev pub weight : List (List ℕ) → ℕ
weight [] = 0
weight (w ∷ ws) = suc (byte_len w) + weight ws

weight-drop-suc : (ws : List (List ℕ)) (i : ℕ) → weight (drop (suc i) ws) ≤ weight (drop i ws)
weight-drop-suc [] zero = omega arith
weight-drop-suc [] (suc i) = omega arith
weight-drop-suc (w ∷ ws) zero = omega arith
weight-drop-suc (w ∷ ws) (suc i) = weight-drop-suc ws i

weight-drop :
    (ws : List (List ℕ)) (i : ℕ) (w : List ℕ)
    → get_elem? ws i ≡ some w
    → weight (drop i ws) ≡ suc (byte_len w) + weight (drop (suc i) ws)
weight-drop [] i w e = absurd (cc e)
weight-drop (x ∷ ws) zero w e =
    let same : x ≡ w = cc e in ap (λ (v : List ℕ). suc (byte_len v) + weight ws) same
weight-drop (x ∷ ws) (suc i) w e = weight-drop ws i w e

-- The word that is being read.
abbrev pub word : OptParse → Option (List ℕ)
word p = get_elem? p.args.v (p.args.start + p.at)

-- What is left to read.
abbrev pub left : OptParse → ℕ
left p = weight (drop (p.args.start + p.at) p.args.v) - p.in_

-- A word that is begun has a character left at the offset.
abbrev pub IsBegun : OptParse → Type 0
IsBegun p =
    (w : List ℕ) × (c : ℕ) × (s : List ℕ) × (word p ≡ some w) × (suffix_at w p.in_ ≡ some (c ∷ s))

-- The words start inside the vector, and the offset is at a new word or in one that is begun.
abbrev pub IsSound : OptParse → Type 0
IsSound p = (p.args.start ≤ length p.args.v) × ((p.in_ ≡ 0) ⊎ IsBegun p)

-- A word done, or two.
advance_one :
    (ws : List (List ℕ)) (start at in_ : ℕ) (w : List ℕ)
    → get_elem? ws (start + at) ≡ some w
    → in_ ≤ byte_len w
    → weight (drop (start + (at + 1)) ws) - 0 < weight (drop (start + at) ws) - in_
advance_one ws start at in_ w e h =
    let next : start + (at + 1) ≡ suc (start + at) = omega arith in
    rw next (omega (arith, weight-drop ws (start + at) w e, h))

advance_two :
    (ws : List (List ℕ)) (start at in_ : ℕ) (w : List ℕ)
    → get_elem? ws (start + at) ≡ some w
    → in_ ≤ byte_len w
    → weight (drop (start + (at + 2)) ws) - 0 < weight (drop (start + at) ws) - in_
advance_two ws start at in_ w e h =
    let next : start + (at + 2) ≡ suc (suc (start + at)) = omega arith in
    rw next
      (omega (arith, weight-drop ws (start + at) w e, weight-drop-suc ws (suc (start + at)), h))

-- A call that returns a flag or an error, and leaves less to read.
abbrev pub Advances : OptParse → Option ((OptError ⊎ Option Opt) × OptParse) → Type 0
Advances p out =
    (answer : OptError ⊎ Option Opt) × (q : OptParse) × (out ≡ some (answer, q))
    × IsSound q
    × (q.args ≡ p.args)
    × (answer ≢ inr none)
    × (left q < left p)

-- A call that returns the end of the options.
abbrev pub Ends : Option ((OptError ⊎ Option Opt) × OptParse) → Type 0
Ends out = (q : OptParse) × (out ≡ some (inr none, q))

pub nonempty : (s : List ℕ) → 0 < byte_len s → (c : ℕ) × (s' : List ℕ) × (s ≡ c ∷ s')
unfolding byte_len
nonempty [] h = absurd (omega arith)
nonempty (c ∷ s) h = (c, s, refl)

module _ (p : OptParse) (w : List ℕ) (c : ℕ) (s : List ℕ) (inside : p.args.start ≤ length p.args.v)
    (e : word p ≡ some w) (there : suffix_at w p.in_ ≡ some (c ∷ s)) where
  abbrev past : OptParse
  past = record p { in_ = p.in_ + len_utf8 c }

  rest_there : suffix_at w past.in_ ≡ some s
  rest_there = suffix_at_next w p.in_ c s there

  rest_len : p.in_ + len_utf8 c + byte_len s ≡ byte_len w
  rest_len = byte_len-suffix_at w (p.in_ + len_utf8 c) s rest_there

  one_on : (left (record past { at = past.at + 1; in_ = 0 }) < left p)
  one_on = advance_one p.args.v p.args.start p.at p.in_ w e (omega (arith, rest_len))

  -- Where a letter without a value leaves the parser.
  abbrev after_flag : Bool → OptParse
  after_flag last = if last then record past { at = past.at + 1; in_ = 0 } else past

  after_flag_lem :
      (last : Bool)
      → leb (byte_len w) past.in_ ≡ last
      → IsSound (after_flag last)
        × ((after_flag last).args ≡ p.args)
        × (left (after_flag last) < left p)
  after_flag_lem true h = ((inside, inl refl), refl, one_on)
  after_flag_lem false h =
      let more : 0 < byte_len s = ground (arith, h, rest_len) in
      let (d, s', same) = nonempty s more in
      let whole = weight-drop p.args.v (p.args.start + p.at) w e in
      (
        (inside, inr (w, d, s', e, rest_there ∙ ap some same)),
        refl,
        omega (arith, whole, rest_len, len_utf8-positive c),
      )

  flag_of_lem : (last : Bool) → leb (byte_len w) past.in_ ≡ last → Advances p (flag_of past c last)
  unfolding flag_of
  flag_of_lem last h =
      let (sound, same, less) = after_flag_lem last h in
      elim (Bool-cases (contains p.spec.flags c)) [
        | inl known ↦ (
          inr (some (record { name = c; value = [] })),
          after_flag last,
          rw known refl,
          sound,
          same,
          (λ e. cc e),
          less,
        )
        | inr unknown ↦ (
          inl (record { name = c; error = invalid }),
          after_flag last,
          rw unknown refl,
          sound,
          same,
          (λ e. cc e),
          less,
        )
      ]

  next_word_lem : Advances p (next_word past c (length p.args.v - p.args.start))
  unfolding next_word index
  next_word_lem = elim (Bool-cases (ltb (p.at + 1) (length p.args.v - p.args.start))) [
    | inl there ↦
        let (value, found) =
          get_elem?-some p.args.v (p.args.start + (p.at + 1)) (ground (arith, there)) in
        (
          inr (some (record { name = c; value = value })),
          record past { at = past.at + 2; in_ = 0 },
          rw (there, found) refl,
          (inside, inl refl),
          refl,
          (λ e. cc e),
          advance_two p.args.v p.args.start p.at p.in_ w e (omega (arith, rest_len)),
        )
    | inr missing ↦ (
      inl (record { name = c; error = not_found }),
      record past { at = past.at + 1; in_ = 0 },
      rw missing refl,
      (inside, inl refl),
      refl,
      (λ e. cc e),
      one_on,
    )
  ]

  value_of_lem : (last : Bool) → Advances p (value_of past c w last)
  unfolding value_of size
  value_of_lem true =
      let sized : ltb (length p.args.v) p.args.start ≡ false = ground (arith, inside) in
      rw sized next_word_lem
  value_of_lem false = (
    inr (some (record { name = c; value = s })),
    record past { at = past.at + 1; in_ = 0 },
    rw rest_there refl,
    (inside, inl refl),
    refl,
    (λ e. cc e),
    one_on,
  )

  pub letter_lem : Advances p (letter p w)
  unfolding letter letter_of
  letter_lem = rw there (elim (Bool-cases (contains p.spec.valued c)) [
    | inl valued ↦ rw valued (value_of_lem (leb (byte_len w) past.in_))
    | inr flag ↦ rw flag (flag_of_lem (leb (byte_len w) past.in_) refl)
  ])
