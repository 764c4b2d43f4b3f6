-- ===== src/Runtime/Opt/Progress.antt =====
-- Every call of `next` that returns a flag or an error makes progress.
use koru.Prelude.{
  ℕ, suc, ◌+◌, ◌-◌, ◌≤◌, ◌<◌, ◌≡◌, ◌≢◌, ◌⊎◌, inl, inr, refl, sym, ap, subst, ◌∙◌, true, false,
  Option, none, some, List, [], ◌∷◌, arith, length, get_elem?-some, drop, ltb, leb, ◌==◌,
  Bool-cases,
}
use koru.Runtime.Text.{byte_len, suffix_at, suffix_at_next, suffix_at_zero, byte_len-suffix_at}
use koru.Prelude.Partial.{some_inj}
use koru.Runtime.Utf8.{encode_utf8}
use koru.Runtime.Args.{Args, size, index}
use koru.Runtime.Opt.{
  Opts, Opt, OptError, OptParse, new, started, next, equal, dash, starts_with_dash,
}
use koru.Runtime.Opt.Letters.{weight, word, left, IsSound, Advances, Ends, nonempty, letter_lem}

-- A bundle that is begun, past its dash.
begun :
    (w : List ℕ)
    → ltb (byte_len w) 2 ≡ false
    → starts_with_dash w ≡ true
    → (c : ℕ) × (s : List ℕ) × (suffix_at w 1 ≡ some (c ∷ s))
unfolding encode_utf8
begun [] short h = absurd (cc h)
begun (x ∷ w) short h =
    let first : x ≡ dash = ground (arith, h) in
    let behind : suffix_at (dash ∷ w) 1 ≡ some w =
      suffix_at_next (dash ∷ w) 0 dash w (suffix_at_zero (dash ∷ w)) in
    let there : suffix_at (x ∷ w) 1 ≡ some w = rw first behind in
    let (c, s, same) = nonempty w (ground (arith, short, byte_len-suffix_at (x ∷ w) 1 w there)) in
    (c, s, there ∙ ap some same)

started_new :
    (p : OptParse) (w : List ℕ)
    → p.args.start ≤ length p.args.v
    → word p ≡ some w
    → (p.in_ == 0) ≡ true
    → Ends (started p w) ⊎ Advances p (started p w)
unfolding started
started_new p w inside e fresh = rw fresh (elim (Bool-cases (ltb (byte_len w) 2)) [
  | inl short ↦ rw short (inl (p, refl))
  | inr long ↦ rw long (elim (Bool-cases (starts_with_dash w)) [
    | inr operand ↦ rw operand (inl (p, refl))
    | inl flag ↦ rw flag (elim (Bool-cases (equal w (dash ∷ dash ∷ []))) [
      | inl separator ↦ rw separator (inl (record p { at = p.at + 1 }, refl))
      | inr bundle ↦
          let (c, s, there) = begun w long flag in
          let (answer, q, called, sound, same, some_answer, less) =
            letter_lem (record p { in_ = 1 }) w c s inside e there in
          let zero_off : p.in_ ≡ 0 = ground (arith, fresh) in
          rw bundle
            (inr (answer, q, called, sound, same, some_answer, omega (arith, less, zero_off)))
    ])
  ])
])

started_begun :
    (p : OptParse) (w : List ℕ)
    → IsSound p
    → word p ≡ some w
    → (p.in_ == 0) ≡ false
    → Advances p (started p w)
unfolding started
started_begun p w (inside, inl new) e begun = absurd (ground (arith, new, begun))
started_begun p w (inside, inr (w', c, s, e', there)) e begun =
    let same : w' ≡ w = some_inj (sym e' ∙ e) in
    rw begun (letter_lem p w c s inside e (rw same at there))

-- A call ends the options or makes progress, and never panics.
pub next_lem : (p : OptParse) → IsSound p → Ends (next p) ⊎ Advances p (next p)
unfolding next size index
next_lem p sound =
    let sized : ltb (length p.args.v) p.args.start ≡ false = ground (arith, sound.0) in
    rw sized (elim (Bool-cases (leb (length p.args.v - p.args.start) p.at)) [
      | inl over ↦ rw over (inl (p, refl))
      | inr more ↦
          let (w, e) = get_elem?-some p.args.v (p.args.start + p.at) (ground (arith, more)) in
          rw (more, e)
            (elim (Bool-cases (p.in_ == 0)) [
              | inl fresh ↦ started_new p w sound.0 e fresh
              | inr begun ↦ inr (started_begun p w sound e begun)
            ])
    ])

-- Calls one after the other, none of them the end of the options.
pub data Calls (p : OptParse) : ℕ → OptParse → Type 0 where
  here : Calls p 0 p
  call :
      {n : ℕ} {q r : OptParse} (answer : OptError ⊎ Option Opt)
      → Calls p n q
      → next q ≡ some (answer, r)
      → answer ≢ inr none
      → Calls p (suc n) r

call_lem :
    (q r : OptParse) (answer : OptError ⊎ Option Opt)
    → IsSound q
    → next q ≡ some (answer, r)
    → answer ≢ inr none
    → IsSound r × (left r < left q)
call_lem q r answer sound e some_answer = elim (next_lem q sound) [
  | inl (q', ends) ↦ let same : inr none ≡ answer = cc (ends, e) in absurd (some_answer (sym same))
  | inr (answer', r', called, sound', _, _, less) ↦
      let same : r' ≡ r = cc (called, e) in
      subst (λ (t : OptParse). IsSound t × (left t < left q)) same (sound', less)
]

calls_left : {p q : OptParse} {n : ℕ} → Calls p n q → IsSound p → IsSound q × (n + left q ≤ left p)
calls_left here sound = (sound, omega arith)
calls_left (call answer cs e some_answer) sound =
    let (sound', less) = calls_left cs sound in
    let (sound'', fewer) = call_lem _ _ answer sound' e some_answer in
    (sound'', omega (arith, less, fewer))

-- A caller that asks a new parser again and again, past its errors too, is told the end of the
-- options after at most as many calls as the words after the first have bytes, and one for each
-- word; no call panics.
pub calls_end :
    (args : Args) (spec : Opts) (n : ℕ) (q : OptParse)
    → args.start ≤ length args.v
    → Calls (new args spec) n q
    → (n ≤ weight (drop (args.start + 1) args.v)) × (next q ≢ none)
unfolding new
calls_end args spec n q inside cs =
    let (sound, less) = calls_left cs (inside, inl refl) in
    (
      omega (arith, less),
      λ e. elim (next_lem q sound) [
        | inl (_, ends) ↦ cc (ends, e)
        | inr (_, _, called, _, _, _, _) ↦ cc (called, e)
      ],
    )
