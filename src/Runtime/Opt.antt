-- ===== src/Runtime/Opt.antt =====
-- `OptParse` of rust/runtime/src/opt.rs: flags in bundles, `--`, and flags with a value. Text is
-- the list of its characters, offsets into it are in bytes, and `none` is a panic.
pub mod Letters
pub mod Progress
use koru.Prelude.{
  ℕ, zero, suc, ◌+◌, ◌-◌, ◌⊎◌, inl, inr, Bool, true, false, not, ◌&&◌, ◌||◌, Option, none, some,
  List, [], ◌∷◌, ltb, leb, ◌==◌, if◌then◌else◌,
}
use koru.Prelude.Partial.{◌>>=◌}
use koru.Runtime.Text.{len_utf8, byte_len, suffix_at, contains}
use koru.Runtime.Args
use koru.Runtime.Args.{Args, size, index}

pub record Opts : Type 0 where
  pub flags : List ℕ
  pub valued : List ℕ

pub record Opt : Type 0 where
  pub name : ℕ
  pub value : List ℕ

-- `ENOENT` and `EINVAL`, as `Error::from_errno` takes them.
pub data Error : Type 0 where
  not_found : Error
  invalid : Error

pub record OptError : Type 0 where
  pub name : ℕ
  pub error : Error

pub record OptParse : Type 0 where
  pub args : Args
  pub spec : Opts
  pub at : ℕ
  pub in_ : ℕ

-- `Result<Option<Opt>, OptError>`, and what is left of the parser.
abbrev pub Answer : Type 0
Answer = Option ((OptError ⊎ Option Opt) × OptParse)

unfoldable pub new : Args → Opts → OptParse
new args spec = record { args = args; spec = spec; at = 1; in_ = 0 }

abbrev pub dash : ℕ
dash = 45

abbrev pub equal : List ℕ → List ℕ → Bool
equal [] [] = true
equal (a ∷ s) (b ∷ t) = a == b && equal s t
equal _ _ = false

-- `-h`, `--help`
abbrev help_words : List (List ℕ)
help_words = (45 ∷ 104 ∷ []) ∷ (45 ∷ 45 ∷ 104 ∷ 101 ∷ 108 ∷ 112 ∷ []) ∷ []

abbrev any_equal : List (List ℕ) → List ℕ → Bool
any_equal [] w = false
any_equal (x ∷ xs) w = equal w x || any_equal xs w

unfoldable pub help_asked : Args → Option Bool
help_asked args = size args >>= λ n.
    if n == 2 then (index args 1 >>= λ w. some (any_equal help_words w)) else some false

abbrev pub starts_with_dash : List ℕ → Bool
starts_with_dash [] = false
starts_with_dash (c ∷ s) = c == dash

-- A letter without a value, `q` being the parser past it.
unfoldable pub flag_of : OptParse → ℕ → Bool → Answer
flag_of q c last =
    let r = if last then record q { at = q.at + 1; in_ = 0 } else q in
    if contains q.spec.flags c
    then some (inr (some (record { name = c; value = [] })), r)
    else some (inl (record { name = c; error = invalid }), r)

-- The next word as the value, when the letter is the last of its own.
unfoldable pub next_word : OptParse → ℕ → ℕ → Answer
next_word q c n =
    if ltb (q.at + 1) n
    then (index q.args (q.at + 1) >>= λ value.
        some (inr (some (record { name = c; value = value })), record q { at = q.at + 2; in_ = 0 }))
    else some (inl (record { name = c; error = not_found }), record q { at = q.at + 1; in_ = 0 })

unfoldable pub value_of : OptParse → ℕ → List ℕ → Bool → Answer
value_of q c w false = suffix_at w q.in_ >>= λ value.
    some (inr (some (record { name = c; value = value })), record q { at = q.at + 1; in_ = 0 })
value_of q c w true = size q.args >>= λ n. next_word q c n

unfoldable pub letter_of : OptParse → List ℕ → List ℕ → Answer
letter_of p w [] = some (inr none, p)
letter_of p w (c ∷ s) =
    let q = record p { in_ = p.in_ + len_utf8 c } in
    let last = leb (byte_len w) q.in_ in
    if contains p.spec.valued c then value_of q c w last else flag_of q c last

unfoldable pub letter : OptParse → List ℕ → Answer
letter p w = suffix_at w p.in_ >>= λ s. letter_of p w s

-- The word that is being read, or a new one.
unfoldable pub started : OptParse → List ℕ → Answer
started p w =
    if p.in_ == 0
    then if ltb (byte_len w) 2 || not (starts_with_dash w)
      then some (inr none, p)
      else if equal w (dash ∷ dash ∷ [])
      then some (inr none, record p { at = p.at + 1 })
      else letter (record p { in_ = 1 }) w
    else letter p w

unfoldable pub next : OptParse → Answer
next p = size p.args >>= λ n.
    if leb n p.at then some (inr none, p) else index p.args p.at >>= λ w. started p w

unfoldable pub rest : OptParse → Args
rest p = Args.skip p.args p.at
