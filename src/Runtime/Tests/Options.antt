-- ===== src/Runtime/Tests/Options.antt =====
-- Concrete inputs for the theorem on the options: `head -vn 5 f`.
use koru.Prelude.{◌+◌, ◌≤◌, ◌≡◌, ◌≢◌, inr, refl, none, some, [], ◌∷◌, arith, drop}
use koru.Runtime.Text.{byte_len, suffix_at, contains}
use koru.Runtime.Utf8.{encode_utf8}
use koru.Runtime.Args.{Args, size, index}
use koru.Runtime.Opt.{
  Opts, OptParse, new, next, started, letter, letter_of, value_of, next_word, flag_of,
}
use koru.Runtime.Opt.Letters.{weight}
use koru.Runtime.Opt.Progress.{Calls, here, call, calls_end}

abbrev line : Args
line = record { v = (104 ∷ []) ∷ (45 ∷ 118 ∷ 110 ∷ []) ∷ (53 ∷ []) ∷ (102 ∷ []) ∷ []; start = 0 }

abbrev spec : Opts
spec = record { flags = 118 ∷ []; valued = 110 ∷ [] }

-- Past `-v`, and past `-n 5`.
abbrev past_flag : OptParse
past_flag = record { args = line; spec = spec; at = 1; in_ = 2 }

abbrev past_value : OptParse
past_value = record { args = line; spec = spec; at = 3; in_ = 0 }

flag-line : next (new line spec) ≡ some (inr (some (record { name = 118; value = [] })), past_flag)
unfolding next new started letter letter_of flag_of value_of next_word size index byte_len suffix_at
    contains encode_utf8
flag-line = refl

value-line : next past_flag ≡ some (inr (some (record { name = 110; value = 53 ∷ [] })), past_value)
unfolding next started letter letter_of flag_of value_of next_word size index byte_len suffix_at
    contains encode_utf8
value-line = refl

two_calls : Calls (new line spec) 2 past_value
two_calls = call _ (call _ here flag-line (λ e. cc e)) value-line (λ e. cc e)

calls_end_example : (2 ≤ weight (drop (line.start + 1) line.v)) × (next past_value ≢ none)
calls_end_example = calls_end line spec 2 past_value (omega arith) two_calls
