-- ===== src/Runtime/FileBuf.antt =====
-- `FileBuf` of rust/runtime/src/filebuf.rs: the bytes that a buffered stream has in hand. `none` is
-- a panic. `tail` lends the room to the caller; what comes of it is a write past `len` and `filled`.
pub mod Contents
pub mod Lines
pub mod Unget
pub mod Streams
use koru.Prelude.{
  ℕ, zero, suc, ◌+◌, ◌-◌, Bool, true, false, not, ◌&&◌, Option, none, some, List, [], ◌∷◌, ◌++◌,
  length, take, drop, replicate, min, ltb, leb, ◌==◌, if◌then◌else◌,
}
use koru.Prelude.Partial.{minus, ◌>>=◌}
use koru.Prelude.Runs.{slice, copy_in, copy_within}
use koru.Runtime.Utf8.{encode_utf8, utf8_decode, decode_one, replacement}

pub data RuneStep : Type 0 where
  got : ℕ → RuneStep
  need : RuneStep

pub data LineStep : Type 0 where
  done : LineStep
  more : LineStep

pub record FileBuf : Type 0 where
  pub b : List ℕ
  pub pos : ℕ
  pub len : ℕ

unfoldable pub with_capacity : ℕ → FileBuf
with_capacity cap = record { b = replicate cap 0; pos = 0; len = 0 }

unfoldable pub adopt : List ℕ → FileBuf → FileBuf
adopt v me = record { b = v; pos = 0; len = length v }

unfoldable pub ready : FileBuf → Bool
ready me = ltb 0 (length me.b)

unfoldable pub size : FileBuf → Option ℕ
size me = minus me.len me.pos

unfoldable pub is_empty : FileBuf → Bool
is_empty me = me.pos == me.len

unfoldable pub held : FileBuf → Option (List ℕ)
held me = slice me.b me.pos me.len

unfoldable pub consume : ℕ → FileBuf → Option FileBuf
unfolding size
consume n me = size me >>= λ k. some (
    if me.pos + min n k == me.len
    then record me { pos = 0; len = 0 }
    else record me { pos = me.pos + min n k })

unfoldable pub compact : FileBuf → Option FileBuf
compact me =
    if me.pos == 0
    then some me
    else copy_within me.b me.pos me.len 0 >>= λ b.
        minus me.len me.pos >>= λ n. some (record { b = b; pos = 0; len = n })

-- `Vec::resize`
abbrev pub resized : List ℕ → ℕ → List ℕ
resized bs n = take n bs ++ replicate (n - length bs) 0

unfoldable pub regrow : ℕ → FileBuf → Option (Bool × FileBuf)
unfolding compact
regrow cap me =
    if leb cap (length me.b)
    then some (false, me)
    else compact me >>= λ t. some (true, record t { b = resized t.b cap })

unfoldable pub room : FileBuf → Option ℕ
room me = minus (length me.b) me.len

unfoldable pub filled : ℕ → FileBuf → FileBuf
filled n me = record me { len = me.len + n }

unfoldable pub reset : FileBuf → FileBuf
reset me = record me { pos = 0; len = 0 }

unfoldable pub taken : FileBuf → List ℕ → ℕ → Option (RuneStep × FileBuf)
taken me bytes zero = some (need, me)
taken me bytes (suc n) = consume (suc n) me >>= λ t. some (got (decode_one bytes), t)

unfoldable pub take_rune : FileBuf → Option (RuneStep × FileBuf)
unfolding held taken
take_rune me = held me >>= λ bytes. taken me bytes (utf8_decode bytes)

unfoldable pub take_broken : FileBuf → Option (ℕ × FileBuf)
unfolding consume is_empty
take_broken me = (if is_empty me then some me else consume 1 me) >>= λ t. some (replacement, t)

-- Room in front for `n` bytes, made by moving the held bytes along; `some none` is no room.
unfoldable pub room_in_front : ℕ → FileBuf → Option (Option FileBuf)
unfolding size
room_in_front n me =
    if leb n me.pos
    then some (some me)
    else size me >>= λ k.
        if ltb (length me.b) (k + n)
        then some none
        else copy_within me.b me.pos me.len n >>= λ b.
            some (some (record { b = b; pos = n; len = k + n }))

unfoldable pub put_in_front : List ℕ → FileBuf → Option FileBuf → Option (Bool × FileBuf)
put_in_front e me none = some (false, me)
put_in_front e me (some t) = minus t.pos (length e) >>= λ pos.
    copy_in t.b pos e >>= λ b. some (true, record t { b = b; pos = pos })

unfoldable pub unget : ℕ → FileBuf → Option (Bool × FileBuf)
unfolding room_in_front put_in_front
unget c me = room_in_front (length (encode_utf8 c)) me >>= λ r. put_in_front (encode_utf8 c) me r

abbrev pub newline : ℕ
newline = 10

abbrev after : Option ℕ → Option ℕ
after none = none
after (some i) = some (suc i)

-- `position`: the first newline.
unfoldable pub newline_at : List ℕ → Option ℕ
newline_at [] = none
newline_at (b ∷ bs) = if b == newline then some 0 else after (newline_at bs)

unfoldable pub line_taken :
    List ℕ → Bool → FileBuf → List ℕ → Option ℕ → Option (LineStep × (List ℕ × FileBuf))
line_taken out keep_nl me bytes none =
    size me >>= λ n. consume n me >>= λ t. some (more, (out ++ bytes, t))
line_taken out keep_nl me bytes (some nl) =
    slice bytes 0 (if keep_nl then nl + 1 else nl) >>= λ line.
    consume (nl + 1) me >>= λ t. some (done, (out ++ line, t))

unfoldable pub take_line : List ℕ → Bool → FileBuf → Option (LineStep × (List ℕ × FileBuf))
unfolding held line_taken newline_at
take_line out keep_nl me = held me >>= λ bytes. line_taken out keep_nl me bytes (newline_at bytes)

abbrev pub is_some : Option ℕ → Bool
is_some none = false
is_some (some i) = true

unfoldable pub has_line : FileBuf → Option Bool
unfolding ready held newline_at
has_line me =
    if ready me then (held me >>= λ bytes. some (is_some (newline_at bytes))) else some false

unfoldable pub append : List ℕ → FileBuf → Option (Bool × FileBuf)
unfolding room
append s me = room me >>= λ r.
    if ltb r (length s)
    then some (false, me)
    else copy_in me.b me.len s >>= λ b. some (true, record me { b = b; len = me.len + length s })

unfoldable pub append_rune : ℕ → FileBuf → Option (ℕ × FileBuf)
unfolding append
append_rune c me =
    append (encode_utf8 c) me >>= λ r. some (if r.0 then length (encode_utf8 c) else 0, r.1)
