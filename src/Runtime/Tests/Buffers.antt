-- ===== src/Runtime/Tests/Buffers.antt =====
-- Concrete inputs for the theorems on the buffer of a stream.
use koru.Prelude.{
  ℕ, ◌+◌, ◌-◌, ◌<◌, ◌≡◌, ◌≢◌, ◌⊎◌, inl, refl, Bool, true, false, none, some, List, [], ◌∷◌, ◌++◌,
  arith, length,
}
use koru.Prelude.Runs.{overwrite, slice, copy_in}
use koru.Runtime.Utf8.{encode_utf8}
use koru.Runtime.FileBuf.{
  FileBuf, got, done, with_capacity, held, append, consume, compact, regrow, unget, take_rune,
  take_line, size,
}
use koru.Runtime.FileBuf.Contents.{IsSound, contents}
use koru.Runtime.FileBuf.Unget.{take_rune-unget}
use koru.Runtime.FileBuf.Streams.{Streamed, fresh, appended, lined, dropped, streamed_lem}

-- `b`, with no room in front.
abbrev tight : FileBuf
tight = record { b = 98 ∷ 0 ∷ 0 ∷ 0 ∷ []; pos = 0; len = 1 }

-- A character of two bytes.
take_rune-unget_example :
    ((length tight.b < tight.len - tight.pos + length (encode_utf8 233))
      × (unget 233 tight ≡ some (false, tight)))
    ⊎ ((t : FileBuf) × (t' : FileBuf) × (unget 233 tight ≡ some (true, t))
        × (take_rune t ≡ some (got 233, t'))
        × IsSound t'
        × (contents t' ≡ contents tight))
take_rune-unget_example = take_rune-unget 233 tight (inl (omega arith)) (omega arith, omega arith)

-- `a`, a newline and `b`.
abbrev text : List ℕ
text = 97 ∷ 10 ∷ 98 ∷ []

abbrev in_hand : FileBuf
in_hand = record { b = 97 ∷ 10 ∷ 98 ∷ 0 ∷ []; pos = 0; len = 3 }

abbrev after_line : FileBuf
after_line = record { b = 97 ∷ 10 ∷ 98 ∷ 0 ∷ []; pos = 2; len = 3 }

append-text : append text (with_capacity 4) ≡ some (true, in_hand)
unfolding append copy_in overwrite with_capacity
append-text = refl

take_line-text : take_line [] false in_hand ≡ some (done, (97 ∷ [], after_line))
unfolding take_line consume size slice
take_line-text = refl

streamed-text : Streamed text (97 ∷ 10 ∷ []) after_line
unfolding dropped
streamed-text =
    lined done [] (97 ∷ []) false (appended text true (fresh 4) append-text) take_line-text

streamed_lem_example :
    (h : List ℕ) × (held after_line ≡ some h)
    × (text ≡ (97 ∷ 10 ∷ []) ++ h)
    × ((s : List ℕ) → append s after_line ≢ none)
    × ((n : ℕ) → consume n after_line ≢ none)
    × (compact after_line ≢ none)
    × ((n : ℕ) → regrow n after_line ≢ none)
    × (take_rune after_line ≢ none)
    × ((c : ℕ) → unget c after_line ≢ none)
    × ((out : List ℕ) (keep_nl : Bool) → take_line out keep_nl after_line ≢ none)
streamed_lem_example = streamed_lem streamed-text
