-- ===== src/Runtime/Tests/Texts.antt =====
-- Concrete inputs for the theorems on the text buffer: two lines, the first with a character of two
-- bytes.
use koru.Prelude.{◌≡◌, true, false, some, List, ℕ, suc, [], ◌∷◌, arith, length}
use koru.Runtime.TextBuf.{TextBuf, load, serialize, split, join, clamp}
use koru.Runtime.TextBuf.Lines.{load-serialize}
use koru.Runtime.TextBuf.Edits.{join-split}

abbrev accented : List ℕ
accented = 97 ∷ 233 ∷ []

abbrev text : TextBuf
text = record { lines = accented ∷ [] ∷ []; modified = true }

load-serialize_example :
    load (serialize text) text ≡ record { lines = accented ∷ [] ∷ []; modified = false }
load-serialize_example =
    load-serialize accented ([] ∷ []) text true
      (((λ e. omega (arith, e)), ((λ e. omega (arith, e)), tt)), (tt, tt))

-- Inside the second character.
join-split_example :
    (t : TextBuf) × (split text 0 2 ≡ some t)
    × (length t.lines ≡ suc (length text.lines))
    × (join t 0 ≡ (some (clamp text 0 2), record text { modified = true }))
join-split_example = join-split text 0 2 (omega arith)
