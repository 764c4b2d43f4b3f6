-- ===== src/Runtime/TextBuf.antt =====
-- `TextBuf` of rust/runtime/src/textbuf.rs: the lines of a text and its edits. A line is the list
-- of its characters and an offset counts bytes. `none` is a panic.
pub mod Lines
pub mod Edits
use koru.Prelude.{
  ℕ, zero, suc, ◌+◌, ◌-◌, Bool, true, false, not, ◌&&◌, ◌||◌, Option, none, some, List, [], ◌∷◌,
  ◌++◌, length, get_elem?, set, take, drop, replicate, min, ltb, leb, ◌==◌, if◌then◌else◌,
}
use koru.Prelude.Partial.{◌>>=◌}
use koru.Runtime.Text.{byte_len, suffix_at}
use koru.Runtime.FileBuf.{newline, newline_at}

pub record TextBuf : Type 0 where
  pub lines : List (List ℕ)
  pub modified : Bool

abbrev pub line_found : (List ℕ → List (List ℕ)) → List ℕ → Option ℕ → List (List ℕ)
line_found next s none = s ∷ []
line_found next s (some nl) =
    let rest = drop (suc nl) s in take nl s ∷ (if length rest == 0 then [] else next rest)

-- At most `rounds` rounds; each but the last goes past a newline, so one more than there are
-- characters is enough.
unfoldable pub load_rounds : ℕ → List ℕ → List (List ℕ)
load_rounds zero s = []
load_rounds (suc rounds) s = line_found (load_rounds rounds) s (newline_at s)

abbrev pub or_empty_line : List (List ℕ) → List (List ℕ)
or_empty_line [] = [] ∷ []
or_empty_line (l ∷ ls) = l ∷ ls

unfoldable pub load : List ℕ → TextBuf → TextBuf
load s me = record { lines = or_empty_line (load_rounds (suc (length s)) s); modified = false }

unfoldable pub add : List ℕ → TextBuf → TextBuf
add l me = record me { lines = me.lines ++ l ∷ [] }

unfoldable pub serialized : List (List ℕ) → List ℕ
serialized [] = []
serialized (l ∷ ls) = l ++ newline ∷ serialized ls

unfoldable pub serialize : TextBuf → List ℕ
serialize me = serialized me.lines

-- `lines`
unfoldable pub line_count : TextBuf → ℕ
line_count me = if length me.lines == 0 then 1 else length me.lines

abbrev pub or_empty : Option (List ℕ) → List ℕ
or_empty none = []
or_empty (some l) = l

unfoldable pub line : TextBuf → ℕ → List ℕ
line me i = or_empty (get_elem? me.lines i)

unfoldable pub clear_modified : TextBuf → TextBuf
clear_modified me = record me { modified = false }

unfoldable pub ensure : TextBuf → ℕ → TextBuf
ensure me row = record me { lines = me.lines ++ replicate (suc row - length me.lines) [] }

abbrev pub is_some : Option (List ℕ) → Bool
is_some none = false
is_some (some s) = true

-- `str::is_char_boundary`
abbrev pub is_char_boundary : List ℕ → ℕ → Bool
is_char_boundary w at = is_some (suffix_at w at)

-- Down to a boundary that is below `at`.
unfoldable pub prev_from : List ℕ → ℕ → ℕ
prev_from w zero = 0
prev_from w (suc at) = let below = prev_from w at in if is_char_boundary w at then at else below

unfoldable pub prev : TextBuf → ℕ → ℕ → ℕ
prev me row at = prev_from (line me row) (min at (byte_len (line me row)))

-- Up to a boundary or the end, in at most `steps` steps.
unfoldable pub next_from : List ℕ → ℕ → ℕ → ℕ
next_from w zero at = at
next_from w (suc steps) at =
    let further = next_from w steps (at + 1) in
    if ltb at (byte_len w) && not (is_char_boundary w at) then further else at

unfoldable pub next : TextBuf → ℕ → ℕ → ℕ
next me row at =
    let w = line me row in
    if leb (byte_len w) at then byte_len w else next_from w (byte_len w) (at + 1)

unfoldable pub clamp : TextBuf → ℕ → ℕ → ℕ
clamp me row at =
    let w = line me row in
    let low = min at (byte_len w) in if is_char_boundary w low then low else prev me row low

-- What stands before a boundary: all but the suffix.
unfoldable pub cut_at : List ℕ → ℕ → Option (List ℕ × List ℕ)
cut_at w at = suffix_at w at >>= λ s. some (take (length w - length s) w, s)

unfoldable pub inserted : TextBuf → ℕ → ℕ → List ℕ → Option TextBuf
inserted me row at s = cut_at (line me row) at >>= λ c.
    some (record me { lines = set me.lines row (c.0 ++ s ++ c.1); modified = true })

-- `insert_str` in a row that there is.
unfoldable pub insert : TextBuf → ℕ → ℕ → List ℕ → Option TextBuf
insert me row at s = inserted (ensure me row) row (clamp (ensure me row) row at) s

unfoldable pub erased : TextBuf → ℕ → ℕ → ℕ → Option (ℕ × TextBuf)
erased me row at end_ = cut_at (line me row) at >>= λ before. cut_at (line me row) end_ >>= λ past.
    some (end_ - at, record me { lines = set me.lines row (before.0 ++ past.1); modified = true })

unfoldable pub erase : TextBuf → ℕ → ℕ → Option (ℕ × TextBuf)
erase me row at =
    if leb (length me.lines) row || leb (byte_len (line me row)) at
    then some (0, me)
    else erased me row at (next me row at)

-- `Vec::insert` and `Vec::remove`
abbrev pub insert_at : List (List ℕ) → ℕ → List ℕ → List (List ℕ)
insert_at ls i l = take i ls ++ l ∷ drop i ls

abbrev pub remove_at : List (List ℕ) → ℕ → List (List ℕ)
remove_at ls i = take i ls ++ drop (suc i) ls

unfoldable pub divided : TextBuf → ℕ → ℕ → Option TextBuf
divided me row at = cut_at (line me row) at >>= λ c.
    some (record me { lines = insert_at (set me.lines row c.0) (row + 1) c.1; modified = true })

unfoldable pub split : TextBuf → ℕ → ℕ → Option TextBuf
split me row at = divided (ensure me row) row (clamp (ensure me row) row at)

unfoldable pub join : TextBuf → ℕ → Option ℕ × TextBuf
join me row = if leb (length me.lines) (row + 1) then (none, me) else (
  some (byte_len (line me row)),
  record me {
    lines = set (remove_at me.lines (row + 1)) row (line me row ++ line me (row + 1));
    modified = true;
  },
)

-- The characters before an offset, when it is a boundary.
unfoldable pub column : TextBuf → ℕ → ℕ → Option ℕ
column me row at = cut_at (line me row) (min at (byte_len (line me row))) >>= λ c. some (length c.0)

unfoldable pub offset : TextBuf → ℕ → ℕ → ℕ
offset me row col = byte_len (take col (line me row))
