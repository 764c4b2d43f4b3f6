-- ===== src/Runtime/TextBuf/Lines.antt =====
-- A text is its lines: what is written out is read back.
use koru.Prelude.{
  ℕ, zero, suc, ◌≤◌, ◌≡◌, ◌≢◌, refl, ap, Bool, false, some, List, [], ◌∷◌, ◌++◌, arith, length,
  length-append, take, drop, ◌==◌, All,
}
use koru.Runtime.FileBuf.{newline, newline_at}
use koru.Runtime.TextBuf.{TextBuf, load, load_rounds, serialize, serialized}

-- No line has a newline in it.
abbrev pub IsLine : List ℕ → Type 0
IsLine l = All (λ c. c ≢ newline) l

newline_at-line : (l s : List ℕ) → IsLine l → newline_at (l ++ newline ∷ s) ≡ some (length l)
unfolding newline_at
newline_at-line [] s w = refl
newline_at-line (c ∷ l) s w =
    let other : (c == newline) ≡ false = ground (arith, w.0) in
    rw (other, newline_at-line l s w.1) refl

take-line : (l s : List ℕ) → take (length l) (l ++ newline ∷ s) ≡ l
take-line [] s = refl
take-line (c ∷ l) s = ap (λ (t : List ℕ). c ∷ t) (take-line l s)

drop-line : (l s : List ℕ) → drop (suc (length l)) (l ++ newline ∷ s) ≡ s
drop-line [] s = refl
drop-line (c ∷ l) s = drop-line l s

load_rounds-serialized :
    (rounds : ℕ) (l : List ℕ) (ls : List (List ℕ))
    → All IsLine (l ∷ ls)
    → length (serialized (l ∷ ls)) ≤ rounds
    → load_rounds rounds (serialized (l ∷ ls)) ≡ l ∷ ls
unfolding load_rounds serialized
load_rounds-serialized zero l ls w h =
    absurd (omega (arith, h, length-append l (newline ∷ serialized ls)))
load_rounds-serialized (suc rounds) l [] w h =
    rw (newline_at-line l [] w.0, take-line l [], drop-line l []) refl
load_rounds-serialized (suc rounds) l (m ∷ ls) w h =
    let s = serialized (m ∷ ls) in
    let len = length-append l (newline ∷ s) in
    let more = length-append m (newline ∷ serialized ls) in
    let busy : (length s == 0) ≡ false = ground (arith, more) in
    let rest = load_rounds-serialized rounds m ls w.1 (omega (arith, h, len)) in
    rw (newline_at-line l s w.0, take-line l s, drop-line l s, busy, rest) refl

-- A buffer with at least one line, none of which has a newline in it, is read back from what it
-- writes out: the same lines, empty ones and a last empty one included, in the same order, and not
-- modified.
pub load-serialize :
    (l : List ℕ) (ls : List (List ℕ)) (me : TextBuf) (was : Bool)
    → All IsLine (l ∷ ls)
    → load (serialize (record { lines = l ∷ ls; modified = was })) me
      ≡ record { lines = l ∷ ls; modified = false }
unfolding load serialize
load-serialize l ls me was w =
    let s = serialized (l ∷ ls) in
    rw (load_rounds-serialized (suc (length s)) l ls w (omega arith)) refl
