-- ===== src/Runtime/FileBuf/Streams.antt =====
-- A stream through a buffer: whatever comes in goes out in the same order.
use koru.Prelude.{
  ℕ, zero, suc, ◌+◌, ◌≤◌, ◌≡◌, ◌≢◌, inl, inr, sym, ap, subst, ◌∙◌, Bool, true, false, none, some,
  List, [], ◌∷◌, ◌++◌, append-nil, append_assoc, arith, length, take, drop, take-append-drop,
  if◌then◌else◌,
}
use koru.Prelude.Partial.{some_inj}
use koru.Prelude.Runs.{overwrite, copy_in}
use koru.Runtime.Utf8.{utf8_decode}
use koru.Runtime.FileBuf.{
  FileBuf, RuneStep, LineStep, with_capacity, held, append, filled, consume, compact, regrow,
  take_line, take_rune, unget, taken, newline,
}
use koru.Runtime.FileBuf.Contents.{
  IsSound, contents, held_lem, with_capacity_lem, written, written_lem, append_lem, consume_lem,
  compact_lem, regrow_lem,
}
use koru.Runtime.FileBuf.Unget.{unget_lem}
use koru.Runtime.FileBuf.Lines.{Lines, take_line_lem}

-- The newline that ends a line and is not handed out with it.
unfoldable pub dropped : LineStep → Bool → List ℕ
dropped LineStep.more keep_nl = []
dropped LineStep.done true = []
dropped LineStep.done false = newline ∷ []

-- `Streamed w r me`: from an empty block to `me`, where `w` has been put in and `r` taken out:
-- what a step hands out, and the newline that `take_line` drops where it is not to keep it. `out` is
-- the line so far.
-- `fed` is the caller's write to the `tail` that it is lent, with `filled`.
pub data Streamed : List ℕ → List ℕ → FileBuf → Type 0 where
  fresh : (cap : ℕ) → Streamed [] [] (with_capacity cap)
  appended :
      {w r : List ℕ} {me t : FileBuf} (s : List ℕ) (g : Bool)
      → Streamed w r me
      → append s me ≡ some (g, t)
      → Streamed (w ++ (if g then s else [])) r t
  fed :
      {w r : List ℕ} {me : FileBuf} (s b : List ℕ)
      → Streamed w r me
      → copy_in me.b me.len s ≡ some b
      → Streamed (w ++ s) r (filled (length s) (record me { b = b }))
  consumed :
      {w r : List ℕ} {me t : FileBuf} (n : ℕ) (h : List ℕ)
      → Streamed w r me
      → held me ≡ some h
      → consume n me ≡ some t
      → Streamed w (r ++ take n h) t
  compacted :
      {w r : List ℕ} {me t : FileBuf} → Streamed w r me → compact me ≡ some t → Streamed w r t
  regrown :
      {w r : List ℕ} {me t : FileBuf} (cap : ℕ) (g : Bool)
      → Streamed w r me
      → regrow cap me ≡ some (g, t)
      → Streamed w r t
  lined :
      {w r : List ℕ} {me t : FileBuf} (step : LineStep) (out line : List ℕ) (keep_nl : Bool)
      → Streamed w r me
      → take_line out keep_nl me ≡ some (step, (out ++ line, t))
      → Streamed w (r ++ (line ++ dropped step keep_nl)) t
  decoded :
      {w r : List ℕ} {me t : FileBuf} (step : RuneStep) (h : List ℕ)
      → Streamed w r me
      → held me ≡ some h
      → take_rune me ≡ some (step, t)
      → Streamed w (r ++ take (utf8_decode h) h) t

-- What a stream owes: everything put in is taken out or still held, in order.
abbrev pub Owes : List ℕ → List ℕ → FileBuf → Type 0
Owes w r me = IsSound me × (w ≡ r ++ contents me)

Owes-taken :
    (w r : List ℕ) (me t : FileBuf) (n : ℕ)
    → Owes w r me
    → IsSound t
    → contents t ≡ drop n (contents me)
    → Owes w (r ++ take n (contents me)) t
Owes-taken w r me t n (s, all) s' left = (
  s',
  all
      ∙ ap (λ (l : List ℕ). r ++ l) (sym (take-append-drop n (contents me)))
      ∙ sym (append_assoc r (take n (contents me)) (drop n (contents me)))
      ∙ ap (λ (l : List ℕ). r ++ take n (contents me) ++ l) (sym left),
)

Owes-written :
    (w r s : List ℕ) (me : FileBuf)
    → Owes w r me
    → me.len + length s ≤ length me.b
    → Owes (w ++ s) r (written s me)
Owes-written w r s me (sound, all) inside =
    let (sound', more) = written_lem s me sound inside in
    (
      sound',
      ap (λ (l : List ℕ). l ++ s) all
          ∙ append_assoc r (contents me) s
          ∙ ap (λ (l : List ℕ). r ++ l) (sym more),
    )

Owes-appended :
    (w r s : List ℕ) (g : Bool) (me t : FileBuf)
    → Owes w r me
    → append s me ≡ some (g, t)
    → Owes (w ++ (if g then s else [])) r t
Owes-appended w r s g me t o e = elim (append_lem s me o.0) [
  | inl (_, refused) ↦
      let g' : g ≡ false = cc (refused, e) in
      let t' : me ≡ t = cc (refused, e) in
      rw g' (subst (Owes (w ++ []) r) t' (o.0, append-nil w ∙ o.1))
  | inr (done, inside) ↦
      let g' : g ≡ true = cc (done, e) in
      let t' : written s me ≡ t = cc (done, e) in
      rw g' (subst (Owes (w ++ s) r) t' (Owes-written w r s me o inside))
]

Owes-fed :
    (w r s b : List ℕ) (me : FileBuf)
    → Owes w r me
    → copy_in me.b me.len s ≡ some b
    → Owes (w ++ s) r (filled (length s) (record me { b = b }))
unfolding copy_in filled
Owes-fed w r s b me o e =
    let inside : me.len + length s ≤ length me.b = ground (arith, e) in
    let b' : overwrite me.b me.len s ≡ b = ground (arith, e) in
    subst (λ (l : List ℕ). Owes (w ++ s) r (record me { b = l; len = me.len + length s })) b'
      (Owes-written w r s me o inside)

Owes-consumed :
    (w r h : List ℕ) (n : ℕ) (me t : FileBuf)
    → Owes w r me
    → held me ≡ some h
    → consume n me ≡ some t
    → Owes w (r ++ take n h) t
Owes-consumed w r h n me t o e e' =
    let (u, used, sound, _, left) = consume_lem n me o.0 in
    let h' : h ≡ contents me = some_inj (sym e ∙ held_lem me o.0) in
    let t' : u ≡ t = some_inj (sym used ∙ e') in
    rw h' (subst (Owes w (r ++ take n (contents me))) t' (Owes-taken w r me u n o sound left))

Owes-decoded :
    (w r h : List ℕ) (n : ℕ) (step : RuneStep) (me t : FileBuf)
    → Owes w r me
    → held me ≡ some h
    → taken me h n ≡ some (step, t)
    → Owes w (r ++ take n h) t
unfolding taken
Owes-decoded w r h zero step me t o e e' =
    let t' : me ≡ t = cc e' in
    subst (λ (l : List ℕ). Owes w l t) (sym (append-nil r)) (subst (Owes w r) t' o)
Owes-decoded w r h (suc n) step me t o e e' =
    let (u, used, _, _, _) = consume_lem (suc n) me o.0 in
    let t' : u ≡ t = cc (rw used at e') in Owes-consumed w r h (suc n) me t o e (used ∙ ap some t')

append-inj : (out a b : List ℕ) → out ++ a ≡ out ++ b → a ≡ b
append-inj [] a b h = h
append-inj (x ∷ out) a b h = append-inj out a b (ap (drop 1) h)

-- A line and the newline that is dropped are what is gone from the front.
line_cut :
    (keep_nl : Bool) (bytes : List ℕ) (step : LineStep) (line rest : List ℕ)
    → Lines keep_nl bytes step line rest
    → bytes ≡ (line ++ dropped step keep_nl) ++ rest
unfolding dropped
line_cut keep_nl bytes step line rest (inl (m, all, nothing, _)) =
    rw (m, all, nothing) (sym (append-nil (bytes ++ []) ∙ append-nil bytes))
line_cut true bytes step line rest (inr (before, d, split, _, ends)) =
    rw (d, ends)
      (split
        ∙ sym (
            ap (λ (l : List ℕ). l ++ rest) (append-nil (before ++ newline ∷ []))
            ∙ append_assoc before (newline ∷ []) rest))
line_cut false bytes step line rest (inr (before, d, split, _, ends)) =
    rw (d, ends) (split ∙ sym (append_assoc before (newline ∷ []) rest))

Owes-lined :
    (w r out line : List ℕ) (step : LineStep) (keep_nl : Bool) (me t : FileBuf)
    → Owes w r me
    → take_line out keep_nl me ≡ some (step, (out ++ line, t))
    → Owes w (r ++ (line ++ dropped step keep_nl)) t
Owes-lined w r out line step keep_nl me t o e =
    let (step', line', u, done, sound, lines) = take_line_lem out keep_nl me o.0 in
    let same : out ++ line' ≡ out ++ line = cc (done, e) in
    let step'' : step' ≡ step = cc (done, e) in
    let t' : u ≡ t = cc (done, e) in
    let cut = line_cut keep_nl (contents me) step' line' (contents u) lines in
    let owed : Owes w (r ++ (line' ++ dropped step' keep_nl)) u = (
      sound,
      o.1
          ∙ ap (λ (l : List ℕ). r ++ l) cut
          ∙ sym (append_assoc r (line' ++ dropped step' keep_nl) (contents u)),
    ) in
    subst (λ (l : List ℕ). Owes w (r ++ (l ++ dropped step keep_nl)) t)
      (append-inj out line' line same)
      (subst (λ (q : LineStep). Owes w (r ++ (line' ++ dropped q keep_nl)) t) step''
        (subst (Owes w (r ++ (line' ++ dropped step' keep_nl))) t' owed))

pub streamed-Owes : {w r : List ℕ} {me : FileBuf} → Streamed w r me → Owes w r me
unfolding take_rune
streamed-Owes (fresh n) = let (s, nothing) = with_capacity_lem n in (s, sym nothing)
streamed-Owes (appended s g st e) = Owes-appended _ _ s g _ _ (streamed-Owes st) e
streamed-Owes (fed s b st e) = Owes-fed _ _ s b _ (streamed-Owes st) e
streamed-Owes (consumed n h st e e') = Owes-consumed _ _ h n _ _ (streamed-Owes st) e e'
streamed-Owes {w} {r} {me = t} (compacted {me = me} st e) =
    let o = streamed-Owes st in
    let (u, packed, sound, _, _, same) = compact_lem me o.0 in
    let t' : u ≡ t = some_inj (sym packed ∙ e) in
    subst (Owes w r) t' (sound, o.1 ∙ ap (λ (l : List ℕ). r ++ l) (sym same))
streamed-Owes {w} {r} {me = t} (regrown {me = me} n g st e) =
    let o = streamed-Owes st in
    let (g', u, grown, sound, same) = regrow_lem n me o.0 in
    let t' : u ≡ t = cc (grown, e) in
    subst (Owes w r) t' (sound, o.1 ∙ ap (λ (l : List ℕ). r ++ l) (sym same))
streamed-Owes (lined step out line keep_nl st e) =
    Owes-lined _ _ out line step keep_nl _ _ (streamed-Owes st) e
streamed-Owes (decoded step h st e e') =
    Owes-decoded _ _ h (utf8_decode h) step _ _ (streamed-Owes st) e (rw e at e')

taken_returns : (h : List ℕ) (n : ℕ) (me : FileBuf) → IsSound me → taken me h n ≢ none
unfolding taken
taken_returns h zero me w e = cc e
taken_returns h (suc n) me w e =
    let (_, used, _, _, _) = consume_lem (suc n) me w in cc (rw used at e)

-- However a stream appends, fills the room it is lent, consumes, takes lines or characters, packs
-- or grows its block, the ends of what is held stay inside the block, no operation panics, and the
-- bytes put in are exactly those taken out followed by those held, in order: none is lost,
-- repeated or moved. Taken out are what is consumed, the lines, kept with their newline or not, the
-- newlines that are not kept, and the characters.
pub streamed_lem :
    {w r : List ℕ} {me : FileBuf}
    → Streamed w r me
    → (h : List ℕ) × (held me ≡ some h)
      × (w ≡ r ++ h)
      × ((s : List ℕ) → append s me ≢ none)
      × ((n : ℕ) → consume n me ≢ none)
      × (compact me ≢ none)
      × ((n : ℕ) → regrow n me ≢ none)
      × (take_rune me ≢ none)
      × ((c : ℕ) → unget c me ≢ none)
      × ((out : List ℕ) (keep_nl : Bool) → take_line out keep_nl me ≢ none)
unfolding take_rune
streamed_lem {me = me} st =
    let (sound, all) = streamed-Owes st in
    (
      contents me,
      held_lem me sound,
      all,
      (λ s e. elim (append_lem s me sound) [
        | inl (_, refused) ↦ cc (refused, e)
        | inr (done, _) ↦ cc (done, e)
      ]),
      (λ n e. let (_, used, _, _, _) = consume_lem n me sound in cc (used, e)),
      (λ e. let (_, packed, _, _, _, _) = compact_lem me sound in cc (packed, e)),
      (λ n e. let (_, _, grown, _, _) = regrow_lem n me sound in cc (grown, e)),
      (λ e.
          taken_returns (contents me) (utf8_decode (contents me)) me sound
            (rw (held_lem me sound) at e)),
      (λ c e. elim (unget_lem c me sound) [
        | inl (_, refused) ↦ cc (refused, e)
        | inr (_, back, _, _) ↦ cc (back, e)
      ]),
      (λ out keep_nl e.
          let (_, _, _, done, _, _) = take_line_lem out keep_nl me sound in cc (done, e)),
    )
