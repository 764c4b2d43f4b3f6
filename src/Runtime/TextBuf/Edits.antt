-- ===== src/Runtime/TextBuf/Edits.antt =====
-- A split undone by a join.
use koru.Prelude.{
  ℕ, zero, suc, ◌+◌, ◌-◌, ◌≤◌, ◌<◌, ◌≡◌, inl, inr, refl, ap, ◌∙◌, true, false, some, List, [], ◌∷◌,
  ◌++◌, append-nil, arith, length, length-append, get_elem?, get_elem?-some, set, take, replicate,
  min, leb, Bool-cases, Option-cases, get_elem?-lt, get_elem?-set_self, length-set,
}
use koru.Runtime.Text.{byte_len, suffix_at, suffix_at_zero, prefix_at}
use koru.Runtime.TextBuf.{
  TextBuf, line, ensure, is_char_boundary, prev_from, prev, clamp, cut_at, insert_at, remove_at,
  divided, split, join,
}

boundary_suffix :
    (w : List ℕ) (at : ℕ) → is_char_boundary w at ≡ true → (s : List ℕ) × (suffix_at w at ≡ some s)
boundary_suffix w at h = elim (Option-cases (suffix_at w at)) [
  | inl e ↦ absurd (cc (rw e at h))
  | inr found ↦ found
]

prev_from_boundary : (w : List ℕ) (at : ℕ) → is_char_boundary w (prev_from w at) ≡ true
unfolding prev_from
prev_from_boundary w zero = rw (suffix_at_zero w) refl
prev_from_boundary w (suc at) = elim (Bool-cases (is_char_boundary w at)) [
  | inl here ↦ rw here here
  | inr below ↦ rw below (prev_from_boundary w at)
]

clamp_boundary :
    (me : TextBuf) (row at : ℕ) → is_char_boundary (line me row) (clamp me row at) ≡ true
unfolding clamp prev
clamp_boundary me row at =
    let w = line me row in
    let low = min at (byte_len w) in
    elim (Bool-cases (is_char_boundary w low)) [
      | inl here ↦ rw here here
      | inr inside ↦ rw inside (prev_from_boundary w (min low (byte_len w)))
    ]

take-prefix : (pre s : List ℕ) (n : ℕ) → n ≡ length pre → take n (pre ++ s) ≡ pre
take-prefix [] s zero h = refl
take-prefix [] s (suc n) h = absurd (omega arith)
take-prefix (c ∷ pre) s zero h = absurd (omega arith)
take-prefix (c ∷ pre) s (suc n) h = ap (λ (l : List ℕ). c ∷ l) (take-prefix pre s n (omega arith))

cut_at_lem :
    (w : List ℕ) (at : ℕ)
    → is_char_boundary w at ≡ true
    → (pre : List ℕ) × (s : List ℕ) × (cut_at w at ≡ some (pre, s))
      × (w ≡ pre ++ s)
      × (byte_len pre ≡ at)
unfolding cut_at
cut_at_lem w at h =
    let (s, there) = boundary_suffix w at h in
    let (pre, cut, len) = prefix_at w at s there in
    let count : length (pre ++ s) - length s ≡ length pre = omega (arith, length-append pre s) in
    (
      pre,
      s,
      rw there (
          ap (λ (l : List ℕ). some (l, s))
            (ap (λ (v : List ℕ). take (length v - length s) v) cut
              ∙ take-prefix pre s (length (pre ++ s) - length s) count)),
      cut,
      len,
    )

-- A line put in after another and taken out again.
get_elem?-insert_before :
    (ls : List (List ℕ)) (i : ℕ) (l : List ℕ)
    → i < length ls
    → get_elem? (insert_at ls (suc i) l) i ≡ get_elem? ls i
get_elem?-insert_before [] i l h = absurd (omega arith)
get_elem?-insert_before (x ∷ ls) zero l h = refl
get_elem?-insert_before (x ∷ ls) (suc i) l h = get_elem?-insert_before ls i l (omega arith)

get_elem?-insert_at :
    (ls : List (List ℕ)) (i : ℕ) (l : List ℕ)
    → i ≤ length ls
    → get_elem? (insert_at ls i l) i ≡ some l
get_elem?-insert_at ls zero l h = refl
get_elem?-insert_at [] (suc i) l h = absurd (omega arith)
get_elem?-insert_at (x ∷ ls) (suc i) l h = get_elem?-insert_at ls i l (omega arith)

remove_at-insert_at :
    (ls : List (List ℕ)) (i : ℕ) (l : List ℕ) → i ≤ length ls → remove_at (insert_at ls i l) i ≡ ls
remove_at-insert_at ls zero l h = refl
remove_at-insert_at [] (suc i) l h = absurd (omega arith)
remove_at-insert_at (x ∷ ls) (suc i) l h =
    ap (λ (t : List (List ℕ)). x ∷ t) (remove_at-insert_at ls i l (omega arith))

length-insert_at :
    (ls : List (List ℕ)) (i : ℕ) (l : List ℕ)
    → i ≤ length ls
    → length (insert_at ls i l) ≡ suc (length ls)
length-insert_at ls zero l h = refl
length-insert_at [] (suc i) l h = absurd (omega arith)
length-insert_at (x ∷ ls) (suc i) l h = ap suc (length-insert_at ls i l (omega arith))

set-set_self :
    (ls : List (List ℕ)) (i : ℕ) (a b : List ℕ)
    → get_elem? ls i ≡ some b
    → set (set ls i a) i b ≡ ls
set-set_self [] i a b e = refl
set-set_self (x ∷ ls) zero a b e = let same : b ≡ x = cc e in ap (λ (l : List ℕ). l ∷ ls) same
set-set_self (x ∷ ls) (suc i) a b e = ap (λ (t : List (List ℕ)). x ∷ t) (set-set_self ls i a b e)

ensure_there : (me : TextBuf) (row : ℕ) → row < length me.lines → ensure me row ≡ me
unfolding ensure
ensure_there me row h =
    let enough : suc row - length me.lines ≡ 0 = omega (arith, h) in
    ap (λ (n : ℕ). record me { lines = me.lines ++ replicate n [] }) enough
    ∙ ap (λ (ls : List (List ℕ)). record me { lines = ls }) (append-nil me.lines)

join_divided :
    (me : TextBuf) (row at : ℕ) (w pre s : List ℕ)
    → get_elem? me.lines row ≡ some w
    → w ≡ pre ++ s
    → join (record me { lines = insert_at (set me.lines row pre) (row + 1) s; modified = true }) row
      ≡ (some (byte_len pre), record me { modified = true })
unfolding join line
join_divided me row at w pre s e cut =
    let inside = get_elem?-lt me.lines row w e in
    let ls = set me.lines row pre in
    let same = length-set me.lines row pre in
    let next : row + 1 ≡ suc row = omega arith in
    let within : suc row ≤ length ls = omega (arith, same, inside) in
    let long = length-insert_at ls (suc row) s within in
    let more : leb (length (insert_at ls (suc row) s)) (suc row) ≡ false =
      ground (arith, long, within) in
    let first : get_elem? (insert_at ls (suc row) s) row ≡ some pre =
      get_elem?-insert_before ls row s (omega (arith, within))
      ∙ get_elem?-set_self me.lines row pre inside in
    let whole : get_elem? me.lines row ≡ some (pre ++ s) = e ∙ ap some cut in
    rw
      (
        next,
        more,
        first,
        get_elem?-insert_at ls (suc row) s within,
        remove_at-insert_at ls (suc row) s within,
        set-set_self me.lines row pre (pre ++ s) whole,
      )
      refl

-- A row of the buffer split anywhere, at an offset past its end or inside a character too, is put
-- back by a join of that row: the split does not panic, the join happens at the offset where the
-- split was clamped to, every line is the one it was, and the buffer counts as modified.
pub join-split :
    (me : TextBuf) (row at : ℕ)
    → row < length me.lines
    → (t : TextBuf) × (split me row at ≡ some t)
      × (length t.lines ≡ suc (length me.lines))
      × (join t row ≡ (some (clamp me row at), record me { modified = true }))
unfolding split divided line
join-split me row at h =
    let (w, e) = get_elem?-some me.lines row h in
    let (pre, s, cut, whole, len) =
      cut_at_lem (line me row) (clamp me row at) (clamp_boundary me row at) in
    let t : TextBuf = record {
      lines = insert_at (set me.lines row pre) (row + 1) s;
      modified = true;
    } in
    let same = length-set me.lines row pre in
    (
      t,
      rw (ensure_there me row h, cut) refl,
      length-insert_at (set me.lines row pre) (row + 1) s (omega (arith, same, h)) ∙ ap suc same,
      join_divided me row at w pre s e (rw e at whole)
          ∙ ap (λ (n : ℕ). (some n, record me { modified = true })) len,
    )
