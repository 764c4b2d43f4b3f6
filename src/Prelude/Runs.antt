-- ===== src/Prelude/Runs.antt =====
-- Overwriting a run of bytes, in parts and in one of two runs that stand one after the other.
use koru.Prelude.{
  ℕ, zero, suc, ◌+◌, ◌-◌, ◌≤◌, ◌≡◌, refl, ap, sym, ◌∙◌, List, [], ◌∷◌, ◌++◌, append-nil,
  append_assoc, arith, length, length-append, length-drop, take, drop, take-append-drop, take-nil,
  leb, ◌&&◌, Option, none, some, if◌then◌else◌,
}
use koru.Prelude.Partial.{◌>>=◌}

-- The bytes from `at` on are those of `xs`.
unfoldable pub overwrite : List ℕ → ℕ → List ℕ → List ℕ
overwrite bs at xs = take at bs ++ xs ++ drop (at + length xs) bs

overwrite-zero : (bs xs : List ℕ) → overwrite bs 0 xs ≡ xs ++ drop (length xs) bs
unfolding overwrite
overwrite-zero bs xs = ap (λ (k : ℕ). xs ++ drop k bs) (omega arith)

overwrite-suc :
    (b : ℕ) (bs : List ℕ) (at : ℕ) (xs : List ℕ)
    → overwrite (b ∷ bs) (suc at) xs ≡ b ∷ overwrite bs at xs
unfolding overwrite
overwrite-suc b bs at xs =
    let shift : suc at + length xs ≡ suc (at + length xs) = omega arith in
    ap (λ (k : ℕ). b ∷ take at bs ++ xs ++ drop k (b ∷ bs)) shift

pub overwrite-nil : (bs : List ℕ) (at : ℕ) → overwrite bs at [] ≡ bs
unfolding overwrite
overwrite-nil bs at =
    let none_of : at + 0 ≡ at = omega arith in
    ap (λ (l : List ℕ). l ++ drop (at + 0) bs) (append-nil (take at bs))
    ∙ ap (λ (k : ℕ). take at bs ++ drop k bs) none_of
    ∙ take-append-drop at bs

pub length-overwrite :
    (bs : List ℕ) (at : ℕ) (xs : List ℕ)
    → at + length xs ≤ length bs
    → length (overwrite bs at xs) ≡ length bs
length-overwrite bs zero xs h =
    ap length (overwrite-zero bs xs)
    ∙ length-append xs (drop (length xs) bs)
    ∙ omega (arith, h, length-drop (length xs) bs)
length-overwrite [] (suc at) xs h = absurd (omega arith)
length-overwrite (b ∷ bs) (suc at) xs h =
    ap length (overwrite-suc b bs at xs) ∙ ap suc (length-overwrite bs at xs (omega arith))

-- Bytes written one part after the other are written.
pub overwrite-overwrite :
    (bs : List ℕ) (at n : ℕ) (xs : List ℕ)
    → at + length xs ≤ length bs
    → n ≤ length xs
    → overwrite (overwrite bs at (take n xs)) (at + n) (drop n xs) ≡ overwrite bs at xs
overwrite-overwrite bs zero zero xs h k = rw (overwrite-zero bs []) refl
overwrite-overwrite bs zero (suc n) [] h k = absurd (omega arith)
overwrite-overwrite [] zero (suc n) (x ∷ xs) h k = absurd (omega arith)
overwrite-overwrite (b ∷ bs) zero (suc n) (x ∷ xs) h k =
    let less = overwrite-overwrite bs zero n xs (omega arith) (omega arith) in
    let first : overwrite (b ∷ bs) 0 (x ∷ take n xs) ≡ x ∷ overwrite bs 0 (take n xs) =
      overwrite-zero (b ∷ bs) (x ∷ take n xs)
      ∙ ap (λ (l : List ℕ). x ∷ l) (sym (overwrite-zero bs (take n xs))) in
    let shift : 0 + suc n ≡ suc (0 + n) = omega arith in
    rw (first, shift, overwrite-suc x (overwrite bs 0 (take n xs)) (0 + n) (drop n xs), less)
      (ap (λ (l : List ℕ). x ∷ l) (overwrite-zero bs xs) ∙ sym (overwrite-zero (b ∷ bs) (x ∷ xs)))
overwrite-overwrite [] (suc at) n xs h k = absurd (omega arith)
overwrite-overwrite (b ∷ bs) (suc at) n xs h k =
    let less = overwrite-overwrite bs at n xs (omega arith) k in
    let shift : suc at + n ≡ suc (at + n) = omega arith in
    rw
      (
        overwrite-suc b bs at (take n xs),
        shift,
        overwrite-suc b (overwrite bs at (take n xs)) (at + n) (drop n xs),
        less,
      )
      (sym (overwrite-suc b bs at xs))

drop-append_left : (xs ys : List ℕ) (n : ℕ) → n ≤ length xs → drop n (xs ++ ys) ≡ drop n xs ++ ys
drop-append_left xs ys zero h = refl
drop-append_left [] ys (suc n) h = absurd (omega arith)
drop-append_left (x ∷ xs) ys (suc n) h = drop-append_left xs ys n (omega arith)

pub overwrite-append_left :
    (ps rs : List ℕ) (at : ℕ) (xs : List ℕ)
    → at + length xs ≤ length ps
    → overwrite (ps ++ rs) at xs ≡ overwrite ps at xs ++ rs
overwrite-append_left ps rs zero xs h =
    overwrite-zero (ps ++ rs) xs
    ∙ ap (λ (l : List ℕ). xs ++ l) (drop-append_left ps rs (length xs) (omega arith))
    ∙ sym (append_assoc xs (drop (length xs) ps) rs)
    ∙ ap (λ (l : List ℕ). l ++ rs) (sym (overwrite-zero ps xs))
overwrite-append_left [] rs (suc at) xs h = absurd (omega arith)
overwrite-append_left (p ∷ ps) rs (suc at) xs h =
    overwrite-suc p (ps ++ rs) at xs
    ∙ ap (λ (l : List ℕ). p ∷ l) (overwrite-append_left ps rs at xs (omega arith))
    ∙ ap (λ (l : List ℕ). l ++ rs) (sym (overwrite-suc p ps at xs))

pub overwrite-append_right :
    (ps rs : List ℕ) (at : ℕ) (xs : List ℕ)
    → length ps ≤ at
    → overwrite (ps ++ rs) at xs ≡ ps ++ overwrite rs (at - length ps) xs
overwrite-append_right [] rs at xs h = ap (λ (k : ℕ). overwrite rs k xs) (omega arith)
overwrite-append_right (p ∷ ps) rs zero xs h = absurd (omega arith)
overwrite-append_right (p ∷ ps) rs (suc at) xs h =
    let shift : at - length ps ≡ suc at - suc (length ps) = omega arith in
    overwrite-suc p (ps ++ rs) at xs
    ∙ ap (λ (l : List ℕ). p ∷ l) (overwrite-append_right ps rs at xs (omega arith))
    ∙ ap (λ (k : ℕ). p ∷ ps ++ overwrite rs k xs) shift

-- `&bs[i..j]`, which panics out of bounds.
unfoldable pub slice : List ℕ → ℕ → ℕ → Option (List ℕ)
slice bs i j = if leb i j && leb j (length bs) then some (take (j - i) (drop i bs)) else none

-- `copy_from_slice` into `bs[at..at + xs.len()]`
unfoldable pub copy_in : List ℕ → ℕ → List ℕ → Option (List ℕ)
copy_in bs at xs = if leb (at + length xs) (length bs) then some (overwrite bs at xs) else none

-- `copy_within(i..j, at)`
unfoldable pub copy_within : List ℕ → ℕ → ℕ → ℕ → Option (List ℕ)
unfolding slice copy_in
copy_within bs i j at = slice bs i j >>= λ xs. copy_in bs at xs

pub take-append_past : (xs ys : List ℕ) (n : ℕ) → take (length xs + n) (xs ++ ys) ≡ xs ++ take n ys
take-append_past [] ys n = let same : 0 + n ≡ n = omega arith in ap (λ (k : ℕ). take k ys) same
take-append_past (x ∷ xs) ys n =
    let shift : suc (length xs) + n ≡ suc (length xs + n) = omega arith in
    ap (λ (k : ℕ). take k (x ∷ xs ++ ys)) shift
    ∙ ap (λ (l : List ℕ). x ∷ l) (take-append_past xs ys n)

reach_overwrite :
    (bs : List ℕ) (at : ℕ) (xs : List ℕ)
    → at + length xs ≤ length bs
    → drop at (overwrite bs at xs) ≡ xs ++ drop (at + length xs) bs
reach_overwrite bs zero xs h =
    let same : length xs ≡ 0 + length xs = omega arith in
    overwrite-zero bs xs ∙ ap (λ (k : ℕ). xs ++ drop k bs) same
reach_overwrite [] (suc at) xs h = absurd (omega arith)
reach_overwrite (b ∷ bs) (suc at) xs h =
    let shift : suc (at + length xs) ≡ suc at + length xs = omega arith in
    ap (drop (suc at)) (overwrite-suc b bs at xs)
    ∙ reach_overwrite bs at xs (omega arith)
    ∙ ap (λ (k : ℕ). xs ++ drop k (b ∷ bs)) shift

-- The write and the bytes after it, read back.
pub drop-overwrite :
    (bs : List ℕ) (at n : ℕ) (xs : List ℕ)
    → at + length xs ≤ length bs
    → take (length xs + n) (drop at (overwrite bs at xs)) ≡ xs ++ take n (drop (at + length xs) bs)
drop-overwrite bs at n xs h =
    ap (take (length xs + n)) (reach_overwrite bs at xs h)
    ∙ take-append_past xs (drop (at + length xs) bs) n

-- The bytes before a write and the write, read back.
pub take-overwrite :
    (bs : List ℕ) (i at : ℕ) (xs : List ℕ)
    → i ≤ at
    → at + length xs ≤ length bs
    → take (at - i + length xs) (drop i (overwrite bs at xs)) ≡ take (at - i) (drop i bs) ++ xs
take-overwrite bs zero zero xs h k =
    let same : 0 - 0 + length xs ≡ length xs + 0 = omega arith in
    ap (λ (n : ℕ). take n (overwrite bs 0 xs)) same ∙ drop-overwrite bs 0 0 xs k ∙ append-nil xs
take-overwrite [] zero (suc at) xs h k = absurd (omega arith)
take-overwrite (b ∷ bs) zero (suc at) xs h k =
    let out : suc at - 0 + length xs ≡ suc (at - 0 + length xs) = omega arith in
    let last : suc (at - 0) ≡ suc at - 0 = omega arith in
    rw (overwrite-suc b bs at xs, out)
      (ap (λ (l : List ℕ). b ∷ l) (take-overwrite bs zero at xs (omega arith) (omega arith))
        ∙ ap (λ (n : ℕ). take n (b ∷ bs) ++ xs) last)
take-overwrite bs (suc i) zero xs h k = absurd (omega arith)
take-overwrite [] (suc i) (suc at) xs h k = absurd (omega arith)
take-overwrite (b ∷ bs) (suc i) (suc at) xs h k =
    let less : suc at - suc i ≡ at - i = omega arith in
    rw (overwrite-suc b bs at xs, less) (take-overwrite bs i at xs (omega arith) (omega arith))

pub drop-take : (k n : ℕ) (xs : List ℕ) → drop k (take n xs) ≡ take (n - k) (drop k xs)
drop-take zero n xs = let same : n ≡ n - 0 = omega arith in ap (λ (m : ℕ). take m xs) same
drop-take (suc k) zero xs =
    let same : 0 ≡ 0 - suc k = omega arith in ap (λ (m : ℕ). take m (drop (suc k) xs)) same
drop-take (suc k) (suc n) [] = sym (take-nil (suc n - suc k))
drop-take (suc k) (suc n) (x ∷ xs) =
    let shift : n - k ≡ suc n - suc k = omega arith in
    drop-take k n xs ∙ ap (λ (m : ℕ). take m (drop k xs)) shift
