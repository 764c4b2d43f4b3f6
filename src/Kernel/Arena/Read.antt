-- ===== src/Kernel/Arena/Read.antt =====
-- A read that goes page by page is a read of the arena as one run of bytes.
use native.Mathlib.Nat.{
  mod-lt, mod-eq_of_lt, mod-eq-sub-mod, div-eq_of_lt, div-eq-sub-div, div-lt_iff_lt-mul,
}
use koru.Prelude.{
  ℕ, zero, suc, ◌+◌, ◌-◌, ◌*◌, ◌/◌, ◌%◌, ◌<◌, ◌≤◌, ◌≡◌, refl, ap, sym, ◌∙◌, inl, inr, false, some,
  List, [], ◌∷◌, ◌++◌, arith, length, take, drop, get_elem?, get_elem?-some, All, drop-drop,
  take-add, drop-append_past, take-drop-append, ◌==◌, lt-cases,
}
use koru.Prelude.Partial.{some_inj}
use koru.Kernel.Abi.{ok}
use koru.Kernel.Arena.{chunk, read_slot, read_rounds}

-- The bytes of the pages, one after the other.
abbrev pub bytes : List (List ℕ) → List ℕ
bytes [] = []
bytes (p ∷ ps) = p ++ bytes ps

module _ (page_size : ℕ) (some_bytes : 0 < page_size) where
  -- Every page is full.
  abbrev pub IsPaged : List (List ℕ) → Type 0
  IsPaged pages = All (λ p. length p ≡ page_size) pages

  pub page_lem :
      (pages : List (List ℕ)) (page : List ℕ) (pos n : ℕ)
      → IsPaged pages
      → get_elem? pages (pos / page_size) ≡ some page
      → pos % page_size + n ≤ page_size
      → take n (drop (pos % page_size) page) ≡ take n (drop pos (bytes pages))
  page_lem [] page pos n w e h = absurd (cc e)
  page_lem (p ∷ ps) page pos n w e h = elim (lt-cases pos page_size) [
    | inl below ↦
        let first : p ≡ page = some_inj (rw (div-eq_of_lt below) at e) in
        let same = mod-eq_of_lt below in
        rw same (
          ap (λ (l : List ℕ). take n (drop pos l)) (sym first)
          ∙ sym (take-drop-append p (bytes ps) pos n (omega (arith, h, same, w.0))))
    | inr past ↦
        let q = pos - page_size in
        let reached : page_size ≤ pos = omega (arith, past) in
        let next : pos / page_size ≡ suc (q / page_size) =
          omega (arith, div-eq-sub-div some_bytes reached) in
        let same = mod-eq-sub-mod reached in
        let skip : drop pos (p ++ bytes ps) ≡ drop q (bytes ps) =
          drop-append_past p (bytes ps) pos (omega (arith, w.0, reached))
          ∙ ap (λ (k : ℕ). drop (pos - k) (bytes ps)) w.0 in
        rw same (
          page_lem ps page q n w.1 (rw next at e) (omega (arith, h, same)) ∙ ap (take n) (sym skip))
  ]

  pub page_there :
      (pages : List (List ℕ)) (pos left : ℕ)
      → pos + suc left ≤ length pages * page_size
      → pos / page_size < length pages
  page_there pages pos left h = (div-lt_iff_lt-mul some_bytes).1 (omega arith)

  -- A round copies a byte at least, and none past the end of its page.
  pub chunk_lem :
      (pos left : ℕ)
      → 0 < left
      → (0 < chunk page_size pos left)
        × (chunk page_size pos left ≤ left)
        × (pos % page_size + chunk page_size pos left ≤ page_size)
  chunk_lem pos left h = ground (arith, mod-lt pos some_bytes)

  read_rounds_lem :
      (pages : List (List ℕ)) (rounds pos left : ℕ)
      → IsPaged pages
      → pos + left ≤ length pages * page_size
      → left ≤ rounds
      → read_rounds page_size pages rounds pos left ≡ ok (take left (drop pos (bytes pages)))
  unfolding read_rounds
  read_rounds_lem pages zero pos zero w h k = refl
  read_rounds_lem pages zero pos (suc left) w h k = absurd (omega arith)
  read_rounds_lem pages (suc rounds) pos zero w h k = refl
  read_rounds_lem pages (suc rounds) pos (suc left) w h k =
      let (page, e) = get_elem?-some pages (pos / page_size) (page_there pages pos left h) in
      let n = chunk page_size pos (suc left) in
      let (more, few, inside) = chunk_lem pos (suc left) (omega arith) in
      let rest =
        read_rounds_lem pages rounds (pos + n) (suc left - n) w (omega (arith, h, few))
          (omega (arith, k, more)) in
      let whole : n + (suc left - n) ≡ suc left = omega (arith, few) in
      let bs = drop pos (bytes pages) in
      let busy : (suc left == 0) ≡ false = ground arith in
      rw (busy, e, rest)
        (ap ok (
          ap (λ (l : List ℕ). l ++ take (suc left - n) (drop (pos + n) (bytes pages)))
            (page_lem pages page pos n w e inside)
          ∙ ap (λ (l : List ℕ). take n bs ++ take (suc left - n) l)
              (sym (drop-drop n pos (bytes pages)))
          ∙ sym (take-add n (suc left - n) bs)
          ∙ ap (λ (m : ℕ). take m bs) whole))

-- On full pages a range inside the arena is read whole: `read_slot` returns the bytes of the range,
-- in order, however the pages and the 256-byte buffer cut it.
pub read_slot_lem :
    (page_size : ℕ) (pages : List (List ℕ)) (pos len : ℕ)
    → 0 < page_size
    → All (λ p. length p ≡ page_size) pages
    → pos + len ≤ length pages * page_size
    → read_slot page_size pages pos len ≡ ok (take len (drop pos (bytes pages)))
unfolding read_slot
read_slot_lem page_size pages pos len some_bytes w h =
    read_rounds_lem page_size some_bytes pages len pos len w h (omega arith)
