-- ===== src/Kernel/Store/Write.antt =====
-- A write that goes page by page is a write to the arena as one run of bytes.
use native.Mathlib.Nat.{mod-lt, mod-eq_of_lt, mod-eq-sub-mod, div-eq_of_lt, div-eq-sub-div}
use koru.Prelude.{
  ℕ, zero, suc, ◌+◌, ◌-◌, ◌*◌, ◌/◌, ◌%◌, ◌<◌, ◌≤◌, ◌≡◌, refl, ap, sym, ◌∙◌, inl, inr, some, List,
  [], ◌∷◌, ◌++◌, arith, length, length-append, length-set, length-take, length-drop, take, drop,
  get_elem?, get_elem?-some, set, min, All, All-set, All-get_elem?, lt-cases,
}
use koru.Prelude.Partial.{some_inj}
use koru.Kernel.Abi.{ok}
use koru.Kernel.Arena.Read.{bytes, IsPaged, page_there}
use koru.Kernel.Store.{write_rounds, write_slot}
use koru.Prelude.Runs.{
  overwrite, overwrite-nil, length-overwrite, overwrite-overwrite, overwrite-append_left,
  overwrite-append_right,
}

module _ (page_size : ℕ) (some_bytes : 0 < page_size) where
  page_overwrite :
      (pages : List (List ℕ)) (page : List ℕ) (pos : ℕ) (xs : List ℕ)
      → IsPaged page_size some_bytes pages
      → get_elem? pages (pos / page_size) ≡ some page
      → pos % page_size + length xs ≤ page_size
      → bytes (set pages (pos / page_size) (overwrite page (pos % page_size) xs))
        ≡ overwrite (bytes pages) pos xs
  page_overwrite [] page pos xs w e h = absurd (cc e)
  page_overwrite (p ∷ ps) page pos xs w e h = elim (lt-cases pos page_size) [
    | inl below ↦
        let first : p ≡ page = some_inj (rw (div-eq_of_lt below) at e) in
        let same = mod-eq_of_lt below in
        let room : pos + length xs ≤ length p = omega (arith, h, same, w.0) in
        rw (div-eq_of_lt below, same, sym first)
          (sym (overwrite-append_left p (bytes ps) pos xs room))
    | inr past ↦
        let q = pos - page_size in
        let reached : page_size ≤ pos = omega (arith, past) in
        let next : pos / page_size ≡ suc (q / page_size) =
          omega (arith, div-eq-sub-div some_bytes reached) in
        let same = mod-eq-sub-mod reached in
        let rest = page_overwrite ps page q xs w.1 (rw next at e) (omega (arith, h, same)) in
        let there : length p ≤ pos = omega (arith, w.0, reached) in
        rw (next, same)
          (ap (λ (l : List ℕ). p ++ l) rest
            ∙ ap (λ (k : ℕ). p ++ overwrite (bytes ps) (pos - k) xs) (sym w.0)
            ∙ sym (overwrite-append_right p (bytes ps) pos xs there))
  ]

  length-bytes :
      (pages : List (List ℕ))
      → IsPaged page_size some_bytes pages
      → length (bytes pages) ≡ length pages * page_size
  length-bytes [] w = omega arith
  length-bytes (p ∷ ps) w = length-append p (bytes ps) ∙ grind (arith, length-bytes ps w.1, w.0)

  write_rounds_lem :
      (rounds : ℕ) (pages : List (List ℕ)) (pos : ℕ) (buf : List ℕ)
      → IsPaged page_size some_bytes pages
      → pos + length buf ≤ length pages * page_size
      → length buf ≤ rounds
      → (pages' : List (List ℕ)) × (write_rounds page_size rounds pages pos buf ≡ ok pages')
        × (length pages' ≡ length pages)
        × (IsPaged page_size some_bytes pages')
        × (bytes pages' ≡ overwrite (bytes pages) pos buf)
  unfolding write_rounds
  write_rounds_lem zero pages pos [] w h k =
      (pages, refl, refl, w, sym (overwrite-nil (bytes pages) pos))
  write_rounds_lem zero pages pos (b ∷ bs) w h k = absurd (omega arith)
  write_rounds_lem (suc rounds) pages pos [] w h k =
      (pages, refl, refl, w, sym (overwrite-nil (bytes pages) pos))
  write_rounds_lem (suc rounds) pages pos (b ∷ bs) w h k =
      let buf = b ∷ bs in
      let (page, e) =
        get_elem?-some pages (pos / page_size)
          (page_there page_size some_bytes pages pos (length bs) h) in
      let n = min (length buf) (page_size - pos % page_size) in
      let in_page = mod-lt pos some_bytes in
      let n' : length (take n buf) ≡ n = omega (arith, length-take n buf) in
      let room : pos % page_size + length (take n buf) ≤ page_size = omega (arith, n', in_page) in
      let full : length page ≡ page_size = All-get_elem? _ pages (pos / page_size) page w e in
      let page' = overwrite page (pos % page_size) (take n buf) in
      let full' : length page' ≡ page_size =
        length-overwrite page (pos % page_size) (take n buf) (omega (arith, room, full)) ∙ full in
      let pages' = set pages (pos / page_size) page' in
      let w' : IsPaged page_size some_bytes pages' =
        All-set _ pages (pos / page_size) page' w full' in
      let same = length-set pages (pos / page_size) page' in
      let left = length-drop n buf in
      let h' : pos + n + length (drop n buf) ≤ length pages' * page_size =
        rw same (omega (arith, left, h)) in
      let (out, done, as_many, paged, written) =
        write_rounds_lem rounds pages' (pos + n) (drop n buf) w' h'
          (omega (arith, left, k, in_page)) in
      let fits : pos + length buf ≤ length (bytes pages) = rw (length-bytes pages w) h in
      (
        out,
        rw e done,
        as_many ∙ same,
        paged,
        written
            ∙ ap (λ (l : List ℕ). overwrite l (pos + n) (drop n buf))
                (page_overwrite pages page pos (take n buf) w e room)
            ∙ overwrite-overwrite (bytes pages) pos n buf fits (omega arith),
      )

-- On full pages `write_slot` of a range inside the arena returns, keeps the number and the size of
-- the pages, and leaves the arena as one run of bytes with exactly the bytes of the range replaced
-- by those of the buffer, however the pages cut it.
pub write_slot_lem :
    (page_size : ℕ) (pages : List (List ℕ)) (pos : ℕ) (buf : List ℕ)
    → 0 < page_size
    → All (λ p. length p ≡ page_size) pages
    → pos + length buf ≤ length pages * page_size
    → (pages' : List (List ℕ)) × (write_slot page_size pages pos buf ≡ ok pages')
      × (length pages' ≡ length pages)
      × (All (λ p. length p ≡ page_size) pages')
      × (bytes pages' ≡ overwrite (bytes pages) pos buf)
unfolding write_slot
write_slot_lem page_size pages pos buf some_bytes w h =
    write_rounds_lem page_size some_bytes (length buf) pages pos buf w h (omega arith)
