-- ===== src/Kernel/Checksum/Flat.antt =====
-- CHECKSUM goes page by page through a 256-byte buffer; what it hashes is the range as one run of
-- bytes.
use Prim.Native.Nat.{bit_and, bit_xor}
use koru.Prelude.{
  ℕ, zero, suc, ◌+◌, ◌-◌, ◌*◌, ◌/◌, ◌%◌, ◌^◌, ◌<◌, ◌≤◌, ◌≡◌, refl, ap, sym, ◌∙◌, inl, inr, false,
  some, List, [], ◌∷◌, ◌++◌, arith, length, take, drop, get_elem?-some, All, drop-drop, take-add,
  ◌==◌,
}
use koru.Prelude.Words.{u64_mod}
use koru.Kernel.Abi.{Sqe, ok}
use koru.Kernel.Setup.{RingConfig}
use koru.Kernel.Setup.Limits.{IsWithinLimits}
use koru.Kernel.Handles.{bind}
use koru.Kernel.Ctx.{RingCtx}
use koru.Kernel.Ctx.Configured.{Result-cases}
use koru.Kernel.Arena.{chunk, check_range, slot_offset}
use koru.Kernel.Arena.Bounds.{check_range_lem}
use koru.Kernel.Arena.Read.{bytes, IsPaged, page_lem, page_there, chunk_lem}
use koru.Kernel.Checksum.{fnv, hash_rounds, checksum}

fnv-append : (xs ys : List ℕ) (h : ℕ) → fnv h (xs ++ ys) ≡ fnv (fnv h xs) ys
unfolding fnv
fnv-append [] ys h = refl
fnv-append (x ∷ xs) ys h = fnv-append xs ys (bit_xor h x * 0x100_0000_01b3 % u64_mod)

module _ (page_size : ℕ) (some_bytes : 0 < page_size) (pages : List (List ℕ)) where
  hash_rounds_lem :
      (rounds pos left hash : ℕ)
      → IsPaged page_size some_bytes pages
      → pos + left ≤ length pages * page_size
      → left ≤ rounds
      → hash_rounds page_size pages rounds pos left hash
        ≡ ok (fnv hash (take left (drop pos (bytes pages))))
  unfolding hash_rounds fnv
  hash_rounds_lem zero pos zero hash w h k = refl
  hash_rounds_lem zero pos (suc left) hash w h k = absurd (omega arith)
  hash_rounds_lem (suc rounds) pos zero hash w h k = refl
  hash_rounds_lem (suc rounds) pos (suc left) hash w h k =
      let there = page_there page_size some_bytes pages pos left h in
      let (page, e) = get_elem?-some pages (pos / page_size) there in
      let n = chunk page_size pos (suc left) in
      let (more, few, inside) = chunk_lem page_size some_bytes pos (suc left) (omega arith) in
      let bs = drop pos (bytes pages) in
      let here = page_lem page_size some_bytes pages page pos n w e inside in
      let rest =
        hash_rounds_lem rounds (pos + n) (suc left - n) (fnv hash (take n bs)) w
          (omega (arith, h, few)) (omega (arith, k, more)) in
      let whole : n + (suc left - n) ≡ suc left = omega (arith, few) in
      let busy : (suc left == 0) ≡ false = ground arith in
      rw (busy, e, here, rest)
        (ap ok (
          ap (λ (l : List ℕ). fnv (fnv hash (take n bs)) (take (suc left - n) l))
            (sym (drop-drop n pos (bytes pages)))
          ∙ sym (fnv-append (take n bs) (take (suc left - n) (drop n bs)) hash)
          ∙ ap (fnv hash) (sym (take-add n (suc left - n) bs))
          ∙ ap (λ (m : ℕ). fnv hash (take m bs)) whole))

-- On a configured ring whose pages are full and make up the arena, CHECKSUM answers what
-- `check_range` refuses with, and otherwise the FNV-1a hash, without its top bit, of the bytes of
-- the range in order: the way the pages and the 256-byte buffer cut the range does not matter.
pub checksum_lem :
    (page_size : ℕ) (cfg : RingConfig) (sqe : Sqe) (me : RingCtx)
    → 0 < page_size
    → me.config ≡ some cfg
    → IsWithinLimits page_size cfg
    → All (λ p. length p ≡ page_size) me.arena.pages
    → length me.arena.pages * page_size ≡ cfg.arena_size
    → checksum page_size sqe me
      ≡ bind (check_range (some cfg) sqe) λ _. bind (slot_offset (some cfg) sqe) λ pos. ok (
          bit_and
            (fnv 0xcbf2_9ce4_8422_2325 (take sqe.len (drop pos (bytes me.arena.pages))))
            (2 ^ 63 - 1))
unfolding checksum
checksum_lem page_size cfg sqe me some_bytes set_up limits w whole =
    elim (Result-cases (check_range (some cfg) sqe)) [
      | inl (e, refused) ↦ rw (set_up, refused) refl
      | inr (tt, accepted) ↦
          let (pos, there, _, inside, last) = check_range_lem page_size cfg sqe limits accepted in
          let hashed =
            hash_rounds_lem page_size some_bytes me.arena.pages sqe.len pos sqe.len
              0xcbf2_9ce4_8422_2325 w (omega (arith, inside, last, whole)) (omega arith) in
          rw (set_up, accepted, there, hashed) refl
    ]
