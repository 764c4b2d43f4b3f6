-- ===== src/Kernel/Handles/Claims.antt =====
-- `HandleTable::close`, and the claim that a READDIR holds on an entry.
use koru.Prelude.{
  ℕ, ◌<◌, ◌≡◌, ◌≢◌, sym, ap, ◌∙◌, inl, inr, true, false, none, some, arith, length, get_elem?, set,
  get_elem?-set_self, get_elem?-lt, All-set, length-set, ℕ-cases, Option-cases, ==_ne, ◌==◌,
  if◌then◌else◌,
}
use koru.Prelude.Words.{u16_mod, u32_mod, bit_and_mask}
use koru.Kernel.Abi.{ok, err, ebadf, ebusy}
use koru.Kernel.Handles.{
  HandleEntry, HandleTable, insert, resolve, try_claim, close, next_generation,
}
use koru.Kernel.Handles.Laws.{
  IsValid, IsGeneration, index, generation, resolve_lem, resolve-set, insert_inv, handle_halves,
  handle_index,
}

-- The entry that a successful close or claim works on.
record Named (t : HandleTable) (h file : ℕ) (e : HandleEntry) : Type 0 where
  there : get_elem? t.entries (index h) ≡ some e
  current : e.generation ≡ generation h
  nonzero : 0 < generation h
  holds : e.file ≡ some file

abbrev pub closed : HandleTable → ℕ → HandleEntry → HandleTable
closed t h e = record t {
  entries =
      set t.entries (index h) (record e { file = none; generation = next_generation e.generation });
}

close_inv :
    (t u : HandleTable) (h file : ℕ)
    → close t h ≡ ok (file, u)
    → (e : HandleEntry) × Named t h file e × (u ≡ closed t h e)
unfolding close
close_inv t u h file r = elim (Option-cases (get_elem? t.entries (index h))) [
  | inl missing ↦ absurd (ground (arith, missing, r, bit_and_mask 16 h))
  | inr (e, there) ↦ (
    e,
    record {
      there = there;
      current = ground (arith, there, r, bit_and_mask 16 h);
      nonzero = ground (arith, there, r, bit_and_mask 16 h);
      holds = ground (arith, there, r, bit_and_mask 16 h);
    },
    ground (arith, there, r, bit_and_mask 16 h),
  )
]

-- The entry that a close that succeeds writes.
pub close_entry :
    (t u : HandleTable) (h file : ℕ)
    → close t h ≡ ok (file, u)
    → (e : HandleEntry) × (get_elem? t.entries (index h) ≡ some e) × (u ≡ closed t h e)
close_entry t u h file r = let (e, n, made) = close_inv t u h file r in (e, n.there, made)

next_bounds : (g : ℕ) → (0 < next_generation g) × (next_generation g < u16_mod)
unfolding next_generation
next_bounds g = ground arith

-- A close that succeeds on a sound table hands out the file that the handle named. Afterwards that
-- handle is stale, every other one resolves as it did, and the table stays sound.
pub resolve-close :
    (t u : HandleTable) (h file other : ℕ)
    → IsValid t
    → close t h ≡ ok (file, u)
    → h < u32_mod
    → other < u32_mod
    → IsValid u
      × (resolve t h ≡ ok file)
      × (resolve u other ≡ (if other == h then err ebadf else resolve t other))
resolve-close t u h file other w r small small' =
    let (e, n, after) = close_inv t u h file r in
    let gone : HandleEntry = record e { file = none; generation = next_generation e.generation } in
    rw after (
      record {
        generations =
            All-set IsGeneration t.entries (index h) gone w.generations (next_bounds e.generation);
        addressable = omega (arith, length-set t.entries (index h) gone, w.addressable);
      },
      ground (arith, resolve_lem t h, n.there, n.current, n.nonzero, n.holds),
      elim (ℕ-cases other h) [
        | inl same ↦
            ground (arith, resolve-set t (index h) other e gone n.there, same, ap index same)
        | inr ne ↦ elim (ℕ-cases (index other) (index h)) [
          | inl at ↦
              let apart : generation other ≢ generation h =
                λ g. ne (handle_halves other h small' small at g) in
              ground (
                arith,
                resolve-set t (index h) other e gone n.there,
                resolve_lem t other,
                ap (get_elem? t.entries) at,
                n.there,
                n.current,
                apart,
              )
          | inr differ ↦
              rw (==_ne other h ne) (ground (arith, resolve-set t (index h) other e gone n.there))
        ]
      ],
    )

claim_inv :
    (t u : HandleTable) (h : ℕ)
    → try_claim t h ≡ ok u
    → (e : HandleEntry) × (file : ℕ) × Named t h file e
      × (e.busy ≡ false)
      × (u ≡ record t { entries = set t.entries (index h) (record e { busy = true }) })
unfolding try_claim
claim_inv t u h r = elim (Option-cases (get_elem? t.entries (index h))) [
  | inl missing ↦ absurd (ground (arith, missing, r, bit_and_mask 16 h))
  | inr (e, there) ↦ elim (Option-cases e.file) [
    | inl empty ↦ absurd (ground (arith, there, empty, r, bit_and_mask 16 h))
    | inr (file, holds) ↦ (
      e,
      file,
      record {
        there = there;
        current = ground (arith, there, holds, r, bit_and_mask 16 h);
        nonzero = ground (arith, there, holds, r, bit_and_mask 16 h);
        holds = holds;
      },
      ground (arith, there, holds, r, bit_and_mask 16 h),
      ground (arith, there, holds, r, bit_and_mask 16 h),
    )
  ]
]

-- After a claim a second one of the same handle is refused as busy, and every handle resolves as
-- before.
pub try_claim_lem :
    (t u : HandleTable) (h other : ℕ)
    → try_claim t h ≡ ok u
    → (try_claim u h ≡ err ebusy) × (resolve u other ≡ resolve t other)
unfolding try_claim
try_claim_lem t u h other r =
    let (e, file, n, idle, after) = claim_inv t u h r in
    let held : HandleEntry = record e { busy = true } in
    let there =
      get_elem?-set_self t.entries (index h) held (get_elem?-lt t.entries (index h) e n.there) in
    rw after (
      ground (arith, there, n.current, n.nonzero, n.holds, bit_and_mask 16 h),
      ground (
        arith,
        resolve-set t (index h) other e held n.there,
        resolve_lem t other,
        n.there,
        ap (get_elem? t.entries),
      ),
    )

-- In a sound table, where a handle is claimed and then closed, the next file that is opened does
-- not land in its entry.
pub claim_keeps_entry :
    (t u v x : HandleTable) (h file new k : ℕ)
    → try_claim t h ≡ ok u
    → close u h ≡ ok (file, v)
    → insert v new ≡ some (k, x)
    → IsValid t
    → index k ≢ index h
claim_keeps_entry t u v x h file new k a b c w at =
    let (e, _, n, _, claimed) = claim_inv t u h a in
    let (e', n', closing) = close_inv u v h file b in
    let (i, free, there, _, idle, name, _) = insert_inv v x new k c in
    let held : HandleEntry = record e { busy = true } in
    let gone : HandleEntry = record e' {
      file = none;
      generation = next_generation e'.generation;
    } in
    let same_size : length v.entries ≡ length t.entries =
      ap (λ (r : HandleTable). length r.entries) closing
      ∙ length-set u.entries (index h) gone
      ∙ ap (λ (r : HandleTable). length r.entries) claimed
      ∙ length-set t.entries (index h) held in
    let room : i < u16_mod = omega (arith, get_elem?-lt v.entries i free there, w.addressable) in
    let busy_there : get_elem? u.entries (index h) ≡ some held =
      ap (λ (r : HandleTable). get_elem? r.entries (index h)) claimed
      ∙ get_elem?-set_self t.entries (index h) held (get_elem?-lt t.entries (index h) e n.there) in
    let busy_after : get_elem? v.entries (index h) ≡ some gone =
      ap (λ (r : HandleTable). get_elem? r.entries (index h)) closing
      ∙ get_elem?-set_self u.entries (index h) gone
          (get_elem?-lt u.entries (index h) e' n'.there) in
    let at_i : i ≡ index h = sym (ap index name ∙ handle_index i free.generation room) ∙ at in
    ground (arith, busy_there, busy_after, n'.there, there, idle, ap (get_elem? v.entries) at_i)
