-- ===== src/Kernel/Handles/Laws.antt =====
-- What the handle table promises: a handle names one file from `insert` to `close`, and no other.
use koru.Prelude.{
  ℕ, suc, ◌+◌, ◌/◌, ◌%◌, ◌^◌, ◌≤◌, ◌<◌, ◌≡◌, ◌≢◌, sym, ap, ◌∙◌, inl, inr, false, not, ◌&&◌, Option,
  none, some, List, [], ◌∷◌, arith, length, get_elem?, set, get_elem?-set_self, get_elem?-set_ne,
  get_elem?-lt, All, All-get_elem?, All-set, length-set, ℕ-cases, Bool-cases, Option-cases, ==_ne,
  ==_refl, ◌==◌, if◌then◌else◌,
}
use koru.Prelude.Words.{u16_mod, u32_mod, bit_or_fields, bit_and_mask}
use koru.Kernel.Abi.{Result, ok, err, ebadf}
use koru.Kernel.Handles.{
  HandleEntry, HandleTable, insert, resolve, first_free, is_none, make_handle, ok_or,
}

abbrev pub index : ℕ → ℕ
index handle = handle % 2 ^ 16

abbrev pub generation : ℕ → ℕ
generation handle = handle / 2 ^ 16 % u16_mod

abbrev pub IsGeneration : HandleEntry → Type 0
IsGeneration e = (0 < e.generation) × (e.generation < u16_mod)

pub record IsValid (t : HandleTable) : Type 0 where
  pub generations : All IsGeneration t.entries
  pub addressable : length t.entries ≤ u16_mod

-- What an entry answers to a generation.
abbrev pub answer : Option HandleEntry → ℕ → Result ℕ
answer none g = err ebadf
answer (some e) g =
    if g == 0 then err ebadf else if e.generation == g then ok_or e.file else err ebadf

pub resolve_lem :
    (t : HandleTable) (h : ℕ) → resolve t h ≡ answer (get_elem? t.entries (index h)) (generation h)
unfolding resolve
resolve_lem t h = ground (arith, bit_and_mask 16 h)

first_free-some :
    (es : List HandleEntry) (k i : ℕ) (e : HandleEntry)
    → first_free es k ≡ some (i, e)
    → (j : ℕ) × (i ≡ k + j) × (get_elem? es j ≡ some e) × (e.file ≡ none) × (e.busy ≡ false)
unfolding first_free
first_free-some [] k i e h = absurd (cc h)
first_free-some (x ∷ es) k i e h = elim (Bool-cases (is_none x.file && not x.busy)) [
  | inl here ↦
      let found : some (k, x) ≡ some (i, e) = rw here at h in
      (0, ground (arith, found), cc found, ground (arith, found, here), ground (arith, found, here))
  | inr later ↦
      let (j, place, there, empty, idle) = first_free-some es (suc k) i e (rw later at h) in
      (suc j, omega arith, there, empty, idle)
]

-- An insertion takes an entry that holds no file and no claim.
pub insert_inv :
    (t u : HandleTable) (file h : ℕ)
    → insert t file ≡ some (h, u)
    → (i : ℕ) × (e : HandleEntry) × (get_elem? t.entries i ≡ some e)
      × (e.file ≡ none)
      × (e.busy ≡ false)
      × (h ≡ make_handle i e.generation)
      × (u ≡ record t { entries = set t.entries i (record e { file = some file }) })
unfolding insert
insert_inv t u file h r = elim (Option-cases (first_free t.entries 0)) [
  | inl none_free ↦ absurd (ground (arith, none_free, r))
  | inr ((i, e), found) ↦
      let (j, place, there, empty, idle) = first_free-some t.entries 0 i e found in
      let same : i ≡ j = omega arith in
      (i, e, rw same there, empty, idle, ground (arith, found, r), ground (arith, found, r))
]

pub handle_index : (i g : ℕ) → i < u16_mod → index (make_handle i g) ≡ i
unfolding make_handle
handle_index i g h = omega (arith, bit_or_fields 16 i g h)

handle_generation : (i g : ℕ) → i < u16_mod → g < u16_mod → generation (make_handle i g) ≡ g
unfolding make_handle
handle_generation i g h k = omega (arith, bit_or_fields 16 i g h)

make_handle-lt : (i g : ℕ) → i < u16_mod → g < u16_mod → make_handle i g < u32_mod
unfolding make_handle
make_handle-lt i g h k = omega (arith, bit_or_fields 16 i g h)

pub handle_halves :
    (h k : ℕ) → h < u32_mod → k < u32_mod → index h ≡ index k → generation h ≡ generation k → h ≡ k
handle_halves h k a b i g = omega arith

-- The table after one entry is written: the handles with its index answer from the new entry.
pub resolve-set :
    (t : HandleTable) (i h : ℕ) (e e' : HandleEntry)
    → get_elem? t.entries i ≡ some e
    → resolve (record t { entries = set t.entries i e' }) h
      ≡ (if index h == i then answer (some e') (generation h) else resolve t h)
resolve-set t i h e e' there = elim (ℕ-cases (index h) i) [
  | inl same ↦
      resolve_lem _ h
      ∙ rw (same, get_elem?-set_self t.entries i e' (get_elem?-lt t.entries i e there), ==_refl i)
  | inr ne ↦
      resolve_lem _ h
      ∙ rw (
        get_elem?-set_ne t.entries i (index h) e' (λ q. ne (sym q)),
        ==_ne (index h) i ne,
        resolve_lem t h,
      )
]

module _ (t : HandleTable) (file i : ℕ) (e : HandleEntry) (w : IsValid t)
    (there : get_elem? t.entries i ≡ some e) (empty : e.file ≡ none) where
  abbrev handle : ℕ
  handle = make_handle i e.generation

  abbrev filled : HandleTable
  filled = record t { entries = set t.entries i (record e { file = some file }) }

  room : i < u16_mod
  room = omega (arith, get_elem?-lt t.entries i e there, w.addressable)

  gens : IsGeneration e
  gens = All-get_elem? IsGeneration t.entries i e w.generations there

  filled-IsValid : IsValid filled
  filled-IsValid = record {
    generations = All-set IsGeneration t.entries i _ w.generations gens;
    addressable =
        omega (arith, length-set t.entries i (record e { file = some file }), w.addressable);
  }

  at_index : index handle ≡ i
  at_index = handle_index i e.generation room

  at_generation : generation handle ≡ e.generation
  at_generation = handle_generation i e.generation room gens.1

  handle_small : handle < u32_mod
  handle_small = make_handle-lt i e.generation room gens.1

  resolve-filled_self : resolve filled handle ≡ ok file
  resolve-filled_self = ground (
    arith,
    resolve-set t i handle e (record e { file = some file }) there,
    at_index,
    at_generation,
    gens,
  )

  resolve_before : (h : ℕ) → index h ≡ i → resolve t h ≡ err ebadf
  resolve_before h at = ground (arith, resolve_lem t h, there, ap (get_elem? t.entries) at, empty)

  resolve-filled_ne :
      (other : ℕ) → other < u32_mod → other ≢ handle → resolve filled other ≡ resolve t other
  resolve-filled_ne other small ne = elim (ℕ-cases (index other) i) [
    | inl same ↦
        let apart : generation other ≢ e.generation = λ g. ne (
          handle_halves other handle small handle_small (same ∙ sym at_index)
            (g ∙ sym at_generation)) in
        ground (
          arith,
          resolve-set t i other e (record e { file = some file }) there,
          resolve_before other same,
          same,
          apart,
        )
    | inr differ ↦
        resolve-set t i other e (record e { file = some file }) there
        ∙ rw (==_ne (index other) i differ)
  ]

-- A file that is inserted into a sound table is what its new handle resolves to. The handle was
-- stale before, every other handle resolves as it did, and the table stays sound.
pub resolve-insert :
    (t u : HandleTable) (file h other : ℕ)
    → IsValid t
    → insert t file ≡ some (h, u)
    → other < u32_mod
    → IsValid u
      × (resolve u other ≡ (if other == h then ok file else resolve t other))
      × (resolve u h ≡ ok file)
      × (resolve t h ≡ err ebadf)
resolve-insert t u file h other w r small =
    let (i, e, there, empty, idle, name, after) = insert_inv t u file h r in
    rw (name, after)
      (
        filled-IsValid t file i e w there empty,
        elim (ℕ-cases other (make_handle i e.generation)) [
          | inl same ↦
              rw (same, ==_refl (make_handle i e.generation))
                (resolve-filled_self t file i e w there empty)
          | inr ne ↦
              rw (==_ne other _ ne) (resolve-filled_ne t file i e w there empty other small ne)
        ],
        resolve-filled_self t file i e w there empty,
        resolve_before t file i e w there empty (make_handle i e.generation)
            (at_index t file i e w there empty),
      )
