-- ===== src/Kernel/Handles.antt =====
-- `HandleTable` of kernel/koru.rs: open files named by an index and a generation. A file is named
-- by a number that stands for the kernel's reference to it.
pub mod Laws
pub mod Claims
use Prim.Native.Nat.{bit_and, bit_or}
use koru.Prelude.{
  ℕ, zero, suc, ◌+◌, ◌*◌, ◌/◌, ◌%◌, ◌^◌, Bool, true, false, not, ◌&&◌, ◌||◌, Option, none, some,
  List, [], ◌∷◌, get_elem?, set, replicate, ◌==◌, if◌then◌else◌,
}
use koru.Prelude.Words.{u16_mod}
use koru.Kernel.Abi.{Result, ok, err, ebadf, ebusy}

pub record HandleEntry : Type 0 where
  pub file : Option ℕ
  pub generation : ℕ
  pub busy : Bool

pub record HandleTable : Type 0 where
  pub entries : List HandleEntry

abbrev pub bind {ℓ κ} : {A : Type ℓ} {B : Type κ} → Result A → (A → Result B) → Result B
bind (ok a) f = f a
bind (err e) f = err e

-- `ok_or(e)`
abbrev pub ok_or {ℓ} : {A : Type ℓ} → Option A → Result A
ok_or none = err ebadf
ok_or (some a) = ok a

abbrev pub is_none : Option ℕ → Bool
is_none none = true
is_none (some f) = false

pub new : HandleTable
new = record { entries = [] }

unfoldable pub alloc : ℕ → List HandleEntry
alloc n = replicate n (record { file = none; generation = 1; busy = false })

-- `(i as u32) | (u32::from(e.generation) << 16)`
unfoldable pub make_handle : ℕ → ℕ → ℕ
make_handle i generation = bit_or i (generation * 2 ^ 16)

-- The index of the first free entry that no READDIR claims, with its entry.
first_free : List HandleEntry → ℕ → Option (ℕ × HandleEntry)
first_free [] i = none
first_free (e ∷ es) i =
    let rest = first_free es (suc i) in if is_none e.file && not e.busy then some (i, e) else rest

-- `none` hands the file back: the table is full.
unfoldable pub insert : HandleTable → ℕ → Option (ℕ × HandleTable)
unfolding first_free
insert t file = elim (first_free t.entries 0) [
  | none ↦ none
  | some (i, e) ↦ some (
    make_handle i e.generation,
    record t { entries = set t.entries i (record e { file = some file }) },
  )
]

unfoldable pub split : ℕ → Result (ℕ × ℕ)
split handle =
    let index = bit_and handle 0xffff in
    let generation = handle / 2 ^ 16 % u16_mod in
    if generation == 0 then err ebadf else ok (index, generation)

unfoldable pub resolve : HandleTable → ℕ → Result ℕ
unfolding split
resolve t handle = bind (split handle) λ p.
    bind (ok_or (get_elem? t.entries p.0))
      λ e. if not (e.generation == p.1) then err ebadf else ok_or e.file

unfoldable pub try_claim : HandleTable → ℕ → Result HandleTable
unfolding split
try_claim t handle = bind (split handle) λ p. bind (ok_or (get_elem? t.entries p.0)) λ e.
    if not (e.generation == p.1) || is_none e.file
    then err ebadf
    else if e.busy
    then err ebusy
    else ok (record t { entries = set t.entries p.0 (record e { busy = true }) })

unfoldable pub unclaim : HandleTable → ℕ → HandleTable
unclaim t handle = elim (get_elem? t.entries (bit_and handle 0xffff)) [
  | none ↦ t
  | some e ↦ record t {
    entries = set t.entries (bit_and handle 0xffff) (record e { busy = false });
  }
]

-- `wrapping_add(1)` on a u16, and 1 where that is 0.
unfoldable pub next_generation : ℕ → ℕ
next_generation g = let n = (g + 1) % u16_mod in if n == 0 then 1 else n

unfoldable pub close : HandleTable → ℕ → Result (ℕ × HandleTable)
unfolding split
close t handle = bind (split handle) λ p. bind (ok_or (get_elem? t.entries p.0)) λ e.
    if not (e.generation == p.1)
    then err ebadf
    else bind (ok_or e.file) λ file. ok (
      file,
      record t {
        entries =
            set t.entries p.0 (record e { file = none; generation = next_generation e.generation });
      },
    )
