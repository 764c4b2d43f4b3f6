-- ===== src/Kernel/Tests/Tables.antt =====
-- Concrete inputs for the theorems on handles.
use koru.Prelude.{◌≡◌, ◌≢◌, refl, true, false, none, some, [], ◌∷◌, arith, ◌==◌, if◌then◌else◌}
use koru.Kernel.Abi.{ok, err, ebadf}
use koru.Kernel.Handles.{
  HandleTable, insert, resolve, try_claim, close, make_handle, next_generation,
}
use koru.Kernel.Handles.Laws.{IsValid, index, resolve-insert}
use koru.Kernel.Handles.Claims.{resolve-close, claim_keeps_entry}

-- A free entry, and one that holds file 5 under generation 9.
abbrev table : HandleTable
table = record {
  entries =
      record { file = none; generation = 3; busy = false }
      ∷ record { file = some 5; generation = 9; busy = false }
      ∷ [];
}

table-IsValid : IsValid table
table-IsValid = record {
  generations = ((omega arith, omega arith), ((omega arith, omega arith), tt));
  addressable = omega arith;
}

abbrev opened_table : HandleTable
opened_table = record {
  entries =
      record { file = some 8; generation = 3; busy = false }
      ∷ record { file = some 5; generation = 9; busy = false }
      ∷ [];
}

table-insert : insert table 8 ≡ some (0x3_0000, opened_table)
unfolding insert make_handle
table-insert = refl

resolve-insert_example :
    IsValid opened_table
    × (resolve opened_table 0x9_0001
        ≡ (if 0x9_0001 == 0x3_0000 then ok 8 else resolve table 0x9_0001))
    × (resolve opened_table 0x3_0000 ≡ ok 8)
    × (resolve table 0x3_0000 ≡ err ebadf)
resolve-insert_example =
    resolve-insert table opened_table 8 0x3_0000 0x9_0001 table-IsValid table-insert (omega arith)

abbrev closed_table : HandleTable
closed_table = record {
  entries =
      record { file = none; generation = 3; busy = false }
      ∷ record { file = none; generation = 10; busy = false }
      ∷ [];
}

table-close : close table 0x9_0001 ≡ ok (5, closed_table)
unfolding close next_generation
table-close = refl

resolve-close_example :
    IsValid closed_table
    × (resolve table 0x9_0001 ≡ ok 5)
    × (resolve closed_table 0x3_0000
        ≡ (if 0x3_0000 == 0x9_0001 then err ebadf else resolve table 0x3_0000))
resolve-close_example =
    resolve-close table closed_table 0x9_0001 5 0x3_0000 table-IsValid table-close (omega arith)
      (omega arith)

abbrev claimed_table : HandleTable
claimed_table = record {
  entries =
      record { file = none; generation = 3; busy = false }
      ∷ record { file = some 5; generation = 9; busy = true }
      ∷ [];
}

table-try_claim : try_claim table 0x9_0001 ≡ ok claimed_table
unfolding try_claim
table-try_claim = refl

abbrev orphaned_table : HandleTable
orphaned_table = record {
  entries =
      record { file = none; generation = 3; busy = false }
      ∷ record { file = none; generation = 10; busy = true }
      ∷ [];
}

claimed_table-close : close claimed_table 0x9_0001 ≡ ok (5, orphaned_table)
unfolding close next_generation
claimed_table-close = refl

abbrev reused_table : HandleTable
reused_table = record {
  entries =
      record { file = some 6; generation = 3; busy = false }
      ∷ record { file = none; generation = 10; busy = true }
      ∷ [];
}

orphaned_table-insert : insert orphaned_table 6 ≡ some (0x3_0000, reused_table)
unfolding insert make_handle
orphaned_table-insert = refl

claim_keeps_entry_example : index 0x3_0000 ≢ index 0x9_0001
claim_keeps_entry_example =
    claim_keeps_entry table claimed_table orphaned_table reused_table 0x9_0001 5 6 0x3_0000
      table-try_claim claimed_table-close orphaned_table-insert table-IsValid
