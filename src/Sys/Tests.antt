-- ===== src/Sys/Tests.antt =====
-- Concrete inputs for the theorem on handles.
use koru.Prelude.{◌≡◌, arith}
use koru.Sys.Abi.{handle_index, handle_generation, make_handle}
use koru.Sys.Abi.Layout.{make_handle_lem}

make_handle_lem_example :
    (handle_index (make_handle 5 9) ≡ 5)
    × (handle_generation (make_handle 5 9) ≡ 9)
    × (make_handle (handle_index 0x9_0005) (handle_generation 0x9_0005) ≡ 0x9_0005)
make_handle_lem_example = make_handle_lem 5 9 0x9_0005 (omega arith) (omega arith) (omega arith)
