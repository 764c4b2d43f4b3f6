-- ===== src/Sys/Abi.antt =====
-- rust/sys/src/abi.rs and the entry constructors of rust/sys/src/ring.rs.
pub mod Layout
use Prim.Native.Nat.{bit_and, bit_or}
use koru.Prelude.{ℕ, ◌+◌, ◌-◌, ◌*◌, ◌/◌, ◌%◌, ◌^◌}
use koru.Prelude.Words.{u16_mod, u64_mod, complement}
use koru.Prelude.Int.{ℤ, pos, negsuc}

pub record Sqe : Type 0 where
  pub opcode : ℕ
  pub flags : ℕ
  pub rsvd0 : ℕ
  pub len : ℕ
  pub off : ℕ
  pub user_data : ℕ
  pub slot : ℕ
  pub handle : ℕ

pub record Cqe : Type 0 where
  pub user_data : ℕ
  pub res : ℤ
  pub flags : ℕ
  pub rsvd0 : ℕ
  pub extra : ℕ

-- `Sqe::default()`
abbrev pub default_sqe : Sqe
default_sqe = record {
  opcode = 0;
  flags = 0;
  rsvd0 = 0;
  len = 0;
  off = 0;
  user_data = 0;
  slot = 0;
  handle = 0;
}

unfoldable pub nop : ℕ → Sqe
nop user_data = record default_sqe { user_data = user_data }

unfoldable pub delay_ns : ℕ → ℕ → Sqe
delay_ns user_data ns = record default_sqe { opcode = 1; off = ns; user_data = user_data }

unfoldable pub checksum : ℕ → ℕ → ℕ → ℕ → Sqe
checksum user_data slot off len = record default_sqe {
  opcode = 6;
  len = len;
  off = off;
  user_data = user_data;
  slot = slot;
}

-- `handle` carries the open flags.
unfoldable pub open_file : ℕ → ℕ → ℕ → ℕ → ℕ → Sqe
open_file user_data slot off len open_flags = record default_sqe {
  opcode = 2;
  len = len;
  off = off;
  user_data = user_data;
  slot = slot;
  handle = open_flags;
}

unfoldable pub read : ℕ → ℕ → ℕ → ℕ → ℕ → Sqe
read user_data handle slot off len = record default_sqe {
  opcode = 3;
  len = len;
  off = off;
  user_data = user_data;
  slot = slot;
  handle = handle;
}

-- `len` carries the events.
unfoldable pub poll_add : ℕ → ℕ → ℕ → Sqe
poll_add user_data handle events = record default_sqe {
  opcode = 9;
  len = events;
  user_data = user_data;
  handle = handle;
}

unfoldable pub stat : ℕ → ℕ → ℕ → ℕ → ℕ → Sqe
stat user_data handle slot off len = record default_sqe {
  opcode = 10;
  len = len;
  off = off;
  user_data = user_data;
  slot = slot;
  handle = handle;
}

unfoldable pub path : ℕ → ℕ → ℕ → ℕ → ℕ → Sqe
path opcode user_data slot off len = record default_sqe {
  opcode = opcode;
  len = len;
  off = off;
  user_data = user_data;
  slot = slot;
}

unfoldable pub readdir : ℕ → ℕ → ℕ → ℕ → ℕ → Sqe
readdir user_data handle slot off len = record default_sqe {
  opcode = 20;
  len = len;
  off = off;
  user_data = user_data;
  slot = slot;
  handle = handle;
}

-- `fd as u64` extends the sign of the i32.
abbrev pub as_u64 : ℤ → ℕ
as_u64 (pos n) = n
as_u64 (negsuc n) = u64_mod - 1 - n

unfoldable pub adopt_fd : ℕ → ℤ → Sqe
adopt_fd user_data fd = record default_sqe { opcode = 8; off = as_u64 fd; user_data = user_data }

unfoldable pub write : ℕ → ℕ → ℕ → ℕ → ℕ → Sqe
write user_data handle slot off len = record default_sqe {
  opcode = 7;
  len = len;
  off = off;
  user_data = user_data;
  slot = slot;
  handle = handle;
}

unfoldable pub close : ℕ → ℕ → Sqe
close user_data handle = record default_sqe { opcode = 4; user_data = user_data; handle = handle }

-- `off` is the target's `user_data`.
unfoldable pub cancel : ℕ → ℕ → Sqe
cancel user_data target = record default_sqe { opcode = 5; off = target; user_data = user_data }

pub handle_index : ℕ → ℕ
handle_index handle = bit_and handle 0xffff

pub handle_generation : ℕ → ℕ
handle_generation handle = handle / 2 ^ 16 % u16_mod

pub make_handle : ℕ → ℕ → ℕ
make_handle index generation = bit_or index (generation * 2 ^ 16)

-- `(off + len + 7) & !7` on u64, with the sum wrapping.
pub arg_offset : ℕ → ℕ → ℕ
arg_offset off len = bit_and ((off + len + 7) % u64_mod) (complement 64 7)
