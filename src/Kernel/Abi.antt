-- ===== src/Kernel/Abi.antt =====
-- kernel/koru_abi.rs: the wire format, its limits and its constants.
use koru.Prelude.{ℕ, ◌*◌, ◌^◌, Option, none, some, List, [], ◌∷◌, get_elem?}

-- The errors that the module returns. Their numbers vary by architecture and are not modelled.
pub data Errno : Type 0 where
  eproto einval ebusy ebadf enotty eintr emfile efault enomem ecanceled ealready enoent : Errno
  eloop eopnotsupp enametoolong exdev enotdir eagain : Errno
  -- an error of the kernel proper, by its number
  other : ℕ → Errno

-- The `res` of a completion: a value at least 0, or a negated error.
pub data Res : Type 0 where
  value : ℕ → Res
  failed : Errno → Res

pub data Result {ℓ} (A : Type ℓ) : Type ℓ where
  ok : A → Result A
  err : Errno → Result A

abbrev pub koru_magic : ℕ
koru_magic = 0x7572_6f6b

abbrev pub koru_abi_version : ℕ
koru_abi_version = 1

abbrev pub koru_setup_flags_all : ℕ
koru_setup_flags_all = 0

abbrev pub koru_enter_flags_all : ℕ
koru_enter_flags_all = 0

abbrev pub koru_max_sq_entries : ℕ
koru_max_sq_entries = 4096

abbrev pub koru_max_cq_entries : ℕ
koru_max_cq_entries = 8192

abbrev pub koru_max_slot_size : ℕ
koru_max_slot_size = 2 ^ 20

abbrev pub koru_max_slot_count : ℕ
koru_max_slot_count = 4096

abbrev pub koru_max_arena_bytes : ℕ
koru_max_arena_bytes = 64 * 2 ^ 20

abbrev pub koru_max_handles : ℕ
koru_max_handles = 4096

abbrev pub koru_default_handles : ℕ
koru_default_handles = 64

abbrev pub koru_max_delay_ns : ℕ
koru_max_delay_ns = 3_600_000_000_000

-- What a `MKDIR` and the mode of an `OPEN` may carry.
abbrev pub koru_mkdir_mode_all : ℕ
koru_mkdir_mode_all = 0x3ff

abbrev pub koru_open_mode_all : ℕ
koru_open_mode_all = 0x3ff

abbrev pub koru_sqe_flags_all : ℕ
koru_sqe_flags_all = 0

-- `size_of::<KoruStat>()`, `size_of::<KoruTimes>()`, `size_of::<u64>()`.
abbrev pub koru_stat_size : ℕ
koru_stat_size = 256

abbrev pub koru_times_size : ℕ
koru_times_size = 32

abbrev pub word_size : ℕ
word_size = 8

pub data Opcode : Type 0 where
  nop delay_ns open_file read close cancel checksum write adopt_fd poll_add stat : Opcode
  truncate utimes readlink statx_at mkdir symlink unlink rmdir rename readdir unknown : Opcode

-- The opcodes in the order of their numbers, from 0.
abbrev opcodes : List Opcode
opcodes =
    nop ∷ delay_ns ∷ open_file ∷ read ∷ close ∷ cancel ∷ checksum ∷ write ∷ adopt_fd ∷ poll_add
    ∷ stat ∷ truncate ∷ utimes ∷ readlink ∷ statx_at ∷ mkdir ∷ symlink ∷ unlink ∷ rmdir ∷ rename
    ∷ readdir ∷ []

abbrev known : Option Opcode → Opcode
known none = unknown
known (some op) = op

unfoldable pub opcode_of : ℕ → Opcode
opcode_of n = known (get_elem? opcodes n)

pub record KoruParams : Type 0 where
  pub magic : ℕ
  pub abi_version : ℕ
  pub flags : ℕ
  pub sq_entries : ℕ
  pub cq_entries : ℕ
  pub slot_size : ℕ
  pub slot_count : ℕ
  pub configured : ℕ
  pub features : ℕ
  pub arena_size : ℕ
  pub max_sq_entries : ℕ
  pub max_cq_entries : ℕ
  pub max_slot_size : ℕ
  pub max_slot_count : ℕ
  pub max_arena_bytes : ℕ
  pub handle_count : ℕ
  pub max_handles : ℕ
  pub max_delay_ns : ℕ
  pub reserved : List ℕ

pub record Sqe : Type 0 where
  pub opcode : ℕ
  pub flags : ℕ
  pub rsvd0 : ℕ
  pub len : ℕ
  pub off : ℕ
  pub user_data : ℕ
  pub slot : ℕ
  pub handle : ℕ

pub record Cqe : Type 0 where
  pub user_data : ℕ
  pub res : Res
  pub flags : ℕ
  pub rsvd0 : ℕ
  pub extra : ℕ

pub record KoruEnter : Type 0 where
  pub sq_addr : ℕ
  pub cq_addr : ℕ
  pub timeout_ns : ℕ
  pub to_submit : ℕ
  pub cq_space : ℕ
  pub min_complete : ℕ
  pub flags : ℕ
  pub completed : ℕ
  pub submitted : ℕ
  pub reserved : List ℕ
