-- ===== src/Kernel/Host.antt =====
-- What the operations of kernel/koru_ops.rs ask of the Linux kernel, for one submission: its
-- answers are parameters of the model. The guards of kernel/koru_path.rs are in the answers of the
-- path calls.
use koru.Prelude.{ℕ, Bool, Option, List}
use koru.Kernel.Abi.{Result, Errno}

-- The host's open flags, whose values vary by architecture.
pub record OpenFlags : Type 0 where
  pub o_rdonly : ℕ
  pub o_wronly : ℕ
  pub o_rdwr : ℕ
  pub o_nofollow : ℕ
  pub o_directory : ℕ
  pub o_nonblock : ℕ
  pub o_creat : ℕ
  pub o_excl : ℕ
  pub o_trunc : ℕ
  pub o_append : ℕ
  pub o_largefile : ℕ
  pub o_noctty : ℕ

-- A `struct file`, which is named by a number.
pub record FileInfo : Type 0 where
  pub f_mode : ℕ
  pub f_flags : ℕ
  -- `i_mode`, masked by `S_IFMT`
  pub file_type : ℕ
  -- what its `f_op` has
  pub read : Bool
  pub read_iter : Bool
  pub write : Bool
  pub write_iter : Bool
  pub iterate_shared : Bool

pub record Host : Type 0 where
  pub page_size : ℕ
  pub path_max : ℕ
  pub s_ifreg : ℕ
  pub flags : OpenFlags
  -- whether a vector of so many bytes can be had
  pub memory : ℕ → Bool
  pub msecs_to_jiffies : ℕ → ℕ
  pub info : ℕ → FileInfo
  -- path with its NUL, flags, mode
  pub filp_open : List ℕ → ℕ → ℕ → Result ℕ
  pub fget : ℕ → Result ℕ
  -- whether the file's `f_op` is the ring's own
  pub is_ring : ℕ → Bool
  pub vfs_mkdir : List ℕ → ℕ → Option Errno
  -- parent, last component, whether a directory is meant
  pub vfs_remove : List ℕ → List ℕ → Bool → Option Errno
  pub vfs_rename : List ℕ × List ℕ → List ℕ × List ℕ → Option Errno
  -- target, link
  pub vfs_symlink : List ℕ → List ℕ → Option Errno
  pub vfs_truncate : List ℕ → ℕ → Option Errno
  -- the four words of a `KoruTimes`
  pub vfs_utimes : List ℕ → List ℕ → Option Errno
  -- the target of the link
  pub vfs_get_link : List ℕ → Result (List ℕ)
  -- the bytes of a `KoruStat`, and the mask of what the file system reported
  pub getattr_at : List ℕ → Result (List ℕ × ℕ)
  -- the `STATX_*` bits, in the order of `PAIRS`
  pub statx_bits : List ℕ
  -- where the new `OpWork` lies; `none`: no memory for it
  pub alloc_op : Option ℕ
  -- whether the registry takes one more
  pub can_push : Bool
  -- whether the workqueue takes an operation with so many jiffies of delay
  pub enqueue_delayed : ℕ → Bool
  -- the mask and the number of wait queues that the arm of a poll finds, and whether a wake won the
  -- token meanwhile
  pub poll_arm : ℕ → ℕ → ℕ × ℕ
  pub poll_woken : Bool
  -- what `cancel_delayed_work` answers for an operation, by its address
  pub cancel_delayed_work : ℕ → Bool

-- An entry that `iterate_dir` hands to its actor: `none` for a name of negative length.
pub record DirEntry : Type 0 where
  pub name : Option (List ℕ)
  pub offset : ℕ
  pub ino : ℕ
  pub dtype : ℕ

-- What a worker asks of the kernel while it runs one operation.
pub record Worker : Type 0 where
  pub page_size : ℕ
  pub memory : ℕ → Bool
  -- file, position at the start, bytes transferred before, and how many are wanted
  pub read_at : ℕ → ℕ → ℕ → ℕ → Result (List ℕ)
  -- the same, with the bytes to write; how many were
  pub write_at : ℕ → ℕ → ℕ → List ℕ → Result ℕ
  pub getattr : ℕ → Result (List ℕ × ℕ)
  pub statx_bits : List ℕ
  -- file and position
  pub vfs_llseek : ℕ → ℕ → Option Errno
  -- the entries in order, the error, and where the iteration stops after so many of them
  pub dir_entries : ℕ → List DirEntry
  pub iterate_dir : ℕ → Option Errno
  pub dir_pos : ℕ → ℕ → ℕ
  -- what the wake of a poll saw, and the mask asked for again
  pub fired : ℕ
  pub poll_mask_now : ℕ
