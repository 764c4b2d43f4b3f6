-- ===== src/Lib.antt =====
-- koru: an asynchronous system-call ring for Linux. A kernel module takes submission entries (SQEs)
-- from a process and posts completions (CQEs); a Rust runtime drives futures with it.
--
-- The parts and their modules:
--   Kernel.Abi       kernel/koru_abi.rs: entries, parameters, limits.
--   Kernel.Setup     kernel/koru.rs: `validate`, `fill_caps`, `fill_config`.
--   Kernel.Ring      kernel/koru.rs: `RingState`, the circular completion queue with its reservations
--                    and the bitmap of arena slots. Ring/Queue relates it to a list, Ring/Slots the
--                    bitmap to a set of owned slots.
--   Kernel.Handles   kernel/koru.rs: `HandleTable`.
--   Kernel.Submit    kernel/koru.rs: `complete` and `reap`, on a `RingState`.
--   Kernel.Ctx       kernel/koru.rs: `RingCtx`, `open`, `setup`, `get_params`, `mmap`.
--   Kernel.Arena, Kernel.Poll, Kernel.Path   kernel/koru_ops.rs: the bounds of a range in the arena and
--                    reads of it page by page; the masks of `POLL_ADD`; `split_path`.
--   Kernel.Host      what the kernel around the module answers: records `Host` and `Worker`.
--   Kernel.Files, Kernel.Taken   kernel/koru_ops.rs: the guards of an operation on a file; the paths
--                    and arguments copied out of a slot under a claim.
--   Kernel.Defer, Kernel.Cancel   kernel/koru_ops.rs: `alloc_op`, `defer`, the deferred operations,
--                    `poll_op`; `cancel_op`.
--   Kernel.Store, Kernel.PathOps, Kernel.Open   kernel/koru_ops.rs: `write_slot`; the operations that
--                    run inline, `do_mkdir` to `do_readlink`, and `do_open`, `do_adopt`, `close_op`.
--   Kernel.Ops       kernel/koru_ops.rs: `dispatch`. Its children follow the slots, handles and the
--                    count of deferred operations through every opcode; Ops/History and Ops/Leaks
--                    through any sequence of submits, workers and reaps.
--   Kernel.Work, Kernel.Readdir, Kernel.Checksum   kernel/koru_ops.rs: `OpWork::run` and what a worker
--                    does: `do_read`, `do_write`, `do_stat`; `do_readdir` with `koru_filldir`; `checksum`.
--   Kernel.Submission, Kernel.Enter   kernel/koru.rs: `submit` and `wait`, on the device, with the opcode
--                    table of Kernel.Ops and the workers of Kernel.Work; `enter`, which calls them.
--   Sys.Abi          rust/sys/src/abi.rs, and the entry constructors of rust/sys/src/ring.rs.
--   Sys.Pool         rust/sys/src/pool.rs: the process's own list of free slots.
--   Runtime.Cookie, Runtime.Slab    rust/runtime/src/slab.rs: the slab and its generational key.
--   Runtime.Op       rust/runtime/src/op.rs: the states of an operation.
--   Runtime.Reactor  rust/runtime/src/reactor.rs: `register`, `poll_op`, `abandon`, the batch;
--                    Reactor/Turn has `dispatch`, `turn` and `drain`.
--   Runtime.Exec     rust/runtime/src/exec.rs: the ready queue, `spawn`, `poll_task`, `run`, `pump`.
--   Runtime.FileBuf, Runtime.Utf8   rust/runtime/src/filebuf.rs: the bytes that a buffered stream has in
--                    hand, and their decoding. FileBuf/Streams follows a stream through any sequence
--                    of operations.
--   Runtime.Args, Runtime.Opt   rust/runtime/src/args.rs and opt.rs: the argument vector and the scan of
--                    options. Runtime.Text is Rust's `str` with its byte offsets.
--   Runtime.TextBuf  rust/runtime/src/textbuf.rs: `TextBuf`, the lines of a text and its edits.
-- Prelude holds what they share: the library's names, lists and tests on native numbers, words and
-- their bits, chains that may panic.
--
-- How they interact: the reactor registers an operation in the slab under a cookie, queues its SQE
-- with the cookie as `user_data`, and hands its buffer slot to the entry. A turn passes the batch to
-- `ENTER`; the kernel reserves a place in the completion queue for each SQE before it consumes it,
-- answers inline or defers, and posts. The turn routes each completion by its cookie.
--
-- State is passed explicitly: an operation takes the state and returns the new one. A panic, an index
-- out of range or a subtraction below zero is `none` or a constructor of its own. Machine integers
-- are natural numbers with their wrap-around written out. In the kernel a file is a number, and the
-- errors are names without their numbers.
--
-- Arguments that stand for code outside the repository: the page size, what copies to and from the
-- user's memory answer, whether memory can be had, and what wakes a wait. For the runtime, `ENTER`
-- is a function of how many calls came before and of what is asked, which may answer anything. A
-- call into the VFS, an allocation, the workqueue and `poll_arm` answer what the records `Host` and
-- `Worker` hold: `Host.poll_woken` says whether a wake takes the token of a poll before the
-- submitter does. Which operations workers finish around an SQE or during a wait is a list of
-- workers with the registry's indices. An allocation of an operation answers an address where none
-- is registered.
--
-- Fuel: `turn` runs at most as many rounds as its fuel says. Reactor/Progress bounds the rounds of
-- a turn that does not wait by what is pending and in flight, and by the calls during which nothing
-- moves. `run` takes a round of polls and a turn for each unit of its fuel. `read_slot`,
-- `write_slot`, `checksum` and the loops of `do_read` and `do_write` need a round for each byte at
-- most, which is the fuel they get. `load` of a text has a round for each of its characters and one
-- more, and `next` of a text buffer a step for each byte. `drain` has the source's own bound of 64
-- turns. `wait` takes the list of what wakes it, and is asleep when that runs out.
--
-- Not modelled: locks and memory ordering (each call is one step; workers finish operations
-- before the dispatch of an SQE and during a wait), ioctl numbers, the inside of the VFS calls and
-- kernel/koru_path.rs, `release` and the cancellation of what is left, what a future does (an
-- argument of the executor), the streams, iterators and combinators above the buffers, the calendar
-- and zones, the grid and the screen's client, the tables of errors, the C++ mirror, and all
-- output.
pub mod Prelude
pub mod Kernel
pub mod Sys
pub mod Runtime
