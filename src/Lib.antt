-- ===== src/Lib.antt =====
-- The C bindings of uv.mbt, which connect MoonBit to libuv: who owns which object.
--
-- The program. Every function of the bindings (src/*.c) is called from MoonBit with parameters that
-- it owns or borrows. Owned parameters have to end in one of four places: released with
-- moonbit_decref, stored in a field of an object that owns it, handed to libuv (which keeps a
-- reference to a handle until it is closed, and to a request until it is done), or returned. libuv
-- later calls back into the bindings, which hand references on to a MoonBit closure. docs/memory.md
-- states the rules. The development states them as a law on the references to each object.
--
-- The memory (Memory, with its children). An object is an address. A state has a cell for each
-- pointer field of each object (`cells`) and the history of the reference counts (`log`). A command
-- is a function from a state to a result and a state, or to a fault: an access to a field that is
-- not there, or a count changed through NULL. `get`, `put`, `incref`, `decref` and `make` are the
-- primitives, `replace`, `clear`, `drop` and `take` the idioms of the bindings on an owned field.
-- `Law takes gives s t` says of a run from `s` to `t` that for every object the references that the
-- fields hold, that were taken over and that were given away add up with the changes of its count;
-- `Ends P takes gives s r` that the run `r` ends with no fault, with `P` and with that law. Memory is
-- the module Memory; Memory/Cells, Memory/Ledger, Memory/Rules, Memory/Idioms, Memory/Shapes and
-- Memory/Records hold the laws of the cells, of the counts, of the primitives and of whole bodies.
--
-- The parts, by file of the repository:
--   src/handle.h, src/handle.c: Handle
--   src/idle.c, check.c, prepare.c, timer.c, poll.c, fs_event.c, fs_poll.c, async.c, signal.c: the
--     modules of Watcher. Watcher/Session composes the functions of a handle and those of Handle
--     into its life, Watcher/Lives, Watcher/Phases and Watcher/Overdrawn are the lives of the kinds.
--   src/stream.c: Stream/Reading; src/write.c: Stream/Writing, with the loop over the buffers in
--     Stream/Arrays; src/shutdown.c: Stream/Shutdown; src/tcp.c and stream.h: Stream/Tcp;
--     src/pipe.c: Stream/Pipe; src/udp.c: Stream/Udp
--   src/fs.c: Fs. Fs/Request is the request object, Fs/Files, Fs/Links, Fs/Paths and Fs/Metadata
--     the requests, Fs/Content those that move data; Fs/Dispatch and Fs/Blocking have them as data,
--     with what each asks of libuv and which parameters it owns.
--     Fs/Life is the life of a request.
--   src/work.c, src/random.c: Pool; src/dns.c: Dns; src/process.c: Process; src/loop.c: Loop;
--     src/args.c: Args; src/thread.c: Thread
--   src/sem.c: Shared, a block that several threads share. Shared/Life has the interleavings of the
--     threads' atomic steps as a step relation.
--   src/rwlock.c, cond.c, mutex.c, and sem.c with the release of its parameters: Sync. Sync/Guarded is
--     the branch for compilers without stdatomic.h, Sync/Releases has the operations as data.
--   src/socket.c, if.c: Net. Addresses are bytes, and the words in them are read on hosts of either byte
--     order (Net/Words).
--   src/string.c, bytes.c: Text, with the word of an object's header that has its length.
--   src/os.c, cpu_info.c: Queries/Os; env.c: Queries/Env; passwd.c: Queries/Users; key.c, barrier.c,
--     once.c, dl.c: Queries/Threads; req.c, tty.c, and what is left of handle.c, fs_poll.c and fs.c:
--     Queries/Handles; stat.c, metrics.c, time.c: Queries/Counters; rusage.c: Queries/Usage. The strings
--     of C that are copied are in Queries/Strings, and Queries/Table has the calls as data.
--   System puts the functions of src/idle.c, check.c, prepare.c, timer.c, poll.c and handle.c together: a
--     world has a memory, the handles, and the references that the variables of the program and the queues
--     of libuv hold (`held`). A step is a call by the program or by the loop, with the references that it
--     takes over and those that it leaves (`takes`, `gives`), where the call is `Ready`. What a callback
--     of the program does is further steps. System/Counting and System/Draining are about any
--     functions that are `IsLawful`, System/Lawful is about the five kinds, and System/Watchers about their
--     system.
--   Base has the shared names and lemmas, Tests the theorems at concrete inputs.
-- A definition has the name of the C function without moonbit_uv_; moonbit_uv_write, _write2 and
-- _random are write_stream, write2_stream and random_fill, and moonbit_uv_sem_init and _sem_copy with their
-- parameters are sem_start and sem_share. The local names `l` and `d` stand for
-- the event loop and a record that a field `data` points to.
--
-- What is not code of the repository is an argument: the functions of libuv, and the MoonBit code of
-- a closure. The theorems take as hypotheses what libuv documents: a call answers a number and
-- touches neither the fields nor the counts (`Answers`, `IsQuiet`), and the first call on a handle or
-- a request stores the loop in it (`Starts`). MoonBit code takes over the references that it is
-- passed (`Consumes`, `Steady`). A new object's address, too, is an argument.
--
-- Bounds. Nothing runs on fuel: the loops over the buffers, the results, the containers and the strings are
-- structural, and the number of callbacks of a handle's life is arbitrary. Addresses and lengths are
-- unbounded; the count of a shared block is the 32-bit one of the source, and the threads hold fewer
-- than 2^31 handles at a time. File ids of users and groups are cut to 32 bits as in the source.
--
-- Not modelled: outside System, the end of an object's storage (a field is kept after the last release,
-- and the finalizers are functions that the runtime calls), the tracing, the failure of malloc, the constants of
-- libuv, the branches for Windows, the functions with no parameter that only pass a number of libuv on,
-- the accessors of a field of libuv's structs for processors and directory entries, the copies of an
-- interface's address and netmask, the object of a key with its finalizer, and src/library.c, error.c, version.c
-- and uv.c.
mod Base
pub mod Memory
pub mod Watcher
pub mod Handle
pub mod Stream
pub mod Fs
pub mod Pool
pub mod Dns
pub mod Thread
pub mod Args
pub mod Loop
pub mod Process
pub mod Shared
pub mod Sync
pub mod Net
pub mod Queries
pub mod Text
pub mod System
mod Tests
