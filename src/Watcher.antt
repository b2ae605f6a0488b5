-- ===== src/Watcher.antt =====
-- The handles whose callback libuv may make many times: idle.c, check.c, prepare.c, timer.c, poll.c,
-- fs_event.c, fs_poll.c, async.c and signal.c, and the life of such a handle. libuv's functions and
-- the MoonBit code of the callback are arguments.
pub mod Idle
pub mod Check
pub mod Prepare
pub mod Timer
pub mod Poll
pub mod FsEvent
pub mod FsPoll
pub mod Session
pub mod Overdrawn
pub mod Lives
pub mod Phases
pub mod Async
pub mod Signal
