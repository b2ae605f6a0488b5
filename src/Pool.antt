-- ===== src/Pool.antt =====
-- The requests that libuv's thread pool serves: src/work.c and src/random.c.
pub mod Work
pub mod Random
