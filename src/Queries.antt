-- ===== src/Queries.antt =====
-- The calls that ask libuv or the system, and the accessors of their results.
pub mod Shapes
pub mod Strings
pub mod Os
pub mod Env
pub mod Users
pub mod Threads
pub mod Handles
pub mod Counters
pub mod Usage
pub mod Table
pub mod Laws
