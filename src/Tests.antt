-- ===== src/Tests.antt =====
-- The theorems at concrete inputs.
mod Fixtures
mod Handles
mod Misuse
mod Streams
mod Datagrams
mod Requests
mod Blocks
mod System
mod Systems
mod Locks
mod Words
mod Queries
mod Startup
