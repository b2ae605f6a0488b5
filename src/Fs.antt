-- ===== src/Fs.antt =====
-- fs.c: the requests on the file system.
pub mod Request
pub mod Files
pub mod Links
pub mod Paths
pub mod Metadata
pub mod Dispatch
pub mod Blocking
pub mod Laws
pub mod Life
pub mod Content
