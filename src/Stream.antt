-- ===== src/Stream.antt =====
-- Streams: stream.c, write.c, shutdown.c, tcp.c and pipe.c, and the datagrams of udp.c.
pub mod Arrays
pub mod Reading
pub mod Requests
pub mod Writing
pub mod Shutdown
pub mod Udp
pub mod Tcp
pub mod Pipe
