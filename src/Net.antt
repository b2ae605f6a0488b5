-- ===== src/Net.antt =====
-- src/socket.c and src/if.c: addresses as bytes.
pub mod Words
pub mod Socket
pub mod Addresses
pub mod Interface
