-- ===== src/Stream/Reading/Callbacks.antt =====
-- The two callbacks that libuv makes of a stream that reads.
