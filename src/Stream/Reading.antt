-- ===== src/Stream/Reading.antt =====
-- The reading half of src/stream.c. Two callbacks share one record, which the stream's `data`
-- field owns.
pub mod Callbacks
pub mod Control
use uv_mbt.Base.{ℕ, ℤ, ◌+◌, ◌-◌, ◌≡◌, refl, ◌≢◌, ◌∙◌, List, [], ◌∷◌, arith}
use uv_mbt.Handle.{handle_set_data}
use uv_mbt.Memory.{
  Ptr, null, Field, dat, bytes, alloc_cb, read_cb, State, M, and_then, ◌>>=◌, ◌>>◌, pure, get, put,
  incref, decref, make,
}
use uv_mbt.Memory.Idioms.{replace, drop, take}

-- `uv_buf_t`
pub record Buf : Type 0 where
  pub base : Ptr
  pub len : ℕ

-- what the MoonBit code of an allocation callback answers: the bytes, and the part to fill
pub record Allocated : Type 0 where
  pub block : Ptr
  pub offset : ℕ
  pub extent : ℕ

unfoldable pub stream_data_finalize : Ptr → M (Unit {0})
stream_data_finalize d = do drop d bytes; drop d read_cb; drop d alloc_cb

-- `fresh` is the address of the new object
unfoldable pub stream_data_make : (fresh : Ptr) → M Ptr
stream_data_make fresh = make fresh (bytes ∷ alloc_cb ∷ read_cb ∷ [])

unfoldable pub stream_set_data : (stream d : Ptr) → M (Unit {0})
stream_set_data stream d = replace stream dat d

-- `code` is the MoonBit code of the closure: the closure, the handle, the suggested size
unfoldable pub read_start_alloc_cb :
    (code : Ptr → Ptr → ℕ → M Allocated) → (handle : Ptr) → (suggested_size : ℕ) → M Buf
unfolding handle_set_data
read_start_alloc_cb code handle suggested_size = do
  stream_data ← get handle dat
  put handle dat null
  on_alloc ← get stream_data alloc_cb
  incref on_alloc
  incref handle
  a ← code on_alloc handle suggested_size
  put stream_data bytes a.block
  handle_set_data handle stream_data
  pure (record { base = a.block + a.offset; len = a.extent })

-- `code` is given the closure, the stream, the count, the bytes, the offset and the length
unfoldable pub read_start_read_cb :
    (code : Ptr → Ptr → ℤ → Ptr → ℕ → ℕ → M (Unit {0}))
    → (stream : Ptr) → (nread : ℤ) → (buf : Buf) → M (Unit {0})
read_start_read_cb code stream nread buf = do
  stream_data ← get stream dat
  on_read ← get stream_data read_cb
  buf_base ← get stream_data bytes
  put stream_data bytes null
  incref on_read
  incref stream
  code on_read stream nread buf_base (buf.base - buf_base) buf.len

unfoldable pub read_start :
    (uv_read_start : Ptr → M ℤ) → (fresh : Ptr) → (stream on_alloc on_read : Ptr) → M ℤ
unfolding stream_data_make stream_set_data
read_start uv_read_start fresh stream on_alloc on_read = do
  d ← stream_data_make fresh
  put d read_cb on_read
  put d alloc_cb on_alloc
  stream_set_data stream d
  status ← uv_read_start stream
  decref stream
  pure status

unfoldable pub read_stop : (uv_read_stop : Ptr → M ℤ) → (stream : Ptr) → M ℤ
unfolding stream_set_data
read_stop uv_read_stop stream = do
  stream_set_data stream null
  status ← uv_read_stop stream
  decref stream
  pure status

-- borrowed: nothing is released
unfoldable pub is_readable : (uv_is_readable : Ptr → M ℤ) → (stream : Ptr) → M ℤ
is_readable uv_is_readable stream = uv_is_readable stream

unfoldable pub is_writable : (uv_is_writable : Ptr → M ℤ) → (stream : Ptr) → M ℤ
is_writable uv_is_writable stream = uv_is_writable stream

unfoldable pub connect_make : (fresh : Ptr) → M Ptr
connect_make fresh = make fresh (dat ∷ [])

unfoldable pub listen_cb :
    (code : Ptr → Ptr → ℤ → M (Unit {0})) → (server : Ptr) → (status : ℤ) → M (Unit {0})
listen_cb code server status = do
  cb ← get server dat
  incref cb
  incref server
  code cb server status

-- the old `data` is overwritten, and not released
unfoldable pub listen :
    (uv_listen : Ptr → ℤ → M ℤ) → (stream : Ptr) → (backlog : ℤ) → (cb : Ptr) → M ℤ
listen uv_listen stream backlog cb = do
  put stream dat cb
  result ← uv_listen stream backlog
  decref stream
  pure result

unfoldable pub accept : (uv_accept : Ptr → Ptr → M ℤ) → (server client : Ptr) → M ℤ
accept uv_accept server client = do
  status ← uv_accept server client
  decref server
  decref client
  pure status

unfoldable pub stream_set_blocking :
    (uv_stream_set_blocking : Ptr → ℤ → M ℤ) → (stream : Ptr) → (blocking : ℤ) → M ℤ
stream_set_blocking uv_stream_set_blocking stream blocking = do
  status ← uv_stream_set_blocking stream blocking
  decref stream
  pure status

unfoldable pub stream_get_write_queue_size :
    (uv_stream_get_write_queue_size : Ptr → M ℕ) → (stream : Ptr) → M ℕ
stream_get_write_queue_size uv_stream_get_write_queue_size stream = do
  size ← uv_stream_get_write_queue_size stream
  decref stream
  pure size
