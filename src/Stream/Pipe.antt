-- ===== src/Stream/Pipe.antt =====
-- src/pipe.c
use uv_mbt.Base.{ℕ, ℤ, [], ◌∷◌}
use uv_mbt.Memory.{Ptr, loop, dat, M, ◌>>=◌, ◌>>◌, pure, decref, make}
use uv_mbt.Memory.Idioms.{clear, replace}

-- `moonbit_bytes_t`: the object, and its length in the header
pub record Name : Type 0 where
  pub address : Ptr
  pub length : ℕ

unfoldable pub pipe_finalize : Ptr → M (Unit {0})
pipe_finalize handle = do clear handle dat; clear handle loop

-- `fresh` is the address of the new object
unfoldable pub pipe_make : (fresh : Ptr) → M Ptr
pipe_make fresh = make fresh (loop ∷ dat ∷ [])

unfoldable pub pipe_init : (uv_pipe_init : Ptr → Ptr → ℤ → M ℤ) → (l handle : Ptr) → (ipc : ℤ) → M ℤ
pipe_init uv_pipe_init l handle ipc = uv_pipe_init l handle ipc

unfoldable pub pipe_open : (uv_pipe_open : Ptr → ℤ → M ℤ) → (handle : Ptr) → (fd : ℤ) → M ℤ
pipe_open uv_pipe_open handle fd = do result ← uv_pipe_open handle fd; decref handle; pure result

unfoldable pub pipe_bind :
    (uv_pipe_bind2 : Ptr → Ptr → ℕ → ℕ → M ℤ) → (handle : Ptr) → (name : Name) → (flags : ℕ) → M ℤ
pipe_bind uv_pipe_bind2 handle name flags = do
  result ← uv_pipe_bind2 handle name.address name.length flags
  decref handle
  decref name.address
  pure result

unfoldable pub pipe :
    (uv_pipe : Ptr → ℤ → ℤ → M ℤ) → (fds : Ptr) → (read_flags write_flags : ℤ) → M ℤ
pipe uv_pipe fds read_flags write_flags = do
  status ← uv_pipe fds read_flags write_flags
  decref fds
  pure status

unfoldable pub pipe_pending_count : (uv_pipe_pending_count : Ptr → M ℕ) → (handle : Ptr) → M ℕ
pipe_pending_count uv_pipe_pending_count handle = do
  pending ← uv_pipe_pending_count handle
  decref handle
  pure pending

unfoldable pub pipe_pending_type : (uv_pipe_pending_type : Ptr → M ℤ) → (handle : Ptr) → M ℤ
pipe_pending_type uv_pipe_pending_type handle = do
  type ← uv_pipe_pending_type handle
  decref handle
  pure type

unfoldable pub pipe_connect2 :
    (uv_pipe_connect2 : Ptr → Ptr → Ptr → ℕ → ℕ → M ℤ)
    → (req handle : Ptr) → (name : Name) → (flags : ℕ) → (cb : Ptr) → M ℤ
pipe_connect2 uv_pipe_connect2 req handle name flags cb = do
  replace req dat cb
  result ← uv_pipe_connect2 req handle name.address name.length flags
  decref handle
  decref name.address
  pure result

unfoldable pub pipe_chmod : (uv_pipe_chmod : Ptr → ℤ → M ℤ) → (handle : Ptr) → (flags : ℤ) → M ℤ
pipe_chmod uv_pipe_chmod handle flags = do
  result ← uv_pipe_chmod handle flags
  decref handle
  pure result

unfoldable pub pipe_pending_instances :
    (uv_pipe_pending_instances : Ptr → ℤ → M (Unit {0}))
    → (handle : Ptr) → (count : ℤ) → M (Unit {0})
pipe_pending_instances uv_pipe_pending_instances handle count = do
  uv_pipe_pending_instances handle count
  decref handle
