-- ===== src/Stream/Tcp.antt =====
-- src/tcp.c, and the callback of a connection request (src/stream.h), which pipe.c shares.
pub mod Connecting
use uv_mbt.Base.{ℕ, ℤ, negsuc, [], ◌∷◌, Bool, true, false}
use uv_mbt.Memory.{Ptr, loop, dat, M, ◌>>=◌, ◌>>◌, pure, get, decref, make}
use uv_mbt.Memory.Idioms.{clear, replace}

abbrev flag : Bool → ℕ
flag true = 1
flag false = 0

-- the field of the request is left as it is
unfoldable pub connect_cb :
    (code : Ptr → Ptr → ℤ → M (Unit {0})) → (req : Ptr) → (status : ℤ) → M (Unit {0})
connect_cb code req status = do cb ← get req dat; code cb req status

unfoldable pub tcp_finalize : Ptr → M (Unit {0})
tcp_finalize tcp = do clear tcp dat; clear tcp loop

-- `fresh` is the address of the new object
unfoldable pub tcp_make : (fresh : Ptr) → M Ptr
tcp_make fresh = make fresh (loop ∷ dat ∷ [])

unfoldable pub tcp_init : (uv_tcp_init : Ptr → Ptr → M ℤ) → (l tcp : Ptr) → M ℤ
tcp_init uv_tcp_init l tcp = uv_tcp_init l tcp

unfoldable pub tcp_init_ex :
    (uv_tcp_init_ex : Ptr → Ptr → ℤ → M ℤ) → (l tcp : Ptr) → (flags : ℤ) → M ℤ
tcp_init_ex uv_tcp_init_ex l tcp flags = uv_tcp_init_ex l tcp flags

-- libuv reads the socket from its object
unfoldable pub tcp_open : (uv_tcp_open : Ptr → Ptr → M ℤ) → (tcp sock : Ptr) → M ℤ
tcp_open uv_tcp_open tcp sock = do
  result ← uv_tcp_open tcp sock
  decref tcp
  decref sock
  pure result

unfoldable pub tcp_bind : (uv_tcp_bind : Ptr → Ptr → ℕ → M ℤ) → (tcp addr : Ptr) → (flags : ℕ) → M ℤ
tcp_bind uv_tcp_bind tcp addr flags = do
  result ← uv_tcp_bind tcp addr flags
  decref tcp
  decref addr
  pure result

unfoldable pub tcp_connect :
    (uv_tcp_connect : Ptr → Ptr → Ptr → M ℤ) → (connect tcp addr cb : Ptr) → M ℤ
tcp_connect uv_tcp_connect connect tcp addr cb = do
  replace connect dat cb
  result ← uv_tcp_connect connect tcp addr
  decref addr
  decref tcp
  pure result

unfoldable pub tcp_nodelay : (uv_tcp_nodelay : Ptr → ℕ → M ℤ) → (tcp : Ptr) → (enable : Bool) → M ℤ
tcp_nodelay uv_tcp_nodelay tcp enable = do
  result ← uv_tcp_nodelay tcp (flag enable)
  decref tcp
  pure result

unfoldable pub tcp_keepalive :
    (uv_tcp_keepalive : Ptr → ℕ → ℕ → M ℤ) → (tcp : Ptr) → (enable : Bool) → (delay : ℕ) → M ℤ
tcp_keepalive uv_tcp_keepalive tcp enable delay = do
  result ← uv_tcp_keepalive tcp (flag enable) delay
  decref tcp
  pure result

-- `recent`: is libuv 1.52 or later? `enosys` is `-UV_ENOSYS - 1`.
unfoldable pub tcp_keepalive_ex :
    (recent : Bool) (enosys : ℕ) (uv_tcp_keepalive_ex : Ptr → ℕ → ℕ → ℕ → ℕ → M ℤ)
    → (tcp : Ptr) → (on : Bool) → (idle interval count : ℕ) → M ℤ
tcp_keepalive_ex true enosys uv_tcp_keepalive_ex tcp on idle interval count = do
  result ← uv_tcp_keepalive_ex tcp (flag on) idle interval count
  decref tcp
  pure result
tcp_keepalive_ex false enosys uv_tcp_keepalive_ex tcp on idle interval count = do
  decref tcp
  pure (negsuc enosys)

unfoldable pub tcp_getsockname : (uv_tcp_getsockname : Ptr → Ptr → M ℤ) → (tcp addr : Ptr) → M ℤ
tcp_getsockname uv_tcp_getsockname tcp addr = do
  result ← uv_tcp_getsockname tcp addr
  decref tcp
  decref addr
  pure result

unfoldable pub tcp_getpeername : (uv_tcp_getpeername : Ptr → Ptr → M ℤ) → (tcp addr : Ptr) → M ℤ
tcp_getpeername uv_tcp_getpeername tcp addr = do
  result ← uv_tcp_getpeername tcp addr
  decref tcp
  decref addr
  pure result

unfoldable pub tcp_close_reset : (uv_tcp_close_reset : Ptr → M ℤ) → (tcp close_cb : Ptr) → M ℤ
tcp_close_reset uv_tcp_close_reset tcp close_cb = do
  replace tcp dat close_cb
  result ← uv_tcp_close_reset tcp
  decref tcp
  pure result

unfoldable pub tcp_simultaneous_accepts :
    (uv_tcp_simultaneous_accepts : Ptr → ℕ → M ℤ) → (tcp : Ptr) → (enable : Bool) → M ℤ
tcp_simultaneous_accepts uv_tcp_simultaneous_accepts tcp enable = do
  result ← uv_tcp_simultaneous_accepts tcp (flag enable)
  decref tcp
  pure result
