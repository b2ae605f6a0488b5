-- ===== src/Stream/Udp.antt =====
-- src/udp.c: the handle, its callbacks and the requests that send. Options of a socket are in
-- Udp/Options.
pub mod Options
pub mod Receiving
pub mod Sending
pub mod Batch
use uv_mbt.Base.{
  ℕ, zero, suc, ℤ, ◌+◌, ◌-◌, ◌==◌, if◌then◌else◌, Option, none, some, List, [], ◌∷◌, ◌++◌,
}
use uv_mbt.Memory.{
  Ptr, null, loop, dat, bytes, alloc_cb, read_cb, cb, bufs, M, ◌>>=◌, ◌>>◌, pure, get, put, incref,
  decref, release, make,
}
use uv_mbt.Memory.Idioms.{replace, clear, drop, take}
use uv_mbt.Stream.Arrays.{RefArray, IntArray, init_bufs}
use uv_mbt.Stream.Reading.{Buf, Allocated}

unfoldable pub udp_finalize : Ptr → M (Unit {0})
udp_finalize udp = do clear udp dat; clear udp loop

-- `fresh` is the address of the new object, here and below
unfoldable pub udp_make : (fresh : Ptr) → M Ptr
udp_make fresh = make fresh (loop ∷ dat ∷ [])

unfoldable pub udp_init : (uv_udp_init : Ptr → Ptr → M ℤ) → (l udp : Ptr) → M ℤ
udp_init uv_udp_init l udp = uv_udp_init l udp

unfoldable pub udp_init_ex :
    (uv_udp_init_ex : Ptr → Ptr → ℕ → M ℤ) → (l udp : Ptr) → (flags : ℕ) → M ℤ
udp_init_ex uv_udp_init_ex l udp flags = uv_udp_init_ex l udp flags

unfoldable pub udp_connect : (uv_udp_connect : Ptr → Ptr → M ℤ) → (udp addr : Ptr) → M ℤ
udp_connect uv_udp_connect udp addr = do
  result ← uv_udp_connect udp addr
  decref addr
  decref udp
  pure result

unfoldable pub udp_bind : (uv_udp_bind : Ptr → Ptr → ℕ → M ℤ) → (udp addr : Ptr) → (flags : ℕ) → M ℤ
udp_bind uv_udp_bind udp addr flags = do
  result ← uv_udp_bind udp addr flags
  decref addr
  decref udp
  pure result

unfoldable pub udp_send_finalize : Ptr → M (Unit {0})
udp_send_finalize send = drop send dat

unfoldable pub udp_send_make : (fresh : Ptr) → M Ptr
udp_send_make fresh = make fresh (dat ∷ [])

unfoldable pub udp_send_data_finalize : Ptr → M (Unit {0})
udp_send_data_finalize d = do drop d bufs; drop d cb

unfoldable pub udp_send_data_make : (fresh : Ptr) → M Ptr
udp_send_data_make fresh = make fresh (cb ∷ bufs ∷ [])

unfoldable pub udp_send_cb :
    (code : Ptr → Ptr → ℤ → M (Unit {0})) → (req : Ptr) → (status : ℤ) → M (Unit {0})
udp_send_cb code req status = do d ← get req dat; on_send ← take d cb; code on_send req status

unfoldable pub udp_send_set_data : (req d : Ptr) → M (Unit {0})
udp_send_set_data req d = replace req dat d

-- the address is released with no test for NULL
unfoldable pub udp_send :
    (uv_udp_send : Ptr → Ptr → List Buf → Ptr → M ℤ)
    → (fresh req udp : Ptr) → (arrays : RefArray) → (offsets lengths : IntArray)
    → (addr on_send : Ptr) → M ℤ
unfolding udp_send_data_make udp_send_set_data
udp_send uv_udp_send fresh req udp arrays offsets lengths addr on_send = do
  bufs_data ← init_bufs arrays offsets lengths
  d ← udp_send_data_make fresh
  put d bufs arrays.address
  put d cb on_send
  udp_send_set_data req d
  result ← uv_udp_send req udp bufs_data addr
  decref offsets.address
  decref lengths.address
  decref addr
  decref udp
  pure result

unfoldable pub udp_try_send :
    (uv_udp_try_send : Ptr → List Buf → Ptr → M ℤ)
    → (udp : Ptr) → (arrays : RefArray) → (offsets lengths : IntArray) → (addr : Ptr) → M ℤ
udp_try_send uv_udp_try_send udp arrays offsets lengths addr = do
  bufs_data ← init_bufs arrays offsets lengths
  result ← uv_udp_try_send udp bufs_data addr
  decref arrays.address
  decref offsets.address
  decref lengths.address
  release addr
  decref udp
  pure result

unfoldable pub udp_data_finalize : Ptr → M (Unit {0})
udp_data_finalize d = do drop d bytes; drop d read_cb; drop d alloc_cb

unfoldable pub udp_data_make : (fresh : Ptr) → M Ptr
udp_data_make fresh = make fresh (bytes ∷ alloc_cb ∷ read_cb ∷ [])

unfoldable pub udp_set_data : (udp d : Ptr) → M (Unit {0})
udp_set_data udp d = replace udp dat d

unfoldable pub udp_recv_start_alloc_cb :
    (code : Ptr → Ptr → ℕ → M Allocated) → (handle : Ptr) → (suggested_size : ℕ) → M Buf
udp_recv_start_alloc_cb code handle suggested_size = do
  udp_data ← get handle dat
  on_alloc ← get udp_data alloc_cb
  incref on_alloc
  incref handle
  a ← code on_alloc handle suggested_size
  put udp_data bytes a.block
  pure (record { base = a.block + a.offset; len = a.extent })

-- `struct sockaddr` as libuv passes it: the address family, and all the bytes
pub record Sockaddr : Type 0 where
  pub family : ℕ
  pub raw : List ℕ

-- the values of Linux
abbrev pub af_inet : ℕ
af_inet = 2

abbrev pub af_inet6 : ℕ
af_inet6 = 10

abbrev pub first : ℕ → List ℕ → List ℕ
first zero xs = []
first (suc n) [] = []
first (suc n) (x ∷ xs) = x ∷ first n xs

abbrev pub zeros : ℕ → List ℕ
zeros zero = []
zeros (suc n) = 0 ∷ zeros n

-- `sizeof` of `struct sockaddr_in`, `struct sockaddr_in6` or `struct sockaddr`
unfoldable pub addr_size : ℕ → ℕ
addr_size family = if family == af_inet then 16 else (if family == af_inet6 then 28 else 16)

-- `moonbit_make_bytes(n, 0)`, then `memcpy` of `sizeof(struct sockaddr)` bytes
unfoldable pub addr_copied : Sockaddr → List ℕ
unfolding addr_size
addr_copied addr = first 16 addr.raw ++ zeros (addr_size addr.family - 16)

-- `addr->sa_family`: a fault at NULL
unfoldable pub copy_addr : Option Sockaddr → M (List ℕ)
copy_addr none s = none
copy_addr (some addr) s = some (addr_copied addr, s)

-- `code` is given the closure, the handle, the count, the bytes, the offset, the length, the new
-- object of the address, what it holds, and the flags
unfoldable pub udp_recv_start_cb :
    (code : Ptr → Ptr → ℤ → Ptr → ℕ → ℕ → Ptr → List ℕ → ℕ → M (Unit {0}))
    → (fresh udp : Ptr) → (nread : ℤ) → (buf : Buf) → (addr : Option Sockaddr) → (flags : ℕ)
    → M (Unit {0})
udp_recv_start_cb code fresh udp nread buf addr flags = do
  udp_data ← get udp dat
  on_read ← get udp_data read_cb
  buf_base ← get udp_data bytes
  put udp_data bytes null
  incref on_read
  incref udp
  content ← copy_addr addr
  copied ← make fresh []
  code on_read udp nread buf_base (buf.base - buf_base) buf.len copied content flags

unfoldable pub udp_recv_start :
    (uv_udp_recv_start : Ptr → M ℤ) → (fresh udp on_alloc on_read : Ptr) → M ℤ
unfolding udp_data_make udp_set_data
udp_recv_start uv_udp_recv_start fresh udp on_alloc on_read = do
  d ← udp_data_make fresh
  put d read_cb on_read
  put d alloc_cb on_alloc
  udp_set_data udp d
  status ← uv_udp_recv_start udp
  decref udp
  pure status

unfoldable pub udp_recv_stop : (uv_udp_recv_stop : Ptr → M ℤ) → (udp : Ptr) → M ℤ
unfolding udp_set_data
udp_recv_stop uv_udp_recv_stop udp = do
  udp_set_data udp null
  status ← uv_udp_recv_stop udp
  decref udp
  pure status
