-- ===== src/Dns.antt =====
-- src/dns.c: the requests that resolve names, and the iteration over the results. The constants and
-- the object of hints, which owns nothing, are left out.
pub mod Resolving
use uv_mbt.Base.{
  ℕ, zero, ℤ, pos, Bool, true, false, if◌then◌else◌, Option, none, some, List, [], ◌∷◌,
}
use uv_mbt.Memory.{Ptr, null, dat, M, ◌>>=◌, ◌>>◌, pure, incref, decref, release, make}
use uv_mbt.Memory.Idioms.{replace, drop, take}

-- `fresh` is the address of the new object, here and below
unfoldable pub addrinfo_results_make : (fresh : Ptr) → M Ptr
addrinfo_results_make fresh = make fresh []

unfoldable pub getaddrinfo_finalize : Ptr → M (Unit {0})
getaddrinfo_finalize req = drop req dat

unfoldable pub getaddrinfo_make : (fresh : Ptr) → M Ptr
getaddrinfo_make fresh = make fresh (dat ∷ [])

-- the results of libuv go to the new object, which is an owner of C memory only
unfoldable pub getaddrinfo_cb :
    (code : Ptr → Ptr → ℤ → Ptr → M (Unit {0})) → (fresh req : Ptr) → (status : ℤ) → M (Unit {0})
unfolding addrinfo_results_make
getaddrinfo_cb code fresh req status = do
  cb ← take req dat
  results ← addrinfo_results_make fresh
  code cb req status results

unfoldable pub getaddrinfo :
    (uv_getaddrinfo : Ptr → Ptr → Ptr → Ptr → Ptr → M ℤ) → (l req cb node service hints : Ptr) → M ℤ
getaddrinfo uv_getaddrinfo l req cb node service hints = do
  replace req dat cb
  status ← uv_getaddrinfo l req node service hints
  decref l
  decref node
  decref service
  release hints
  pure status

-- `struct addrinfo`; `copy` is the address of the object that its address is copied to
pub record AddrInfo : Type 0 where
  pub ai_flags : ℤ
  pub ai_family : ℤ
  pub ai_socktype : ℤ
  pub ai_protocol : ℤ
  pub ai_addr : List ℕ
  pub ai_canonname : Ptr
  pub copy : Ptr

-- is it 0, as C tests it?
abbrev pub is_zero : ℤ → Bool
is_zero (pos zero) = true
is_zero _ = false

-- the list that `ai_next` links; the loop breaks at the first answer other than 0
unfoldable pub addrinfo_results_iterate :
    (code : Ptr → AddrInfo → Ptr → M ℤ) → (results : List AddrInfo) → (cb : Ptr) → M ℤ
addrinfo_results_iterate code [] cb = pure (pos 0)
addrinfo_results_iterate code (ai ∷ results) cb = do
  sockaddr ← make ai.copy []
  incref cb
  terminated ← code cb ai sockaddr
  if is_zero terminated then addrinfo_results_iterate code results cb else pure terminated

unfoldable pub getnameinfo_finalize : Ptr → M (Unit {0})
getnameinfo_finalize req = drop req dat

unfoldable pub getnameinfo_make : (fresh : Ptr) → M Ptr
getnameinfo_make fresh = make fresh (dat ∷ [])

-- a copy of a string of libuv, at the address given, or NULL where there is none
unfoldable pub copy_string : Option Ptr → M Ptr
copy_string none = pure null
copy_string (some fresh) = make fresh []

unfoldable pub getnameinfo_cb :
    (code : Ptr → Ptr → ℤ → Ptr → Ptr → M (Unit {0}))
    → (req : Ptr) → (status : ℤ) → (hostname service : Option Ptr) → M (Unit {0})
getnameinfo_cb code req status hostname service = do
  cb ← take req dat
  host ← copy_string hostname
  serv ← copy_string service
  code cb req status host serv

unfoldable pub getnameinfo :
    (uv_getnameinfo : Ptr → Ptr → Ptr → ℤ → M ℤ) → (l req cb addr : Ptr) → (flags : ℤ) → M ℤ
getnameinfo uv_getnameinfo l req cb addr flags = do
  replace req dat cb
  status ← uv_getnameinfo l req addr flags
  decref l
  decref addr
  pure status
