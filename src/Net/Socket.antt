-- ===== src/Net/Socket.antt =====
-- src/socket.c. A struct of the system is a record of its fields; an address is the list of its bytes.
use uv_mbt.Base.{
  ℕ, ℤ, pos, negsuc, ◌%◌, Bool, false, List, [], ◌∷◌, ◌++◌, ◌==◌, if◌then◌else◌, length,
}
use uv_mbt.Memory.{Ptr, M, ◌>>=◌, ◌>>◌, pure, decref}
use uv_mbt.Net.Words.{store16, htons, ntohs, store32, load32}

-- `struct sockaddr_in`; `sin_port` is the word as the host reads it
pub record SockaddrIn : Type 0 where
  pub sin_family : ℕ
  pub sin_port : ℕ
  pub s0 : ℕ  -- the four bytes of sin_addr
  pub s1 : ℕ
  pub s2 : ℕ
  pub s3 : ℕ

pub record SockaddrIn6 : Type 0 where
  pub sin6_family : ℕ
  pub sin6_port : ℕ
  pub sin6_addr : List ℕ
  pub sin6_scope_id : ℕ

-- a `struct in_addr` is returned by value, and MoonBit has it as a number
unfoldable pub in_addr_make : (little : Bool) → (b0 b1 b2 b3 : ℕ) → ℕ
in_addr_make little b0 b1 b2 b3 = load32 little (b0 % 256) (b1 % 256) (b2 % 256) (b3 % 256)

unfoldable pub in_addr_to_bytes : (little : Bool) → (addr : ℕ) → List ℕ
in_addr_to_bytes little addr = store32 little addr

unfoldable pub in6_addr_make : (little : Bool) → (h0 h1 h2 h3 h4 h5 h6 h7 : ℕ) → List ℕ
in6_addr_make little h0 h1 h2 h3 h4 h5 h6 h7 =
    store16 little (htons little (h0 % 65536))
    ++ (store16 little (htons little (h1 % 65536))
        ++ (store16 little (htons little (h2 % 65536))
            ++ (store16 little (htons little (h3 % 65536))
                ++ (store16 little (htons little (h4 % 65536))
                    ++ (store16 little (htons little (h5 % 65536))
                        ++ (store16 little (htons little (h6 % 65536))
                            ++ store16 little (htons little (h7 % 65536))))))))

-- the bytes are copied into a new object
unfoldable pub in6_addr_to_bytes : (addr : List ℕ) → List ℕ
in6_addr_to_bytes addr = addr

unfoldable pub sockaddr_in_make : SockaddrIn
sockaddr_in_make = record { sin_family = 0; sin_port = 0; s0 = 0; s1 = 0; s2 = 0; s3 = 0 }

unfoldable pub sockaddr_in_port : (little : Bool) → (addr : SockaddrIn) → ℕ
sockaddr_in_port little addr = ntohs little addr.sin_port

unfoldable pub sockaddr_in_addr : (little : Bool) → (addr : SockaddrIn) → ℕ
sockaddr_in_addr little addr = load32 little addr.s0 addr.s1 addr.s2 addr.s3

-- libuv is passed the bytes of the address and the size of the buffer, and answers a number and the new contents
unfoldable pub in_addr_ntop :
    (little : Bool)
    → (uv_inet_ntop : List ℕ → (size : ℕ) → List ℕ → ℤ × List ℕ) → (src : ℕ) → (dst : List ℕ)
    → ℤ × List ℕ
in_addr_ntop little uv_inet_ntop src dst = uv_inet_ntop (store32 little src) (length dst) dst

unfoldable pub in6_addr_ntop :
    (uv_inet_ntop : List ℕ → (size : ℕ) → List ℕ → ℤ × List ℕ) → (src dst : List ℕ) → ℤ × List ℕ
in6_addr_ntop uv_inet_ntop src dst = uv_inet_ntop src (length dst) dst

unfoldable pub sockaddr_in6_make : SockaddrIn6
sockaddr_in6_make = record {
  sin6_family = 0;
  sin6_port = 0;
  sin6_addr = 0 ∷ 0 ∷ 0 ∷ 0 ∷ 0 ∷ 0 ∷ 0 ∷ 0 ∷ 0 ∷ 0 ∷ 0 ∷ 0 ∷ 0 ∷ 0 ∷ 0 ∷ 0 ∷ [];
  sin6_scope_id = 0;
}

unfoldable pub sockaddr_in6_port : (little : Bool) → (addr : SockaddrIn6) → ℕ
sockaddr_in6_port little addr = ntohs little addr.sin6_port

unfoldable pub sockaddr_in6_scope_id : (addr : SockaddrIn6) → ℕ
sockaddr_in6_scope_id addr = addr.sin6_scope_id

unfoldable pub sockaddr_in6_addr : (addr : SockaddrIn6) → List ℕ
sockaddr_in6_addr addr = addr.sin6_addr

unfoldable pub ip4_addr :
    (uv_ip4_addr : List ℕ → ℤ → SockaddrIn → ℤ × SockaddrIn)
    → (ip : List ℕ) → (port : ℤ) → (addr : SockaddrIn) → ℤ × SockaddrIn
ip4_addr uv_ip4_addr ip port addr = uv_ip4_addr ip port addr

unfoldable pub ip6_addr :
    (uv_ip6_addr : List ℕ → ℤ → SockaddrIn6 → ℤ × SockaddrIn6)
    → (ip : List ℕ) → (port : ℤ) → (addr : SockaddrIn6) → ℤ × SockaddrIn6
ip6_addr uv_ip6_addr ip port addr = uv_ip6_addr ip port addr

unfoldable pub ip4_name :
    (uv_ip4_name : SockaddrIn → List ℕ → (size : ℕ) → ℤ × List ℕ)
    → (src : SockaddrIn) → (dst : List ℕ) → ℤ × List ℕ
ip4_name uv_ip4_name src dst = uv_ip4_name src dst (length dst)

unfoldable pub ip6_name :
    (uv_ip6_name : SockaddrIn6 → List ℕ → (size : ℕ) → ℤ × List ℕ)
    → (src : SockaddrIn6) → (dst : List ℕ) → ℤ × List ℕ
ip6_name uv_ip6_name src dst = uv_ip6_name src dst (length dst)

-- `moonbit_uv_os_sock_t`
pub record OsSock : Type 0 where
  pub sock : ℤ

unfoldable pub os_sock_make : OsSock
os_sock_make = record { sock = negsuc 0 }

unfoldable pub os_sock_to_int : (sock : OsSock) → ℤ
os_sock_to_int sock = sock.sock

-- `r == 0`
unfoldable pub is_zero : ℤ → Bool
is_zero (pos n) = n == 0
is_zero (negsuc n) = false

-- libuv answers a number and the array `s`; the contents of `sock0` and `sock1`, objects at the addresses
-- `p0` and `p1`, before and after
unfoldable pub socketpair :
    (uv_socketpair : ℤ → ℤ → ℤ → ℤ → M (ℤ × ℤ × ℤ))
    → (type protocol : ℤ) → (sock0 : OsSock) → (p0 : Ptr) → (flags0 : ℤ) → (sock1 : OsSock)
    → (p1 : Ptr) → (flags1 : ℤ) → M (ℤ × OsSock × OsSock)
unfolding is_zero
socketpair uv_socketpair type protocol sock0 p0 flags0 sock1 p1 flags1 = do
  (r, s0, s1) ← uv_socketpair type protocol flags0 flags1
  decref p0
  decref p1
  pure (
    r,
    if is_zero r then record { sock = s0 } else sock0,
    if is_zero r then record { sock = s1 } else sock1,
  )
