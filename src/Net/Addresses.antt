-- ===== src/Net/Addresses.antt =====
-- src/socket.c: addresses have the same bytes on every host.
use uv_mbt.Base.{
  ℕ, ℤ, pos, ◌%◌, ◌<◌, ◌≡◌, ◌≢◌, refl, Bool, List, [], ◌∷◌, arith, if◌then◌else◌, length,
}
use uv_mbt.Memory.{Ptr, null, State, M}
use uv_mbt.Memory.Ledger.{Ends}
use uv_mbt.Memory.Rules.{seq-is}
use uv_mbt.Memory.Shapes.{decrefs-Ends}
use uv_mbt.Net.Words.{hi, lo, store16, htons, store16-htons, ntohs-htons, store32-load32}
use uv_mbt.Net.Socket.{
  in_addr_make, in_addr_to_bytes, in6_addr_make, in6_addr_to_bytes, in_addr_ntop, SockaddrIn,
  sockaddr_in_addr, sockaddr_in_port, ip4_addr, OsSock, is_zero, socketpair,
}

-- An IPv4 address that MoonBit makes of four numbers has the low bytes of these in their order, on hosts of either
-- byte order: as the bytes of it, and as what libuv is asked to print, into a buffer whose size is passed
-- on.
in_addr_make-bytes :
    (little : Bool) (b0 b1 b2 b3 : ℕ) (uv_inet_ntop : List ℕ → ℕ → List ℕ → ℤ × List ℕ)
    (dst : List ℕ)
    → (in_addr_to_bytes little (in_addr_make little b0 b1 b2 b3)
        ≡ b0 % 256 ∷ b1 % 256 ∷ b2 % 256 ∷ b3 % 256 ∷ [])
      × (in_addr_ntop little uv_inet_ntop (in_addr_make little b0 b1 b2 b3) dst
          ≡ uv_inet_ntop (b0 % 256 ∷ b1 % 256 ∷ b2 % 256 ∷ b3 % 256 ∷ []) (length dst) dst)
unfolding in_addr_make in_addr_to_bytes in_addr_ntop
in_addr_make-bytes little b0 b1 b2 b3 uv_inet_ntop dst =
    let e =
      store32-load32 little (b0 % 256) (b1 % 256) (b2 % 256) (b3 % 256) (omega arith) (omega arith)
        (omega arith) (omega arith) in
    (e, rw e refl)

-- An IPv6 address that MoonBit makes of eight numbers has the sixteen bytes of their low halves, the higher of each first, on
-- hosts of either byte order.
pub in6_addr_make-bytes :
    (little : Bool) (h0 h1 h2 h3 h4 h5 h6 h7 : ℕ)
    → in6_addr_to_bytes (in6_addr_make little h0 h1 h2 h3 h4 h5 h6 h7)
      ≡ hi h0
        ∷ lo h0
        ∷ hi h1
        ∷ lo h1
        ∷ hi h2
        ∷ lo h2
        ∷ hi h3
        ∷ lo h3
        ∷ hi h4
        ∷ lo h4
        ∷ hi h5
        ∷ lo h5
        ∷ hi h6
        ∷ lo h6
        ∷ hi h7
        ∷ lo h7
        ∷ []
unfolding in6_addr_make in6_addr_to_bytes
in6_addr_make-bytes little h0 h1 h2 h3 h4 h5 h6 h7 =
    rw
      (
        half little h0,
        half little h1,
        half little h2,
        half little h3,
        half little h4,
        half little h5,
        half little h6,
        half little h7,
      )
      refl
  where
    half : (little : Bool) (h : ℕ) → store16 little (htons little (h % 65536)) ≡ hi h ∷ lo h ∷ []
    half little h = rw (store16-htons little (h % 65536)) (ground arith)

-- Where libuv stores the port in network order, as it documents, the port that MoonBit reads is the one that was
-- set, cut to 16 bits, on hosts of either byte order; and the number that it reads for the address has the bytes
-- of the address.
pub ip4_addr-port :
    (little : Bool) (uv_ip4_addr : List ℕ → ℤ → SockaddrIn → ℤ × SockaddrIn) (ip : List ℕ)
    (port : ℕ) (addr : SockaddrIn)
    → (uv_ip4_addr ip (pos port) addr).1.sin_port ≡ htons little port
    → (addr.s0 < 256) × (addr.s1 < 256) × (addr.s2 < 256) × (addr.s3 < 256)
    → (sockaddr_in_port little (ip4_addr uv_ip4_addr ip (pos port) addr).1 ≡ port % 65536)
      × (in_addr_to_bytes little (sockaddr_in_addr little addr)
          ≡ addr.s0 ∷ addr.s1 ∷ addr.s2 ∷ addr.s3 ∷ [])
unfolding sockaddr_in_port sockaddr_in_addr ip4_addr in_addr_to_bytes
ip4_addr-port little uv_ip4_addr ip port addr stored b = (
  rw stored (ntohs-htons little port),
  store32-load32 little addr.s0 addr.s1 addr.s2 addr.s3 b.0 b.1 b.2 b.3,
)

-- Making a pair of sockets, where libuv answers `r` and two sockets and touches neither fields nor counts: both
-- objects are released, the answer is returned, and the objects have the sockets if it is 0, and keep
-- what they had if it is not.
socketpair-Ends :
    (uv_socketpair : ℤ → ℤ → ℤ → ℤ → M (ℤ × ℤ × ℤ)) (type protocol flags0 flags1 r x y : ℤ)
    (sock0 sock1 : OsSock) (p0 p1 : Ptr) (s : State)
    → ((t : State)
        → Ends
            (λ z u. (z ≡ (r, x, y)) × (u.cells ≡ t.cells))
            []
            []
            t
            (uv_socketpair type protocol flags0 flags1 t))
    → p0 ≢ null
    → p1 ≢ null
    → Ends
        (λ z t. z ≡ (
          r,
          if is_zero r then record { sock = x } else sock0,
          if is_zero r then record { sock = y } else sock1,
        ))
        (p0 ∷ p1 ∷ [])
        []
        s
        (socketpair uv_socketpair type protocol sock0 p0 flags0 sock1 p1 flags1 s)
unfolding socketpair
socketpair-Ends uv_socketpair type protocol flags0 flags1 r x y sock0 sock1 p0 p1 s answers h0 h1 =
    seq-is _ (answers s) λ t _ _. decrefs-Ends (p0 ∷ p1 ∷ []) _ t (h0, (h1, tt)) λ u k. refl
