-- ===== src/Stream/Udp/Options.antt =====
-- src/udp.c: the calls that ask or set something of a socket. A Boolean is passed on as 1 or 0.
use uv_mbt.Base.{ℕ, ℤ, ◌≢◌, ◌∙◌, [], ◌∷◌, Bool, true, false, arith}
use uv_mbt.Memory.{Ptr, null, State, M, ◌>>=◌, ◌>>◌, pure, decref, release}
use uv_mbt.Memory.Idioms.{Answers, Leaves}
use uv_mbt.Memory.Ledger.{Ends}
use uv_mbt.Memory.Rules.{seq, settle, decref-Same, release-Same}
use uv_mbt.Memory.Shapes.{call-Ends, decrefs-Ends}

abbrev flag : Bool → ℕ
flag true = 1
flag false = 0

-- the socket is passed by value
unfoldable pub udp_open : (uv_udp_open : Ptr → ℤ → M ℤ) → (udp : Ptr) → (sock : ℤ) → M ℤ
udp_open uv_udp_open udp sock = do result ← uv_udp_open udp sock; decref udp; pure result

-- the object of the name is not released
unfoldable pub udp_getpeername : (uv_udp_getpeername : Ptr → Ptr → M ℤ) → (udp name : Ptr) → M ℤ
udp_getpeername uv_udp_getpeername udp name = do
  result ← uv_udp_getpeername udp name
  decref udp
  pure result

unfoldable pub udp_getsockname : (uv_udp_getsockname : Ptr → Ptr → M ℤ) → (udp name : Ptr) → M ℤ
udp_getsockname uv_udp_getsockname udp name = do
  result ← uv_udp_getsockname udp name
  decref udp
  decref name
  pure result

unfoldable pub udp_set_membership :
    (uv_udp_set_membership : Ptr → Ptr → Ptr → ℤ → M ℤ)
    → (udp multicast_addr interface_addr : Ptr) → (membership : ℤ) → M ℤ
udp_set_membership uv_udp_set_membership udp multicast_addr interface_addr membership = do
  result ← uv_udp_set_membership udp multicast_addr interface_addr membership
  decref multicast_addr
  release interface_addr
  decref udp
  pure result

unfoldable pub udp_set_source_membership :
    (uv_udp_set_source_membership : Ptr → Ptr → Ptr → Ptr → ℤ → M ℤ)
    → (udp multicast_addr interface_addr source_addr : Ptr) → (membership : ℤ) → M ℤ
udp_set_source_membership uv_udp_set_source_membership udp multicast_addr interface_addr source_addr
      membership =
    do
      result ← uv_udp_set_source_membership udp multicast_addr interface_addr source_addr membership
      decref multicast_addr
      release interface_addr
      decref source_addr
      decref udp
      pure result

unfoldable pub udp_set_multicast_loop :
    (uv_udp_set_multicast_loop : Ptr → ℕ → M ℤ) → (udp : Ptr) → (on : Bool) → M ℤ
udp_set_multicast_loop uv_udp_set_multicast_loop udp on = do
  result ← uv_udp_set_multicast_loop udp (flag on)
  decref udp
  pure result

unfoldable pub udp_set_multicast_ttl :
    (uv_udp_set_multicast_ttl : Ptr → ℤ → M ℤ) → (udp : Ptr) → (ttl : ℤ) → M ℤ
udp_set_multicast_ttl uv_udp_set_multicast_ttl udp ttl = do
  result ← uv_udp_set_multicast_ttl udp ttl
  decref udp
  pure result

unfoldable pub udp_set_multicast_interface :
    (uv_udp_set_multicast_interface : Ptr → Ptr → M ℤ) → (udp interface_addr : Ptr) → M ℤ
udp_set_multicast_interface uv_udp_set_multicast_interface udp interface_addr = do
  result ← uv_udp_set_multicast_interface udp interface_addr
  decref interface_addr
  decref udp
  pure result

unfoldable pub udp_set_broadcast :
    (uv_udp_set_broadcast : Ptr → ℕ → M ℤ) → (udp : Ptr) → (on : Bool) → M ℤ
udp_set_broadcast uv_udp_set_broadcast udp on = do
  result ← uv_udp_set_broadcast udp (flag on)
  decref udp
  pure result

unfoldable pub udp_set_ttl : (uv_udp_set_ttl : Ptr → ℤ → M ℤ) → (udp : Ptr) → (ttl : ℤ) → M ℤ
udp_set_ttl uv_udp_set_ttl udp ttl = do result ← uv_udp_set_ttl udp ttl; decref udp; pure result

unfoldable pub udp_using_recvmmsg : (uv_udp_using_recvmmsg : Ptr → M ℤ) → (udp : Ptr) → M ℤ
udp_using_recvmmsg uv_udp_using_recvmmsg udp = do
  result ← uv_udp_using_recvmmsg udp
  decref udp
  pure result

unfoldable pub udp_get_send_queue_size :
    (uv_udp_get_send_queue_size : Ptr → M ℕ) → (udp : Ptr) → M ℕ
udp_get_send_queue_size uv_udp_get_send_queue_size udp = do
  result ← uv_udp_get_send_queue_size udp
  decref udp
  pure result

unfoldable pub udp_get_send_queue_count :
    (uv_udp_get_send_queue_count : Ptr → M ℕ) → (udp : Ptr) → M ℕ
udp_get_send_queue_count uv_udp_get_send_queue_count udp = do
  result ← uv_udp_get_send_queue_count udp
  decref udp
  pure result

-- Setting a membership, with an interface or without one, releases the addresses and the socket
-- and returns libuv's answer, where libuv answers `r` and touches neither fields nor counts; so does
-- asking for the socket's own name, but asking for the peer's name leaves the name's object with a
-- reference that nobody releases.
options-Ends :
    (uv_udp_set_membership : Ptr → Ptr → Ptr → ℤ → M ℤ)
    (uv_udp_getsockname uv_udp_getpeername : Ptr → Ptr → M ℤ) (udp multicast interface name : Ptr)
    (membership r : ℤ) (s : State)
    → Answers r (uv_udp_set_membership udp multicast interface membership)
    → Answers r (uv_udp_getsockname udp name)
    → Answers r (uv_udp_getpeername udp name)
    → udp ≢ null
    → multicast ≢ null
    → name ≢ null
    → Ends
        (Leaves r s)
        (multicast ∷ interface ∷ udp ∷ [])
        []
        s
        (udp_set_membership uv_udp_set_membership udp multicast interface membership s)
      × Ends (Leaves r s) (udp ∷ name ∷ []) [] s (udp_getsockname uv_udp_getsockname udp name s)
      × Ends
          (Leaves r s)
          (udp ∷ name ∷ [])
          (name ∷ [])
          s
          (udp_getpeername uv_udp_getpeername udp name s)
unfolding udp_set_membership udp_getsockname udp_getpeername
options-Ends uv_udp_set_membership uv_udp_getsockname uv_udp_getpeername udp multicast interface
      name membership r s joins asks asks_peer hu hm hn =
    (
      seq (joins s) (λ x t (e, k) _. seq (decref-Same multicast t hm) λ _ u k2 _.
          seq (release-Same interface u)
            λ _ v k3 _. decrefs-Ends (udp ∷ []) x v (hu, tt) λ w k4. (e, k4 ∙ (k3 ∙ (k2 ∙ k)))),
      call-Ends (uv_udp_getsockname udp name) r (udp ∷ name ∷ []) s asks (hu, (hn, tt)),
      settle (call-Ends (uv_udp_getpeername udp name) r (udp ∷ []) s asks_peer (hu, tt))
          (λ p i. omega arith),
    )
