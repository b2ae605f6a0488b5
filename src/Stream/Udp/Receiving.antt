-- ===== src/Stream/Udp/Receiving.antt =====
-- src/udp.c: the callbacks that libuv makes of a socket that receives.
use uv_mbt.Base.{ℕ, ℤ, ◌+◌, ◌≡◌, refl, ◌≢◌, none, List, [], ◌∷◌, arith}
use uv_mbt.Memory.{Ptr, null, dat, bytes, alloc_cb, read_cb, State, M, get, put, incref}
use uv_mbt.Memory.Idioms.{get-at, put-then}
use uv_mbt.Memory.Ledger.{Ends}
use uv_mbt.Memory.Rules.{
  Reads, seq, seq-is, settle, same-null, incref-Same, and_then-none, pure-Ends,
}
use uv_mbt.Memory.{write}
use uv_mbt.Memory.Idioms.{Answers, Sets}
use uv_mbt.Memory.Records.{record-Ends}
use uv_mbt.Memory.Rules.{Has}
use uv_mbt.Memory.Shapes.{reset-Ends}
use uv_mbt.Stream.Reading.Control.{filled, blank_read_cb, blank_alloc_cb}
use uv_mbt.Stream.Udp.{udp_recv_start, udp_recv_stop}
use uv_mbt.Stream.Reading.{Buf, Allocated}
use uv_mbt.Stream.Udp.{copy_addr, udp_recv_start_cb, udp_recv_start_alloc_cb}

-- Where libuv calls back with no address, as it does when there is nothing to read and on an error,
-- the callback faults in every state.
udp_recv_start_cb-none :
    (code : Ptr → Ptr → ℤ → Ptr → ℕ → ℕ → Ptr → List ℕ → ℕ → M (Unit {0})) (fresh udp : Ptr)
    (nread : ℤ) (buf : Buf) (flags : ℕ) (s : State)
    → udp_recv_start_cb code fresh udp nread buf none flags s ≡ none
unfolding udp_recv_start_cb copy_addr
udp_recv_start_cb-none code fresh udp nread buf flags s = and_then-none (get udp dat s) _ λ d t.
    and_then-none (get d read_cb t) _ λ c u. and_then-none (get d bytes u) _ λ b v.
      and_then-none (put d bytes null v) _
        λ _ w. and_then-none (incref c w) _ λ _ x. and_then-none (incref udp x) _ λ _ y. refl

-- The allocation callback of a socket stores the bytes that the MoonBit code answers, where the
-- record held none, and loses and invents no reference, if the code takes over the closure and the
-- handle, gives the reference to its answer, and leaves the record without bytes.
udp_recv_start_alloc_cb-Ends :
    (code : Ptr → Ptr → ℕ → M Allocated) (handle d c : Ptr) (size : ℕ) (a : Allocated) (s : State)
    → ((t : State)
        → Reads d bytes null t
        → Ends
            (λ x u. (x ≡ a) × Reads d bytes null u)
            (c ∷ handle ∷ [])
            (a.block ∷ [])
            t
            (code c handle size t))
    → c ≢ null
    → handle ≢ null
    → Reads handle dat d s
    → Reads d alloc_cb c s
    → Reads d bytes null s
    → Ends
        (λ x t. x ≡ record { base = a.block + a.offset; len = a.extent })
        []
        []
        s
        (udp_recv_start_alloc_cb code handle size s)
unfolding udp_recv_start_alloc_cb
udp_recv_start_alloc_cb-Ends code handle d c size a s answers hc hh ed ec eb =
    get-at handle dat _ ed (
      get-at d alloc_cb _ ec (
        settle
          (seq (incref-Same c s hc) λ _ t k _. seq (incref-Same handle t hh) λ _ u k2 _.
            seq-is _ (answers u (rw (k2, k) eb))
              λ x q _. put-then d bytes a.block _ q λ y _ _. pure-Ends _ y refl)
          (λ p i. omega (arith, same-null p i))))

-- Where libuv's functions answer `r` and `q` and touch neither fields nor counts: starting to receive
-- makes one record, which owns both callbacks and which the handle owns, and releases what the handle
-- owned before and the parameter; stopping stores NULL and releases the record and the parameter.
-- Both return libuv's answer and write nothing else.
udp_recv-Ends :
    (uv_udp_recv_start uv_udp_recv_stop : Ptr → M ℤ) (fresh udp on_alloc on_read : Ptr) (r q : ℤ)
    (s : State)
    → Answers r (uv_udp_recv_start udp)
    → Answers q (uv_udp_recv_stop udp)
    → udp ≢ null
    → Has udp dat s
    → Ends
        (λ x t. (x ≡ r) × (t.cells ≡ write udp dat fresh (filled fresh on_alloc on_read s)))
        (on_read ∷ on_alloc ∷ udp ∷ [])
        []
        s
        (udp_recv_start uv_udp_recv_start fresh udp on_alloc on_read s)
      × Ends (Sets q udp dat null s) (udp ∷ []) [] s (udp_recv_stop uv_udp_recv_stop udp s)
unfolding udp_recv_start udp_recv_stop
udp_recv-Ends uv_udp_recv_start uv_udp_recv_stop fresh udp on_alloc on_read r q s starts stops hu
      h =
    (
      record-Ends (bytes ∷ alloc_cb ∷ read_cb ∷ []) read_cb alloc_cb (uv_udp_recv_start udp) fresh
          udp on_read on_alloc r (udp ∷ []) s blank_read_cb blank_alloc_cb (omega arith) starts
          (hu, tt) h,
      reset-Ends udp dat (uv_udp_recv_stop udp) q (udp ∷ []) s h stops (hu, tt),
    )
