-- ===== src/Stream/Tcp/Connecting.antt =====
-- Connecting, over TCP and over a pipe, and resetting a connection: src/tcp.c, src/pipe.c.
use uv_mbt.Base.{ℕ, ℤ, ◌≢◌, [], ◌∷◌, arith}
use uv_mbt.Memory.{Ptr, null, loop, dat, State, M}
use uv_mbt.Memory.Cells.{read-has}
use uv_mbt.Memory.Idioms.{Answers, Consumes, Sets, get-at}
use uv_mbt.Memory.Ledger.{Ends, Moves}
use uv_mbt.Memory.Rules.{Has, Reads, settle}
use uv_mbt.Memory.Shapes.{store-Ends, clear_both-Moves}
use uv_mbt.Stream.Pipe.{Name, pipe_connect2, pipe_finalize}
use uv_mbt.Stream.Tcp.{connect_cb, tcp_connect, tcp_close_reset, tcp_finalize}

-- Where libuv answers `r` and touches neither fields nor counts: a connection request over TCP and
-- one over a pipe store the callback in the request, release the one before, the handle and the
-- address or the name, write nothing else and return libuv's answer, and the reference to the
-- request stays with libuv. The callback moves that reference, and the one of the field, which it
-- leaves in place, into the MoonBit code.
connect_ownership :
    (uv_tcp_connect : Ptr → Ptr → Ptr → M ℤ) (uv_pipe_connect2 : Ptr → Ptr → Ptr → ℕ → ℕ → M ℤ)
    (code : Ptr → Ptr → ℤ → M (Unit {0})) (req handle addr cb old : Ptr) (name : Name) (flags : ℕ)
    (r status : ℤ) (s : State)
    → Answers r (uv_tcp_connect req handle addr)
    → Answers r (uv_pipe_connect2 req handle name.address name.length flags)
    → Consumes (old ∷ req ∷ []) [] (code old req status)
    → handle ≢ null
    → addr ≢ null
    → name.address ≢ null
    → Reads req dat old s
    → Ends
        (Sets r req dat cb s)
        (cb ∷ addr ∷ handle ∷ req ∷ [])
        (req ∷ [])
        s
        (tcp_connect uv_tcp_connect req handle addr cb s)
      × Ends
          (Sets r req dat cb s)
          (cb ∷ handle ∷ name.address ∷ req ∷ [])
          (req ∷ [])
          s
          (pipe_connect2 uv_pipe_connect2 req handle name flags cb s)
      × Moves (old ∷ req ∷ []) [] s (connect_cb code req status s)
unfolding tcp_connect pipe_connect2 connect_cb
connect_ownership uv_tcp_connect uv_pipe_connect2 code req handle addr cb old name flags r status s
      connects joins consumes hh ha hn e =
    let hd = read-has req dat old s.cells e in
    (
      settle
          (store-Ends req dat cb (uv_tcp_connect req handle addr) r (addr ∷ handle ∷ []) s hd
            connects (ha, (hh, tt)))
          (λ p i. omega arith),
      settle
          (store-Ends req dat cb (uv_pipe_connect2 req handle name.address name.length flags) r
            (handle ∷ name.address ∷ []) s hd joins (hh, (hn, tt)))
          (λ p i. omega arith),
      get-at req dat _ e (consumes s),
    )

-- Resetting a connection stores the close callback, releases the one before and the handle, and
-- returns libuv's answer, where libuv answers `r` and touches neither fields nor counts; the
-- finalizers of both kinds of handle release the callback and the loop and leave NULL.
tcp_close_reset-Ends :
    (uv_tcp_close_reset : Ptr → M ℤ) (tcp close_cb : Ptr) (r : ℤ) (s : State)
    → Answers r (uv_tcp_close_reset tcp)
    → tcp ≢ null
    → Has tcp dat s
    → Has tcp loop s
    → Ends
        (Sets r tcp dat close_cb s)
        (close_cb ∷ tcp ∷ [])
        []
        s
        (tcp_close_reset uv_tcp_close_reset tcp close_cb s)
      × Moves [] [] s (tcp_finalize tcp s)
      × Moves [] [] s (pipe_finalize tcp s)
unfolding tcp_close_reset tcp_finalize pipe_finalize
tcp_close_reset-Ends uv_tcp_close_reset tcp close_cb r s resets ht hd hl = (
  store-Ends tcp dat close_cb (uv_tcp_close_reset tcp) r (tcp ∷ []) s hd resets (ht, tt),
  clear_both-Moves tcp dat loop s hd hl,
  clear_both-Moves tcp dat loop s hd hl,
)
