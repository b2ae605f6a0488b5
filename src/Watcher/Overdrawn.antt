-- ===== src/Watcher/Overdrawn.antt =====
-- The sessions of the handles of src/async.c and src/signal.c, which release their handle once more
-- than it was passed to them: nothing of what the loop keeps is left to `close_cb`.
use uv_mbt.Base.{ℕ, ℤ, ◌≢◌, inr, [], ◌∷◌, arith}
use uv_mbt.Handle.{close, close_cb, close_cb-Moves}
use uv_mbt.Memory.{Ptr, null, loop, dat, State, M, ◌>>◌}
use uv_mbt.Memory.Cells.{read-has, read-write, read-write_other}
use uv_mbt.Memory.Idioms.{IsQuiet, Starts, replace-Wrote, Answers, Consumes}
use uv_mbt.Memory.Ledger.{Any, Ends, Moves}
use uv_mbt.Memory.Rules.{Has, Reads, seq, settle, forget, decref-Same, pure-Ends}
use uv_mbt.Memory.Shapes.{store-Ends, reset-Ends, multi_shot-then}
use uv_mbt.Watcher.Async.{async_init, async_cb}
use uv_mbt.Watcher.Signal.{signal_init, signal_start, signal_cb, signal_stop}
use uv_mbt.Watcher.Session.{again, again-Ends, close-Reads, Steady, start-Reads}

unfoldable pub async_session :
    (uv_async_init : Ptr → Ptr → M ℤ) (uv_close : Ptr → M (Unit {0}))
    (code : Ptr → Ptr → M (Unit {0})) (closed : Ptr → M (Unit {0})) (l async cb on_close : Ptr)
    → ℕ
    → M (Unit {0})
async_session uv_async_init uv_close code closed l async cb on_close n =
    async_init uv_async_init l async cb
    >> again n (async_cb code async)
    >> close uv_close async on_close
    >> close_cb closed async

-- libuv has the loop, and the handle its callback, after the initialisation
init-Reads :
    (uv_async_init : Ptr → Ptr → M ℤ) (l async cb : Ptr) (r : ℤ) (s : State)
    → Starts r l async (uv_async_init l async)
    → async ≢ null
    → Reads async loop null s
    → Has async dat s
    → Ends
        (λ _ t. Reads async dat cb t)
        (cb ∷ l ∷ async ∷ [])
        []
        s
        (async_init uv_async_init l async cb s)
unfolding async_init
init-Reads uv_async_init l async cb r s starts ha el hd =
    seq (replace-Wrote async dat cb s hd) λ _ t w _.
      seq
        (starts t (rw (w, read-write_other async dat cb async loop s.cells (inr (omega arith))) el))
        λ x u (e, k) _. seq (decref-Same async u ha) λ _ v k' _. pure-Ends x v (
          rw (k', k, read-write_other async loop l async dat t.cells (inr (omega arith)), w)
            (read-write async dat cb s.cells hd))

-- An async handle that is initialised, called back any number of times and closed releases three
-- references to itself, where two were passed, to the initialisation and to `close`: the third is
-- the loop's own, which the initialisation did not keep. All else is released once. libuv is taken
-- to store the loop and to touch nothing else, and the MoonBit code to take over what it is passed
-- and to leave the handle started.
pub async_session-Moves :
    (uv_async_init : Ptr → Ptr → M ℤ) (uv_close : Ptr → M (Unit {0}))
    (code : Ptr → Ptr → M (Unit {0})) (closed : Ptr → M (Unit {0})) (l async cb on_close : Ptr)
    (r : ℤ) (n : ℕ) (s : State)
    → Starts r l async (uv_async_init l async)
    → IsQuiet (uv_close async)
    → Steady async cb (code cb async)
    → Consumes (on_close ∷ []) [] (closed on_close)
    → async ≢ null
    → cb ≢ null
    → Reads async loop null s
    → Has async dat s
    → Moves
        (l ∷ cb ∷ on_close ∷ async ∷ async ∷ async ∷ [])
        []
        s
        (async_session uv_async_init uv_close code closed l async cb on_close n s)
unfolding async_session async_cb
async_session-Moves uv_async_init uv_close code closed l async cb on_close r n s starts closes
      steady consumes ha hc el hd =
    settle
      (seq
        (seq
          (seq (init-Reads uv_async_init l async cb r s starts ha el hd) λ _ t e _.
            again-Ends n (async_cb code async) t
              (λ u e'. multi_shot-then async dat code u e' hc ha λ v k. steady v (rw k e')) e)
          λ _ t e _.
            close-Reads uv_close async on_close t closes ha (read-has async dat cb t.cells e))
        λ _ t e _. close_cb-Moves closed async on_close t consumes ha e)
      (λ p i. omega arith)

unfoldable pub signal_session :
    (uv_signal_init : Ptr → Ptr → M ℤ) (uv_signal_start : Ptr → ℤ → M ℤ)
    (uv_signal_stop : Ptr → M ℤ) (uv_close : Ptr → M (Unit {0}))
    (code : Ptr → Ptr → ℤ → M (Unit {0})) (closed : Ptr → M (Unit {0})) (l signal cb on_close : Ptr)
    (signum : ℤ)
    → ℕ
    → M (Unit {0})
signal_session uv_signal_init uv_signal_start uv_signal_stop uv_close code closed l signal cb
      on_close signum n =
    signal_init uv_signal_init l signal
    >> signal_start uv_signal_start signal cb signum
    >> again n (signal_cb code signal signum)
    >> signal_stop uv_signal_stop signal
    >> close uv_close signal on_close
    >> close_cb closed signal

-- A signal handle that is initialised, started, called back any number of times, stopped and closed
-- releases five references to itself, where four were passed, to the initialisation, the start, the
-- stop and to `close`: the fifth is the loop's own. All else is released once. libuv is taken to
-- store the loop, to answer `a`, `r` and `q` and to touch nothing else, and the MoonBit code to take
-- over what it is passed and to leave the handle started.
signal_session-Moves :
    (uv_signal_init : Ptr → Ptr → M ℤ) (uv_signal_start : Ptr → ℤ → M ℤ)
    (uv_signal_stop : Ptr → M ℤ) (uv_close : Ptr → M (Unit {0}))
    (code : Ptr → Ptr → ℤ → M (Unit {0})) (closed : Ptr → M (Unit {0})) (l signal cb on_close : Ptr)
    (signum a r q : ℤ) (n : ℕ) (s : State)
    → Starts a l signal (uv_signal_init l signal)
    → Answers r (uv_signal_start signal signum)
    → Answers q (uv_signal_stop signal)
    → IsQuiet (uv_close signal)
    → Steady signal cb (code cb signal signum)
    → Consumes (on_close ∷ []) [] (closed on_close)
    → signal ≢ null
    → cb ≢ null
    → Reads signal loop null s
    → Has signal dat s
    → Moves (l ∷ cb ∷ on_close ∷ signal ∷ signal ∷ signal ∷ signal ∷ signal ∷ []) [] s (
        signal_session uv_signal_init uv_signal_start uv_signal_stop uv_close code closed l signal
          cb on_close signum n s)
unfolding signal_session signal_init signal_start signal_cb signal_stop
signal_session-Moves uv_signal_init uv_signal_start uv_signal_stop uv_close code closed l signal cb
      on_close signum a r q n s inits starts stops closes steady consumes hs hc el hd =
    settle
      (seq
        (seq
          (seq
            (seq
              (seq
                (seq (inits s el)
                  λ x t _ _. seq (decref-Same signal t hs) λ _ u _ _. pure-Ends {P = Any} x u tt)
                λ _ t _ k.
                  let h = k.kept.keeps signal dat hd in
                  start-Reads signal h
                    (store-Ends signal dat cb (uv_signal_start signal signum) r [] t h starts tt))
              λ _ t e _.
                again-Ends n (signal_cb code signal signum) t
                  (λ u e'.
                    multi_shot-then signal dat (λ c h. code c h signum) u e' hc hs
                      λ v k. steady v (rw k e'))
                  e)
            λ _ t e _. forget (
              reset-Ends signal dat (uv_signal_stop signal) q (signal ∷ signal ∷ []) t
                (read-has signal dat cb t.cells e) stops (hs, (hs, tt))))
          λ _ t _ k. close-Reads uv_close signal on_close t closes hs (k.kept.keeps signal dat hd))
        λ _ t e _. close_cb-Moves closed signal on_close t consumes hs e)
      (λ p i. omega arith)
