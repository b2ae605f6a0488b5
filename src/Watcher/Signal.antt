-- ===== src/Watcher/Signal.antt =====
-- src/signal.c
use uv_mbt.Base.{ℤ, ◌≢◌, [], ◌∷◌, arith}
use uv_mbt.Memory.{Ptr, null, loop, dat, State, M, ◌>>=◌, ◌>>◌, pure, get, incref, decref, make}
use uv_mbt.Memory.Cells.{read-has}
use uv_mbt.Memory.Idioms.{drop, Sets, Answers, Consumes}
use uv_mbt.Memory.Ledger.{Ends, Moves}
use uv_mbt.Memory.Rules.{Reads, Same, settle}
use uv_mbt.Memory.Shapes.{store-Ends, reset-Ends, multi_shot, drop_both-Same}
use uv_mbt.Handle.{handle_set_data}

unfoldable pub signal_finalize : Ptr → M (Unit {0})
signal_finalize signal = do drop signal loop; drop signal dat

-- `fresh` is the address of the new object
unfoldable pub signal_make : (fresh : Ptr) → M Ptr
signal_make fresh = make fresh (loop ∷ dat ∷ [])

unfoldable pub signal_init : (uv_signal_init : Ptr → Ptr → M ℤ) → (l signal : Ptr) → M ℤ
signal_init uv_signal_init l signal = do
  status ← uv_signal_init l signal
  decref signal
  pure status

unfoldable pub signal_cb :
    (code : Ptr → Ptr → ℤ → M (Unit {0})) → (signal : Ptr) → (signum : ℤ) → M (Unit {0})
signal_cb code signal signum = do
  cb ← get signal dat
  incref cb
  incref signal
  code cb signal signum

unfoldable pub signal_start :
    (uv_signal_start : Ptr → ℤ → M ℤ) → (signal cb : Ptr) → (signum : ℤ) → M ℤ
unfolding handle_set_data
signal_start uv_signal_start signal cb signum = do
  handle_set_data signal cb
  status ← uv_signal_start signal signum
  pure status

unfoldable pub signal_start_oneshot :
    (uv_signal_start_oneshot : Ptr → ℤ → M ℤ) → (signal cb : Ptr) → (signum : ℤ) → M ℤ
unfolding handle_set_data
signal_start_oneshot uv_signal_start_oneshot signal cb signum = do
  handle_set_data signal cb
  status ← uv_signal_start_oneshot signal signum
  pure status

unfoldable pub signal_stop : (uv_signal_stop : Ptr → M ℤ) → (signal : Ptr) → M ℤ
unfolding handle_set_data
signal_stop uv_signal_stop signal = do
  handle_set_data signal null
  status ← uv_signal_stop signal
  decref signal
  decref signal
  pure status

-- Where libuv's functions answer `r` and `q` and touch neither fields nor counts, and the MoonBit
-- code takes over the two references that it is passed: starting to listen stores the callback,
-- releases the old one and keeps the reference to the handle for libuv; stopping stores NULL and
-- releases two references to the handle, the parameter and the one of the start; the callback
-- loses and invents no reference, and the finalizer releases the loop and the callback once each.
signal_ownership :
    (uv_signal_start : Ptr → ℤ → M ℤ) (uv_signal_stop : Ptr → M ℤ)
    (code : Ptr → Ptr → ℤ → M (Unit {0})) (signal cb old l : Ptr) (signum : ℤ) (r q : ℤ) (s : State)
    → Answers r (uv_signal_start signal signum)
    → Answers q (uv_signal_stop signal)
    → Consumes (old ∷ signal ∷ []) [] (code old signal signum)
    → signal ≢ null
    → old ≢ null
    → Reads signal loop l s
    → Reads signal dat old s
    → Ends
        (Sets r signal dat cb s)
        (cb ∷ signal ∷ [])
        (signal ∷ [])
        s
        (signal_start uv_signal_start signal cb signum s)
      × Ends
          (Sets q signal dat null s)
          (signal ∷ signal ∷ [])
          []
          s
          (signal_stop uv_signal_stop signal s)
      × Moves [] [] s (signal_cb code signal signum s)
      × Ends (Same s) (l ∷ old ∷ []) [] s (signal_finalize signal s)
unfolding signal_start signal_stop signal_cb signal_finalize
signal_ownership uv_signal_start uv_signal_stop code signal cb old l signum r q s starts stops
      consumes hs ho el e =
    let hd = read-has signal dat old s.cells e in
    (
      settle (store-Ends signal dat cb (uv_signal_start signal signum) r [] s hd starts tt)
          (λ p i. omega arith),
      reset-Ends signal dat (uv_signal_stop signal) q (signal ∷ signal ∷ []) s hd stops
          (hs, (hs, tt)),
      multi_shot signal dat (λ c h. code c h signum) s e ho hs consumes,
      drop_both-Same signal loop dat s el e,
    )
