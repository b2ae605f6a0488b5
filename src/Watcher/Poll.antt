-- ===== src/Watcher/Poll.antt =====
-- src/poll.c
use uv_mbt.Base.{ℤ, ◌≢◌, [], ◌∷◌}
use uv_mbt.Memory.{Ptr, null, loop, dat, State, M, ◌>>=◌, ◌>>◌, pure, get, incref, decref, make}
use uv_mbt.Memory.Cells.{read-has}
use uv_mbt.Memory.Idioms.{replace, clear, Sets, Answers, Consumes}
use uv_mbt.Memory.Ledger.{Ends, Moves}
use uv_mbt.Memory.Rules.{Has, Reads}
use uv_mbt.Memory.Shapes.{store-Ends, reset-Ends, multi_shot, clear_both-Moves}

unfoldable pub poll_finalize : Ptr → M (Unit {0})
poll_finalize poll = do clear poll loop; clear poll dat

unfoldable pub poll_set_data : Ptr → Ptr → M (Unit {0})
poll_set_data poll d = replace poll dat d

-- `fresh` is the address of the new object
unfoldable pub poll_make : (fresh : Ptr) → M Ptr
poll_make fresh = make fresh (loop ∷ dat ∷ [])

unfoldable pub poll_init : (uv_poll_init : Ptr → Ptr → ℤ → M ℤ) → (l poll : Ptr) → (fd : ℤ) → M ℤ
poll_init uv_poll_init l poll fd = uv_poll_init l poll fd

-- `os_sock` is the object that holds the socket, which libuv reads
unfoldable pub poll_init_socket :
    (uv_poll_init_socket : Ptr → Ptr → Ptr → M ℤ) → (l poll os_sock : Ptr) → M ℤ
poll_init_socket uv_poll_init_socket l poll os_sock = do
  result ← uv_poll_init_socket l poll os_sock
  decref os_sock
  pure result

unfoldable pub poll_cb :
    (code : Ptr → Ptr → ℤ → ℤ → M (Unit {0})) → (poll : Ptr) → (status events : ℤ) → M (Unit {0})
poll_cb code poll status events = do
  cb ← get poll dat
  incref cb
  incref poll
  code cb poll status events

unfoldable pub poll_start :
    (uv_poll_start : Ptr → ℤ → M ℤ) → (poll : Ptr) → (events : ℤ) → (cb : Ptr) → M ℤ
unfolding poll_set_data
poll_start uv_poll_start poll events cb = do
  poll_set_data poll cb
  status ← uv_poll_start poll events
  decref poll
  pure status

unfoldable pub poll_stop : (uv_poll_stop : Ptr → M ℤ) → (poll : Ptr) → M ℤ
unfolding poll_set_data
poll_stop uv_poll_stop poll = do
  poll_set_data poll null
  status ← uv_poll_stop poll
  decref poll
  pure status

-- Where libuv's two functions answer `r` and `q` and touch neither fields nor counts, and the
-- MoonBit code takes over the two references that it is passed: starting to poll stores the
-- callback and releases the old one and the parameter, stopping stores NULL, and both return
-- libuv's answer and write no other field; the callback, with any status and events, and the
-- finalizer lose and invent no reference.
poll_ownership :
    (uv_poll_start : Ptr → ℤ → M ℤ) (uv_poll_stop : Ptr → M ℤ)
    (code : Ptr → Ptr → ℤ → ℤ → M (Unit {0})) (poll cb old : Ptr) (events status : ℤ) (r q : ℤ)
    (s : State)
    → Answers r (uv_poll_start poll events)
    → Answers q (uv_poll_stop poll)
    → Consumes (old ∷ poll ∷ []) [] (code old poll status events)
    → poll ≢ null
    → old ≢ null
    → Has poll loop s
    → Reads poll dat old s
    → Ends (Sets r poll dat cb s) (cb ∷ poll ∷ []) [] s (poll_start uv_poll_start poll events cb s)
      × Ends (Sets q poll dat null s) (poll ∷ []) [] s (poll_stop uv_poll_stop poll s)
      × Moves [] [] s (poll_cb code poll status events s)
      × Moves [] [] s (poll_finalize poll s)
unfolding poll_start poll_stop poll_cb poll_finalize
poll_ownership uv_poll_start uv_poll_stop code poll cb old events status r q s starts stops consumes
      hi ho hl e =
    let hd = read-has poll dat old s.cells e in
    (
      store-Ends poll dat cb (uv_poll_start poll events) r (poll ∷ []) s hd starts (hi, tt),
      reset-Ends poll dat (uv_poll_stop poll) q (poll ∷ []) s hd stops (hi, tt),
      multi_shot poll dat (λ c h. code c h status events) s e ho hi consumes,
      clear_both-Moves poll loop dat s hl hd,
    )
