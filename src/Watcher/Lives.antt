-- ===== src/Watcher/Lives.antt =====
-- The sessions of the handles of src/timer.c and src/poll.c.
use uv_mbt.Base.{ℕ, ℤ, ◌≢◌, [], ◌∷◌}
use uv_mbt.Memory.{Ptr, null, loop, dat, State, M}
use uv_mbt.Memory.Idioms.{IsQuiet, Starts, Answers, Consumes}
use uv_mbt.Memory.Ledger.{Moves}
use uv_mbt.Memory.Rules.{Has, Reads, forget}
use uv_mbt.Memory.Shapes.{store-Ends, reset-Ends, multi_shot-then}
use uv_mbt.Watcher.Session.{
  Watched, session, session-Moves, IsLawful, Steady, init-Moves, start-Reads,
}
use uv_mbt.Watcher.Timer.{timer_init, timer_start, timer_cb, timer_stop}
use uv_mbt.Watcher.Poll.{poll_init, poll_start, poll_cb, poll_stop}

abbrev pub timer_ops :
    (uv_timer_init : Ptr → Ptr → M ℤ) (uv_timer_start : Ptr → ℕ → ℕ → M ℤ)
    (uv_timer_stop : Ptr → M ℤ) (code : Ptr → Ptr → M (Unit {0})) (l timer cb : Ptr)
    (timeout repeat : ℕ)
    → Watched
timer_ops uv_timer_init uv_timer_start uv_timer_stop code l timer cb timeout repeat = record {
  init = timer_init uv_timer_init l timer;
  start = timer_start uv_timer_start timer cb timeout repeat;
  fire = timer_cb code timer;
  stop = timer_stop uv_timer_stop timer;
}

-- From the first step to the last, with any number of callbacks between, a timer handle loses no
-- reference and releases none twice: what was passed in is what was released. libuv is taken to
-- store the loop, to answer `a`, `r` and `q` and to touch nothing else, and the MoonBit code to
-- take over what it is passed and to leave the handle started.
pub timer_session :
    (uv_timer_init : Ptr → Ptr → M ℤ) (uv_timer_start : Ptr → ℕ → ℕ → M ℤ)
    (uv_timer_stop : Ptr → M ℤ) (uv_close : Ptr → M (Unit {0})) (code : Ptr → Ptr → M (Unit {0}))
    (closed : Ptr → M (Unit {0})) (l timer cb on_close : Ptr) (timeout repeat : ℕ) (a r q : ℤ)
    (n : ℕ) (s : State)
    → Starts a l timer (uv_timer_init l timer)
    → Answers r (uv_timer_start timer timeout repeat)
    → Answers q (uv_timer_stop timer)
    → IsQuiet (uv_close timer)
    → Steady timer cb (code cb timer)
    → Consumes (on_close ∷ []) [] (closed on_close)
    → timer ≢ null
    → cb ≢ null
    → Reads timer loop null s
    → Has timer dat s
    → Moves (l ∷ timer ∷ cb ∷ timer ∷ timer ∷ on_close ∷ timer ∷ []) [] s (
        session
          (timer_ops uv_timer_init uv_timer_start uv_timer_stop code l timer cb timeout repeat)
          uv_close
          closed
          timer
          on_close
          n
          s)
unfolding timer_init timer_start timer_stop timer_cb
timer_session uv_timer_init uv_timer_start uv_timer_stop uv_close code closed l timer cb on_close
      timeout repeat a r q n s inits starts stops closes steady consumes hh hc el hd =
    let lawful : IsLawful timer l cb
        (timer_ops uv_timer_init uv_timer_start uv_timer_stop code l timer cb timeout repeat) =
      record {
        init_law = λ t e. init-Moves timer (uv_timer_init l timer) inits t e;
        start_law = λ t h. start-Reads timer h (
            store-Ends timer dat cb (uv_timer_start timer timeout repeat) r (timer ∷ []) t h starts
              (hh, tt));
        fire_law = λ t e. multi_shot-then timer dat code t e hc hh (λ u k. steady u (rw k e));
        stop_law = λ t h.
            forget (reset-Ends timer dat (uv_timer_stop timer) q (timer ∷ []) t h stops (hh, tt));
      } in
    session-Moves lawful uv_close closed on_close n s closes consumes hh el hd

abbrev pub poll_ops :
    (uv_poll_init : Ptr → Ptr → ℤ → M ℤ) (uv_poll_start : Ptr → ℤ → M ℤ) (uv_poll_stop : Ptr → M ℤ)
    (code : Ptr → Ptr → ℤ → ℤ → M (Unit {0})) (l poll cb : Ptr) (fd events status : ℤ)
    → Watched
poll_ops uv_poll_init uv_poll_start uv_poll_stop code l poll cb fd events status = record {
  init = poll_init uv_poll_init l poll fd;
  start = poll_start uv_poll_start poll events cb;
  fire = poll_cb code poll status events;
  stop = poll_stop uv_poll_stop poll;
}

-- From the first step to the last, with any number of callbacks between, a poll handle loses no
-- reference and releases none twice: what was passed in is what was released. libuv is taken to
-- store the loop, to answer `a`, `r` and `q` and to touch nothing else, and the MoonBit code to
-- take over what it is passed and to leave the handle started.
poll_session :
    (uv_poll_init : Ptr → Ptr → ℤ → M ℤ) (uv_poll_start : Ptr → ℤ → M ℤ) (uv_poll_stop : Ptr → M ℤ)
    (uv_close : Ptr → M (Unit {0})) (code : Ptr → Ptr → ℤ → ℤ → M (Unit {0}))
    (closed : Ptr → M (Unit {0})) (l poll cb on_close : Ptr) (fd events status : ℤ) (a r q : ℤ)
    (n : ℕ) (s : State)
    → Starts a l poll (uv_poll_init l poll fd)
    → Answers r (uv_poll_start poll events)
    → Answers q (uv_poll_stop poll)
    → IsQuiet (uv_close poll)
    → Steady poll cb (code cb poll status events)
    → Consumes (on_close ∷ []) [] (closed on_close)
    → poll ≢ null
    → cb ≢ null
    → Reads poll loop null s
    → Has poll dat s
    → Moves (l ∷ poll ∷ cb ∷ poll ∷ poll ∷ on_close ∷ poll ∷ []) [] s (
        session
          (poll_ops uv_poll_init uv_poll_start uv_poll_stop code l poll cb fd events status)
          uv_close
          closed
          poll
          on_close
          n
          s)
unfolding poll_init poll_start poll_stop poll_cb
poll_session uv_poll_init uv_poll_start uv_poll_stop uv_close code closed l poll cb on_close fd
      events status a r q n s inits starts stops closes steady consumes hh hc el hd =
    let lawful : IsLawful poll l cb
        (poll_ops uv_poll_init uv_poll_start uv_poll_stop code l poll cb fd events status) =
      record {
        init_law = λ t e. init-Moves poll (uv_poll_init l poll fd) inits t e;
        start_law = λ t h.
            start-Reads poll h (
              store-Ends poll dat cb (uv_poll_start poll events) r (poll ∷ []) t h starts (hh, tt));
        fire_law = λ t e.
            multi_shot-then poll dat (λ c h. code c h status events) t e hc hh
              (λ u k. steady u (rw k e));
        stop_law = λ t h.
            forget (reset-Ends poll dat (uv_poll_stop poll) q (poll ∷ []) t h stops (hh, tt));
      } in
    session-Moves lawful uv_close closed on_close n s closes consumes hh el hd
