-- ===== src/Watcher/Phases.antt =====
-- The sessions of the handles of src/idle.c, src/check.c and src/prepare.c.
use uv_mbt.Base.{ℕ, ℤ, ◌≢◌, [], ◌∷◌}
use uv_mbt.Memory.{Ptr, null, loop, dat, State, M}
use uv_mbt.Memory.Idioms.{IsQuiet, Starts, Answers, Consumes}
use uv_mbt.Memory.Ledger.{Moves}
use uv_mbt.Memory.Rules.{Has, Reads, forget}
use uv_mbt.Memory.Shapes.{store-Ends, reset-Ends, multi_shot-then}
use uv_mbt.Watcher.Session.{
  Watched, session, session-Moves, IsLawful, Steady, init-Moves, start-Reads,
}
use uv_mbt.Watcher.Idle.{idle_init, idle_start, idle_cb, idle_stop}
use uv_mbt.Watcher.Check.{check_init, check_start, check_cb, check_stop}
use uv_mbt.Watcher.Prepare.{prepare_init, prepare_start, prepare_cb, prepare_stop}

abbrev pub idle_ops :
    (uv_idle_init : Ptr → Ptr → M ℤ) (uv_idle_start : Ptr → M ℤ) (uv_idle_stop : Ptr → M ℤ)
    (code : Ptr → Ptr → M (Unit {0})) (l idle cb : Ptr)
    → Watched
idle_ops uv_idle_init uv_idle_start uv_idle_stop code l idle cb = record {
  init = idle_init uv_idle_init l idle;
  start = idle_start uv_idle_start idle cb;
  fire = idle_cb code idle;
  stop = idle_stop uv_idle_stop idle;
}

-- From the first step to the last, with any number of callbacks between, a idle handle loses no
-- reference and releases none twice: what was passed in is what was released. libuv is taken to
-- store the loop, to answer `a`, `r` and `q` and to touch nothing else, and the MoonBit code to
-- take over what it is passed and to leave the handle started.
idle_session :
    (uv_idle_init : Ptr → Ptr → M ℤ) (uv_idle_start : Ptr → M ℤ) (uv_idle_stop : Ptr → M ℤ)
    (uv_close : Ptr → M (Unit {0})) (code : Ptr → Ptr → M (Unit {0})) (closed : Ptr → M (Unit {0}))
    (l idle cb on_close : Ptr) (a r q : ℤ) (n : ℕ) (s : State)
    → Starts a l idle (uv_idle_init l idle)
    → Answers r (uv_idle_start idle)
    → Answers q (uv_idle_stop idle)
    → IsQuiet (uv_close idle)
    → Steady idle cb (code cb idle)
    → Consumes (on_close ∷ []) [] (closed on_close)
    → idle ≢ null
    → cb ≢ null
    → Reads idle loop null s
    → Has idle dat s
    → Moves (l ∷ idle ∷ cb ∷ idle ∷ idle ∷ on_close ∷ idle ∷ []) [] s (
        session
          (idle_ops uv_idle_init uv_idle_start uv_idle_stop code l idle cb)
          uv_close
          closed
          idle
          on_close
          n
          s)
unfolding idle_init idle_start idle_stop idle_cb
idle_session uv_idle_init uv_idle_start uv_idle_stop uv_close code closed l idle cb on_close a r q n
      s inits starts stops closes steady consumes hh hc el hd =
    let lawful : IsLawful idle l cb
        (idle_ops uv_idle_init uv_idle_start uv_idle_stop code l idle cb) =
      record {
        init_law = λ t e. init-Moves idle (uv_idle_init l idle) inits t e;
        start_law = λ t h.
            start-Reads idle h
              (store-Ends idle dat cb (uv_idle_start idle) r (idle ∷ []) t h starts (hh, tt));
        fire_law = λ t e. multi_shot-then idle dat code t e hc hh (λ u k. steady u (rw k e));
        stop_law = λ t h.
            forget (reset-Ends idle dat (uv_idle_stop idle) q (idle ∷ []) t h stops (hh, tt));
      } in
    session-Moves lawful uv_close closed on_close n s closes consumes hh el hd

abbrev pub check_ops :
    (uv_check_init : Ptr → Ptr → M ℤ) (uv_check_start : Ptr → M ℤ) (uv_check_stop : Ptr → M ℤ)
    (code : Ptr → Ptr → M (Unit {0})) (l check cb : Ptr)
    → Watched
check_ops uv_check_init uv_check_start uv_check_stop code l check cb = record {
  init = check_init uv_check_init l check;
  start = check_start uv_check_start check cb;
  fire = check_cb code check;
  stop = check_stop uv_check_stop check;
}

-- From the first step to the last, with any number of callbacks between, a check handle loses no
-- reference and releases none twice: what was passed in is what was released. libuv is taken to
-- store the loop, to answer `a`, `r` and `q` and to touch nothing else, and the MoonBit code to
-- take over what it is passed and to leave the handle started.
check_session :
    (uv_check_init : Ptr → Ptr → M ℤ) (uv_check_start : Ptr → M ℤ) (uv_check_stop : Ptr → M ℤ)
    (uv_close : Ptr → M (Unit {0})) (code : Ptr → Ptr → M (Unit {0})) (closed : Ptr → M (Unit {0}))
    (l check cb on_close : Ptr) (a r q : ℤ) (n : ℕ) (s : State)
    → Starts a l check (uv_check_init l check)
    → Answers r (uv_check_start check)
    → Answers q (uv_check_stop check)
    → IsQuiet (uv_close check)
    → Steady check cb (code cb check)
    → Consumes (on_close ∷ []) [] (closed on_close)
    → check ≢ null
    → cb ≢ null
    → Reads check loop null s
    → Has check dat s
    → Moves (l ∷ check ∷ cb ∷ check ∷ check ∷ on_close ∷ check ∷ []) [] s (
        session
          (check_ops uv_check_init uv_check_start uv_check_stop code l check cb)
          uv_close
          closed
          check
          on_close
          n
          s)
unfolding check_init check_start check_stop check_cb
check_session uv_check_init uv_check_start uv_check_stop uv_close code closed l check cb on_close a
      r q n s inits starts stops closes steady consumes hh hc el hd =
    let lawful : IsLawful check l cb
        (check_ops uv_check_init uv_check_start uv_check_stop code l check cb) =
      record {
        init_law = λ t e. init-Moves check (uv_check_init l check) inits t e;
        start_law = λ t h.
            start-Reads check h
              (store-Ends check dat cb (uv_check_start check) r (check ∷ []) t h starts (hh, tt));
        fire_law = λ t e. multi_shot-then check dat code t e hc hh (λ u k. steady u (rw k e));
        stop_law = λ t h.
            forget (reset-Ends check dat (uv_check_stop check) q (check ∷ []) t h stops (hh, tt));
      } in
    session-Moves lawful uv_close closed on_close n s closes consumes hh el hd

abbrev pub prepare_ops :
    (uv_prepare_init : Ptr → Ptr → M ℤ) (uv_prepare_start : Ptr → M ℤ) (uv_prepare_stop : Ptr → M ℤ)
    (code : Ptr → Ptr → M (Unit {0})) (l prepare cb : Ptr)
    → Watched
prepare_ops uv_prepare_init uv_prepare_start uv_prepare_stop code l prepare cb = record {
  init = prepare_init uv_prepare_init l prepare;
  start = prepare_start uv_prepare_start prepare cb;
  fire = prepare_cb code prepare;
  stop = prepare_stop uv_prepare_stop prepare;
}

-- From the first step to the last, with any number of callbacks between, a prepare handle loses no
-- reference and releases none twice: what was passed in is what was released. libuv is taken to
-- store the loop, to answer `a`, `r` and `q` and to touch nothing else, and the MoonBit code to
-- take over what it is passed and to leave the handle started.
prepare_session :
    (uv_prepare_init : Ptr → Ptr → M ℤ) (uv_prepare_start : Ptr → M ℤ) (uv_prepare_stop : Ptr → M ℤ)
    (uv_close : Ptr → M (Unit {0})) (code : Ptr → Ptr → M (Unit {0})) (closed : Ptr → M (Unit {0}))
    (l prepare cb on_close : Ptr) (a r q : ℤ) (n : ℕ) (s : State)
    → Starts a l prepare (uv_prepare_init l prepare)
    → Answers r (uv_prepare_start prepare)
    → Answers q (uv_prepare_stop prepare)
    → IsQuiet (uv_close prepare)
    → Steady prepare cb (code cb prepare)
    → Consumes (on_close ∷ []) [] (closed on_close)
    → prepare ≢ null
    → cb ≢ null
    → Reads prepare loop null s
    → Has prepare dat s
    → Moves (l ∷ prepare ∷ cb ∷ prepare ∷ prepare ∷ on_close ∷ prepare ∷ []) [] s (
        session
          (prepare_ops uv_prepare_init uv_prepare_start uv_prepare_stop code l prepare cb)
          uv_close
          closed
          prepare
          on_close
          n
          s)
unfolding prepare_init prepare_start prepare_stop prepare_cb
prepare_session uv_prepare_init uv_prepare_start uv_prepare_stop uv_close code closed l prepare cb
      on_close a r q n s inits starts stops closes steady consumes hh hc el hd =
    let lawful : IsLawful prepare l cb
        (prepare_ops uv_prepare_init uv_prepare_start uv_prepare_stop code l prepare cb) =
      record {
        init_law = λ t e. init-Moves prepare (uv_prepare_init l prepare) inits t e;
        start_law = λ t h. start-Reads prepare h (
            store-Ends prepare dat cb (uv_prepare_start prepare) r (prepare ∷ []) t h starts
              (hh, tt));
        fire_law = λ t e. multi_shot-then prepare dat code t e hc hh (λ u k. steady u (rw k e));
        stop_law = λ t h.
            forget (
              reset-Ends prepare dat (uv_prepare_stop prepare) q (prepare ∷ []) t h stops (hh, tt));
      } in
    session-Moves lawful uv_close closed on_close n s closes consumes hh el hd
