-- ===== src/Watcher/Timer.antt =====
-- src/timer.c
use uv_mbt.Base.{◌∙◌, ℕ, ℤ, ◌≡◌, ◌≢◌, none, [], ◌∷◌}
use uv_mbt.Memory.{
  Ptr, null, loop, dat, State, M, and_then, ◌>>=◌, ◌>>◌, pure, get, incref, decref, make,
}
use uv_mbt.Memory.Cells.{read-has}
use uv_mbt.Memory.Idioms.{replace, drop, drop-Same, get-at, Sets, Answers, Consumes}
use uv_mbt.Memory.Ledger.{Ends, Moves}
use uv_mbt.Memory.Rules.{Reads, Same, seq, weaken, decref-Same}
use uv_mbt.Memory.Shapes.{store-Ends, reset-Ends, multi_shot}

-- the loop is released with no test for NULL
unfoldable pub timer_finalize : Ptr → M (Unit {0})
timer_finalize timer = do l ← get timer loop; decref l; drop timer dat

unfoldable pub timer_set_data : Ptr → Ptr → M (Unit {0})
timer_set_data timer d = replace timer dat d

-- `fresh` is the address of the new object
unfoldable pub timer_make : (fresh : Ptr) → M Ptr
timer_make fresh = make fresh (loop ∷ dat ∷ [])

unfoldable pub timer_init : (uv_timer_init : Ptr → Ptr → M ℤ) → (l timer : Ptr) → M ℤ
timer_init uv_timer_init l timer = uv_timer_init l timer

unfoldable pub timer_cb : (code : Ptr → Ptr → M (Unit {0})) → (timer : Ptr) → M (Unit {0})
timer_cb code timer = do cb ← get timer dat; incref cb; incref timer; code cb timer

-- `timeout` and `repeat` are passed on to libuv
unfoldable pub timer_start :
    (uv_timer_start : Ptr → ℕ → ℕ → M ℤ) → (timer cb : Ptr) → (timeout repeat : ℕ) → M ℤ
unfolding timer_set_data
timer_start uv_timer_start timer cb timeout repeat = do
  timer_set_data timer cb
  result ← uv_timer_start timer timeout repeat
  decref timer
  pure result

unfoldable pub timer_stop : (uv_timer_stop : Ptr → M ℤ) → (timer : Ptr) → M ℤ
unfolding timer_set_data
timer_stop uv_timer_stop timer = do
  timer_set_data timer null
  status ← uv_timer_stop timer
  decref timer
  pure status

unfoldable pub timer_set_repeat :
    (uv_timer_set_repeat : Ptr → ℕ → M (Unit {0})) → (timer : Ptr) → (repeat : ℕ) → M (Unit {0})
timer_set_repeat uv_timer_set_repeat timer repeat = do
  uv_timer_set_repeat timer repeat
  decref timer

unfoldable pub timer_get_repeat : (uv_timer_get_repeat : Ptr → M ℕ) → (timer : Ptr) → M ℕ
timer_get_repeat uv_timer_get_repeat timer = do
  repeat ← uv_timer_get_repeat timer
  decref timer
  pure repeat

unfoldable pub timer_get_due_in : (uv_timer_get_due_in : Ptr → M ℕ) → (timer : Ptr) → M ℕ
timer_get_due_in uv_timer_get_due_in timer = do
  due_in ← uv_timer_get_due_in timer
  decref timer
  pure due_in

-- Where libuv's two functions answer `r` and `q` and touch neither fields nor counts, and the
-- MoonBit code takes over the two references that it is passed: starting the timer, with any
-- timeout and repeat, stores the callback and releases the old one and the parameter, stopping it
-- stores NULL, and both return libuv's answer and write no other field; the callback loses and
-- invents no reference.
timer_ownership :
    (uv_timer_start : Ptr → ℕ → ℕ → M ℤ) (uv_timer_stop : Ptr → M ℤ)
    (code : Ptr → Ptr → M (Unit {0})) (timer cb old : Ptr) (timeout repeat : ℕ) (r q : ℤ)
    (s : State)
    → Answers r (uv_timer_start timer timeout repeat)
    → Answers q (uv_timer_stop timer)
    → Consumes (old ∷ timer ∷ []) [] (code old timer)
    → timer ≢ null
    → old ≢ null
    → Reads timer dat old s
    → Ends
        (Sets r timer dat cb s)
        (cb ∷ timer ∷ [])
        []
        s
        (timer_start uv_timer_start timer cb timeout repeat s)
      × Ends (Sets q timer dat null s) (timer ∷ []) [] s (timer_stop uv_timer_stop timer s)
      × Moves [] [] s (timer_cb code timer s)
unfolding timer_start timer_stop timer_cb
timer_ownership uv_timer_start uv_timer_stop code timer cb old timeout repeat r q s starts stops
      consumes hi ho e =
    let hd = read-has timer dat old s.cells e in
    (
      store-Ends timer dat cb (uv_timer_start timer timeout repeat) r (timer ∷ []) s hd starts
          (hi, tt),
      reset-Ends timer dat (uv_timer_stop timer) q (timer ∷ []) s hd stops (hi, tt),
      multi_shot timer dat code s e ho hi consumes,
    )

-- The finalizer of an initialised timer releases its loop and its callback once each.
timer_finalize-Same :
    (timer l d : Ptr) (s : State)
    → l ≢ null
    → Reads timer loop l s
    → Reads timer dat d s
    → Ends (Same s) (l ∷ d ∷ []) [] s (timer_finalize timer s)
unfolding timer_finalize
timer_finalize-Same timer l d s hl el ed =
    get-at timer loop _ el (
      seq (decref-Same l s hl) λ _ t k _. weaken (drop-Same timer dat t (rw k ed)) λ _ u k'. k' ∙ k)

-- The finalizer faults on every timer that was made and never initialised: its loop is NULL.
timer_finalize-none :
    (timer : Ptr) (s : State) → Reads timer loop null s → timer_finalize timer s ≡ none
unfolding timer_finalize get decref
timer_finalize-none timer s e = rw (e, and_then, get)
