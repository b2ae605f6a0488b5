-- ===== src/Watcher/Idle.antt =====
-- src/idle.c
use uv_mbt.Base.{ℤ, ◌≢◌, [], ◌∷◌}
use uv_mbt.Memory.{Ptr, null, loop, dat, State, M, ◌>>=◌, ◌>>◌, pure, get, incref, decref, make}
use uv_mbt.Memory.Cells.{read-has}
use uv_mbt.Memory.Idioms.{replace, clear, Sets, Answers, Consumes}
use uv_mbt.Memory.Ledger.{Ends, Moves}
use uv_mbt.Memory.Rules.{Has, Reads}
use uv_mbt.Memory.Shapes.{store-Ends, reset-Ends, multi_shot, clear_both-Moves}

unfoldable pub idle_finalize : Ptr → M (Unit {0})
idle_finalize idle = do clear idle loop; clear idle dat

unfoldable pub idle_set_data : Ptr → Ptr → M (Unit {0})
idle_set_data idle d = replace idle dat d

-- `fresh` is the address of the new object
unfoldable pub idle_make : (fresh : Ptr) → M Ptr
idle_make fresh = make fresh (loop ∷ dat ∷ [])

unfoldable pub idle_init : (uv_idle_init : Ptr → Ptr → M ℤ) → (l idle : Ptr) → M ℤ
idle_init uv_idle_init l idle = uv_idle_init l idle

unfoldable pub idle_cb : (code : Ptr → Ptr → M (Unit {0})) → (idle : Ptr) → M (Unit {0})
idle_cb code idle = do cb ← get idle dat; incref cb; incref idle; code cb idle

unfoldable pub idle_start : (uv_idle_start : Ptr → M ℤ) → (idle cb : Ptr) → M ℤ
unfolding idle_set_data
idle_start uv_idle_start idle cb = do
  idle_set_data idle cb
  status ← uv_idle_start idle
  decref idle
  pure status

unfoldable pub idle_stop : (uv_idle_stop : Ptr → M ℤ) → (idle : Ptr) → M ℤ
unfolding idle_set_data
idle_stop uv_idle_stop idle = do
  idle_set_data idle null
  status ← uv_idle_stop idle
  decref idle
  pure status

-- Where libuv's two functions answer `r` and `q` and touch neither fields nor counts, and the
-- MoonBit code takes over the two references that it is passed: starting the handle stores the
-- callback and releases the old one and the parameter, stopping it stores NULL, and both return
-- libuv's answer and write no other field; the callback and the finalizer lose and invent no
-- reference.
idle_ownership :
    (uv_idle_start uv_idle_stop : Ptr → M ℤ) (code : Ptr → Ptr → M (Unit {0})) (idle cb old : Ptr)
    (r q : ℤ) (s : State)
    → Answers r (uv_idle_start idle)
    → Answers q (uv_idle_stop idle)
    → Consumes (old ∷ idle ∷ []) [] (code old idle)
    → idle ≢ null
    → old ≢ null
    → Has idle loop s
    → Reads idle dat old s
    → Ends (Sets r idle dat cb s) (cb ∷ idle ∷ []) [] s (idle_start uv_idle_start idle cb s)
      × Ends (Sets q idle dat null s) (idle ∷ []) [] s (idle_stop uv_idle_stop idle s)
      × Moves [] [] s (idle_cb code idle s)
      × Moves [] [] s (idle_finalize idle s)
unfolding idle_start idle_stop idle_cb idle_finalize
idle_ownership uv_idle_start uv_idle_stop code idle cb old r q s starts stops consumes hi ho hl e =
    let hd = read-has idle dat old s.cells e in
    (
      store-Ends idle dat cb (uv_idle_start idle) r (idle ∷ []) s hd starts (hi, tt),
      reset-Ends idle dat (uv_idle_stop idle) q (idle ∷ []) s hd stops (hi, tt),
      multi_shot idle dat code s e ho hi consumes,
      clear_both-Moves idle loop dat s hl hd,
    )
