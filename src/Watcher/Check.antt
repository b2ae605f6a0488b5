-- ===== src/Watcher/Check.antt =====
-- src/check.c
use uv_mbt.Base.{ℤ, ◌≢◌, [], ◌∷◌}
use uv_mbt.Memory.{Ptr, null, loop, dat, State, M, ◌>>=◌, ◌>>◌, pure, get, incref, decref, make}
use uv_mbt.Memory.Cells.{read-has}
use uv_mbt.Memory.Idioms.{replace, clear, Sets, Answers, Consumes}
use uv_mbt.Memory.Ledger.{Ends, Moves}
use uv_mbt.Memory.Rules.{Has, Reads}
use uv_mbt.Memory.Shapes.{store-Ends, reset-Ends, multi_shot, clear_both-Moves}

unfoldable pub check_finalize : Ptr → M (Unit {0})
check_finalize check = do clear check loop; clear check dat

unfoldable pub check_set_data : Ptr → Ptr → M (Unit {0})
check_set_data check d = replace check dat d

-- `fresh` is the address of the new object
unfoldable pub check_make : (fresh : Ptr) → M Ptr
check_make fresh = make fresh (loop ∷ dat ∷ [])

unfoldable pub check_init : (uv_check_init : Ptr → Ptr → M ℤ) → (l check : Ptr) → M ℤ
check_init uv_check_init l check = uv_check_init l check

unfoldable pub check_cb : (code : Ptr → Ptr → M (Unit {0})) → (check : Ptr) → M (Unit {0})
check_cb code check = do cb ← get check dat; incref cb; incref check; code cb check

unfoldable pub check_start : (uv_check_start : Ptr → M ℤ) → (check cb : Ptr) → M ℤ
unfolding check_set_data
check_start uv_check_start check cb = do
  check_set_data check cb
  status ← uv_check_start check
  decref check
  pure status

unfoldable pub check_stop : (uv_check_stop : Ptr → M ℤ) → (check : Ptr) → M ℤ
unfolding check_set_data
check_stop uv_check_stop check = do
  check_set_data check null
  status ← uv_check_stop check
  decref check
  pure status

-- Where libuv's two functions answer `r` and `q` and touch neither fields nor counts, and the
-- MoonBit code takes over the two references that it is passed: starting the handle stores the
-- callback and releases the old one and the parameter, stopping it stores NULL, and both return
-- libuv's answer and write no other field; the callback and the finalizer lose and invent no
-- reference.
check_ownership :
    (uv_check_start uv_check_stop : Ptr → M ℤ) (code : Ptr → Ptr → M (Unit {0}))
    (check cb old : Ptr) (r q : ℤ) (s : State)
    → Answers r (uv_check_start check)
    → Answers q (uv_check_stop check)
    → Consumes (old ∷ check ∷ []) [] (code old check)
    → check ≢ null
    → old ≢ null
    → Has check loop s
    → Reads check dat old s
    → Ends (Sets r check dat cb s) (cb ∷ check ∷ []) [] s (check_start uv_check_start check cb s)
      × Ends (Sets q check dat null s) (check ∷ []) [] s (check_stop uv_check_stop check s)
      × Moves [] [] s (check_cb code check s)
      × Moves [] [] s (check_finalize check s)
unfolding check_start check_stop check_cb check_finalize
check_ownership uv_check_start uv_check_stop code check cb old r q s starts stops consumes hi ho hl
      e =
    let hd = read-has check dat old s.cells e in
    (
      store-Ends check dat cb (uv_check_start check) r (check ∷ []) s hd starts (hi, tt),
      reset-Ends check dat (uv_check_stop check) q (check ∷ []) s hd stops (hi, tt),
      multi_shot check dat code s e ho hi consumes,
      clear_both-Moves check loop dat s hl hd,
    )
