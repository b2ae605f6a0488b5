-- ===== src/Watcher/Prepare.antt =====
-- src/prepare.c
use uv_mbt.Base.{ℤ, ◌≢◌, [], ◌∷◌}
use uv_mbt.Memory.{Ptr, null, loop, dat, State, M, ◌>>=◌, ◌>>◌, pure, get, incref, decref, make}
use uv_mbt.Memory.Cells.{read-has}
use uv_mbt.Memory.Idioms.{replace, clear, Sets, Answers, Consumes}
use uv_mbt.Memory.Ledger.{Ends, Moves}
use uv_mbt.Memory.Rules.{Has, Reads}
use uv_mbt.Memory.Shapes.{store-Ends, reset-Ends, multi_shot, clear_both-Moves}

unfoldable pub prepare_finalize : Ptr → M (Unit {0})
prepare_finalize prepare = do clear prepare loop; clear prepare dat

unfoldable pub prepare_set_data : Ptr → Ptr → M (Unit {0})
prepare_set_data prepare d = replace prepare dat d

-- `fresh` is the address of the new object
unfoldable pub prepare_make : (fresh : Ptr) → M Ptr
prepare_make fresh = make fresh (loop ∷ dat ∷ [])

unfoldable pub prepare_init : (uv_prepare_init : Ptr → Ptr → M ℤ) → (l prepare : Ptr) → M ℤ
prepare_init uv_prepare_init l prepare = uv_prepare_init l prepare

unfoldable pub prepare_cb : (code : Ptr → Ptr → M (Unit {0})) → (prepare : Ptr) → M (Unit {0})
prepare_cb code prepare = do cb ← get prepare dat; incref cb; incref prepare; code cb prepare

unfoldable pub prepare_start : (uv_prepare_start : Ptr → M ℤ) → (prepare cb : Ptr) → M ℤ
unfolding prepare_set_data
prepare_start uv_prepare_start prepare cb = do
  prepare_set_data prepare cb
  status ← uv_prepare_start prepare
  decref prepare
  pure status

unfoldable pub prepare_stop : (uv_prepare_stop : Ptr → M ℤ) → (prepare : Ptr) → M ℤ
unfolding prepare_set_data
prepare_stop uv_prepare_stop prepare = do
  prepare_set_data prepare null
  status ← uv_prepare_stop prepare
  decref prepare
  pure status

-- Where libuv's two functions answer `r` and `q` and touch neither fields nor counts, and the
-- MoonBit code takes over the two references that it is passed: starting the handle stores the
-- callback and releases the old one and the parameter, stopping it stores NULL, and both return
-- libuv's answer and write no other field; the callback and the finalizer lose and invent no
-- reference.
prepare_ownership :
    (uv_prepare_start uv_prepare_stop : Ptr → M ℤ) (code : Ptr → Ptr → M (Unit {0}))
    (prepare cb old : Ptr) (r q : ℤ) (s : State)
    → Answers r (uv_prepare_start prepare)
    → Answers q (uv_prepare_stop prepare)
    → Consumes (old ∷ prepare ∷ []) [] (code old prepare)
    → prepare ≢ null
    → old ≢ null
    → Has prepare loop s
    → Reads prepare dat old s
    → Ends
        (Sets r prepare dat cb s)
        (cb ∷ prepare ∷ [])
        []
        s
        (prepare_start uv_prepare_start prepare cb s)
      × Ends
          (Sets q prepare dat null s)
          (prepare ∷ [])
          []
          s
          (prepare_stop uv_prepare_stop prepare s)
      × Moves [] [] s (prepare_cb code prepare s)
      × Moves [] [] s (prepare_finalize prepare s)
unfolding prepare_start prepare_stop prepare_cb prepare_finalize
prepare_ownership uv_prepare_start uv_prepare_stop code prepare cb old r q s starts stops consumes
      hi ho hl e =
    let hd = read-has prepare dat old s.cells e in
    (
      store-Ends prepare dat cb (uv_prepare_start prepare) r (prepare ∷ []) s hd starts (hi, tt),
      reset-Ends prepare dat (uv_prepare_stop prepare) q (prepare ∷ []) s hd stops (hi, tt),
      multi_shot prepare dat code s e ho hi consumes,
      clear_both-Moves prepare loop dat s hl hd,
    )
