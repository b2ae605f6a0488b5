-- ===== src/Watcher/FsEvent.antt =====
-- src/fs_event.c
use uv_mbt.Base.{ℤ, ◌≢◌, [], ◌∷◌}
use uv_mbt.Memory.{Ptr, null, loop, dat, State, M, ◌>>=◌, ◌>>◌, pure, get, incref, decref, make}
use uv_mbt.Memory.Cells.{read-has}
use uv_mbt.Memory.Idioms.{replace, clear, Sets, Leaves, Answers, Consumes}
use uv_mbt.Memory.Ledger.{Ends, Moves}
use uv_mbt.Memory.Rules.{Has, Reads}
use uv_mbt.Memory.Shapes.{call-Ends, store-Ends, multi_shot, clear_both-Moves}

unfoldable pub fs_event_finalize : Ptr → M (Unit {0})
fs_event_finalize fs_event = do clear fs_event dat; clear fs_event loop

unfoldable pub fs_event_set_data : Ptr → Ptr → M (Unit {0})
fs_event_set_data fs_event d = replace fs_event dat d

-- `fresh` is the address of the new object
unfoldable pub fs_event_make : (fresh : Ptr) → M Ptr
fs_event_make fresh = make fresh (loop ∷ dat ∷ [])

unfoldable pub fs_event_init : (uv_fs_event_init : Ptr → Ptr → M ℤ) → (l handle : Ptr) → M ℤ
fs_event_init uv_fs_event_init l handle = uv_fs_event_init l handle

-- `filename` is a C string of libuv's
unfoldable pub fs_event_cb :
    (code : Ptr → Ptr → Ptr → ℤ → ℤ → M (Unit {0}))
    → (fs_event filename : Ptr) → (events status : ℤ) → M (Unit {0})
fs_event_cb code fs_event filename events status = do
  cb ← get fs_event dat
  incref cb
  incref fs_event
  code cb fs_event filename events status

unfoldable pub fs_event_start :
    (uv_fs_event_start : Ptr → Ptr → ℤ → M ℤ) → (handle cb path : Ptr) → (flags : ℤ) → M ℤ
unfolding fs_event_set_data
fs_event_start uv_fs_event_start handle cb path flags = do
  fs_event_set_data handle cb
  status ← uv_fs_event_start handle path flags
  decref handle
  decref path
  pure status

unfoldable pub fs_event_stop : (uv_fs_event_stop : Ptr → M ℤ) → (handle : Ptr) → M ℤ
fs_event_stop uv_fs_event_stop handle = do
  status ← uv_fs_event_stop handle
  decref handle
  pure status

-- Where libuv's two functions answer `r` and `q` and touch neither fields nor counts, and the
-- MoonBit code takes over the two references that it is passed: starting to watch stores the
-- callback and releases the old one, the handle and the path; stopping releases the handle and,
-- unlike the other watchers, leaves every field, the callback too; both return libuv's answer. The
-- callback and the finalizer lose and invent no reference.
fs_event_ownership :
    (uv_fs_event_start : Ptr → Ptr → ℤ → M ℤ) (uv_fs_event_stop : Ptr → M ℤ)
    (code : Ptr → Ptr → Ptr → ℤ → ℤ → M (Unit {0})) (handle cb path old filename : Ptr)
    (flags events status : ℤ) (r q : ℤ) (s : State)
    → Answers r (uv_fs_event_start handle path flags)
    → Answers q (uv_fs_event_stop handle)
    → Consumes (old ∷ handle ∷ []) [] (code old handle filename events status)
    → handle ≢ null
    → path ≢ null
    → old ≢ null
    → Has handle loop s
    → Reads handle dat old s
    → Ends
        (Sets r handle dat cb s)
        (cb ∷ handle ∷ path ∷ [])
        []
        s
        (fs_event_start uv_fs_event_start handle cb path flags s)
      × Ends (Leaves q s) (handle ∷ []) [] s (fs_event_stop uv_fs_event_stop handle s)
      × Moves [] [] s (fs_event_cb code handle filename events status s)
      × Moves [] [] s (fs_event_finalize handle s)
unfolding fs_event_start fs_event_stop fs_event_cb fs_event_finalize
fs_event_ownership uv_fs_event_start uv_fs_event_stop code handle cb path old filename flags events
      status r q s starts stops consumes hh hp ho hl e =
    let hd = read-has handle dat old s.cells e in
    (
      store-Ends handle dat cb (uv_fs_event_start handle path flags) r (handle ∷ path ∷ []) s hd
          starts (hh, (hp, tt)),
      call-Ends (uv_fs_event_stop handle) q (handle ∷ []) s stops (hh, tt),
      multi_shot handle dat (λ c h. code c h filename events status) s e ho hh consumes,
      clear_both-Moves handle dat loop s hd hl,
    )
