-- ===== src/Watcher/FsPoll.antt =====
-- src/fs_poll.c. The contents of the stat buffers are not modelled.
use uv_mbt.Base.{ℕ, ℤ, ◌≢◌, [], ◌∷◌, arith}
use uv_mbt.Memory.{
  ◌>>=◌, Ptr, null, loop, dat, State, M, ◌>>=◌, ◌>>◌, pure, get, incref, decref, make,
}
use uv_mbt.Memory.Cells.{read-has}
use uv_mbt.Memory.Idioms.{replace, clear, get-at, Sets, Leaves, Answers, Consumes}
use uv_mbt.Memory.Ledger.{Ends, Moves}
use uv_mbt.Memory.Rules.{Has, Reads, seq, settle, incref-Same, make-then}
use uv_mbt.Memory.Shapes.{call-Ends, store-Ends, clear_both-Moves}

unfoldable pub fs_poll_finalize : Ptr → M (Unit {0})
fs_poll_finalize fs_poll = do clear fs_poll dat; clear fs_poll loop

unfoldable pub fs_poll_set_data : Ptr → Ptr → M (Unit {0})
fs_poll_set_data fs_poll d = replace fs_poll dat d

-- `fresh` is the address of the new object
unfoldable pub fs_poll_make : (fresh : Ptr) → M Ptr
fs_poll_make fresh = make fresh (loop ∷ dat ∷ [])

unfoldable pub fs_poll_init : (uv_fs_poll_init : Ptr → Ptr → M ℤ) → (l handle : Ptr) → M ℤ
fs_poll_init uv_fs_poll_init l handle = uv_fs_poll_init l handle

-- `prev` and `curr` are the addresses of the two new buffers
unfoldable pub fs_poll_cb :
    (code : Ptr → Ptr → ℤ → Ptr → Ptr → M (Unit {0}))
    → (prev curr : Ptr) → (fs_poll : Ptr) → (status : ℤ) → M (Unit {0})
fs_poll_cb code prev curr fs_poll status = do
  cb ← get fs_poll dat
  incref cb
  incref fs_poll
  prev_stat ← make prev []
  curr_stat ← make curr []
  code cb fs_poll status prev_stat curr_stat

unfoldable pub fs_poll_start :
    (uv_fs_poll_start : Ptr → Ptr → ℕ → M ℤ) → (handle cb path : Ptr) → (interval : ℕ) → M ℤ
unfolding fs_poll_set_data
fs_poll_start uv_fs_poll_start handle cb path interval = do
  fs_poll_set_data handle cb
  status ← uv_fs_poll_start handle path interval
  decref handle
  decref path
  pure status

unfoldable pub fs_poll_stop : (uv_fs_poll_stop : Ptr → M ℤ) → (handle : Ptr) → M ℤ
fs_poll_stop uv_fs_poll_stop handle = do status ← uv_fs_poll_stop handle; decref handle; pure status

-- Where libuv's two functions answer `r` and `q` and touch neither fields nor counts, and the
-- MoonBit code takes over the four references that it is passed: starting to watch stores the
-- callback and releases the old one, the handle and the path; stopping releases the handle and
-- leaves every field; both return libuv's answer. The callback hands the two new buffers over, and
-- it and the finalizer lose and invent no reference.
fs_poll_ownership :
    (uv_fs_poll_start : Ptr → Ptr → ℕ → M ℤ) (uv_fs_poll_stop : Ptr → M ℤ)
    (code : Ptr → Ptr → ℤ → Ptr → Ptr → M (Unit {0})) (handle cb path old prev curr : Ptr)
    (interval : ℕ) (status : ℤ) (r q : ℤ) (s : State)
    → Answers r (uv_fs_poll_start handle path interval)
    → Answers q (uv_fs_poll_stop handle)
    → Consumes (old ∷ handle ∷ prev ∷ curr ∷ []) [] (code old handle status prev curr)
    → handle ≢ null
    → path ≢ null
    → old ≢ null
    → Has handle loop s
    → Reads handle dat old s
    → Ends
        (Sets r handle dat cb s)
        (cb ∷ handle ∷ path ∷ [])
        []
        s
        (fs_poll_start uv_fs_poll_start handle cb path interval s)
      × Ends (Leaves q s) (handle ∷ []) [] s (fs_poll_stop uv_fs_poll_stop handle s)
      × Moves [] [] s (fs_poll_cb code prev curr handle status s)
      × Moves [] [] s (fs_poll_finalize handle s)
unfolding fs_poll_start fs_poll_stop fs_poll_cb fs_poll_finalize
fs_poll_ownership uv_fs_poll_start uv_fs_poll_stop code handle cb path old prev curr interval status
      r q s starts stops consumes hh hp ho hl e =
    let hd = read-has handle dat old s.cells e in
    (
      store-Ends handle dat cb (uv_fs_poll_start handle path interval) r (handle ∷ path ∷ []) s hd
          starts (hh, (hp, tt)),
      call-Ends (uv_fs_poll_stop handle) q (handle ∷ []) s stops (hh, tt),
      get-at handle dat _ e (
          settle
            (seq (incref-Same old s ho) λ _ t _ _. seq (incref-Same handle t hh) λ _ u _ _.
              make-then prev [] (λ p. make curr [] >>= code old handle status p)
                λ v _ _. make-then curr [] (code old handle status prev) λ w _ _. consumes w)
            (λ p i. omega arith)),
      clear_both-Moves handle dat loop s hd hl,
    )
