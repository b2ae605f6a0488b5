-- ===== src/Stream/Shutdown.antt =====
-- src/shutdown.c
use uv_mbt.Base.{ℤ, ◌≢◌, [], ◌∷◌, arith}
use uv_mbt.Memory.{Ptr, null, dat, State, M, ◌>>=◌, ◌>>◌, pure, decref, make}
use uv_mbt.Memory.Cells.{read-has}
use uv_mbt.Memory.Idioms.{replace, drop, take, Sets, Answers, Consumes, drop-Same}
use uv_mbt.Memory.Ledger.{Ends, Moves}
use uv_mbt.Memory.Rules.{Reads, Same, settle}
use uv_mbt.Memory.Shapes.{store-Ends, one_shot}

unfoldable pub shutdown_finalize : Ptr → M (Unit {0})
shutdown_finalize req = drop req dat

-- `fresh` is the address of the new object
unfoldable pub shutdown_make : (fresh : Ptr) → M Ptr
shutdown_make fresh = make fresh (dat ∷ [])

unfoldable pub shutdown_cb :
    (code : Ptr → Ptr → ℤ → M (Unit {0})) → (req : Ptr) → (status : ℤ) → M (Unit {0})
shutdown_cb code req status = do on_shutdown ← take req dat; code on_shutdown req status

unfoldable pub shutdown : (uv_shutdown : Ptr → Ptr → M ℤ) → (req handle on_shutdown : Ptr) → M ℤ
shutdown uv_shutdown req handle on_shutdown = do
  replace req dat on_shutdown
  status ← uv_shutdown req handle
  decref handle
  pure status

-- Where `uv_shutdown` answers `r` and touches neither fields nor counts, and the MoonBit code takes
-- over the two references that it is passed: the request stores the callback, releases the one it
-- held and the stream, and stays with libuv; the callback moves the closure and libuv's reference
-- to the request into the MoonBit code; the finalizer releases the callback.
shutdown_ownership :
    (uv_shutdown : Ptr → Ptr → M ℤ) (code : Ptr → Ptr → ℤ → M (Unit {0}))
    (req handle on_shutdown old : Ptr) (r status : ℤ) (s : State)
    → Answers r (uv_shutdown req handle)
    → Consumes (old ∷ req ∷ []) [] (code old req status)
    → handle ≢ null
    → Reads req dat old s
    → Ends
        (Sets r req dat on_shutdown s)
        (on_shutdown ∷ handle ∷ req ∷ [])
        (req ∷ [])
        s
        (shutdown uv_shutdown req handle on_shutdown s)
      × Moves (req ∷ []) [] s (shutdown_cb code req status s)
      × Ends (Same s) (old ∷ []) [] s (shutdown_finalize req s)
unfolding shutdown shutdown_cb shutdown_finalize
shutdown_ownership uv_shutdown code req handle on_shutdown old r status s answers consumes hh e = (
  settle
      (store-Ends req dat on_shutdown (uv_shutdown req handle) r (handle ∷ []) s
        (read-has req dat old s.cells e) answers (hh, tt))
      (λ p i. omega arith),
  one_shot req dat (λ c o. code c o status) s e consumes,
  drop-Same req dat s e,
)
