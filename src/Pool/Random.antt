-- ===== src/Pool/Random.antt =====
-- src/random.c
use uv_mbt.Base.{ℕ, ℤ, ◌+◌, ◌-◌, ◌≡◌, inr, some, map, ◌++◌, List, [], ◌∷◌, arith}
use uv_mbt.Memory.{
  Ptr, null, Cell, loop, dat, cb, buffer, at, read, blank, write, State, M, ◌>>=◌, ◌>>◌, pure, get,
  put, decref, make,
}
use uv_mbt.Memory.Cells.{read-has, read-write_other}
use uv_mbt.Memory.Idioms.{replace, drop, clear, take, get-at, take-then, Sets, Answers, Consumes}
use uv_mbt.Memory.Ledger.{Ends, Moves}
use uv_mbt.Memory.Records.{recorded, record-Ends}
use uv_mbt.Memory.Rules.{Reads, settle}
use uv_mbt.Memory.Shapes.{reset-Ends, NotNull}

unfoldable pub random_data_finalize : Ptr → M (Unit {0})
random_data_finalize d = do drop d buffer; drop d cb

-- `fresh` is the address of the new object, here and below
unfoldable pub random_data_make : (fresh : Ptr) → M Ptr
random_data_make fresh = make fresh (buffer ∷ cb ∷ [])

-- `start` is the address of the first byte; `code` is given its offset in the buffer
unfoldable pub random_cb :
    (code : Ptr → Ptr → ℤ → Ptr → ℕ → ℕ → M (Unit {0}))
    → (req : Ptr) → (status : ℤ) → (start length : ℕ) → M (Unit {0})
random_cb code req status start length = do
  d ← get req dat
  on_random ← take d cb
  bytes ← take d buffer
  code on_random req status bytes (start - bytes) length

unfoldable pub random_finalize : Ptr → M (Unit {0})
random_finalize random = do drop random loop; clear random dat

unfoldable pub random_make : (fresh : Ptr) → M Ptr
random_make fresh = make fresh (loop ∷ dat ∷ [])

-- `moonbit_uv_random`
unfoldable pub random_fill :
    (uv_random : Ptr → Ptr → ℕ → ℤ → ℤ → M ℤ)
    → (fresh l random bytes : Ptr) → (offset : ℕ) → (length flags : ℤ) → (on_random : Ptr) → M ℤ
unfolding random_data_make
random_fill uv_random fresh l random bytes offset length flags on_random = do
  d ← random_data_make fresh
  put d buffer bytes
  put d cb on_random
  replace random dat d
  status ← uv_random l random (bytes + offset) length flags
  pure status

unfoldable pub random_sync :
    (uv_random : Ptr → Ptr → ℕ → ℤ → ℤ → M ℤ)
    → (l random bytes : Ptr) → (offset : ℕ) → (length flags : ℤ) → M ℤ
random_sync uv_random l random bytes offset length flags = do
  replace random dat null
  status ← uv_random l random (bytes + offset) length flags
  decref l
  decref random
  decref bytes
  pure status

blank_buffer :
    (fresh : Ptr) (cs : List Cell)
    → read fresh buffer (map (blank fresh) (buffer ∷ cb ∷ []) ++ cs) ≡ some null
unfolding read at
blank_buffer fresh cs = ground arith

blank_cb :
    (fresh : Ptr) (cs : List Cell)
    → read fresh cb (map (blank fresh) (buffer ∷ cb ∷ []) ++ cs) ≡ some null
unfolding read at
blank_cb fresh cs = ground arith

-- Where `uv_random` answers `r` and touches neither fields nor counts: a request for random bytes
-- that calls back makes one record, which owns the buffer and the closure and which the request
-- owns, releases what the request owned before, and leaves the references to the loop and the
-- request with libuv; one that waits stores NULL and releases the loop, the request and the buffer.
-- Both return libuv's answer and write nothing else.
random-Ends :
    (uv_random : Ptr → Ptr → ℕ → ℤ → ℤ → M ℤ) (fresh l random bytes on_random d : Ptr) (offset : ℕ)
    (length flags r : ℤ) (s : State)
    → Answers r (uv_random l random (bytes + offset) length flags)
    → NotNull (l ∷ random ∷ bytes ∷ [])
    → Reads random dat d s
    → Ends
        (λ x t.
          (x ≡ r)
          × (t.cells
              ≡ write random dat fresh
                  (recorded (buffer ∷ cb ∷ []) buffer cb fresh bytes on_random s)))
        (bytes ∷ on_random ∷ l ∷ random ∷ [])
        (l ∷ random ∷ [])
        s
        (random_fill uv_random fresh l random bytes offset length flags on_random s)
      × Ends
          (Sets r random dat null s)
          (l ∷ random ∷ bytes ∷ [])
          []
          s
          (random_sync uv_random l random bytes offset length flags s)
unfolding random_fill random_sync
random-Ends uv_random fresh l random bytes on_random d offset length flags r s answers nn e =
    let hd = read-has random dat d s.cells e in
    (
      settle
          (record-Ends (buffer ∷ cb ∷ []) buffer cb
            (uv_random l random (bytes + offset) length flags) fresh random bytes on_random r [] s
            blank_buffer blank_cb (omega arith) answers tt hd)
          (λ p i. omega arith),
      reset-Ends random dat (uv_random l random (bytes + offset) length flags) r
          (l ∷ random ∷ bytes ∷ []) s hd answers nn,
    )

offset_back : (b off : ℕ) → b + off - b ≡ off
offset_back b off = omega arith

-- The callback of such a request moves the closure, the buffer and libuv's reference to the request
-- into the MoonBit code, leaves NULL in the record, and counts the offset from the start of the
-- buffer.
random_cb-Moves :
    (code : Ptr → Ptr → ℤ → Ptr → ℕ → ℕ → M (Unit {0})) (req d c b : Ptr) (status : ℤ)
    (off length : ℕ) (s : State)
    → Consumes (c ∷ req ∷ b ∷ []) [] (code c req status b off length)
    → Reads req dat d s
    → Reads d cb c s
    → Reads d buffer b s
    → Moves (req ∷ []) [] s (random_cb code req status (b + off) length s)
unfolding random_cb
random_cb-Moves code req d c b status off length s consumes ed ec eb =
    let ran : (u : State)
        → Moves (c ∷ req ∷ b ∷ []) [] u (code c req status b (b + off - b) length u) =
      λ u. rw (offset_back b off) (consumes u) in
    get-at req dat _ ed (
      settle
        (take-then d cb _ ec λ t w _.
          let kept : Reads d buffer b t =
            rw (w, read-write_other d cb null d buffer s.cells (inr (omega arith))) eb in
          take-then d buffer _ kept λ u _ _. ran u)
        (λ p i. omega arith))
