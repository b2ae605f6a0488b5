-- ===== src/Stream/Writing.antt =====
-- The requests of src/write.c. A request owns a record, which owns the callback and the buffers.
use uv_mbt.Base.{ℤ, ◌≡◌, List, [], ◌∷◌, arith}
use uv_mbt.Memory.{Ptr, dat, cb, bufs, State, M, ◌>>=◌, ◌>>◌, pure, get, put, decref, make, write}
use uv_mbt.Memory.Cells.{read-has}
use uv_mbt.Memory.Idioms.{replace, drop, take, Answers, Consumes, drop-Same}
use uv_mbt.Memory.Ledger.{Ends, Moves}
use uv_mbt.Memory.Rules.{Has, Reads, Same, settle}
use uv_mbt.Memory.Shapes.{NotNull, drop_both-Same}
use uv_mbt.Stream.Arrays.{RefArray, IntArray, init_bufs, Covers, zip_bufs, init_bufs-then}
use uv_mbt.Stream.Requests.{filled, request-Ends, request_cb-Moves}
use uv_mbt.Stream.Reading.{Buf}

unfoldable pub write_finalize : Ptr → M (Unit {0})
write_finalize req = drop req dat

-- `fresh` is the address of the new object
unfoldable pub write_make : (fresh : Ptr) → M Ptr
write_make fresh = make fresh (dat ∷ [])

unfoldable pub write_cb :
    (code : Ptr → Ptr → ℤ → M (Unit {0})) → (req : Ptr) → (status : ℤ) → M (Unit {0})
write_cb code req status = do d ← get req dat; on_write ← take d cb; code on_write req status

unfoldable pub write_data_finalize : Ptr → M (Unit {0})
write_data_finalize d = do drop d bufs; drop d cb

unfoldable pub write_data_make : (fresh : Ptr) → M Ptr
write_data_make fresh = make fresh (cb ∷ bufs ∷ [])

unfoldable pub write_set_data : (req d : Ptr) → M (Unit {0})
write_set_data req d = replace req dat d

-- `moonbit_uv_write`. The C array of buffers is freed at the end, and is not modelled beyond that.
unfoldable pub write_stream :
    (uv_write : Ptr → Ptr → List Buf → M ℤ)
    → (fresh req handle : Ptr) → (arrays : RefArray) → (offsets lengths : IntArray)
    → (on_write : Ptr) → M ℤ
unfolding write_data_make write_set_data
write_stream uv_write fresh req handle arrays offsets lengths on_write = do
  bufs_data ← init_bufs arrays offsets lengths
  d ← write_data_make fresh
  put d bufs arrays.address
  put d cb on_write
  write_set_data req d
  result ← uv_write req handle bufs_data
  decref handle
  decref offsets.address
  decref lengths.address
  pure result

-- `moonbit_uv_write2`, which also sends a handle
unfoldable pub write2_stream :
    (uv_write2 : Ptr → Ptr → List Buf → Ptr → M ℤ)
    → (fresh req handle : Ptr) → (arrays : RefArray) → (offsets lengths : IntArray)
    → (send_handle on_write : Ptr) → M ℤ
unfolding write_data_make write_set_data
write2_stream uv_write2 fresh req handle arrays offsets lengths send_handle on_write = do
  bufs_data ← init_bufs arrays offsets lengths
  d ← write_data_make fresh
  put d bufs arrays.address
  put d cb on_write
  write_set_data req d
  result ← uv_write2 req handle bufs_data send_handle
  decref handle
  decref offsets.address
  decref lengths.address
  decref send_handle
  pure result

-- Where the arrays of offsets and lengths are long enough, and `uv_write` answers `r` and touches
-- neither fields nor counts: a write makes one record, which owns the callback and the buffers and
-- which the request owns, releases what the request owned before, the stream and the two arrays,
-- writes nothing else, and returns libuv's answer; the reference to the request stays with libuv,
-- and the callback moves it, with the closure, into the MoonBit code.
pub write_ownership :
    (uv_write : Ptr → Ptr → List Buf → M ℤ) (code : Ptr → Ptr → ℤ → M (Unit {0}))
    (fresh req handle on_write d c : Ptr) (arrays : RefArray) (offsets lengths : IntArray)
    (r status : ℤ) (s : State)
    → Covers arrays.items offsets.items lengths.items
    → Answers r (uv_write req handle (zip_bufs arrays.items offsets.items lengths.items))
    → Consumes (c ∷ req ∷ []) [] (code c req status)
    → NotNull (handle ∷ offsets.address ∷ lengths.address ∷ [])
    → Reads req dat d s
    → Reads d cb c s
    → Ends
        (λ x t. (x ≡ r) × (t.cells ≡ write req dat fresh (filled fresh arrays.address on_write s)))
        (arrays.address ∷ on_write ∷ handle ∷ offsets.address ∷ lengths.address ∷ req ∷ [])
        (req ∷ [])
        s
        (write_stream uv_write fresh req handle arrays offsets lengths on_write s)
      × Moves (req ∷ []) [] s (write_cb code req status s)
unfolding write_stream write_cb
write_ownership uv_write code fresh req handle on_write d c arrays offsets lengths r status s long
      answers consumes nn ed ec =
    (
      settle
          (init_bufs-then arrays offsets lengths _ long (
            request-Ends (uv_write req handle (zip_bufs arrays.items offsets.items lengths.items))
              fresh req arrays.address on_write r (handle ∷ offsets.address ∷ lengths.address ∷ [])
              s answers nn (read-has req dat d s.cells ed)))
          (λ p i. omega arith),
      request_cb-Moves code req d c status s consumes ed ec,
    )

-- Sending a handle with a write also releases that handle, and is otherwise the same.
write2-Ends :
    (uv_write2 : Ptr → Ptr → List Buf → Ptr → M ℤ) (fresh req handle send_handle on_write : Ptr)
    (arrays : RefArray) (offsets lengths : IntArray) (r : ℤ) (s : State)
    → Covers arrays.items offsets.items lengths.items
    → Answers r
        (uv_write2 req handle (zip_bufs arrays.items offsets.items lengths.items) send_handle)
    → NotNull (handle ∷ offsets.address ∷ lengths.address ∷ send_handle ∷ [])
    → Has req dat s
    → Ends
        (λ x t. (x ≡ r) × (t.cells ≡ write req dat fresh (filled fresh arrays.address on_write s)))
        (arrays.address ∷ on_write ∷ handle ∷ offsets.address ∷ lengths.address ∷ send_handle ∷ [])
        []
        s
        (write2_stream uv_write2 fresh req handle arrays offsets lengths send_handle on_write s)
unfolding write2_stream
write2-Ends uv_write2 fresh req handle send_handle on_write arrays offsets lengths r s long answers
      nn h =
    init_bufs-then arrays offsets lengths _ long (
      request-Ends
        (uv_write2 req handle (zip_bufs arrays.items offsets.items lengths.items) send_handle) fresh
        req arrays.address on_write r
        (handle ∷ offsets.address ∷ lengths.address ∷ send_handle ∷ []) s answers nn h)

-- The ends of a request and of its record release what they own once each.
write_finalize-Same :
    (req d array c : Ptr) (s : State)
    → Reads req dat d s
    → Reads d bufs array s
    → Reads d cb c s
    → Ends (Same s) (d ∷ []) [] s (write_finalize req s)
      × Ends (Same s) (array ∷ c ∷ []) [] s (write_data_finalize d s)
unfolding write_finalize write_data_finalize
write_finalize-Same req d array c s ed ea ec =
    (drop-Same req dat s ed, drop_both-Same d bufs cb s ea ec)
