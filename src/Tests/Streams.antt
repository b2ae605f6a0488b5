-- ===== src/Tests/Streams.antt =====
-- The theorems on streams at concrete inputs.
use uv_mbt.Base.{pos, ◌≡◌, refl, List, [], ◌∷◌, some, length, arith}
use uv_mbt.Memory.{dat, read, at, write}
use uv_mbt.Memory.Cells.{has}
use uv_mbt.Memory.Ledger.{Ends, Moves}
use uv_mbt.Stream.Arrays.{buffers, buffers-get_elem, get_elem?}
use uv_mbt.Stream.Reading.{Buf, read_start}
use uv_mbt.Stream.Reading.Control.{filled as read_filled, read_start-Ends}
use uv_mbt.Stream.Requests.{filled}
use uv_mbt.Stream.Writing.{write_stream, write_cb, write_ownership}
use uv_mbt.Tests.Fixtures.{
  desk, done, done-Answers, swallow, swallow-Consumes, two_bytes, two_offsets, two_lengths,
}

write_ownership_example :
    Ends
      (λ x t. (x ≡ pos 0) × (t.cells ≡ write 30 dat 70 (filled 70 50 6 desk)))
      (50 ∷ 6 ∷ 9 ∷ 51 ∷ 52 ∷ 30 ∷ [])
      (30 ∷ [])
      desk
      (write_stream (λ q h bs. done) 70 30 9 two_bytes two_offsets two_lengths 6 desk)
    × Moves (30 ∷ []) [] desk (write_cb (λ c q st. swallow (c ∷ q ∷ [])) 30 (pos 0) desk)
unfolding read at
write_ownership_example =
    write_ownership (λ q h bs. done) (λ c q st. swallow (c ∷ q ∷ [])) 70 30 9 6 31 32 two_bytes
      two_offsets two_lengths (pos 0) (pos 0) desk (omega arith, omega arith) done-Answers
      (swallow-Consumes (32 ∷ 30 ∷ []) (omega arith, (omega arith, tt)))
      (omega arith, (omega arith, (omega arith, tt))) refl refl

buffers-get_elem_example :
    (out : List Buf) × (buffers (200 ∷ 300 ∷ []) (1 ∷ 2 ∷ []) (10 ∷ 20 ∷ []) ≡ some out)
    × (length out ≡ 2)
    × (get_elem? out 1 ≡ some (record { base = 302; len = 20 }))
buffers-get_elem_example =
    buffers-get_elem (200 ∷ 300 ∷ []) (1 ∷ 2 ∷ []) (10 ∷ 20 ∷ []) 1 (omega arith, omega arith) refl
      refl refl

read_start-Ends_example :
    Ends
      (λ x t. (x ≡ pos 0) × (t.cells ≡ write 9 dat 70 (read_filled 70 71 72 desk)))
      (72 ∷ 71 ∷ 9 ∷ [])
      []
      desk
      (read_start (λ h. done) 70 9 71 72 desk)
unfolding read at has
read_start-Ends_example =
    read_start-Ends (λ h. done) 70 9 71 72 (pos 0) desk done-Answers (omega arith) refl
