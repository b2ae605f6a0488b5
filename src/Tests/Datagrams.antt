-- ===== src/Tests/Datagrams.antt =====
-- The theorems on datagrams at concrete inputs.
use uv_mbt.Base.{pos, ◌≡◌, refl, [], ◌∷◌, arith}
use uv_mbt.Memory.{dat, read, at, write}
use uv_mbt.Memory.Idioms.{Leaves}
use uv_mbt.Memory.Ledger.{Ends, Moves}
use uv_mbt.Stream.Requests.{filled}
use uv_mbt.Stream.Udp.{udp_send, udp_send_cb}
use uv_mbt.Stream.Udp.Sending.{udp_send_ownership}
use uv_mbt.Stream.Udp.Batch.{udp_try_send2, udp_try_send2-Ends}
use uv_mbt.Tests.Fixtures.{
  desk, done, done-Answers, swallow, swallow-Consumes, two_bytes, two_offsets, two_lengths,
}

udp_send_ownership_example :
    Ends
      (λ x t. (x ≡ pos 0) × (t.cells ≡ write 30 dat 70 (filled 70 50 6 desk)))
      (50 ∷ 6 ∷ 51 ∷ 52 ∷ 44 ∷ 9 ∷ 30 ∷ [])
      (30 ∷ [])
      desk
      (udp_send (λ q h bs a. done) 70 30 9 two_bytes two_offsets two_lengths 44 6 desk)
    × Moves (30 ∷ []) [] desk (udp_send_cb (λ c q st. swallow (c ∷ q ∷ [])) 30 (pos 0) desk)
unfolding read at
udp_send_ownership_example =
    udp_send_ownership (λ q h bs a. done) (λ c q st. swallow (c ∷ q ∷ [])) 70 30 9 44 6 31 32
      two_bytes two_offsets two_lengths (pos 0) (pos 0) desk (omega arith, omega arith) done-Answers
      (swallow-Consumes (32 ∷ 30 ∷ []) (omega arith, (omega arith, tt)))
      (omega arith, (omega arith, (omega arith, (omega arith, tt)))) refl refl

-- two datagrams, of two buffers and of one
udp_try_send2-Ends_example : Ends (Leaves (pos 0) desk) (50 ∷ 51 ∷ 52 ∷ 53 ∷ 7 ∷ []) [] desk (
    udp_try_send2
      (λ udp bufs addrs flags. done)
      7
      (record { address = 50; items = (200 ∷ 300 ∷ []) ∷ (400 ∷ []) ∷ [] })
      (record { address = 51; items = (1 ∷ 2 ∷ []) ∷ (0 ∷ []) ∷ [] })
      (record { address = 52; items = (10 ∷ 20 ∷ []) ∷ (5 ∷ []) ∷ [] })
      53
      (pos 0)
      desk)
udp_try_send2-Ends_example =
    udp_try_send2-Ends (λ udp bufs addrs flags. done) 7
      (record { address = 50; items = (200 ∷ 300 ∷ []) ∷ (400 ∷ []) ∷ [] })
      (record { address = 51; items = (1 ∷ 2 ∷ []) ∷ (0 ∷ []) ∷ [] })
      (record { address = 52; items = (10 ∷ 20 ∷ []) ∷ (5 ∷ []) ∷ [] }) 53 (pos 0) (pos 0) desk
      ((omega arith, omega arith), ((omega arith, omega arith), tt)) done-Answers (omega arith)
      (omega arith) (omega arith) (omega arith) (omega arith)
