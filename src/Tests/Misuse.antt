-- ===== src/Tests/Misuse.antt =====
-- The theorems on references that are lost or released once more, at concrete inputs.
use uv_mbt.Base.{pos, refl, [], ◌∷◌, arith}
use uv_mbt.Memory.{dat, read, at}
use uv_mbt.Memory.Cells.{has}
use uv_mbt.Memory.Idioms.{Sets}
use uv_mbt.Memory.Ledger.{Ends, Moves}
use uv_mbt.Stream.Reading.{listen}
use uv_mbt.Stream.Reading.Control.{listen-Ends}
use uv_mbt.Tests.Fixtures.{
  desk, done, done-Answers, nothing, nothing-IsQuiet, enter, enter-Starts, swallow,
  swallow-Consumes, swallow-Steady,
}
use uv_mbt.Watcher.Overdrawn.{async_session, async_session-Moves}

async_session-Moves_example : Moves (1 ∷ 6 ∷ 3 ∷ 8 ∷ 8 ∷ 8 ∷ []) [] desk (
    async_session enter
      (λ t. nothing)
      (λ c t. swallow (c ∷ t ∷ []))
      (λ c. swallow (c ∷ []))
      1
      8
      6
      3
      2
      desk)
unfolding read at has
async_session-Moves_example =
    async_session-Moves enter (λ t. nothing) (λ c t. swallow (c ∷ t ∷ [])) (λ c. swallow (c ∷ [])) 1
      8 6 3 (pos 0) 2 desk (enter-Starts 1 8) nothing-IsQuiet
      (swallow-Steady 8 6 (omega arith, (omega arith, tt)))
      (swallow-Consumes (3 ∷ []) (omega arith, tt)) (omega arith) (omega arith) refl refl

listen-Ends_example :
    Ends
      (Sets (pos 0) 7 dat 6 desk)
      (6 ∷ 7 ∷ [])
      (5 ∷ [])
      desk
      (listen (λ t n. done) 7 (pos 128) 6 desk)
unfolding read at
listen-Ends_example =
    listen-Ends (λ t n. done) 7 6 5 (pos 128) (pos 0) desk done-Answers (omega arith) refl
