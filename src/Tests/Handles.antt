-- ===== src/Tests/Handles.antt =====
-- The theorems on handles at concrete inputs.
use uv_mbt.Base.{pos, refl, [], ◌∷◌, arith}
use uv_mbt.Memory.{read, at}
use uv_mbt.Memory.Cells.{has}
use uv_mbt.Memory.Ledger.{Moves}
use uv_mbt.Tests.Fixtures.{
  desk, done, done-Answers, nothing, nothing-IsQuiet, enter, enter-Starts, swallow,
  swallow-Consumes, swallow-Steady,
}
use uv_mbt.Watcher.Lives.{timer_ops, timer_session}
use uv_mbt.Watcher.Session.{session}

timer_session_example : Moves (1 ∷ 8 ∷ 6 ∷ 8 ∷ 8 ∷ 3 ∷ 8 ∷ []) [] desk (
    session
      (timer_ops enter (λ t m n. done) (λ t. done) (λ c t. swallow (c ∷ t ∷ [])) 1 8 6 100 0)
      (λ t. nothing)
      (λ c. swallow (c ∷ []))
      8
      3
      2
      desk)
unfolding read at has
timer_session_example =
    timer_session enter (λ t m n. done) (λ t. done) (λ t. nothing) (λ c t. swallow (c ∷ t ∷ []))
      (λ c. swallow (c ∷ [])) 1 8 6 3 100 0 (pos 0) (pos 0) (pos 0) 2 desk (enter-Starts 1 8)
      done-Answers done-Answers nothing-IsQuiet
      (swallow-Steady 8 6 (omega arith, (omega arith, tt)))
      (swallow-Consumes (3 ∷ []) (omega arith, tt)) (omega arith) (omega arith) refl refl
