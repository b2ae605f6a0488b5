-- ===== src/Tests/Locks.antt =====
-- The theorems on locks at concrete inputs.
use uv_mbt.Base.{pos, ◌≡◌, refl, true, [], ◌∷◌, arith}
use uv_mbt.Memory.Idioms.{Leaves}
use uv_mbt.Memory.Ledger.{Ends}
use uv_mbt.Shared.{Block}
use uv_mbt.Sync.Guarded.{
  copied, used, ended, guarded_history, atomic_history, forget_mutex, history-agrees,
}
use uv_mbt.Sync.Releases.{await_until, perform, answer, perform-Ends}
use uv_mbt.Tests.Fixtures.{desk, done, done-Answers}

abbrev fresh_block : Block
fresh_block = record { arc = 1; is_initialised = true; is_allocated = true }

-- two handles, each of which ends
history-agrees_example :
    forget_mutex (
      guarded_history
        (copied ∷ used ∷ ended ∷ used ∷ ended ∷ [])
        (record { block = fresh_block; has_mutex = true }))
    ≡ atomic_history (copied ∷ used ∷ ended ∷ used ∷ ended ∷ []) fresh_block
history-agrees_example =
    history-agrees (copied ∷ used ∷ ended ∷ used ∷ ended ∷ [])
      (record { block = fresh_block; has_mutex = true }) refl

-- 7 is a condition, 8 a mutex
perform-Ends_example :
    Ends
      (Leaves (pos 0) desk)
      (7 ∷ 8 ∷ [])
      []
      desk
      (perform (await_until 100) done fresh_block fresh_block 7 8 desk)
unfolding answer
perform-Ends_example =
    perform-Ends (await_until 100) done (pos 0) fresh_block fresh_block 7 8 desk done-Answers
      (refl, refl) (refl, refl) (omega arith) (omega arith)
