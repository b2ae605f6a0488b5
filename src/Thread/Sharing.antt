-- ===== src/Thread/Sharing.antt =====
-- src/thread.c: how long the block of a thread lives that several handles share.
use uv_mbt.Base.{
  ℕ, ◌+◌, ◌^◌, ◌<◌, ◌≡◌, refl, ap, ◌∙◌, zero, suc, true, Option, none, some, List, [], ◌∷◌, arith,
  length,
}
use mathlib.Core.Option.{bind, some-injective}
use uv_mbt.Shared.{more_than_one}
use uv_mbt.Thread.{ThreadBlock, thread_finalize, count_copy}

-- what happens to one of the handles of a block
pub data Event : Type 0 where
  copied : Event
  ended : Event

-- one event; a fault stays one
unfoldable pub happen : Event → Option ThreadBlock → Option (Option ThreadBlock)
unfolding count_copy
happen copied none = none
happen copied (some b) = elim (count_copy b) [ none ↦ none | some c ↦ some (some c) ]
happen ended b = thread_finalize b

-- what is left of a block
unfoldable pub block_history : List Event → Option ThreadBlock → Option (Option ThreadBlock)
block_history [] b = some b
block_history (e ∷ es) b = bind (happen e b) (block_history es)

-- the handles that are left: none can be copied or ended when there is none
unfoldable pub handles_left : List Event → ℕ → Option ℕ
handles_left [] n = some n
handles_left (e ∷ es) zero = none
handles_left (copied ∷ es) (suc n) = handles_left es (suc (suc n))
handles_left (ended ∷ es) (suc n) = handles_left es n

-- the block of a number of handles
unfoldable pub block_of : ℕ → Option ThreadBlock
block_of zero = none
block_of (suc n) = some (record { arc = suc n; has_mutex = true })

happen-copied :
    (n : ℕ) → n + 2 < 2 ^ 31 → happen copied (block_of (suc n)) ≡ some (block_of (suc (suc n)))
unfolding happen block_of count_copy
happen-copied n h = ground arith

happen-ended : (n : ℕ) → n + 1 < 2 ^ 31 → happen ended (block_of (suc n)) ≡ some (block_of n)
unfolding happen block_of thread_finalize more_than_one
happen-ended zero h = refl
happen-ended (suc n) h = ground arith

block_history-next :
    (e : Event) (es : List Event) (b c : Option ThreadBlock)
    → happen e b ≡ some c
    → block_history (e ∷ es) b ≡ block_history es c
unfolding block_history bind
block_history-next e es b c h = ap (λ r. bind r (block_history es)) h

-- Handles of a thread that are copied and ended in any order, one after the other, where only a handle
-- that is there is copied or ended and there are fewer than 2^31 handles and events at the start: no
-- mutex is used that is not there, the count of the block is the number of handles that are left, and
-- the block is freed exactly when there is none.
pub block_history-handles_left :
    (es : List Event) (m n : ℕ)
    → m + length es < 2 ^ 31
    → handles_left es m ≡ some n
    → block_history es (block_of m) ≡ some (block_of n)
unfolding handles_left block_history
block_history-handles_left [] m n h e = ap (λ (k : ℕ). some (block_of k)) (some-injective m n e)
block_history-handles_left (e ∷ es) zero n h q = ground arith
block_history-handles_left (copied ∷ es) (suc m) n h q =
    block_history-next copied es (block_of (suc m)) (block_of (suc (suc m)))
      (happen-copied m (omega arith))
    ∙ (block_history-handles_left es (suc (suc m)) n (omega arith) q)
block_history-handles_left (ended ∷ es) (suc m) n h q =
    block_history-next ended es (block_of (suc m)) (block_of m) (happen-ended m (omega arith))
    ∙ (block_history-handles_left es m n (omega arith) q)
