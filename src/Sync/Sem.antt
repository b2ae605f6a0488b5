-- ===== src/Sync/Sem.antt =====
-- src/sem.c: the functions with the release of their parameters. `value` is what the semaphore starts with.
use uv_mbt.Base.{ℕ, ℤ, Option, []}
use uv_mbt.Memory.{Ptr, M, make}
use uv_mbt.Shared.{Block}
use uv_mbt.Sync.{init_handle, copy_handle, end_handle, call_quietly, call_answered}

-- `fresh` is the address of the new object
unfoldable pub sem_make : (fresh : Ptr) → M Ptr
sem_make fresh = make fresh []

unfoldable pub sem_start :
    (uv_sem_init : ℕ → M ℤ) → (sem : Ptr) → (value : ℕ) → M (ℤ × Option Block)
unfolding init_handle
sem_start uv_sem_init sem value = init_handle (uv_sem_init value) sem

unfoldable pub sem_share : (b : Block) → (self other : Ptr) → M Block
unfolding copy_handle
sem_share b self other = copy_handle b self other

unfoldable pub sem_finalize : Option Block → Option (Option Block)
unfolding end_handle
sem_finalize block = end_handle block

unfoldable pub sem_post : (uv_sem_post : M (Unit {0})) → (b : Block) → (sem : Ptr) → M (Unit {0})
unfolding call_quietly
sem_post uv_sem_post b sem = call_quietly uv_sem_post b sem

unfoldable pub sem_wait : (uv_sem_wait : M (Unit {0})) → (b : Block) → (sem : Ptr) → M (Unit {0})
unfolding call_quietly
sem_wait uv_sem_wait b sem = call_quietly uv_sem_wait b sem

unfoldable pub sem_trywait : (uv_sem_trywait : M ℤ) → (b : Block) → (sem : Ptr) → M ℤ
unfolding call_answered
sem_trywait uv_sem_trywait b sem = call_answered uv_sem_trywait b sem
