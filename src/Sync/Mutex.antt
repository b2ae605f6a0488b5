-- ===== src/Sync/Mutex.antt =====
-- src/mutex.c
use uv_mbt.Base.{ℤ, Option, []}
use uv_mbt.Memory.{Ptr, M, make}
use uv_mbt.Shared.{Block}
use uv_mbt.Sync.{init_handle, copy_handle, end_handle, call_quietly, call_answered}

-- `fresh` is the address of the new object
unfoldable pub mutex_make : (fresh : Ptr) → M Ptr
mutex_make fresh = make fresh []

unfoldable pub mutex_init : (uv_mutex_init : M ℤ) → (mutex : Ptr) → M (ℤ × Option Block)
unfolding init_handle
mutex_init uv_mutex_init mutex = init_handle uv_mutex_init mutex

unfoldable pub mutex_copy : (b : Block) → (self other : Ptr) → M Block
unfolding copy_handle
mutex_copy b self other = copy_handle b self other

unfoldable pub mutex_finalize : Option Block → Option (Option Block)
unfolding end_handle
mutex_finalize block = end_handle block

unfoldable pub mutex_lock :
    (uv_mutex_lock : M (Unit {0})) → (b : Block) → (mutex : Ptr) → M (Unit {0})
unfolding call_quietly
mutex_lock uv_mutex_lock b mutex = call_quietly uv_mutex_lock b mutex

unfoldable pub mutex_trylock : (uv_mutex_trylock : M ℤ) → (b : Block) → (mutex : Ptr) → M ℤ
unfolding call_answered
mutex_trylock uv_mutex_trylock b mutex = call_answered uv_mutex_trylock b mutex

unfoldable pub mutex_unlock :
    (uv_mutex_unlock : M (Unit {0})) → (b : Block) → (mutex : Ptr) → M (Unit {0})
unfolding call_quietly
mutex_unlock uv_mutex_unlock b mutex = call_quietly uv_mutex_unlock b mutex
