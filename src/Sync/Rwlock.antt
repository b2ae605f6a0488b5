-- ===== src/Sync/Rwlock.antt =====
-- src/rwlock.c
use uv_mbt.Base.{ℤ, Option, []}
use uv_mbt.Memory.{Ptr, M, make}
use uv_mbt.Shared.{Block}
use uv_mbt.Sync.{init_handle, copy_handle, end_handle, call_quietly, call_answered}

-- `fresh` is the address of the new object
unfoldable pub rwlock_make : (fresh : Ptr) → M Ptr
rwlock_make fresh = make fresh []

unfoldable pub rwlock_init : (uv_rwlock_init : M ℤ) → (rwlock : Ptr) → M (ℤ × Option Block)
unfolding init_handle
rwlock_init uv_rwlock_init rwlock = init_handle uv_rwlock_init rwlock

unfoldable pub rwlock_copy : (b : Block) → (self other : Ptr) → M Block
unfolding copy_handle
rwlock_copy b self other = copy_handle b self other

unfoldable pub rwlock_finalize : Option Block → Option (Option Block)
unfolding end_handle
rwlock_finalize block = end_handle block

unfoldable pub rwlock_rdlock :
    (uv_rwlock_rdlock : M (Unit {0})) → (b : Block) → (rwlock : Ptr) → M (Unit {0})
unfolding call_quietly
rwlock_rdlock uv_rwlock_rdlock b rwlock = call_quietly uv_rwlock_rdlock b rwlock

unfoldable pub rwlock_tryrdlock : (uv_rwlock_tryrdlock : M ℤ) → (b : Block) → (rwlock : Ptr) → M ℤ
unfolding call_answered
rwlock_tryrdlock uv_rwlock_tryrdlock b rwlock = call_answered uv_rwlock_tryrdlock b rwlock

unfoldable pub rwlock_rdunlock :
    (uv_rwlock_rdunlock : M (Unit {0})) → (b : Block) → (rwlock : Ptr) → M (Unit {0})
unfolding call_quietly
rwlock_rdunlock uv_rwlock_rdunlock b rwlock = call_quietly uv_rwlock_rdunlock b rwlock

unfoldable pub rwlock_wrlock :
    (uv_rwlock_wrlock : M (Unit {0})) → (b : Block) → (rwlock : Ptr) → M (Unit {0})
unfolding call_quietly
rwlock_wrlock uv_rwlock_wrlock b rwlock = call_quietly uv_rwlock_wrlock b rwlock

unfoldable pub rwlock_trywrlock : (uv_rwlock_trywrlock : M ℤ) → (b : Block) → (rwlock : Ptr) → M ℤ
unfolding call_answered
rwlock_trywrlock uv_rwlock_trywrlock b rwlock = call_answered uv_rwlock_trywrlock b rwlock

unfoldable pub rwlock_wrunlock :
    (uv_rwlock_wrunlock : M (Unit {0})) → (b : Block) → (rwlock : Ptr) → M (Unit {0})
unfolding call_quietly
rwlock_wrunlock uv_rwlock_wrunlock b rwlock = call_quietly uv_rwlock_wrunlock b rwlock
