-- ===== src/Sync/Cond.antt =====
-- src/cond.c. `b` is the block of the condition, `m` that of the mutex.
use uv_mbt.Base.{ℕ, ℤ, Option, []}
use uv_mbt.Memory.{Ptr, M, ◌>>=◌, ◌>>◌, pure, decref, make}
use uv_mbt.Shared.{Block}
use uv_mbt.Sync.{with_object, init_handle, copy_handle, end_handle, call_quietly}

-- `fresh` is the address of the new object
unfoldable pub cond_make : (fresh : Ptr) → M Ptr
cond_make fresh = make fresh []

unfoldable pub cond_init : (uv_cond_init : M ℤ) → (cond : Ptr) → M (ℤ × Option Block)
unfolding init_handle
cond_init uv_cond_init cond = init_handle uv_cond_init cond

unfoldable pub cond_copy : (b : Block) → (self other : Ptr) → M Block
unfolding copy_handle
cond_copy b self other = copy_handle b self other

unfoldable pub cond_finalize : Option Block → Option (Option Block)
unfolding end_handle
cond_finalize block = end_handle block

unfoldable pub cond_signal :
    (uv_cond_signal : M (Unit {0})) → (b : Block) → (cond : Ptr) → M (Unit {0})
unfolding call_quietly
cond_signal uv_cond_signal b cond = call_quietly uv_cond_signal b cond

unfoldable pub cond_broadcast :
    (uv_cond_broadcast : M (Unit {0})) → (b : Block) → (cond : Ptr) → M (Unit {0})
unfolding call_quietly
cond_broadcast uv_cond_broadcast b cond = call_quietly uv_cond_broadcast b cond

unfoldable pub cond_wait :
    (uv_cond_wait : M (Unit {0})) → (b m : Block) → (cond mutex : Ptr) → M (Unit {0})
unfolding with_object
cond_wait uv_cond_wait b m cond mutex = do
  with_object b (with_object m uv_cond_wait)
  decref cond
  decref mutex

unfoldable pub cond_timedwait :
    (uv_cond_timedwait : ℕ → M ℤ) → (b m : Block) → (cond mutex : Ptr) → (timeout : ℕ) → M ℤ
unfolding with_object
cond_timedwait uv_cond_timedwait b m cond mutex timeout = do
  status ← with_object b (with_object m (uv_cond_timedwait timeout))
  decref cond
  decref mutex
  pure status
