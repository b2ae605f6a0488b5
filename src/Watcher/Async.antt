-- ===== src/Watcher/Async.antt =====
-- src/async.c
use uv_mbt.Base.{ℤ, [], ◌∷◌}
use uv_mbt.Memory.{Ptr, loop, dat, M, ◌>>=◌, ◌>>◌, pure, get, incref, decref, make}
use uv_mbt.Memory.Idioms.{replace, clear}

unfoldable pub async_finalize : Ptr → M (Unit {0})
async_finalize async = do clear async loop; clear async dat

unfoldable pub async_set_data : Ptr → Ptr → M (Unit {0})
async_set_data async d = replace async dat d

-- `fresh` is the address of the new object
unfoldable pub async_make : (fresh : Ptr) → M Ptr
async_make fresh = make fresh (loop ∷ dat ∷ [])

unfoldable pub async_cb : (code : Ptr → Ptr → M (Unit {0})) → (async : Ptr) → M (Unit {0})
async_cb code async = do cb ← get async dat; incref cb; incref async; code cb async

unfoldable pub async_init : (uv_async_init : Ptr → Ptr → M ℤ) → (l async cb : Ptr) → M ℤ
unfolding async_set_data
async_init uv_async_init l async cb = do
  async_set_data async cb
  status ← uv_async_init l async
  decref async
  pure status

unfoldable pub async_send : (uv_async_send : Ptr → M ℤ) → (async : Ptr) → M ℤ
async_send uv_async_send async = uv_async_send async
