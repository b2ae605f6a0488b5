-- ===== src/Fs/Request.antt =====
-- The request object of src/fs.c: its fields, its callback and its end, and how libuv is called.
use uv_mbt.Base.{ℕ, ℤ, [], ◌∷◌}
use uv_mbt.Memory.{Ptr, loop, dat, bufs_base, M, ◌>>=◌, ◌>>◌, pure, decref, make}
use uv_mbt.Memory.Idioms.{replace, clear, take}

-- the bits of a `double`, which are passed on unread
abbrev pub Double : Type 0
Double = ℕ

-- is libuv given the callback, or NULL?
pub data Completion : Type 0 where
  calls_back waits : Completion

unfoldable pub fs_cb : (code : Ptr → Ptr → M (Unit {0})) → (fs : Ptr) → M (Unit {0})
fs_cb code fs = do cb ← take fs dat; code cb fs

unfoldable pub fs_finalize : Ptr → M (Unit {0})
fs_finalize fs = do clear fs loop; clear fs dat; clear fs bufs_base

-- `fresh` is the address of the new object
unfoldable pub fs_make : (fresh : Ptr) → M Ptr
fs_make fresh = make fresh (loop ∷ dat ∷ bufs_base ∷ [])

unfoldable pub fs_req_cleanup : (uv_fs_req_cleanup : Ptr → M (Unit {0})) → (fs : Ptr) → M (Unit {0})
fs_req_cleanup uv_fs_req_cleanup fs = do uv_fs_req_cleanup fs; decref fs

-- `result` reads the field that libuv sets
unfoldable pub fs_get_result : (result : Ptr → M ℤ) → (fs : Ptr) → M ℤ
fs_get_result result fs = do x ← result fs; decref fs; pure x

unfoldable pub fs_set_data : (fs cb : Ptr) → M (Unit {0})
fs_set_data fs cb = replace fs dat cb

unfoldable pub fs_set_bufs : (fs base : Ptr) → M (Unit {0})
fs_set_bufs fs base = replace fs bufs_base base
