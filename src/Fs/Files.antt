-- ===== src/Fs/Files.antt =====
-- The requests of src/fs.c on an open file or directory.
use uv_mbt.Base.{ℕ, ℤ, ◌%◌, ◌^◌}
use uv_mbt.Memory.{Ptr, null, M, ◌>>=◌, ◌>>◌, pure, decref}
use uv_mbt.Fs.Request.{Double, Completion, calls_back, waits, fs_set_data}

unfoldable pub fs_close :
    (uv_fs_close : Ptr → Ptr → ℤ → Completion → M ℤ) → (l fs : Ptr) → (file : ℤ) → (cb : Ptr) → M ℤ
unfolding fs_set_data
fs_close uv_fs_close l fs file cb = do
  fs_set_data fs cb
  result ← uv_fs_close l fs file calls_back
  pure result

unfoldable pub fs_close_sync :
    (uv_fs_close : Ptr → Ptr → ℤ → Completion → M ℤ) → (l fs : Ptr) → (file : ℤ) → M ℤ
unfolding fs_set_data
fs_close_sync uv_fs_close l fs file = do
  fs_set_data fs null
  result ← uv_fs_close l fs file waits
  decref fs
  pure result

unfoldable pub fs_ftruncate :
    (uv_fs_ftruncate : Ptr → Ptr → ℤ → ℤ → Completion → M ℤ)
    → (l fs : Ptr) → (file offset : ℤ) → (cb : Ptr) → M ℤ
unfolding fs_set_data
fs_ftruncate uv_fs_ftruncate l fs file offset cb = do
  fs_set_data fs cb
  status ← uv_fs_ftruncate l fs file offset calls_back
  pure status

unfoldable pub fs_fsync :
    (uv_fs_fsync : Ptr → Ptr → ℤ → Completion → M ℤ) → (l fs : Ptr) → (file : ℤ) → (cb : Ptr) → M ℤ
unfolding fs_set_data
fs_fsync uv_fs_fsync l fs file cb = do
  fs_set_data fs cb
  status ← uv_fs_fsync l fs file calls_back
  pure status

unfoldable pub fs_fsync_sync :
    (uv_fs_fsync : Ptr → Ptr → ℤ → Completion → M ℤ) → (l fs : Ptr) → (file : ℤ) → M ℤ
unfolding fs_set_data
fs_fsync_sync uv_fs_fsync l fs file = do
  fs_set_data fs null
  status ← uv_fs_fsync l fs file waits
  decref fs
  pure status

unfoldable pub fs_fdatasync :
    (uv_fs_fdatasync : Ptr → Ptr → ℤ → Completion → M ℤ)
    → (l fs : Ptr) → (file : ℤ) → (cb : Ptr) → M ℤ
unfolding fs_set_data
fs_fdatasync uv_fs_fdatasync l fs file cb = do
  fs_set_data fs cb
  status ← uv_fs_fdatasync l fs file calls_back
  pure status

unfoldable pub fs_fdatasync_sync :
    (uv_fs_fdatasync : Ptr → Ptr → ℤ → Completion → M ℤ) → (l fs : Ptr) → (file : ℤ) → M ℤ
unfolding fs_set_data
fs_fdatasync_sync uv_fs_fdatasync l fs file = do
  fs_set_data fs null
  status ← uv_fs_fdatasync l fs file waits
  decref fs
  pure status

unfoldable pub fs_fstat :
    (uv_fs_fstat : Ptr → Ptr → ℤ → Completion → M ℤ) → (l fs : Ptr) → (file : ℤ) → (cb : Ptr) → M ℤ
unfolding fs_set_data
fs_fstat uv_fs_fstat l fs file cb = do
  fs_set_data fs cb
  status ← uv_fs_fstat l fs file calls_back
  pure status

unfoldable pub fs_closedir :
    (uv_fs_closedir : Ptr → Ptr → Ptr → Completion → M ℤ) → (l fs dir cb : Ptr) → M ℤ
unfolding fs_set_data
fs_closedir uv_fs_closedir l fs dir cb = do
  fs_set_data fs cb
  status ← uv_fs_closedir l fs dir calls_back
  pure status

unfoldable pub fs_closedir_sync :
    (uv_fs_closedir : Ptr → Ptr → Ptr → Completion → M ℤ) → (l fs dir : Ptr) → M ℤ
unfolding fs_set_data
fs_closedir_sync uv_fs_closedir l fs dir = do
  fs_set_data fs null
  status ← uv_fs_closedir l fs dir waits
  decref fs
  pure status

unfoldable pub fs_readdir :
    (uv_fs_readdir : Ptr → Ptr → Ptr → Completion → M ℤ) → (l fs dir cb : Ptr) → M ℤ
unfolding fs_set_data
fs_readdir uv_fs_readdir l fs dir cb = do
  fs_set_data fs cb
  status ← uv_fs_readdir l fs dir calls_back
  pure status

unfoldable pub fs_readdir_sync :
    (uv_fs_readdir : Ptr → Ptr → Ptr → Completion → M ℤ) → (l fs dir : Ptr) → M ℤ
unfolding fs_set_data
fs_readdir_sync uv_fs_readdir l fs dir = do
  fs_set_data fs null
  status ← uv_fs_readdir l fs dir waits
  decref fs
  pure status

unfoldable pub fs_fchown :
    (uv_fs_fchown : Ptr → Ptr → ℤ → ℕ → ℕ → Completion → M ℤ)
    → (l fs : Ptr) → (file : ℤ) → (uid gid : ℕ) → (cb : Ptr) → M ℤ
unfolding fs_set_data
fs_fchown uv_fs_fchown l fs file uid gid cb = do
  fs_set_data fs cb
  status ← uv_fs_fchown l fs file (uid % 2 ^ 32) (gid % 2 ^ 32) calls_back
  pure status

unfoldable pub fs_fchown_sync :
    (uv_fs_fchown : Ptr → Ptr → ℤ → ℕ → ℕ → Completion → M ℤ)
    → (l fs : Ptr) → (file : ℤ) → (uid gid : ℕ) → M ℤ
unfolding fs_set_data
fs_fchown_sync uv_fs_fchown l fs file uid gid = do
  fs_set_data fs null
  status ← uv_fs_fchown l fs file (uid % 2 ^ 32) (gid % 2 ^ 32) waits
  decref fs
  pure status

unfoldable pub fs_sendfile :
    (uv_fs_sendfile : Ptr → Ptr → ℤ → ℤ → ℤ → ℕ → Completion → M ℤ)
    → (l fs : Ptr) → (out_fd in_fd in_offset : ℤ) → (length : ℕ) → (cb : Ptr) → M ℤ
unfolding fs_set_data
fs_sendfile uv_fs_sendfile l fs out_fd in_fd in_offset length cb = do
  fs_set_data fs cb
  status ← uv_fs_sendfile l fs out_fd in_fd in_offset length calls_back
  pure status

unfoldable pub fs_sendfile_sync :
    (uv_fs_sendfile : Ptr → Ptr → ℤ → ℤ → ℤ → ℕ → Completion → M ℤ)
    → (l fs : Ptr) → (out_fd in_fd in_offset : ℤ) → (length : ℕ) → M ℤ
unfolding fs_set_data
fs_sendfile_sync uv_fs_sendfile l fs out_fd in_fd in_offset length = do
  fs_set_data fs null
  status ← uv_fs_sendfile l fs out_fd in_fd in_offset length waits
  decref fs
  pure status

unfoldable pub fs_fchmod :
    (uv_fs_fchmod : Ptr → Ptr → ℤ → ℤ → Completion → M ℤ)
    → (l fs : Ptr) → (file mode : ℤ) → (cb : Ptr) → M ℤ
unfolding fs_set_data
fs_fchmod uv_fs_fchmod l fs file mode cb = do
  fs_set_data fs cb
  status ← uv_fs_fchmod l fs file mode calls_back
  pure status

unfoldable pub fs_fchmod_sync :
    (uv_fs_fchmod : Ptr → Ptr → ℤ → ℤ → Completion → M ℤ) → (l fs : Ptr) → (file mode : ℤ) → M ℤ
unfolding fs_set_data
fs_fchmod_sync uv_fs_fchmod l fs file mode = do
  fs_set_data fs null
  status ← uv_fs_fchmod l fs file mode waits
  decref fs
  pure status

unfoldable pub fs_futime :
    (uv_fs_futime : Ptr → Ptr → ℤ → Double → Double → Completion → M ℤ)
    → (l fs : Ptr) → (file : ℤ) → (atime mtime : Double) → (cb : Ptr) → M ℤ
unfolding fs_set_data
fs_futime uv_fs_futime l fs file atime mtime cb = do
  fs_set_data fs cb
  status ← uv_fs_futime l fs file atime mtime calls_back
  pure status

unfoldable pub fs_futime_sync :
    (uv_fs_futime : Ptr → Ptr → ℤ → Double → Double → Completion → M ℤ)
    → (l fs : Ptr) → (file : ℤ) → (atime mtime : Double) → M ℤ
unfolding fs_set_data
fs_futime_sync uv_fs_futime l fs file atime mtime = do
  fs_set_data fs null
  status ← uv_fs_futime l fs file atime mtime waits
  decref fs
  pure status
