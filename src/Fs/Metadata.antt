-- ===== src/Fs/Metadata.antt =====
-- The requests of src/fs.c that read or change what is known of a path.
use uv_mbt.Base.{ℕ, ℤ, ◌%◌, ◌^◌}
use uv_mbt.Memory.{Ptr, null, M, ◌>>=◌, ◌>>◌, pure, decref}
use uv_mbt.Fs.Request.{Double, Completion, calls_back, waits, fs_set_data}

unfoldable pub fs_stat :
    (uv_fs_stat : Ptr → Ptr → Ptr → Completion → M ℤ) → (l fs path cb : Ptr) → M ℤ
unfolding fs_set_data
fs_stat uv_fs_stat l fs path cb = do
  fs_set_data fs cb
  status ← uv_fs_stat l fs path calls_back
  decref path
  pure status

unfoldable pub fs_stat_sync :
    (uv_fs_stat : Ptr → Ptr → Ptr → Completion → M ℤ) → (l fs path : Ptr) → M ℤ
unfolding fs_set_data
fs_stat_sync uv_fs_stat l fs path = do
  fs_set_data fs null
  status ← uv_fs_stat l fs path waits
  decref fs
  decref path
  pure status

unfoldable pub fs_lstat :
    (uv_fs_lstat : Ptr → Ptr → Ptr → Completion → M ℤ) → (l fs path cb : Ptr) → M ℤ
unfolding fs_set_data
fs_lstat uv_fs_lstat l fs path cb = do
  fs_set_data fs cb
  status ← uv_fs_lstat l fs path calls_back
  decref path
  pure status

unfoldable pub fs_lstat_sync :
    (uv_fs_lstat : Ptr → Ptr → Ptr → Completion → M ℤ) → (l fs path : Ptr) → M ℤ
unfolding fs_set_data
fs_lstat_sync uv_fs_lstat l fs path = do
  fs_set_data fs null
  status ← uv_fs_lstat l fs path waits
  decref fs
  decref path
  pure status

unfoldable pub fs_realpath :
    (uv_fs_realpath : Ptr → Ptr → Ptr → Completion → M ℤ) → (l fs path cb : Ptr) → M ℤ
unfolding fs_set_data
fs_realpath uv_fs_realpath l fs path cb = do
  fs_set_data fs cb
  status ← uv_fs_realpath l fs path calls_back
  decref path
  pure status

unfoldable pub fs_realpath_sync :
    (uv_fs_realpath : Ptr → Ptr → Ptr → Completion → M ℤ) → (l fs path : Ptr) → M ℤ
unfolding fs_set_data
fs_realpath_sync uv_fs_realpath l fs path = do
  fs_set_data fs null
  status ← uv_fs_realpath l fs path waits
  decref fs
  decref path
  pure status

unfoldable pub fs_readlink :
    (uv_fs_readlink : Ptr → Ptr → Ptr → Completion → M ℤ) → (l fs path cb : Ptr) → M ℤ
unfolding fs_set_data
fs_readlink uv_fs_readlink l fs path cb = do
  fs_set_data fs cb
  status ← uv_fs_readlink l fs path calls_back
  decref path
  pure status

unfoldable pub fs_readlink_sync :
    (uv_fs_readlink : Ptr → Ptr → Ptr → Completion → M ℤ) → (l fs path : Ptr) → M ℤ
unfolding fs_set_data
fs_readlink_sync uv_fs_readlink l fs path = do
  fs_set_data fs null
  status ← uv_fs_readlink l fs path waits
  decref fs
  decref path
  pure status

unfoldable pub fs_chown :
    (uv_fs_chown : Ptr → Ptr → Ptr → ℕ → ℕ → Completion → M ℤ)
    → (l fs path : Ptr) → (uid gid : ℕ) → (cb : Ptr) → M ℤ
unfolding fs_set_data
fs_chown uv_fs_chown l fs path uid gid cb = do
  fs_set_data fs cb
  status ← uv_fs_chown l fs path (uid % 2 ^ 32) (gid % 2 ^ 32) calls_back
  decref path
  pure status

unfoldable pub fs_chown_sync :
    (uv_fs_chown : Ptr → Ptr → Ptr → ℕ → ℕ → Completion → M ℤ)
    → (l fs path : Ptr) → (uid gid : ℕ) → M ℤ
unfolding fs_set_data
fs_chown_sync uv_fs_chown l fs path uid gid = do
  fs_set_data fs null
  status ← uv_fs_chown l fs path (uid % 2 ^ 32) (gid % 2 ^ 32) waits
  decref fs
  decref path
  pure status

unfoldable pub fs_lchown :
    (uv_fs_lchown : Ptr → Ptr → Ptr → ℕ → ℕ → Completion → M ℤ)
    → (l fs path : Ptr) → (uid gid : ℕ) → (cb : Ptr) → M ℤ
unfolding fs_set_data
fs_lchown uv_fs_lchown l fs path uid gid cb = do
  fs_set_data fs cb
  status ← uv_fs_lchown l fs path (uid % 2 ^ 32) (gid % 2 ^ 32) calls_back
  decref path
  pure status

unfoldable pub fs_lchown_sync :
    (uv_fs_lchown : Ptr → Ptr → Ptr → ℕ → ℕ → Completion → M ℤ)
    → (l fs path : Ptr) → (uid gid : ℕ) → M ℤ
unfolding fs_set_data
fs_lchown_sync uv_fs_lchown l fs path uid gid = do
  fs_set_data fs null
  status ← uv_fs_lchown l fs path (uid % 2 ^ 32) (gid % 2 ^ 32) waits
  decref fs
  decref path
  pure status

unfoldable pub fs_chmod :
    (uv_fs_chmod : Ptr → Ptr → Ptr → ℤ → Completion → M ℤ)
    → (l fs path : Ptr) → (mode : ℤ) → (cb : Ptr) → M ℤ
unfolding fs_set_data
fs_chmod uv_fs_chmod l fs path mode cb = do
  fs_set_data fs cb
  status ← uv_fs_chmod l fs path mode calls_back
  decref path
  pure status

unfoldable pub fs_chmod_sync :
    (uv_fs_chmod : Ptr → Ptr → Ptr → ℤ → Completion → M ℤ) → (l fs path : Ptr) → (mode : ℤ) → M ℤ
unfolding fs_set_data
fs_chmod_sync uv_fs_chmod l fs path mode = do
  fs_set_data fs null
  status ← uv_fs_chmod l fs path mode waits
  decref fs
  decref path
  pure status

unfoldable pub fs_statfs :
    (uv_fs_statfs : Ptr → Ptr → Ptr → Completion → M ℤ) → (l fs path cb : Ptr) → M ℤ
unfolding fs_set_data
fs_statfs uv_fs_statfs l fs path cb = do
  fs_set_data fs cb
  status ← uv_fs_statfs l fs path calls_back
  decref path
  pure status

unfoldable pub fs_statfs_sync :
    (uv_fs_statfs : Ptr → Ptr → Ptr → Completion → M ℤ) → (l fs path : Ptr) → M ℤ
unfolding fs_set_data
fs_statfs_sync uv_fs_statfs l fs path = do
  fs_set_data fs null
  status ← uv_fs_statfs l fs path waits
  decref fs
  decref path
  pure status

unfoldable pub fs_utime :
    (uv_fs_utime : Ptr → Ptr → Ptr → Double → Double → Completion → M ℤ)
    → (l fs path : Ptr) → (atime mtime : Double) → (cb : Ptr) → M ℤ
unfolding fs_set_data
fs_utime uv_fs_utime l fs path atime mtime cb = do
  fs_set_data fs cb
  status ← uv_fs_utime l fs path atime mtime calls_back
  decref path
  pure status

unfoldable pub fs_utime_sync :
    (uv_fs_utime : Ptr → Ptr → Ptr → Double → Double → Completion → M ℤ)
    → (l fs path : Ptr) → (atime mtime : Double) → M ℤ
unfolding fs_set_data
fs_utime_sync uv_fs_utime l fs path atime mtime = do
  fs_set_data fs null
  status ← uv_fs_utime l fs path atime mtime waits
  decref fs
  decref path
  pure status

unfoldable pub fs_lutime :
    (uv_fs_lutime : Ptr → Ptr → Ptr → Double → Double → Completion → M ℤ)
    → (l fs path : Ptr) → (atime mtime : Double) → (cb : Ptr) → M ℤ
unfolding fs_set_data
fs_lutime uv_fs_lutime l fs path atime mtime cb = do
  fs_set_data fs cb
  status ← uv_fs_lutime l fs path atime mtime calls_back
  decref path
  pure status

unfoldable pub fs_lutime_sync :
    (uv_fs_lutime : Ptr → Ptr → Ptr → Double → Double → Completion → M ℤ)
    → (l fs path : Ptr) → (atime mtime : Double) → M ℤ
unfolding fs_set_data
fs_lutime_sync uv_fs_lutime l fs path atime mtime = do
  fs_set_data fs null
  status ← uv_fs_lutime l fs path atime mtime waits
  decref fs
  decref path
  pure status
