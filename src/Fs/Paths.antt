-- ===== src/Fs/Paths.antt =====
-- The requests of src/fs.c that open, make or remove what a path names.
use uv_mbt.Base.{ℤ}
use uv_mbt.Memory.{Ptr, null, M, ◌>>=◌, ◌>>◌, pure, decref}
use uv_mbt.Fs.Request.{Completion, calls_back, waits, fs_set_data}

unfoldable pub fs_open :
    (uv_fs_open : Ptr → Ptr → Ptr → ℤ → ℤ → Completion → M ℤ)
    → (l fs path : Ptr) → (flags mode : ℤ) → (cb : Ptr) → M ℤ
unfolding fs_set_data
fs_open uv_fs_open l fs path flags mode cb = do
  fs_set_data fs cb
  result ← uv_fs_open l fs path flags mode calls_back
  decref path
  pure result

unfoldable pub fs_open_sync :
    (uv_fs_open : Ptr → Ptr → Ptr → ℤ → ℤ → Completion → M ℤ)
    → (l fs path : Ptr) → (flags mode : ℤ) → M ℤ
unfolding fs_set_data
fs_open_sync uv_fs_open l fs path flags mode = do
  fs_set_data fs null
  result ← uv_fs_open l fs path flags mode waits
  decref fs
  decref path
  pure result

unfoldable pub fs_mkdir :
    (uv_fs_mkdir : Ptr → Ptr → Ptr → ℤ → Completion → M ℤ)
    → (l fs path : Ptr) → (mode : ℤ) → (cb : Ptr) → M ℤ
unfolding fs_set_data
fs_mkdir uv_fs_mkdir l fs path mode cb = do
  fs_set_data fs cb
  status ← uv_fs_mkdir l fs path mode calls_back
  decref path
  pure status

unfoldable pub fs_mkdir_sync :
    (uv_fs_mkdir : Ptr → Ptr → Ptr → ℤ → Completion → M ℤ) → (l fs path : Ptr) → (mode : ℤ) → M ℤ
unfolding fs_set_data
fs_mkdir_sync uv_fs_mkdir l fs path mode = do
  fs_set_data fs null
  status ← uv_fs_mkdir l fs path mode waits
  decref fs
  decref path
  pure status

unfoldable pub fs_rmdir :
    (uv_fs_rmdir : Ptr → Ptr → Ptr → Completion → M ℤ) → (l fs path cb : Ptr) → M ℤ
unfolding fs_set_data
fs_rmdir uv_fs_rmdir l fs path cb = do
  fs_set_data fs cb
  status ← uv_fs_rmdir l fs path calls_back
  decref path
  pure status

unfoldable pub fs_rmdir_sync :
    (uv_fs_rmdir : Ptr → Ptr → Ptr → Completion → M ℤ) → (l fs path : Ptr) → M ℤ
unfolding fs_set_data
fs_rmdir_sync uv_fs_rmdir l fs path = do
  fs_set_data fs null
  status ← uv_fs_rmdir l fs path waits
  decref fs
  decref path
  pure status

unfoldable pub fs_unlink :
    (uv_fs_unlink : Ptr → Ptr → Ptr → Completion → M ℤ) → (l fs path cb : Ptr) → M ℤ
unfolding fs_set_data
fs_unlink uv_fs_unlink l fs path cb = do
  fs_set_data fs cb
  status ← uv_fs_unlink l fs path calls_back
  decref path
  pure status

unfoldable pub fs_unlink_sync :
    (uv_fs_unlink : Ptr → Ptr → Ptr → Completion → M ℤ) → (l fs path : Ptr) → M ℤ
unfolding fs_set_data
fs_unlink_sync uv_fs_unlink l fs path = do
  fs_set_data fs null
  status ← uv_fs_unlink l fs path waits
  decref fs
  decref path
  pure status

unfoldable pub fs_scandir :
    (uv_fs_scandir : Ptr → Ptr → Ptr → ℤ → Completion → M ℤ)
    → (l fs path : Ptr) → (flags : ℤ) → (cb : Ptr) → M ℤ
unfolding fs_set_data
fs_scandir uv_fs_scandir l fs path flags cb = do
  fs_set_data fs cb
  result ← uv_fs_scandir l fs path flags calls_back
  decref path
  pure result

unfoldable pub fs_scandir_sync :
    (uv_fs_scandir : Ptr → Ptr → Ptr → ℤ → Completion → M ℤ) → (l fs path : Ptr) → (flags : ℤ) → M ℤ
unfolding fs_set_data
fs_scandir_sync uv_fs_scandir l fs path flags = do
  fs_set_data fs null
  status ← uv_fs_scandir l fs path flags waits
  decref fs
  decref path
  pure status

unfoldable pub fs_access :
    (uv_fs_access : Ptr → Ptr → Ptr → ℤ → Completion → M ℤ)
    → (l fs path : Ptr) → (mode : ℤ) → (cb : Ptr) → M ℤ
unfolding fs_set_data
fs_access uv_fs_access l fs path mode cb = do
  fs_set_data fs cb
  status ← uv_fs_access l fs path mode calls_back
  decref path
  pure status

unfoldable pub fs_access_sync :
    (uv_fs_access : Ptr → Ptr → Ptr → ℤ → Completion → M ℤ) → (l fs path : Ptr) → (mode : ℤ) → M ℤ
unfolding fs_set_data
fs_access_sync uv_fs_access l fs path mode = do
  fs_set_data fs null
  status ← uv_fs_access l fs path mode waits
  decref fs
  decref path
  pure status

unfoldable pub fs_mkdtemp :
    (uv_fs_mkdtemp : Ptr → Ptr → Ptr → Completion → M ℤ) → (l fs template_path cb : Ptr) → M ℤ
unfolding fs_set_data
fs_mkdtemp uv_fs_mkdtemp l fs template_path cb = do
  fs_set_data fs cb
  status ← uv_fs_mkdtemp l fs template_path calls_back
  decref template_path
  pure status

unfoldable pub fs_mkdtemp_sync :
    (uv_fs_mkdtemp : Ptr → Ptr → Ptr → Completion → M ℤ) → (l fs template_path : Ptr) → M ℤ
unfolding fs_set_data
fs_mkdtemp_sync uv_fs_mkdtemp l fs template_path = do
  fs_set_data fs null
  status ← uv_fs_mkdtemp l fs template_path waits
  decref fs
  decref template_path
  pure status

unfoldable pub fs_mkstemp :
    (uv_fs_mkstemp : Ptr → Ptr → Ptr → Completion → M ℤ) → (l fs template_path cb : Ptr) → M ℤ
unfolding fs_set_data
fs_mkstemp uv_fs_mkstemp l fs template_path cb = do
  fs_set_data fs cb
  status ← uv_fs_mkstemp l fs template_path calls_back
  decref template_path
  pure status

unfoldable pub fs_mkstemp_sync :
    (uv_fs_mkstemp : Ptr → Ptr → Ptr → Completion → M ℤ) → (l fs template_path : Ptr) → M ℤ
unfolding fs_set_data
fs_mkstemp_sync uv_fs_mkstemp l fs template_path = do
  fs_set_data fs null
  status ← uv_fs_mkstemp l fs template_path waits
  decref fs
  decref template_path
  pure status

unfoldable pub fs_opendir :
    (uv_fs_opendir : Ptr → Ptr → Ptr → Completion → M ℤ) → (l fs path cb : Ptr) → M ℤ
unfolding fs_set_data
fs_opendir uv_fs_opendir l fs path cb = do
  fs_set_data fs cb
  status ← uv_fs_opendir l fs path calls_back
  decref path
  pure status

unfoldable pub fs_opendir_sync :
    (uv_fs_opendir : Ptr → Ptr → Ptr → Completion → M ℤ) → (l fs path : Ptr) → M ℤ
unfolding fs_set_data
fs_opendir_sync uv_fs_opendir l fs path = do
  fs_set_data fs null
  status ← uv_fs_opendir l fs path waits
  decref fs
  decref path
  pure status
