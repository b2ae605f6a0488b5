-- ===== src/Fs/Links.antt =====
-- The requests of src/fs.c on two paths.
use uv_mbt.Base.{ℤ}
use uv_mbt.Memory.{Ptr, null, M, ◌>>=◌, ◌>>◌, pure, decref}
use uv_mbt.Fs.Request.{Completion, calls_back, waits, fs_set_data}

unfoldable pub fs_copyfile :
    (uv_fs_copyfile : Ptr → Ptr → Ptr → Ptr → ℤ → Completion → M ℤ)
    → (l fs path new_path : Ptr) → (flags : ℤ) → (cb : Ptr) → M ℤ
unfolding fs_set_data
fs_copyfile uv_fs_copyfile l fs path new_path flags cb = do
  fs_set_data fs cb
  status ← uv_fs_copyfile l fs path new_path flags calls_back
  decref path
  decref new_path
  pure status

unfoldable pub fs_copyfile_sync :
    (uv_fs_copyfile : Ptr → Ptr → Ptr → Ptr → ℤ → Completion → M ℤ)
    → (l fs path new_path : Ptr) → (flags : ℤ) → M ℤ
unfolding fs_set_data
fs_copyfile_sync uv_fs_copyfile l fs path new_path flags = do
  fs_set_data fs null
  status ← uv_fs_copyfile l fs path new_path flags waits
  decref fs
  decref path
  decref new_path
  pure status

unfoldable pub fs_rename :
    (uv_fs_rename : Ptr → Ptr → Ptr → Ptr → Completion → M ℤ) → (l fs path new_path cb : Ptr) → M ℤ
unfolding fs_set_data
fs_rename uv_fs_rename l fs path new_path cb = do
  fs_set_data fs cb
  status ← uv_fs_rename l fs path new_path calls_back
  decref path
  decref new_path
  pure status

unfoldable pub fs_rename_sync :
    (uv_fs_rename : Ptr → Ptr → Ptr → Ptr → Completion → M ℤ) → (l fs path new_path : Ptr) → M ℤ
unfolding fs_set_data
fs_rename_sync uv_fs_rename l fs path new_path = do
  fs_set_data fs null
  status ← uv_fs_rename l fs path new_path waits
  decref fs
  decref path
  decref new_path
  pure status

unfoldable pub fs_link :
    (uv_fs_link : Ptr → Ptr → Ptr → Ptr → Completion → M ℤ) → (l fs path new_path cb : Ptr) → M ℤ
unfolding fs_set_data
fs_link uv_fs_link l fs path new_path cb = do
  fs_set_data fs cb
  status ← uv_fs_link l fs path new_path calls_back
  decref path
  decref new_path
  pure status

unfoldable pub fs_link_sync :
    (uv_fs_link : Ptr → Ptr → Ptr → Ptr → Completion → M ℤ) → (l fs path new_path : Ptr) → M ℤ
unfolding fs_set_data
fs_link_sync uv_fs_link l fs path new_path = do
  fs_set_data fs null
  status ← uv_fs_link l fs path new_path waits
  decref fs
  decref path
  decref new_path
  pure status

unfoldable pub fs_symlink :
    (uv_fs_symlink : Ptr → Ptr → Ptr → Ptr → ℤ → Completion → M ℤ)
    → (l fs path new_path : Ptr) → (flags : ℤ) → (cb : Ptr) → M ℤ
unfolding fs_set_data
fs_symlink uv_fs_symlink l fs path new_path flags cb = do
  fs_set_data fs cb
  status ← uv_fs_symlink l fs path new_path flags calls_back
  decref path
  decref new_path
  pure status

unfoldable pub fs_symlink_sync :
    (uv_fs_symlink : Ptr → Ptr → Ptr → Ptr → ℤ → Completion → M ℤ)
    → (l fs path new_path : Ptr) → (flags : ℤ) → M ℤ
unfolding fs_set_data
fs_symlink_sync uv_fs_symlink l fs path new_path flags = do
  fs_set_data fs null
  status ← uv_fs_symlink l fs path new_path flags waits
  decref fs
  decref path
  decref new_path
  pure status
