-- ===== src/Fs/Blocking.antt =====
-- The requests of src/fs.c that wait for their answer. `ftruncate` and `fstat` have no such form.
use uv_mbt.Base.{ℤ, Option, none, some}
use uv_mbt.Fs.Dispatch.{
  FsCalls, Request, open_file, close, ftruncate, fsync, fdatasync, mkdir, rmdir, copyfile, unlink,
  scandir, rename, stat, lstat, fstat, realpath, access, mkdtemp, mkstemp, opendir, closedir,
  readdir, link, symlink, readlink, chown, fchown, lchown, sendfile, chmod, fchmod, statfs, utime,
  futime, lutime,
}
use uv_mbt.Fs.Files.{
  fs_close_sync, fs_fsync_sync, fs_fdatasync_sync, fs_closedir_sync, fs_readdir_sync,
  fs_fchown_sync, fs_sendfile_sync, fs_fchmod_sync, fs_futime_sync,
}
use uv_mbt.Fs.Links.{fs_copyfile_sync, fs_rename_sync, fs_link_sync, fs_symlink_sync}
use uv_mbt.Fs.Paths.{
  fs_open_sync, fs_mkdir_sync, fs_rmdir_sync, fs_unlink_sync, fs_scandir_sync, fs_access_sync,
  fs_mkdtemp_sync, fs_mkstemp_sync, fs_opendir_sync,
}
use uv_mbt.Fs.Metadata.{
  fs_stat_sync, fs_lstat_sync, fs_realpath_sync, fs_readlink_sync, fs_chown_sync, fs_lchown_sync,
  fs_chmod_sync, fs_statfs_sync, fs_utime_sync, fs_lutime_sync,
}
use uv_mbt.Memory.{Ptr, M}

-- the function that serves a request and waits
unfoldable pub serve : FsCalls → (l fs : Ptr) → Request → Option (M ℤ)
unfolding fs_open_sync fs_close_sync fs_fsync_sync fs_fdatasync_sync fs_mkdir_sync fs_rmdir_sync
    fs_copyfile_sync fs_unlink_sync fs_scandir_sync fs_rename_sync fs_stat_sync fs_lstat_sync
    fs_realpath_sync fs_access_sync fs_mkdtemp_sync fs_mkstemp_sync fs_opendir_sync fs_closedir_sync
    fs_readdir_sync fs_link_sync fs_symlink_sync fs_readlink_sync fs_chown_sync fs_fchown_sync
    fs_lchown_sync fs_sendfile_sync fs_chmod_sync fs_fchmod_sync fs_statfs_sync fs_utime_sync
    fs_futime_sync fs_lutime_sync
serve api l fs (open_file path flags mode) = some (fs_open_sync api.uv_fs_open l fs path flags mode)
serve api l fs (close file) = some (fs_close_sync api.uv_fs_close l fs file)
serve api l fs (ftruncate file offset) = none
serve api l fs (fsync file) = some (fs_fsync_sync api.uv_fs_fsync l fs file)
serve api l fs (fdatasync file) = some (fs_fdatasync_sync api.uv_fs_fdatasync l fs file)
serve api l fs (mkdir path mode) = some (fs_mkdir_sync api.uv_fs_mkdir l fs path mode)
serve api l fs (rmdir path) = some (fs_rmdir_sync api.uv_fs_rmdir l fs path)
serve api l fs (copyfile path new_path flags) =
    some (fs_copyfile_sync api.uv_fs_copyfile l fs path new_path flags)
serve api l fs (unlink path) = some (fs_unlink_sync api.uv_fs_unlink l fs path)
serve api l fs (scandir path flags) = some (fs_scandir_sync api.uv_fs_scandir l fs path flags)
serve api l fs (rename path new_path) = some (fs_rename_sync api.uv_fs_rename l fs path new_path)
serve api l fs (stat path) = some (fs_stat_sync api.uv_fs_stat l fs path)
serve api l fs (lstat path) = some (fs_lstat_sync api.uv_fs_lstat l fs path)
serve api l fs (fstat file) = none
serve api l fs (realpath path) = some (fs_realpath_sync api.uv_fs_realpath l fs path)
serve api l fs (access path mode) = some (fs_access_sync api.uv_fs_access l fs path mode)
serve api l fs (mkdtemp template_path) = some (fs_mkdtemp_sync api.uv_fs_mkdtemp l fs template_path)
serve api l fs (mkstemp template_path) = some (fs_mkstemp_sync api.uv_fs_mkstemp l fs template_path)
serve api l fs (opendir path) = some (fs_opendir_sync api.uv_fs_opendir l fs path)
serve api l fs (closedir dir) = some (fs_closedir_sync api.uv_fs_closedir l fs dir)
serve api l fs (readdir dir) = some (fs_readdir_sync api.uv_fs_readdir l fs dir)
serve api l fs (link path new_path) = some (fs_link_sync api.uv_fs_link l fs path new_path)
serve api l fs (symlink path new_path flags) =
    some (fs_symlink_sync api.uv_fs_symlink l fs path new_path flags)
serve api l fs (readlink path) = some (fs_readlink_sync api.uv_fs_readlink l fs path)
serve api l fs (chown path uid gid) = some (fs_chown_sync api.uv_fs_chown l fs path uid gid)
serve api l fs (fchown file uid gid) = some (fs_fchown_sync api.uv_fs_fchown l fs file uid gid)
serve api l fs (lchown path uid gid) = some (fs_lchown_sync api.uv_fs_lchown l fs path uid gid)
serve api l fs (sendfile out_fd in_fd in_offset length) =
    some (fs_sendfile_sync api.uv_fs_sendfile l fs out_fd in_fd in_offset length)
serve api l fs (chmod path mode) = some (fs_chmod_sync api.uv_fs_chmod l fs path mode)
serve api l fs (fchmod file mode) = some (fs_fchmod_sync api.uv_fs_fchmod l fs file mode)
serve api l fs (statfs path) = some (fs_statfs_sync api.uv_fs_statfs l fs path)
serve api l fs (utime path atime mtime) = some (fs_utime_sync api.uv_fs_utime l fs path atime mtime)
serve api l fs (futime file atime mtime) =
    some (fs_futime_sync api.uv_fs_futime l fs file atime mtime)
serve api l fs (lutime path atime mtime) =
    some (fs_lutime_sync api.uv_fs_lutime l fs path atime mtime)
