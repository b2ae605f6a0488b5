-- ===== src/Fs/Dispatch.antt =====
-- The requests of src/fs.c as data: which function serves each, what it asks of libuv, and which
-- of its parameters it owns.
use uv_mbt.Base.{ℕ, ℤ, ◌%◌, ◌^◌, List, [], ◌∷◌}
use uv_mbt.Fs.Request.{Double, Completion}
use uv_mbt.Fs.Files.{
  fs_close, fs_ftruncate, fs_fsync, fs_fdatasync, fs_fstat, fs_closedir, fs_readdir, fs_fchown,
  fs_sendfile, fs_fchmod, fs_futime,
}
use uv_mbt.Fs.Links.{fs_copyfile, fs_rename, fs_link, fs_symlink}
use uv_mbt.Fs.Paths.{
  fs_open, fs_mkdir, fs_rmdir, fs_unlink, fs_scandir, fs_access, fs_mkdtemp, fs_mkstemp, fs_opendir,
}
use uv_mbt.Fs.Metadata.{
  fs_stat, fs_lstat, fs_realpath, fs_readlink, fs_chown, fs_lchown, fs_chmod, fs_statfs, fs_utime,
  fs_lutime,
}
use uv_mbt.Memory.{Ptr, M}

-- libuv's functions on the file system
pub record FsCalls : Type 0 where
  pub uv_fs_open : Ptr → Ptr → Ptr → ℤ → ℤ → Completion → M ℤ
  pub uv_fs_close : Ptr → Ptr → ℤ → Completion → M ℤ
  pub uv_fs_ftruncate : Ptr → Ptr → ℤ → ℤ → Completion → M ℤ
  pub uv_fs_fsync : Ptr → Ptr → ℤ → Completion → M ℤ
  pub uv_fs_fdatasync : Ptr → Ptr → ℤ → Completion → M ℤ
  pub uv_fs_mkdir : Ptr → Ptr → Ptr → ℤ → Completion → M ℤ
  pub uv_fs_rmdir : Ptr → Ptr → Ptr → Completion → M ℤ
  pub uv_fs_copyfile : Ptr → Ptr → Ptr → Ptr → ℤ → Completion → M ℤ
  pub uv_fs_unlink : Ptr → Ptr → Ptr → Completion → M ℤ
  pub uv_fs_scandir : Ptr → Ptr → Ptr → ℤ → Completion → M ℤ
  pub uv_fs_rename : Ptr → Ptr → Ptr → Ptr → Completion → M ℤ
  pub uv_fs_stat : Ptr → Ptr → Ptr → Completion → M ℤ
  pub uv_fs_lstat : Ptr → Ptr → Ptr → Completion → M ℤ
  pub uv_fs_fstat : Ptr → Ptr → ℤ → Completion → M ℤ
  pub uv_fs_realpath : Ptr → Ptr → Ptr → Completion → M ℤ
  pub uv_fs_access : Ptr → Ptr → Ptr → ℤ → Completion → M ℤ
  pub uv_fs_mkdtemp : Ptr → Ptr → Ptr → Completion → M ℤ
  pub uv_fs_mkstemp : Ptr → Ptr → Ptr → Completion → M ℤ
  pub uv_fs_opendir : Ptr → Ptr → Ptr → Completion → M ℤ
  pub uv_fs_closedir : Ptr → Ptr → Ptr → Completion → M ℤ
  pub uv_fs_readdir : Ptr → Ptr → Ptr → Completion → M ℤ
  pub uv_fs_link : Ptr → Ptr → Ptr → Ptr → Completion → M ℤ
  pub uv_fs_symlink : Ptr → Ptr → Ptr → Ptr → ℤ → Completion → M ℤ
  pub uv_fs_readlink : Ptr → Ptr → Ptr → Completion → M ℤ
  pub uv_fs_chown : Ptr → Ptr → Ptr → ℕ → ℕ → Completion → M ℤ
  pub uv_fs_fchown : Ptr → Ptr → ℤ → ℕ → ℕ → Completion → M ℤ
  pub uv_fs_lchown : Ptr → Ptr → Ptr → ℕ → ℕ → Completion → M ℤ
  pub uv_fs_sendfile : Ptr → Ptr → ℤ → ℤ → ℤ → ℕ → Completion → M ℤ
  pub uv_fs_chmod : Ptr → Ptr → Ptr → ℤ → Completion → M ℤ
  pub uv_fs_fchmod : Ptr → Ptr → ℤ → ℤ → Completion → M ℤ
  pub uv_fs_statfs : Ptr → Ptr → Ptr → Completion → M ℤ
  pub uv_fs_utime : Ptr → Ptr → Ptr → Double → Double → Completion → M ℤ
  pub uv_fs_futime : Ptr → Ptr → ℤ → Double → Double → Completion → M ℤ
  pub uv_fs_lutime : Ptr → Ptr → Ptr → Double → Double → Completion → M ℤ

pub data Request : Type 0 where
  open_file : (path : Ptr) → (flags mode : ℤ) → Request
  close : (file : ℤ) → Request
  ftruncate : (file offset : ℤ) → Request
  fsync : (file : ℤ) → Request
  fdatasync : (file : ℤ) → Request
  mkdir : (path : Ptr) → (mode : ℤ) → Request
  rmdir : (path : Ptr) → Request
  copyfile : (path new_path : Ptr) → (flags : ℤ) → Request
  unlink : (path : Ptr) → Request
  scandir : (path : Ptr) → (flags : ℤ) → Request
  rename : (path new_path : Ptr) → Request
  stat : (path : Ptr) → Request
  lstat : (path : Ptr) → Request
  fstat : (file : ℤ) → Request
  realpath : (path : Ptr) → Request
  access : (path : Ptr) → (mode : ℤ) → Request
  mkdtemp : (template_path : Ptr) → Request
  mkstemp : (template_path : Ptr) → Request
  opendir : (path : Ptr) → Request
  closedir : (dir : Ptr) → Request
  readdir : (dir : Ptr) → Request
  link : (path new_path : Ptr) → Request
  symlink : (path new_path : Ptr) → (flags : ℤ) → Request
  readlink : (path : Ptr) → Request
  chown : (path : Ptr) → (uid gid : ℕ) → Request
  fchown : (file : ℤ) → (uid gid : ℕ) → Request
  lchown : (path : Ptr) → (uid gid : ℕ) → Request
  sendfile : (out_fd in_fd in_offset : ℤ) → (length : ℕ) → Request
  chmod : (path : Ptr) → (mode : ℤ) → Request
  fchmod : (file mode : ℤ) → Request
  statfs : (path : Ptr) → Request
  utime : (path : Ptr) → (atime mtime : Double) → Request
  futime : (file : ℤ) → (atime mtime : Double) → Request
  lutime : (path : Ptr) → (atime mtime : Double) → Request

-- the call of libuv that a request makes
unfoldable pub call : FsCalls → (l fs : Ptr) → Completion → Request → M ℤ
call api l fs c (open_file path flags mode) = api.uv_fs_open l fs path flags mode c
call api l fs c (close file) = api.uv_fs_close l fs file c
call api l fs c (ftruncate file offset) = api.uv_fs_ftruncate l fs file offset c
call api l fs c (fsync file) = api.uv_fs_fsync l fs file c
call api l fs c (fdatasync file) = api.uv_fs_fdatasync l fs file c
call api l fs c (mkdir path mode) = api.uv_fs_mkdir l fs path mode c
call api l fs c (rmdir path) = api.uv_fs_rmdir l fs path c
call api l fs c (copyfile path new_path flags) = api.uv_fs_copyfile l fs path new_path flags c
call api l fs c (unlink path) = api.uv_fs_unlink l fs path c
call api l fs c (scandir path flags) = api.uv_fs_scandir l fs path flags c
call api l fs c (rename path new_path) = api.uv_fs_rename l fs path new_path c
call api l fs c (stat path) = api.uv_fs_stat l fs path c
call api l fs c (lstat path) = api.uv_fs_lstat l fs path c
call api l fs c (fstat file) = api.uv_fs_fstat l fs file c
call api l fs c (realpath path) = api.uv_fs_realpath l fs path c
call api l fs c (access path mode) = api.uv_fs_access l fs path mode c
call api l fs c (mkdtemp template_path) = api.uv_fs_mkdtemp l fs template_path c
call api l fs c (mkstemp template_path) = api.uv_fs_mkstemp l fs template_path c
call api l fs c (opendir path) = api.uv_fs_opendir l fs path c
call api l fs c (closedir dir) = api.uv_fs_closedir l fs dir c
call api l fs c (readdir dir) = api.uv_fs_readdir l fs dir c
call api l fs c (link path new_path) = api.uv_fs_link l fs path new_path c
call api l fs c (symlink path new_path flags) = api.uv_fs_symlink l fs path new_path flags c
call api l fs c (readlink path) = api.uv_fs_readlink l fs path c
call api l fs c (chown path uid gid) = api.uv_fs_chown l fs path (uid % 2 ^ 32) (gid % 2 ^ 32) c
call api l fs c (fchown file uid gid) = api.uv_fs_fchown l fs file (uid % 2 ^ 32) (gid % 2 ^ 32) c
call api l fs c (lchown path uid gid) = api.uv_fs_lchown l fs path (uid % 2 ^ 32) (gid % 2 ^ 32) c
call api l fs c (sendfile out_fd in_fd in_offset length) =
    api.uv_fs_sendfile l fs out_fd in_fd in_offset length c
call api l fs c (chmod path mode) = api.uv_fs_chmod l fs path mode c
call api l fs c (fchmod file mode) = api.uv_fs_fchmod l fs file mode c
call api l fs c (statfs path) = api.uv_fs_statfs l fs path c
call api l fs c (utime path atime mtime) = api.uv_fs_utime l fs path atime mtime c
call api l fs c (futime file atime mtime) = api.uv_fs_futime l fs file atime mtime c
call api l fs c (lutime path atime mtime) = api.uv_fs_lutime l fs path atime mtime c

-- the parameters that a request owns, besides the loop, the request object and the callback
unfoldable pub owned : Request → List Ptr
owned (open_file path flags mode) = path ∷ []
owned (close file) = []
owned (ftruncate file offset) = []
owned (fsync file) = []
owned (fdatasync file) = []
owned (mkdir path mode) = path ∷ []
owned (rmdir path) = path ∷ []
owned (copyfile path new_path flags) = path ∷ new_path ∷ []
owned (unlink path) = path ∷ []
owned (scandir path flags) = path ∷ []
owned (rename path new_path) = path ∷ new_path ∷ []
owned (stat path) = path ∷ []
owned (lstat path) = path ∷ []
owned (fstat file) = []
owned (realpath path) = path ∷ []
owned (access path mode) = path ∷ []
owned (mkdtemp template_path) = template_path ∷ []
owned (mkstemp template_path) = template_path ∷ []
owned (opendir path) = path ∷ []
owned (closedir dir) = []
owned (readdir dir) = []
owned (link path new_path) = path ∷ new_path ∷ []
owned (symlink path new_path flags) = path ∷ new_path ∷ []
owned (readlink path) = path ∷ []
owned (chown path uid gid) = path ∷ []
owned (fchown file uid gid) = []
owned (lchown path uid gid) = path ∷ []
owned (sendfile out_fd in_fd in_offset length) = []
owned (chmod path mode) = path ∷ []
owned (fchmod file mode) = []
owned (statfs path) = path ∷ []
owned (utime path atime mtime) = path ∷ []
owned (futime file atime mtime) = []
owned (lutime path atime mtime) = path ∷ []

-- the function that serves a request with a callback
unfoldable pub submit : FsCalls → (l fs cb : Ptr) → Request → M ℤ
unfolding fs_open fs_close fs_ftruncate fs_fsync fs_fdatasync fs_mkdir fs_rmdir fs_copyfile
    fs_unlink fs_scandir fs_rename fs_stat fs_lstat fs_fstat fs_realpath fs_access fs_mkdtemp
    fs_mkstemp fs_opendir fs_closedir fs_readdir fs_link fs_symlink fs_readlink fs_chown fs_fchown
    fs_lchown fs_sendfile fs_chmod fs_fchmod fs_statfs fs_utime fs_futime fs_lutime
submit api l fs cb (open_file path flags mode) = fs_open api.uv_fs_open l fs path flags mode cb
submit api l fs cb (close file) = fs_close api.uv_fs_close l fs file cb
submit api l fs cb (ftruncate file offset) = fs_ftruncate api.uv_fs_ftruncate l fs file offset cb
submit api l fs cb (fsync file) = fs_fsync api.uv_fs_fsync l fs file cb
submit api l fs cb (fdatasync file) = fs_fdatasync api.uv_fs_fdatasync l fs file cb
submit api l fs cb (mkdir path mode) = fs_mkdir api.uv_fs_mkdir l fs path mode cb
submit api l fs cb (rmdir path) = fs_rmdir api.uv_fs_rmdir l fs path cb
submit api l fs cb (copyfile path new_path flags) =
    fs_copyfile api.uv_fs_copyfile l fs path new_path flags cb
submit api l fs cb (unlink path) = fs_unlink api.uv_fs_unlink l fs path cb
submit api l fs cb (scandir path flags) = fs_scandir api.uv_fs_scandir l fs path flags cb
submit api l fs cb (rename path new_path) = fs_rename api.uv_fs_rename l fs path new_path cb
submit api l fs cb (stat path) = fs_stat api.uv_fs_stat l fs path cb
submit api l fs cb (lstat path) = fs_lstat api.uv_fs_lstat l fs path cb
submit api l fs cb (fstat file) = fs_fstat api.uv_fs_fstat l fs file cb
submit api l fs cb (realpath path) = fs_realpath api.uv_fs_realpath l fs path cb
submit api l fs cb (access path mode) = fs_access api.uv_fs_access l fs path mode cb
submit api l fs cb (mkdtemp template_path) = fs_mkdtemp api.uv_fs_mkdtemp l fs template_path cb
submit api l fs cb (mkstemp template_path) = fs_mkstemp api.uv_fs_mkstemp l fs template_path cb
submit api l fs cb (opendir path) = fs_opendir api.uv_fs_opendir l fs path cb
submit api l fs cb (closedir dir) = fs_closedir api.uv_fs_closedir l fs dir cb
submit api l fs cb (readdir dir) = fs_readdir api.uv_fs_readdir l fs dir cb
submit api l fs cb (link path new_path) = fs_link api.uv_fs_link l fs path new_path cb
submit api l fs cb (symlink path new_path flags) =
    fs_symlink api.uv_fs_symlink l fs path new_path flags cb
submit api l fs cb (readlink path) = fs_readlink api.uv_fs_readlink l fs path cb
submit api l fs cb (chown path uid gid) = fs_chown api.uv_fs_chown l fs path uid gid cb
submit api l fs cb (fchown file uid gid) = fs_fchown api.uv_fs_fchown l fs file uid gid cb
submit api l fs cb (lchown path uid gid) = fs_lchown api.uv_fs_lchown l fs path uid gid cb
submit api l fs cb (sendfile out_fd in_fd in_offset length) =
    fs_sendfile api.uv_fs_sendfile l fs out_fd in_fd in_offset length cb
submit api l fs cb (chmod path mode) = fs_chmod api.uv_fs_chmod l fs path mode cb
submit api l fs cb (fchmod file mode) = fs_fchmod api.uv_fs_fchmod l fs file mode cb
submit api l fs cb (statfs path) = fs_statfs api.uv_fs_statfs l fs path cb
submit api l fs cb (utime path atime mtime) = fs_utime api.uv_fs_utime l fs path atime mtime cb
submit api l fs cb (futime file atime mtime) = fs_futime api.uv_fs_futime l fs file atime mtime cb
submit api l fs cb (lutime path atime mtime) = fs_lutime api.uv_fs_lutime l fs path atime mtime cb
