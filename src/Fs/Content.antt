-- ===== src/Fs/Content.antt =====
-- The requests of src/fs.c that read or write a file's content.
pub mod Transfer
use uv_mbt.Base.{ℤ, List}
use uv_mbt.Fs.Request.{Completion, calls_back, waits, fs_set_data, fs_set_bufs}
use uv_mbt.Memory.{Ptr, null, M, ◌>>=◌, ◌>>◌, pure, decref}
use uv_mbt.Stream.Arrays.{RefArray, IntArray, init_bufs}
use uv_mbt.Stream.Reading.{Buf}

-- `uv_fs_read` and `uv_fs_write`
abbrev pub Transfer : Type 0
Transfer = Ptr → Ptr → ℤ → List Buf → ℤ → Completion → M ℤ

unfoldable pub fs_read :
    (uv_fs_read : Transfer) (l fs : Ptr) (file : ℤ) (base : RefArray) (offsets lengths : IntArray)
    (offset : ℤ)
    → (cb : Ptr) → M ℤ
unfolding fs_set_data fs_set_bufs
fs_read uv_fs_read l fs file base offsets lengths offset cb = do
  bufs_data ← init_bufs base offsets lengths
  fs_set_data fs cb
  fs_set_bufs fs base.address
  result ← uv_fs_read l fs file bufs_data offset calls_back
  decref offsets.address
  decref lengths.address
  pure result

unfoldable pub fs_read_sync :
    (uv_fs_read : Transfer) (l fs : Ptr) (file : ℤ) (base : RefArray) (offsets lengths : IntArray)
    (offset : ℤ)
    → M ℤ
unfolding fs_set_data fs_set_bufs
fs_read_sync uv_fs_read l fs file base offsets lengths offset = do
  bufs_data ← init_bufs base offsets lengths
  fs_set_data fs null
  fs_set_bufs fs null
  result ← uv_fs_read l fs file bufs_data offset waits
  decref fs
  decref base.address
  decref offsets.address
  decref lengths.address
  pure result

unfoldable pub fs_write :
    (uv_fs_write : Transfer) (l fs : Ptr) (file : ℤ) (base : RefArray) (offsets lengths : IntArray)
    (offset : ℤ)
    → (cb : Ptr) → M ℤ
unfolding fs_set_data fs_set_bufs
fs_write uv_fs_write l fs file base offsets lengths offset cb = do
  bufs ← init_bufs base offsets lengths
  fs_set_data fs cb
  fs_set_bufs fs base.address
  result ← uv_fs_write l fs file bufs offset calls_back
  decref offsets.address
  decref lengths.address
  pure result

-- the request owns the buffers here, unlike in `fs_read_sync`
unfoldable pub fs_write_sync :
    (uv_fs_write : Transfer) (l fs : Ptr) (file : ℤ) (base : RefArray) (offsets lengths : IntArray)
    (offset : ℤ)
    → M ℤ
unfolding fs_set_data fs_set_bufs
fs_write_sync uv_fs_write l fs file base offsets lengths offset = do
  bufs ← init_bufs base offsets lengths
  fs_set_data fs null
  fs_set_bufs fs base.address
  result ← uv_fs_write l fs file bufs offset waits
  decref fs
  decref offsets.address
  decref lengths.address
  pure result
