-- ===== src/Tests/Requests.antt =====
-- The theorems on requests at concrete inputs.
use uv_mbt.Base.{pos, refl, [], ◌∷◌, arith}
use uv_mbt.Fs.Blocking.{serve}
use uv_mbt.Fs.Content.{fs_read, fs_write}
use uv_mbt.Fs.Content.Transfer.{Loaded, transfer_ownership}
use uv_mbt.Fs.Dispatch.{FsCalls, rename, call, owned, submit}
use uv_mbt.Fs.Laws.{Begun, Each, submit-Ends, serve-Ends}
use uv_mbt.Memory.{null, read, at}
use uv_mbt.Memory.Cells.{has}
use uv_mbt.Memory.Ledger.{Ends}
use uv_mbt.Tests.Fixtures.{two_bytes, two_offsets, two_lengths, desk, enter, enter-Starts}

-- libuv takes the loop into every request
abbrev pub calls : FsCalls
calls = record {
  uv_fs_open = λ l o a b c d. enter l o;
  uv_fs_close = λ l o a b. enter l o;
  uv_fs_ftruncate = λ l o a b c. enter l o;
  uv_fs_fsync = λ l o a b. enter l o;
  uv_fs_fdatasync = λ l o a b. enter l o;
  uv_fs_mkdir = λ l o a b c. enter l o;
  uv_fs_rmdir = λ l o a b. enter l o;
  uv_fs_copyfile = λ l o a b c d. enter l o;
  uv_fs_unlink = λ l o a b. enter l o;
  uv_fs_scandir = λ l o a b c. enter l o;
  uv_fs_rename = λ l o a b c. enter l o;
  uv_fs_stat = λ l o a b. enter l o;
  uv_fs_lstat = λ l o a b. enter l o;
  uv_fs_fstat = λ l o a b. enter l o;
  uv_fs_realpath = λ l o a b. enter l o;
  uv_fs_access = λ l o a b c. enter l o;
  uv_fs_mkdtemp = λ l o a b. enter l o;
  uv_fs_mkstemp = λ l o a b. enter l o;
  uv_fs_opendir = λ l o a b. enter l o;
  uv_fs_closedir = λ l o a b. enter l o;
  uv_fs_readdir = λ l o a b. enter l o;
  uv_fs_link = λ l o a b c. enter l o;
  uv_fs_symlink = λ l o a b c d. enter l o;
  uv_fs_readlink = λ l o a b. enter l o;
  uv_fs_chown = λ l o a b c d. enter l o;
  uv_fs_fchown = λ l o a b c d. enter l o;
  uv_fs_lchown = λ l o a b c d. enter l o;
  uv_fs_sendfile = λ l o a b c d e. enter l o;
  uv_fs_chmod = λ l o a b c. enter l o;
  uv_fs_fchmod = λ l o a b c. enter l o;
  uv_fs_statfs = λ l o a b. enter l o;
  uv_fs_utime = λ l o a b c d. enter l o;
  uv_fs_futime = λ l o a b c d. enter l o;
  uv_fs_lutime = λ l o a b c d. enter l o;
}

submit-Ends_example :
    Ends
      (Begun (pos 0) 1 41 6 desk)
      (1 ∷ 41 ∷ 44 ∷ 45 ∷ 6 ∷ [])
      (41 ∷ [])
      desk
      (submit calls 1 41 6 (rename 44 45) desk)
unfolding read at has owned call
submit-Ends_example =
    submit-Ends calls (rename 44 45) 1 41 6 (pos 0) desk (enter-Starts 1 41)
      (omega arith, (omega arith, tt)) refl refl

serve-Ends_example :
    Each
      (λ m. Ends (Begun (pos 0) 1 41 null desk) (1 ∷ 41 ∷ 44 ∷ 45 ∷ []) [] desk (m desk))
      (serve calls 1 41 (rename 44 45))
unfolding read at has owned call
serve-Ends_example =
    serve-Ends calls (rename 44 45) 1 41 (pos 0) desk (enter-Starts 1 41)
      (omega arith, (omega arith, (omega arith, tt))) refl refl

transfer_ownership_example :
    Ends (Loaded (pos 0) 1 41 6 50 desk) (6 ∷ 50 ∷ 1 ∷ 51 ∷ 52 ∷ 41 ∷ []) (41 ∷ []) desk (
      fs_read
        (λ l o f b n c. enter l o)
        1
        41
        (pos 3)
        two_bytes
        two_offsets
        two_lengths
        (pos 0)
        6
        desk)
    × Ends (Loaded (pos 0) 1 41 6 50 desk) (6 ∷ 50 ∷ 1 ∷ 51 ∷ 52 ∷ 41 ∷ []) (41 ∷ []) desk (
        fs_write
          (λ l o f b n c. enter l o)
          1
          41
          (pos 3)
          two_bytes
          two_offsets
          two_lengths
          (pos 0)
          6
          desk)
unfolding read at has
transfer_ownership_example =
    transfer_ownership (λ l o f b n c. enter l o) (λ l o f b n c. enter l o) 1 41 6 (pos 3)
      two_bytes two_offsets two_lengths (pos 0) (pos 0) desk (omega arith, omega arith)
      (enter-Starts 1 41) (enter-Starts 1 41) (omega arith, (omega arith, tt)) refl refl refl
