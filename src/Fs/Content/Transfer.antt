-- ===== src/Fs/Content/Transfer.antt =====
-- The ownership of the buffers of a read or a write of src/fs.c.
use uv_mbt.Base.{ℤ, ◌≡◌, ◌∙◌, ap, inr, List, [], ◌∷◌, arith}
use uv_mbt.Fs.Content.{Transfer, fs_read, fs_read_sync, fs_write, fs_write_sync}
use uv_mbt.Fs.Request.{calls_back, waits}
use uv_mbt.Memory.{Ptr, null, loop, dat, bufs_base, State, M, and_then, write}
use uv_mbt.Memory.Cells.{read-write_other}
use uv_mbt.Memory.Idioms.{Starts, replace, replace-Wrote}
use uv_mbt.Memory.Ledger.{Ends}
use uv_mbt.Memory.Rules.{Has, Reads, seq, settle, same-null}
use uv_mbt.Memory.Shapes.{decrefs, NotNull, decrefs-Ends}
use uv_mbt.Stream.Arrays.{RefArray, IntArray, Covers, zip_bufs, init_bufs-then}

-- the result is libuv's, and the request object owns the callback, the buffers and the loop
abbrev pub Loaded : ℤ → (l fs cb base : Ptr) → State → ℤ → State → Type 0
Loaded r l fs cb base s x t =
    (x ≡ r) × (t.cells ≡ write fs loop l (write fs bufs_base base (write fs dat cb s.cells)))

-- the body of such a request, after the buffers are built
transfer-Ends :
    (m : M ℤ) (l fs cb base : Ptr) (r : ℤ) (ps : List Ptr) (s : State)
    → Starts r l fs m
    → NotNull ps
    → Has fs dat s
    → Has fs bufs_base s
    → Reads fs loop null s
    → Ends (Loaded r l fs cb base s) (cb ∷ base ∷ l ∷ ps) [] s (
        and_then
          (replace fs dat cb s)
          λ _ t. and_then (replace fs bufs_base base t) λ _ u. and_then (m u) (λ x. decrefs ps x))
transfer-Ends m l fs cb base r ps s starts nn hd hb e =
    seq (replace-Wrote fs dat cb s hd) λ _ t w k.
      seq (replace-Wrote fs bufs_base base t (k.kept.keeps fs bufs_base hb)) λ _ u w2 _.
        let fresh : Reads fs loop null u =
          rw
            (
              w2,
              read-write_other fs bufs_base base fs loop t.cells (inr (omega arith)),
              w,
              read-write_other fs dat cb fs loop s.cells (inr (omega arith)),
            )
            e in
        seq (starts u fresh) λ x v (ex, k2) _.
          decrefs-Ends ps x v nn
            λ y k3. (ex, k3 ∙ (k2 ∙ ap (write fs loop l) (w2 ∙ ap (write fs bufs_base base) w)))

-- Reading and writing with a callback, on a fresh request object and with arrays that are long
-- enough: where libuv takes the loop into the object and answers `r`, the object owns the callback,
-- the array of bytes and the loop, no other field is written, the two arrays of numbers are released,
-- the reference to the object stays with libuv, and libuv's answer is returned.
pub transfer_ownership :
    (uv_fs_read uv_fs_write : Transfer) (l fs cb : Ptr) (file : ℤ) (base : RefArray)
    (offsets lengths : IntArray) (offset r : ℤ) (s : State)
    → Covers base.items offsets.items lengths.items
    → Starts r l fs
        (uv_fs_read l fs file (zip_bufs base.items offsets.items lengths.items) offset calls_back)
    → Starts r l fs
        (uv_fs_write l fs file (zip_bufs base.items offsets.items lengths.items) offset calls_back)
    → NotNull (offsets.address ∷ lengths.address ∷ [])
    → Has fs dat s
    → Has fs bufs_base s
    → Reads fs loop null s
    → Ends
        (Loaded r l fs cb base.address s)
        (cb ∷ base.address ∷ l ∷ offsets.address ∷ lengths.address ∷ fs ∷ [])
        (fs ∷ [])
        s
        (fs_read uv_fs_read l fs file base offsets lengths offset cb s)
      × Ends
          (Loaded r l fs cb base.address s)
          (cb ∷ base.address ∷ l ∷ offsets.address ∷ lengths.address ∷ fs ∷ [])
          (fs ∷ [])
          s
          (fs_write uv_fs_write l fs file base offsets lengths offset cb s)
unfolding fs_read fs_write
transfer_ownership uv_fs_read uv_fs_write l fs cb file base offsets lengths offset r s long reads
      writes nn hd hb e =
    (
      settle
          (init_bufs-then base offsets lengths _ long (
            transfer-Ends
              (uv_fs_read l fs file (zip_bufs base.items offsets.items lengths.items) offset
                calls_back)
              l fs cb base.address r (offsets.address ∷ lengths.address ∷ []) s reads nn hd hb e))
          (λ p i. omega arith),
      settle
          (init_bufs-then base offsets lengths _ long (
            transfer-Ends
              (uv_fs_write l fs file (zip_bufs base.items offsets.items lengths.items) offset
                calls_back)
              l fs cb base.address r (offsets.address ∷ lengths.address ∷ []) s writes nn hd hb e))
          (λ p i. omega arith),
    )

-- Reading and writing that wait, under the same conditions: the object owns the loop and no callback,
-- and the parameters are released once each, where the array of bytes is the object's after a write
-- and is released at once after a read.
transfer_sync-Ends :
    (uv_fs_read uv_fs_write : Transfer) (l fs : Ptr) (file : ℤ) (base : RefArray)
    (offsets lengths : IntArray) (offset r : ℤ) (s : State)
    → Covers base.items offsets.items lengths.items
    → Starts r l fs
        (uv_fs_read l fs file (zip_bufs base.items offsets.items lengths.items) offset waits)
    → Starts r l fs
        (uv_fs_write l fs file (zip_bufs base.items offsets.items lengths.items) offset waits)
    → NotNull (fs ∷ base.address ∷ offsets.address ∷ lengths.address ∷ [])
    → Has fs dat s
    → Has fs bufs_base s
    → Reads fs loop null s
    → Ends
        (Loaded r l fs null null s)
        (base.address ∷ l ∷ offsets.address ∷ lengths.address ∷ fs ∷ [])
        []
        s
        (fs_read_sync uv_fs_read l fs file base offsets lengths offset s)
      × Ends
          (Loaded r l fs null base.address s)
          (base.address ∷ l ∷ offsets.address ∷ lengths.address ∷ fs ∷ [])
          []
          s
          (fs_write_sync uv_fs_write l fs file base offsets lengths offset s)
unfolding fs_read_sync fs_write_sync
transfer_sync-Ends uv_fs_read uv_fs_write l fs file base offsets lengths offset r s long reads
      writes (hf, (hs, (ho, (hl, nn)))) hd hb e =
    (
      settle
          (init_bufs-then base offsets lengths _ long (
            transfer-Ends
              (uv_fs_read l fs file (zip_bufs base.items offsets.items lengths.items) offset waits)
              l fs null null r (fs ∷ base.address ∷ offsets.address ∷ lengths.address ∷ []) s reads
              (hf, (hs, (ho, (hl, nn)))) hd hb e))
          (λ p i. omega (arith, same-null p i)),
      settle
          (init_bufs-then base offsets lengths _ long (
            transfer-Ends
              (uv_fs_write l fs file (zip_bufs base.items offsets.items lengths.items) offset waits)
              l fs null base.address r (fs ∷ offsets.address ∷ lengths.address ∷ []) s writes
              (hf, (ho, (hl, nn))) hd hb e))
          (λ p i. omega (arith, same-null p i)),
    )
