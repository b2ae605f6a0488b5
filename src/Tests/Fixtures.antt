-- ===== src/Tests/Fixtures.antt =====
-- What the tests share: a state with some handles and requests, libuv's part, and the MoonBit code's.
use uv_mbt.Base.{ℤ, pos, ◌≡◌, ◌≢◌, refl, List, [], ◌∷◌}
use uv_mbt.Memory.{
  Ptr, null, Field, Cell, loop, dat, bufs_base, bytes, alloc_cb, read_cb, cb, bufs, buffer, work_cb,
  after_cb, State, M, and_then, pure, put, make, decref,
}
use uv_mbt.Memory.Idioms.{Answers, Consumes, IsQuiet, Starts, fill-then}
use uv_mbt.Memory.Ledger.{Ends}
use uv_mbt.Memory.Rules.{Reads, pure-Ends, seq, make-then, decref-Same}
use uv_mbt.Memory.Shapes.{decrefs, NotNull, decrefs-Ends}
use uv_mbt.Stream.Arrays.{RefArray, IntArray}
use uv_mbt.Stream.Reading.{Allocated}
use uv_mbt.Watcher.Session.{Steady}

abbrev pub cell : Ptr → Field → Ptr → Cell
cell o f v = record { object = o; field = f; value = v }

-- 7 is a handle that is started, 8 one that was only made, 9 a stream that reads into 20, 10 one
-- that is about to, with 25; 30 is a request with the record 31, 40 one on the file system that has
-- begun, 41 one that was only made.
abbrev pub desk : State
desk = record {
  cells =
      cell 7 loop 1
      ∷ cell 7 dat 5
      ∷ cell 8 loop null
      ∷ cell 8 dat null
      ∷ cell 9 loop 1
      ∷ cell 9 dat 20
      ∷ cell 20 bytes 21
      ∷ cell 20 alloc_cb 22
      ∷ cell 20 read_cb 23
      ∷ cell 10 dat 25
      ∷ cell 25 bytes null
      ∷ cell 25 alloc_cb 26
      ∷ cell 30 loop 1
      ∷ cell 30 dat 31
      ∷ cell 31 cb 32
      ∷ cell 31 bufs 33
      ∷ cell 31 buffer 100
      ∷ cell 31 work_cb 35
      ∷ cell 31 after_cb 36
      ∷ cell 40 loop 1
      ∷ cell 40 dat 42
      ∷ cell 40 bufs_base 43
      ∷ cell 41 loop null
      ∷ cell 41 dat null
      ∷ cell 41 bufs_base null
      ∷ [];
  log = [];
}

-- libuv answers 0 and does nothing that the bindings see
abbrev pub done : M ℤ
done = pure (pos 0)

pub done-Answers : Answers (pos 0) done
done-Answers s = pure-Ends (pos 0) s (refl, refl)

abbrev pub nothing : M (Unit {0})
nothing = pure tt

pub nothing-IsQuiet : IsQuiet nothing
nothing-IsQuiet s = pure-Ends tt s refl

-- libuv stores the loop, and answers 0
abbrev pub enter : (l o : Ptr) → M ℤ
enter l o s = and_then (put o loop l s) (λ _. pure (pos 0))

pub enter-Starts : (l o : Ptr) → Starts (pos 0) l o (enter l o)
enter-Starts l o s e = fill-then o loop l _ e λ t w. pure-Ends (pos 0) t (refl, w)

-- the MoonBit code releases what it was passed
abbrev pub swallow : List Ptr → M (Unit {0})
swallow ps = decrefs ps tt

pub swallow-Consumes : (ps : List Ptr) → NotNull ps → Consumes ps [] (swallow ps)
swallow-Consumes ps nn s = decrefs-Ends ps tt s nn λ t e. tt

pub swallow-Steady : (o c : Ptr) → NotNull (c ∷ o ∷ []) → Steady o c (swallow (c ∷ o ∷ []))
swallow-Steady o c nn s e = decrefs-Ends (c ∷ o ∷ []) tt s nn λ t k. rw k e

abbrev pub two_bytes : RefArray
two_bytes = record { address = 50; items = 200 ∷ 300 ∷ [] }

abbrev pub two_offsets : IntArray
two_offsets = record { address = 51; items = 1 ∷ 2 ∷ [] }

abbrev pub two_lengths : IntArray
two_lengths = record { address = 52; items = 10 ∷ 20 ∷ [] }

-- the MoonBit code of an allocation callback: it releases what it was passed, and answers a part of
-- a new block
abbrev pub give : (c h block : Ptr) → M Allocated
give c h block s = and_then (make block [] s) λ b t.
    and_then (decref c t)
      λ _ u. and_then (decref h u) λ _. pure (record { block = b; offset = 3; extent = 8 })

pub give-Ends :
    (c h block d : Ptr)
    → c ≢ null
    → h ≢ null
    → (t : State) → Reads d bytes null t
    → Ends
        (λ x u. (x ≡ record { block = block; offset = 3; extent = 8 }) × Reads d bytes null u)
        (c ∷ h ∷ [])
        (block ∷ [])
        t
        (give c h block t)
give-Ends c h block d hc hh t e = make-then block [] _ λ u k _.
    seq (decref-Same c u hc)
      λ _ v k2 _. seq (decref-Same h v hh) λ _ w k3 _. pure-Ends _ w (refl, rw (k3, k2, k) e)
