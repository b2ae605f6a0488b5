-- ===== src/Shared/Life.antt =====
-- The life of a shared block: what the threads that hold a handle may do, in any order, between
-- the atomic steps of each other.
use uv_mbt.Base.{ℕ, ◌+◌, ◌-◌, ◌^◌, ◌≤◌, ◌<◌, ◌≡◌, ◌≢◌, ◌↔◌, Bool, true, false, none, some, arith}
use uv_mbt.Shared.{
  Block, fetch_add, fetch_sub, destroy, free, more_than_one, finalize_enter, finalize_leave,
  sem_copy, sem_use,
}

-- a block, the handles that point to it, and the finalizers that are in their second half
pub record World : Type 0 where
  pub block : Block
  pub handles : ℕ
  pub leaving : ℕ

-- after a finalizer's first half
abbrev pub entered : World → Bool → Block → World
entered w true b = record { block = b; handles = w.handles - 1; leaving = w.leaving + 1 }
entered w false b = record { block = b; handles = w.handles - 1; leaving = w.leaving }

-- A step is an operation of a thread that holds a handle, or the second half of a finalizer. There
-- are fewer than 2^31 handles at a time.
pub data Step (w v : World) : Type 0 where
  copy :
      (b : Block)
      → 0 < w.handles
      → w.handles + 1 < 2 ^ 31
      → sem_copy w.block ≡ some b
      → v ≡ record w { block = b; handles = w.handles + 1 }
      → Step w v
  operate :
      (b : Block) → 0 < w.handles → sem_use w.block ≡ some b → v ≡ record w { block = b } → Step w v
  enter :
      (last : Bool) (b : Block)
      → 0 < w.handles
      → finalize_enter w.block ≡ some (last, b)
      → v ≡ entered w last b
      → Step w v
  leave :
      (b : Block)
      → 0 < w.leaving
      → finalize_leave w.block ≡ some b
      → v ≡ record w { block = b; leaving = w.leaving - 1 }
      → Step w v

pub data Reach (w : World) : World → Type 0 where
  here : Reach w w
  next : {u v : World} → Reach w u → Step u v → Reach w v

-- the world after a successful `sem_init`
abbrev pub start : World
start = record {
  block = record { arc = 1; is_initialised = true; is_allocated = true };
  handles = 1;
  leaving = 0;
}

-- While there are handles the count is theirs, and nobody is to free the block; when there are none
-- one finalizer is to free it, or has done so.
pub record Inv (w : World) : Type 0 where
  pub capped : w.handles < 2 ^ 31
  pub counted : w.block.arc ≡ w.handles
  pub alone : 0 < w.handles → w.leaving ≡ 0
  pub one : w.leaving ≤ 1
  pub live :
      0 < w.handles + w.leaving → (w.block.is_initialised ≡ true) × (w.block.is_allocated ≡ true)
  pub gone :
      w.handles + w.leaving ≡ 0 → (w.block.is_initialised ≡ false) × (w.block.is_allocated ≡ false)

Step-Inv : {w v : World} → Step w v → Inv w → Inv v
unfolding sem_copy sem_use finalize_enter finalize_leave fetch_add fetch_sub destroy free
    more_than_one
Step-Inv (copy b h c e q) i = ground arith
Step-Inv (operate b h e q) i = ground arith
Step-Inv (enter true b h e q) i = ground arith
Step-Inv (enter false b h e q) i = ground arith
Step-Inv (leave b h e q) i = ground arith

-- Whatever the threads do, in any order of their atomic steps: the count of the block is the number
-- of handles, at most one finalizer is to free it, and it is there while there are handles.
pub Reach-Inv : {w : World} → Reach start w → Inv w
Reach-Inv here = ground arith
Reach-Inv (next r st) = Step-Inv st (Reach-Inv r)

-- Nothing faults: in every world that the threads can reach, a thread that holds a handle can copy
-- it, use the object and run the first half of the finalizer, and a finalizer that is in its second
-- half can finish; no freed storage and no destroyed object is touched.
pub Reach-safe :
    {w : World}
    → Reach start w
    → (0 < w.handles
        → (sem_copy w.block ≢ none)
          × (sem_use w.block ≡ some w.block)
          × (finalize_enter w.block ≢ none))
      × (0 < w.leaving → finalize_leave w.block ≢ none)
unfolding sem_copy sem_use finalize_enter finalize_leave fetch_add fetch_sub destroy free
    more_than_one
Reach-safe {w} r =
    let i = Reach-Inv r in
    (
      λ h. let l = i.live (omega arith) in (ground arith, ground arith, ground arith),
      λ h. let l = i.live (omega arith) in ground arith,
    )

-- When the last handle is gone and its finalizer is done, the object is destroyed and the block
-- freed; before that neither is.
pub Reach-ended :
    {w : World}
    → Reach start w
    → ((w.handles + w.leaving ≡ 0) ↔ (w.block.is_allocated ≡ false))
      × (w.block.is_allocated ≡ w.block.is_initialised)
Reach-ended {w} r = let i = Reach-Inv r in ground arith
