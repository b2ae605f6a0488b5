-- ===== src/Tests/Blocks.antt =====
-- The theorems on shared blocks at a run of two threads: one copies its handle for the other, both
-- let go of theirs, and the last one frees the block.
use uv_mbt.Base.{◌+◌, ◌<◌, ◌≡◌, ◌≢◌, ◌↔◌, refl, false, true, none, some, arith}
use uv_mbt.Shared.{
  Block, sem_copy, sem_use, finalize_enter, finalize_leave, fetch_add, fetch_sub, destroy, free,
  more_than_one,
}
use uv_mbt.Shared.Life.{
  World, start, copy, operate, enter, leave, Reach, here, next, Reach-safe, Reach-ended,
}

abbrev held : Block
held = record { arc = 1; is_initialised = true; is_allocated = true }

abbrev shared : Block
shared = record { arc = 2; is_initialised = true; is_allocated = true }

abbrev dying : Block
dying = record { arc = 0; is_initialised = true; is_allocated = true }

abbrev dead : Block
dead = record { arc = 0; is_initialised = false; is_allocated = false }

abbrev at_work : World
at_work = record { block = shared; handles = 2; leaving = 0 }

abbrev at_last : World
at_last = record { block = dying; handles = 0; leaving = 1 }

abbrev at_end : World
at_end = record { block = dead; handles = 0; leaving = 0 }

Reach-at_work : Reach start at_work
unfolding sem_copy fetch_add sem_use
Reach-at_work =
    next (next here (copy shared (omega arith) (omega arith) refl refl))
      (operate shared (omega arith) refl refl)

Reach-at_last : Reach start at_last
unfolding finalize_enter fetch_sub more_than_one
Reach-at_last =
    next (next Reach-at_work (enter false held (omega arith) refl refl))
      (enter true dying (omega arith) refl refl)

Reach-at_end : Reach start at_end
unfolding finalize_leave destroy free
Reach-at_end = next Reach-at_last (leave dead (omega arith) refl refl)

Reach-safe_example :
    (0 < 0 → (sem_copy dying ≢ none) × (sem_use dying ≡ some dying) × (finalize_enter dying ≢ none))
    × (0 < 1 → finalize_leave dying ≢ none)
Reach-safe_example = Reach-safe Reach-at_last

Reach-ended_example :
    ((0 + 0 ≡ 0) ↔ (dead.is_allocated ≡ false)) × (dead.is_allocated ≡ dead.is_initialised)
Reach-ended_example = Reach-ended Reach-at_end
