-- ===== src/Shared.antt =====
-- src/sem.c, and with the same text rwlock.c, cond.c and mutex.c: a block that handles of several
-- threads share, with an atomic count (the branch with stdatomic.h). A fault is an access to freed storage or to
-- an object that is not there.
pub mod Life
use uv_mbt.Base.{
  ℕ, ℤ, pos, ◌+◌, ◌-◌, ◌%◌, ◌^◌, Bool, true, false, not, ◌&&◌, Option, none, some, ltb,
  if◌then◌else◌, is_error,
}

-- what `sem->block` points to
pub record Block : Type 0 where
  pub arc : ℕ  -- _Atomic int32_t
  pub is_initialised : Bool  -- the object of libuv
  pub is_allocated : Bool

-- `atomic_fetch_add(&block->arc, 1)`
unfoldable pub fetch_add : Block → Option Block
fetch_add b = if b.is_allocated then some (record b { arc = (b.arc + 1) % 2 ^ 32 }) else none

-- `atomic_fetch_sub(&block->arc, 1)`, with the old count
unfoldable pub fetch_sub : Block → Option (ℕ × Block)
fetch_sub b =
    if b.is_allocated then some (b.arc, record b { arc = (b.arc + 2 ^ 32 - 1) % 2 ^ 32 }) else none

-- `uv_sem_destroy(&block->object)`
unfoldable pub destroy : Block → Option Block
destroy b =
    if b.is_allocated && b.is_initialised then some (record b { is_initialised = false }) else none

-- `free(block)`
unfoldable pub free : Block → Option Block
free b = if b.is_allocated then some (record b { is_allocated = false }) else none

-- `arc > 1`, where `arc` is an `int32_t`
unfoldable pub more_than_one : ℕ → Bool
more_than_one arc = ltb 1 arc && ltb arc (2 ^ 31)

-- The first half of the finalizer, up to its early return: is the second half to run?
unfoldable pub finalize_enter : Block → Option (Bool × Block)
unfolding fetch_sub more_than_one
finalize_enter b = elim (fetch_sub b) [
  | none ↦ none
  | some (arc, b') ↦ some (not (more_than_one arc), b')
]

-- The second half of the finalizer.
unfoldable pub finalize_leave : Block → Option Block
unfolding destroy free
finalize_leave b = elim (destroy b) [ none ↦ none | some b' ↦ free b' ]

-- `moonbit_uv_sem_init`, where `status` is what `uv_sem_init` answers; no block where it fails
unfoldable pub sem_init : (status : ℤ) → ℤ × Option Block
sem_init status =
    if is_error status
    then (status, none)
    else (status, some (record { arc = 1; is_initialised = true; is_allocated = true }))

-- `moonbit_uv_sem_copy`: `other->block` is `self->block` then
unfoldable pub sem_copy : Block → Option Block
unfolding fetch_add
sem_copy self = fetch_add self

-- `post`, `wait` and `trywait` use the object of the block
unfoldable pub sem_use : Block → Option Block
sem_use b = if b.is_allocated && b.is_initialised then some b else none
