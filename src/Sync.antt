-- ===== src/Sync.antt =====
-- The locks that threads share: src/rwlock.c, cond.c and mutex.c, and src/sem.c with the release of the parameters. The
-- block of such a handle is that of Shared; the functions have the same text but for the names. A handle is an
-- object of the runtime, and its block an argument of the functions.
pub mod Rwlock
pub mod Cond
pub mod Mutex
pub mod Sem
pub mod Guarded
pub mod Releases
use uv_mbt.Base.{ℤ, Bool, true, false, Option, none, some, []}
use uv_mbt.Memory.{Ptr, State, M, ◌>>=◌, ◌>>◌, pure, decref, make}
use uv_mbt.Shared.{Block, sem_init, sem_copy, sem_use, finalize_enter, finalize_leave}

-- `&handle->block->object` is passed to libuv; a fault where there is no such object
unfoldable pub with_object : {A : Type 0} → Block → M A → M A
with_object b m s = elim (sem_use b) [ none ↦ none | some live ↦ m s ]

-- The block has a count of 1 where libuv's object could be initialised, and is freed again where not.
unfoldable pub init_handle : (uv_init : M ℤ) → (handle : Ptr) → M (ℤ × Option Block)
init_handle uv_init handle = do status ← uv_init; decref handle; pure (sem_init status)

-- `b` is the block of `self`, which `other` shares then
unfoldable pub copy_handle : (b : Block) → (self other : Ptr) → M Block
copy_handle b self other s = elim (sem_copy b) [
  | none ↦ none
  | some shared ↦ (decref self >> (decref other >> pure shared)) s
]

-- the finalizer, where no other thread comes between its halves; a handle without a block has nothing to end
unfoldable pub end_handle : Option Block → Option (Option Block)
end_handle none = some none
end_handle (some b) = elim (finalize_enter b) [
  | none ↦ none
  | some (last, b') ↦ elim last [
    | true ↦ elim (finalize_leave b') [ none ↦ none | some b'' ↦ some (some b'') ]
    | false ↦ some (some b')
  ]
]

-- a call that answers nothing
unfoldable pub call_quietly : (m : M (Unit {0})) → (b : Block) → (handle : Ptr) → M (Unit {0})
call_quietly m b handle = do with_object b m; decref handle

-- a call with an answer
unfoldable pub call_answered : (m : M ℤ) → (b : Block) → (handle : Ptr) → M ℤ
call_answered m b handle = do status ← with_object b m; decref handle; pure status
