-- ===== src/Thread.antt =====
-- src/thread.c: starting a thread, and the calls on one. `self` is the handle of a thread; its block
-- has a count like the blocks of Shared, behind a mutex.
pub mod Starting
pub mod Sharing
use uv_mbt.Shared.{more_than_one}
use uv_mbt.Base.{
  ◌+◌, ◌-◌, ◌%◌, ◌^◌, ℕ, ℤ, Bool, true, not, is_error, if◌then◌else◌, Option, none, some, [], ◌∷◌,
}
use uv_mbt.Memory.{Ptr, M, ◌>>=◌, ◌>>◌, pure, decref, make}

-- what `thread->block` points to; `has_mutex`: was the mutex initialised?
pub record ThreadBlock : Type 0 where
  pub arc : ℕ
  pub has_mutex : Bool

-- `fresh` is the address of the new object, which owns no object
unfoldable pub thread_make : (fresh : Ptr) → M Ptr
thread_make fresh = make fresh []

-- The end of a handle: what is left of its block. The mutex is locked first, so that only a block
-- with one ends well; the last handle destroys it and frees the block.
unfoldable pub thread_finalize : Option ThreadBlock → Option (Option ThreadBlock)
unfolding more_than_one
thread_finalize none = some none
thread_finalize (some b) =
    if b.has_mutex
    then some (
        if more_than_one b.arc
        then some (record b { arc = (b.arc + 2 ^ 32 - 1) % 2 ^ 32 })
        else none)
    else none

-- the copy is counted under the mutex
unfoldable pub count_copy : ThreadBlock → Option ThreadBlock
count_copy b = if b.has_mutex then some (record b { arc = (b.arc + 1) % 2 ^ 32 }) else none

-- `b` is the block of `self`, which `other` shares then
unfoldable pub thread_copy : (b : ThreadBlock) → (self other : Ptr) → M ThreadBlock
unfolding count_copy
thread_copy b self other = λ s. elim (count_copy b) [
  | none ↦ none
  | some shared ↦ (decref self >> (decref other >> pure shared)) s
]

-- on the new thread
unfoldable pub thread_cb : (code : Ptr → M (Unit {0})) → (arg : Ptr) → M (Unit {0})
thread_cb code arg = code arg

-- the result, and the block of the handle: none where the block is freed again
unfoldable pub thread_create :
    (uv_mutex_init : M ℤ) (uv_thread_create_ex : Ptr → ℤ → ℕ → M ℤ)
    → (thread cb : Ptr) → (flags : ℤ) → (stack_size : ℕ) → M (ℤ × Option ThreadBlock)
thread_create uv_mutex_init uv_thread_create_ex thread cb flags stack_size = do
  status ← uv_mutex_init
  if is_error status
      then (decref cb >> (decref thread >> pure (status, none)))
      else (uv_thread_create_ex cb flags stack_size >>= λ result.
          if is_error result
          then (decref cb >> (decref thread >> pure (result, none)))
          else (decref thread >> pure (result, some (record { arc = 1; has_mutex = true }))))

-- the block is kept where the mutex cannot be initialised
unfoldable pub thread_self : (uv_mutex_init : M ℤ) → (thread : Ptr) → M (ℤ × Option ThreadBlock)
thread_self uv_mutex_init thread = do
  status ← uv_mutex_init
  decref thread
  pure (status, some (record { arc = 1; has_mutex = not (is_error status) }))

unfoldable pub thread_join : (uv_thread_join : Ptr → M ℤ) → (self : Ptr) → M ℤ
thread_join uv_thread_join self = do status ← uv_thread_join self; decref self; pure status

unfoldable pub thread_equal : (uv_thread_equal : Ptr → Ptr → M ℤ) → (t1 t2 : Ptr) → M ℤ
thread_equal uv_thread_equal t1 t2 = do
  equality ← uv_thread_equal t1 t2
  decref t1
  decref t2
  pure equality

unfoldable pub thread_setaffinity :
    (uv_thread_setaffinity : Ptr → Ptr → Ptr → ℕ → M ℤ)
    → (self cpumask oldmask : Ptr) → (mask_size : ℕ) → M ℤ
thread_setaffinity uv_thread_setaffinity self cpumask oldmask mask_size = do
  status ← uv_thread_setaffinity self cpumask oldmask mask_size
  decref self
  pure status

unfoldable pub thread_getaffinity :
    (uv_thread_getaffinity : Ptr → Ptr → ℕ → M ℤ) → (self cpumask : Ptr) → (mask_size : ℕ) → M ℤ
thread_getaffinity uv_thread_getaffinity self cpumask mask_size = do
  status ← uv_thread_getaffinity self cpumask mask_size
  decref self
  pure status

unfoldable pub thread_detach : (uv_thread_detach : Ptr → M ℤ) → (self : Ptr) → M ℤ
thread_detach uv_thread_detach self = do status ← uv_thread_detach self; decref self; pure status

unfoldable pub thread_setname : (uv_thread_setname : Ptr → M ℤ) → (name : Ptr) → M ℤ
thread_setname uv_thread_setname name = do status ← uv_thread_setname name; decref name; pure status

unfoldable pub thread_getname :
    (uv_thread_getname : Ptr → Ptr → ℕ → M ℤ) → (self name : Ptr) → (size : ℕ) → M ℤ
thread_getname uv_thread_getname self name size = do
  status ← uv_thread_getname self name size
  decref self
  pure status

unfoldable pub thread_setpriority :
    (uv_thread_setpriority : Ptr → ℤ → M ℤ) → (self : Ptr) → (priority : ℤ) → M ℤ
thread_setpriority uv_thread_setpriority self priority = do
  status ← uv_thread_setpriority self priority
  decref self
  pure status

unfoldable pub thread_getpriority :
    (uv_thread_getpriority : Ptr → Ptr → M ℤ) → (self priority : Ptr) → M ℤ
thread_getpriority uv_thread_getpriority self priority = do
  status ← uv_thread_getpriority self priority
  decref self
  pure status
