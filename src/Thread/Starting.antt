-- ===== src/Thread/Starting.antt =====
-- src/thread.c: who owns the closure that a thread is started with.
use uv_mbt.Base.{
  ℕ, ℤ, ◌≡◌, refl, ◌≢◌, true, is_error, Bool-cases, inl, inr, if◌then◌else◌, Option, none, some,
  List, [], ◌∷◌, arith,
}
use uv_mbt.Memory.{Ptr, null, State, M}
use uv_mbt.Memory.Idioms.{Answers}
use uv_mbt.Memory.Ledger.{Ends}
use uv_mbt.Memory.Rules.{seq-is, settle}
use uv_mbt.Memory.Shapes.{decrefs-Ends}
use uv_mbt.Thread.{ThreadBlock, thread_create}

-- the status that is returned: the mutex's if it is an error, else the thread's
unfoldable pub first_error : ℤ → ℤ → ℤ
first_error a b = if is_error a then a else b

-- the block that the handle has then
unfoldable pub block_after : ℤ → Option ThreadBlock
block_after status = if is_error status then none else some (record { arc = 1; has_mutex = true })

-- the references that are left to the new thread
unfoldable pub handed_over : ℤ → Ptr → List Ptr
handed_over status cb = if is_error status then [] else cb ∷ []

-- Starting a thread: where both calls of libuv answer and touch neither fields nor counts, the handle
-- is released on every path; the closure goes to the new thread if both calls succeed, and is released
-- if either fails; the first error is returned, and the handle has a block, with its mutex, if and
-- only if there is none.
pub thread_create-Ends :
    (uv_mutex_init : M ℤ) (uv_thread_create_ex : Ptr → ℤ → ℕ → M ℤ) (thread cb : Ptr) (flags : ℤ)
    (stack_size : ℕ) (a b : ℤ) (s : State)
    → Answers a uv_mutex_init
    → Answers b (uv_thread_create_ex cb flags stack_size)
    → thread ≢ null
    → cb ≢ null
    → Ends
        (λ x t. x ≡ (first_error a b, block_after (first_error a b)))
        (cb ∷ thread ∷ [])
        (handed_over (first_error a b) cb)
        s
        (thread_create uv_mutex_init uv_thread_create_ex thread cb flags stack_size s)
unfolding thread_create first_error block_after handed_over
thread_create-Ends uv_mutex_init uv_thread_create_ex thread cb flags stack_size a b s inits starts
      ht hc =
    seq-is _ (inits s) λ t _ _. elim (Bool-cases (is_error a)) [
      | inl e ↦ rw (e, e) (decrefs-Ends (cb ∷ thread ∷ []) (a, none) t (hc, (ht, tt)) λ u k. refl)
      | inr n ↦ rw n (
          seq-is _ (starts t) λ u _ _. elim (Bool-cases (is_error b)) [
            | inl e ↦ rw e (decrefs-Ends (cb ∷ thread ∷ []) (b, none) u (hc, (ht, tt)) λ v k. refl)
            | inr m ↦ rw m (
                settle
                  (decrefs-Ends (thread ∷ []) (b, some (record { arc = 1; has_mutex = true })) u
                    (ht, tt) λ v k. refl)
                  (λ p i. omega arith))
          ])
    ]
