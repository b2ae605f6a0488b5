-- ===== src/Sync/Guarded.antt =====
-- src/rwlock.c, cond.c, mutex.c and sem.c: the branch for compilers without stdatomic.h, where a mutex guards the
-- count of the block, and that it does what the other branch does.
use uv_mbt.Base.{
  ℕ, ℤ, ◌+◌, ◌-◌, ◌%◌, ◌^◌, ◌≡◌, ◌≢◌, refl, ap, ◌∙◌, inl, inr, Bool, Bool-cases, true, false, ◌&&◌,
  Option, none, some, List, [], ◌∷◌, arith, is_error, if◌then◌else◌,
}
use mathlib.Core.Path.{sym}
use mathlib.Core.Option.{bind}
use uv_mbt.Memory.{Ptr, null, State, M, ◌>>=◌, ◌>>◌, pure, decref}
use uv_mbt.Memory.Idioms.{Answers}
use uv_mbt.Memory.Ledger.{Ends}
use uv_mbt.Memory.Rules.{seq-is}
use uv_mbt.Memory.Shapes.{decrefs-Ends}
use uv_mbt.Shared.{
  Block, fetch_add, fetch_sub, destroy, free, more_than_one, finalize_enter, finalize_leave,
  sem_init, sem_copy, sem_use,
}
use uv_mbt.Sync.{init_handle}

-- the block of this branch: `block` and the mutex before its object
pub record Guarded : Type 0 where
  pub block : Block
  pub has_mutex : Bool

unfoldable pub guarded_init :
    (uv_mutex_init uv_init : M ℤ) → (handle : Ptr) → M (ℤ × Option Guarded)
guarded_init uv_mutex_init uv_init handle = do
  status ← uv_mutex_init
  if is_error status
      then (decref handle >> pure (status, none))
      else (uv_init >>= λ result.
          if is_error result
          then (decref handle >> pure (result, none))
          else (decref handle
              >> pure (
                result,
                some (record {
                  block = record { arc = 1; is_initialised = true; is_allocated = true };
                  has_mutex = true;
                }),
              )))

-- `uv_mutex_lock(&block->mutex)` and the unlocking: a fault where there is no mutex
unfoldable pub guarded_count : Guarded → ℕ → Option Guarded
guarded_count g arc =
    if g.block.is_allocated && g.has_mutex
    then some (record g { block = record g.block { arc = arc } })
    else none

unfoldable pub guarded_copy : Guarded → Option Guarded
unfolding guarded_count
guarded_copy g = guarded_count g ((g.block.arc + 1) % 2 ^ 32)

-- `uv_mutex_destroy(&block->mutex)`, `uv_..._destroy(&block->object)` and `free(block)`
unfoldable pub guarded_free : Guarded → Option Guarded
guarded_free g =
    if g.has_mutex && g.block.is_allocated && g.block.is_initialised
    then some (record {
      block = record g.block { is_initialised = false; is_allocated = false };
      has_mutex = false;
    })
    else none

unfoldable pub guarded_finalize : Guarded → Option Guarded
unfolding guarded_count guarded_free more_than_one
guarded_finalize g = elim (guarded_count g ((g.block.arc + 2 ^ 32 - 1) % 2 ^ 32)) [
  | none ↦ none
  | some g' ↦ if more_than_one g.block.arc then some g' else guarded_free g'
]

unfoldable pub guarded_use : Guarded → Option Guarded
guarded_use g = if g.block.is_allocated && g.block.is_initialised then some g else none

-- what happens to a block
pub data Event : Type 0 where
  copied : Event
  used : Event
  ended : Event

unfoldable pub happen_guarded : Event → Guarded → Option Guarded
unfolding guarded_copy guarded_use guarded_finalize
happen_guarded copied g = guarded_copy g
happen_guarded used g = guarded_use g
happen_guarded ended g = guarded_finalize g

-- one after the other in the branch with the atomic count
unfoldable pub happen_atomic : Event → Block → Option Block
unfolding sem_copy sem_use finalize_enter finalize_leave fetch_sub fetch_add more_than_one destroy
    free
happen_atomic copied b = sem_copy b
happen_atomic used b = sem_use b
happen_atomic ended b = elim (finalize_enter b) [
  | none ↦ none
  | some (last, b') ↦ if last then finalize_leave b' else some b'
]

unfoldable pub guarded_history : List Event → Guarded → Option Guarded
guarded_history [] g = some g
guarded_history (e ∷ es) g = bind (happen_guarded e g) (guarded_history es)

unfoldable pub atomic_history : List Event → Block → Option Block
atomic_history [] b = some b
atomic_history (e ∷ es) b = bind (happen_atomic e b) (atomic_history es)

-- the block without its mutex
abbrev pub forget_mutex : Option Guarded → Option Block
forget_mutex none = none
forget_mutex (some g) = some g.block

-- the mutex is there as long as the block is
abbrev pub IsWhole : Guarded → Type 0
IsWhole g = g.has_mutex ≡ g.block.is_allocated

happen-agrees :
    (e : Event) (g : Guarded)
    → IsWhole g
    → forget_mutex (happen_guarded e g) ≡ happen_atomic e g.block
unfolding happen_guarded happen_atomic
happen-agrees copied g w = ground arith
happen-agrees used g w = ground arith
happen-agrees ended g w = ground arith

happen-IsWhole : (e : Event) (g h : Guarded) → IsWhole g → happen_guarded e g ≡ some h → IsWhole h
unfolding happen_guarded
happen-IsWhole copied g h w e = ground arith
happen-IsWhole used g h w e = ground arith
happen-IsWhole ended g h w e = ground arith

next_agrees :
    (e : Event) (es : List Event) (g : Guarded)
    → IsWhole g
    → ((h : Guarded) → IsWhole h → forget_mutex (guarded_history es h) ≡ atomic_history es h.block)
    → forget_mutex (guarded_history (e ∷ es) g) ≡ atomic_history (e ∷ es) g.block
unfolding guarded_history atomic_history bind
next_agrees e es g w ih = go (happen_guarded e g) refl
  where
    go :
        (m : Option Guarded)
        → happen_guarded e g ≡ m
        → forget_mutex (bind m (guarded_history es))
          ≡ bind (happen_atomic e g.block) (atomic_history es)
    go none k = ap (λ r. bind r (atomic_history es)) (sym (ap forget_mutex k) ∙ happen-agrees e g w)
    go (some h) k =
        ih h (happen-IsWhole e g h w k)
        ∙ ap (λ r. bind r (atomic_history es)) (sym (ap forget_mutex k) ∙ happen-agrees e g w)

-- The two branches of the preprocessor agree: whatever copies, uses and ends of its handles a block sees, one after
-- the other, it is the same block after them in both, but for the mutex, and a fault in the one branch is
-- one in the other; the mutex is taken to be there as long as the block is, as it is at first.
pub history-agrees :
    (es : List Event) (g : Guarded)
    → IsWhole g
    → forget_mutex (guarded_history es g) ≡ atomic_history es g.block
unfolding guarded_history atomic_history
history-agrees [] g w = refl
history-agrees (e ∷ es) g w = next_agrees e es g w (λ h. history-agrees es h)

-- Initialising a handle, in the one branch and in the other: where the calls of libuv answer and touch neither
-- fields nor counts, the handle is released. Where the guarding mutex is initialised, both return the answer
-- of the object's initialisation, and both have a block with a count of 1 if it is no error, and none if it is one; where
-- it is not, the guarded branch returns that error and has no block.
init-agrees :
    (uv_mutex_init uv_init : M ℤ) (handle : Ptr) (a r : ℤ) (s : State)
    → Answers a uv_mutex_init
    → Answers r uv_init
    → handle ≢ null
    → Ends (λ x t. x ≡ sem_init r) (handle ∷ []) [] s (init_handle uv_init handle s)
      × Ends
          (λ x t. (x.0, forget_mutex x.1) ≡ (if is_error a then (a, none) else sem_init r))
          (handle ∷ [])
          []
          s
          (guarded_init uv_mutex_init uv_init handle s)
unfolding init_handle guarded_init sem_init
init-agrees uv_mutex_init uv_init handle a r s guards inits hn = (
  seq-is _ (inits s) λ t _ _. decrefs-Ends (handle ∷ []) (sem_init r) t (hn, tt) λ u k. refl,
  seq-is _ (guards s) λ t _ _. elim (Bool-cases (is_error a)) [
    | inl e ↦ rw e (decrefs-Ends (handle ∷ []) (a, none) t (hn, tt) λ u k. refl)
    | inr n ↦ rw n (
        seq-is _ (inits t) λ u _ _. elim (Bool-cases (is_error r)) [
          | inl e ↦ rw e (decrefs-Ends (handle ∷ []) (r, none) u (hn, tt) λ v k. refl)
          | inr m ↦ rw m (decrefs-Ends (handle ∷ []) _ u (hn, tt) λ v k. refl)
        ])
  ],
)
