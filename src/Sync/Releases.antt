-- ===== src/Sync/Releases.antt =====
-- The operations on locks as data, with what each answers and which parameters it owns.
use uv_mbt.Base.{ℕ, ℤ, pos, ◌≡◌, ◌≢◌, refl, ◌∙◌, true, false, none, List, [], ◌∷◌}
use uv_mbt.Memory.{Ptr, null, State, M, ◌>>◌, pure}
use uv_mbt.Memory.Idioms.{Answers, Leaves, IsQuiet}
use uv_mbt.Memory.Ledger.{Ends}
use uv_mbt.Memory.Rules.{seq, weaken, pure-Ends, decref-Same}
use uv_mbt.Memory.Shapes.{call-Ends}
use uv_mbt.Shared.{Block, sem_use}
use uv_mbt.Sync.{with_object, call_quietly, call_answered}
use uv_mbt.Sync.Rwlock.{
  rwlock_rdlock, rwlock_tryrdlock, rwlock_rdunlock, rwlock_wrlock, rwlock_trywrlock,
  rwlock_wrunlock,
}
use uv_mbt.Sync.Mutex.{mutex_lock, mutex_trylock, mutex_unlock}
use uv_mbt.Sync.Cond.{cond_signal, cond_broadcast, cond_wait, cond_timedwait}
use uv_mbt.Sync.Sem.{sem_post, sem_wait, sem_trywait}

pub data Op : Type 0 where
  rdlock : Op
  tryrdlock : Op
  rdunlock : Op
  wrlock : Op
  trywrlock : Op
  wrunlock : Op
  lock : Op
  trylock : Op
  unlock : Op
  post : Op
  wait : Op
  trywait : Op
  signal : Op
  broadcast : Op
  await : Op  -- cond_wait
  await_until : (timeout : ℕ) → Op  -- cond_timedwait

-- the functions that return nothing
abbrev quietly : (M (Unit {0}) → M (Unit {0})) → M ℤ → M ℤ
quietly f uv = f (uv >> pure tt) >> pure (pos 0)

-- `b` and `h` are the block and the handle of the lock, `m` and `k` those of the mutex that a condition is
-- waited for with; `uv` is libuv's function
unfoldable pub perform : Op → (uv : M ℤ) → (b m : Block) → (h k : Ptr) → M ℤ
perform rdlock uv b m h k = quietly (λ u. rwlock_rdlock u b h) uv
perform tryrdlock uv b m h k = rwlock_tryrdlock uv b h
perform rdunlock uv b m h k = quietly (λ u. rwlock_rdunlock u b h) uv
perform wrlock uv b m h k = quietly (λ u. rwlock_wrlock u b h) uv
perform trywrlock uv b m h k = rwlock_trywrlock uv b h
perform wrunlock uv b m h k = quietly (λ u. rwlock_wrunlock u b h) uv
perform lock uv b m h k = quietly (λ u. mutex_lock u b h) uv
perform trylock uv b m h k = mutex_trylock uv b h
perform unlock uv b m h k = quietly (λ u. mutex_unlock u b h) uv
perform post uv b m h k = quietly (λ u. sem_post u b h) uv
perform wait uv b m h k = quietly (λ u. sem_wait u b h) uv
perform trywait uv b m h k = sem_trywait uv b h
perform signal uv b m h k = quietly (λ u. cond_signal u b h) uv
perform broadcast uv b m h k = quietly (λ u. cond_broadcast u b h) uv
perform await uv b m h k = quietly (λ u. cond_wait u b m h k) uv
perform (await_until timeout) uv b m h k = cond_timedwait (λ t. uv) b m h k timeout

abbrev pub owned : Op → (h k : Ptr) → List Ptr
owned await h k = h ∷ k ∷ []
owned (await_until timeout) h k = h ∷ k ∷ []
owned op h k = h ∷ []

-- what is answered where libuv answers `r`: nothing, which is written 0 here, by the functions that return nothing
unfoldable pub answer : Op → ℤ → ℤ
answer tryrdlock r = r
answer trywrlock r = r
answer trylock r = r
answer trywait r = r
answer (await_until timeout) r = r
answer op r = pos 0

abbrev pub IsLive : Block → Type 0
IsLive b = (b.is_allocated ≡ true) × (b.is_initialised ≡ true)

object-Ends :
    {A : Type 0} {P : A → State → Type 0} (b : Block) (m : M A) (s : State) {ts gs : List Ptr}
    → IsLive b
    → Ends P ts gs s (m s)
    → Ends P ts gs s (with_object b m s)
unfolding with_object sem_use
object-Ends b m s live e = rw (live.0, live.1) e

object-Answers :
    (b : Block) (m : M ℤ) (r : ℤ) → IsLive b → Answers r m → Answers r (with_object b m)
object-Answers b m r live a s = object-Ends b m s live (a s)

object-IsQuiet : (b : Block) (m : M (Unit {0})) → IsLive b → IsQuiet m → IsQuiet (with_object b m)
object-IsQuiet b m live q s = object-Ends b m s live (q s)

uv-IsQuiet : (uv : M ℤ) (r : ℤ) → Answers r uv → IsQuiet (uv >> pure tt)
uv-IsQuiet uv r a s = seq (a s) λ x t (e, k) _. pure-Ends tt t k

quiet-Ends :
    (uv : M ℤ) (r : ℤ) (b : Block) (h : Ptr) (s : State)
    → Answers r uv
    → IsLive b
    → h ≢ null
    → Ends (Leaves (pos 0) s) (h ∷ []) [] s (quietly (λ u. call_quietly u b h) uv s)
unfolding call_quietly
quiet-Ends uv r b h s a live hn =
    seq
      (seq (object-IsQuiet b (uv >> pure tt) live (uv-IsQuiet uv r a) s)
        λ _ t k _. weaken (decref-Same h t hn) λ _ u k'. k' ∙ k)
      λ _ u k _. pure-Ends (pos 0) u (refl, k)

answered-Ends :
    (uv : M ℤ) (r : ℤ) (b : Block) (h : Ptr) (s : State)
    → Answers r uv
    → IsLive b
    → h ≢ null
    → Ends (Leaves r s) (h ∷ []) [] s (call_answered uv b h s)
unfolding call_answered
answered-Ends uv r b h s a live hn =
    call-Ends (with_object b uv) r (h ∷ []) s (object-Answers b uv r live a) (hn, tt)

await-Ends :
    (uv : M ℤ) (r : ℤ) (b m : Block) (h k : Ptr) (s : State)
    → Answers r uv
    → IsLive b
    → IsLive m
    → h ≢ null
    → k ≢ null
    → Ends (Leaves (pos 0) s) (h ∷ k ∷ []) [] s (quietly (λ u. cond_wait u b m h k) uv s)
unfolding cond_wait
await-Ends uv r b m h k s a live live_m hn kn =
    seq
      (seq
        (object-IsQuiet b (with_object m (uv >> pure tt)) live
          (object-IsQuiet m (uv >> pure tt) live_m (uv-IsQuiet uv r a)) s)
        λ _ t e _.
          seq (decref-Same h t hn)
            λ _ u e' _. weaken (decref-Same k u kn) λ _ v e''. e'' ∙ (e' ∙ e))
      λ _ u e _. pure-Ends (pos 0) u (refl, e)

-- Every operation on a lock: where libuv answers `r` and touches neither fields nor counts, and the blocks are live, the
-- handles that the operation owns are released once each, no field is written, and libuv's answer is
-- returned by the functions that return one.
pub perform-Ends :
    (op : Op) (uv : M ℤ) (r : ℤ) (b m : Block) (h k : Ptr) (s : State)
    → Answers r uv
    → IsLive b
    → IsLive m
    → h ≢ null
    → k ≢ null
    → Ends (Leaves (answer op r) s) (owned op h k) [] s (perform op uv b m h k s)
unfolding perform answer rwlock_rdlock rwlock_tryrdlock rwlock_rdunlock rwlock_wrlock
    rwlock_trywrlock rwlock_wrunlock mutex_lock mutex_trylock mutex_unlock sem_post sem_wait
    sem_trywait cond_signal cond_broadcast cond_timedwait
perform-Ends rdlock uv r b m h k s a lb lm hn kn = quiet-Ends uv r b h s a lb hn
perform-Ends tryrdlock uv r b m h k s a lb lm hn kn = answered-Ends uv r b h s a lb hn
perform-Ends rdunlock uv r b m h k s a lb lm hn kn = quiet-Ends uv r b h s a lb hn
perform-Ends wrlock uv r b m h k s a lb lm hn kn = quiet-Ends uv r b h s a lb hn
perform-Ends trywrlock uv r b m h k s a lb lm hn kn = answered-Ends uv r b h s a lb hn
perform-Ends wrunlock uv r b m h k s a lb lm hn kn = quiet-Ends uv r b h s a lb hn
perform-Ends lock uv r b m h k s a lb lm hn kn = quiet-Ends uv r b h s a lb hn
perform-Ends trylock uv r b m h k s a lb lm hn kn = answered-Ends uv r b h s a lb hn
perform-Ends unlock uv r b m h k s a lb lm hn kn = quiet-Ends uv r b h s a lb hn
perform-Ends post uv r b m h k s a lb lm hn kn = quiet-Ends uv r b h s a lb hn
perform-Ends wait uv r b m h k s a lb lm hn kn = quiet-Ends uv r b h s a lb hn
perform-Ends trywait uv r b m h k s a lb lm hn kn = answered-Ends uv r b h s a lb hn
perform-Ends signal uv r b m h k s a lb lm hn kn = quiet-Ends uv r b h s a lb hn
perform-Ends broadcast uv r b m h k s a lb lm hn kn = quiet-Ends uv r b h s a lb hn
perform-Ends await uv r b m h k s a lb lm hn kn = await-Ends uv r b m h k s a lb lm hn kn
perform-Ends (await_until timeout) uv r b m h k s a lb lm hn kn =
    call-Ends (with_object b (with_object m uv)) r (h ∷ k ∷ []) s
      (object-Answers b (with_object m uv) r lb (object-Answers m uv r lm a)) (hn, (kn, tt))

faults :
    {A : Type 0} (b : Block) (m : M A) (s : State)
    → b.is_allocated ≡ false
    → with_object b m s ≡ none
unfolding with_object sem_use
faults b m s e = rw e refl

-- Every operation faults on a block that was freed, whatever libuv would do.
perform-none :
    (op : Op) (uv : M ℤ) (b m : Block) (h k : Ptr) (s : State)
    → b.is_allocated ≡ false
    → perform op uv b m h k s ≡ none
unfolding perform with_object sem_use rwlock_rdlock rwlock_tryrdlock rwlock_rdunlock rwlock_wrlock
    rwlock_trywrlock rwlock_wrunlock mutex_lock mutex_trylock mutex_unlock sem_post sem_wait
    sem_trywait cond_signal cond_broadcast cond_wait cond_timedwait call_quietly call_answered
perform-none rdlock uv b m h k s e = rw e refl
perform-none tryrdlock uv b m h k s e = rw e refl
perform-none rdunlock uv b m h k s e = rw e refl
perform-none wrlock uv b m h k s e = rw e refl
perform-none trywrlock uv b m h k s e = rw e refl
perform-none wrunlock uv b m h k s e = rw e refl
perform-none lock uv b m h k s e = rw e refl
perform-none trylock uv b m h k s e = rw e refl
perform-none unlock uv b m h k s e = rw e refl
perform-none post uv b m h k s e = rw e refl
perform-none wait uv b m h k s e = rw e refl
perform-none trywait uv b m h k s e = rw e refl
perform-none signal uv b m h k s e = rw e refl
perform-none broadcast uv b m h k s e = rw e refl
perform-none await uv b m h k s e = rw e refl
perform-none (await_until timeout) uv b m h k s e = rw e refl
