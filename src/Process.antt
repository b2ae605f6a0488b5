-- ===== src/Process.antt =====
-- src/process.c: the process handle, the options that own one object each, and spawning. The stdio
-- containers and the end of the options are in Process/Stdio.
pub mod Spawning
pub mod Stdio
use uv_mbt.Base.{ℕ, ℤ, ◌==◌, if◌then◌else◌, List, [], ◌∷◌}
use uv_mbt.Memory.{
  Ptr, null, loop, dat, exit_cb, file, args, env, cwd, Field, M, ◌>>=◌, ◌>>◌, pure, get, put,
  incref, decref, make,
}
use uv_mbt.Memory.Idioms.{replace, clear}

unfoldable pub process_finalize : Ptr → M (Unit {0})
process_finalize process = do clear process dat; clear process loop

-- `fresh` is the address of the new object
unfoldable pub process_make : (fresh : Ptr) → M Ptr
process_make fresh = make fresh (loop ∷ dat ∷ [])

-- `pid` reads the field that libuv sets
unfoldable pub process_get_pid : (pid : Ptr → M ℤ) → (process : Ptr) → M ℤ
process_get_pid pid process = do x ← pid process; decref process; pure x

-- `moonbit_uv_exit_cb`: nothing is called where there is no closure
unfoldable pub process_exit_cb :
    (code : Ptr → Ptr → ℤ → ℤ → M (Unit {0}))
    → (process : Ptr) → (exit_status term_signal : ℤ) → M (Unit {0})
process_exit_cb code process exit_status term_signal = do
  cb ← get process dat
  if cb == null
      then pure tt
      else (put process dat null >> incref process >> code cb process exit_status term_signal)

-- each option that owns an object is set in the same way
unfoldable pub process_options_set : Field → (options v : Ptr) → M (Unit {0})
process_options_set f options v = do replace options f v; decref options

unfoldable pub process_options_set_exit_cb : (options cb : Ptr) → M (Unit {0})
unfolding process_options_set
process_options_set_exit_cb options cb = process_options_set exit_cb options cb

unfoldable pub process_options_set_file : (options path : Ptr) → M (Unit {0})
unfolding process_options_set
process_options_set_file options path = process_options_set file options path

unfoldable pub process_options_set_args : (options argv : Ptr) → M (Unit {0})
unfolding process_options_set
process_options_set_args options argv = process_options_set args options argv

unfoldable pub process_options_set_env : (options envp : Ptr) → M (Unit {0})
unfolding process_options_set
process_options_set_env options envp = process_options_set env options envp

unfoldable pub process_options_set_cwd : (options dir : Ptr) → M (Unit {0})
unfolding process_options_set
process_options_set_cwd options dir = process_options_set cwd options dir

-- `trampoline` is the address of the C function `moonbit_uv_exit_cb`, which stands in the options
-- while libuv reads them
unfoldable pub spawn :
    (uv_spawn : Ptr → Ptr → Ptr → M ℤ) → (trampoline l process options : Ptr) → M ℤ
spawn uv_spawn trampoline l process options = do
  cb ← get options exit_cb
  if cb == null then pure tt else replace process dat cb
  put options exit_cb trampoline
  result ← uv_spawn l process options
  put options exit_cb null
  decref options
  pure result

unfoldable pub process_kill :
    (uv_process_kill : Ptr → ℤ → M ℤ) → (process : Ptr) → (signum : ℤ) → M ℤ
process_kill uv_process_kill process signum = do
  result ← uv_process_kill process signum
  decref process
  pure result
