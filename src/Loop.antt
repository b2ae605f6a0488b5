-- ===== src/Loop.antt =====
-- src/loop.c: the calls on the event loop, and the walk over its handles. `l` is the loop.
pub mod Walking
use uv_mbt.Base.{ℕ, ℤ, pos, Bool, true, false, []}
use uv_mbt.Memory.{Ptr, M, ◌>>=◌, ◌>>◌, pure, incref, decref, make}

-- `fresh` is the address of the new object; the loop owns no field that the bindings read
unfoldable pub loop_make : (fresh : Ptr) → M Ptr
loop_make fresh = make fresh []

unfoldable pub loop_init : (uv_loop_init : Ptr → M ℤ) → (l : Ptr) → M ℤ
loop_init uv_loop_init l = do result ← uv_loop_init l; decref l; pure result

unfoldable pub loop_configure_block_signal :
    (uv_loop_configure_block_signal : Ptr → ℤ → M ℤ) → (l : Ptr) → (signum : ℤ) → M ℤ
loop_configure_block_signal uv_loop_configure_block_signal l signum = do
  result ← uv_loop_configure_block_signal l signum
  decref l
  pure result

unfoldable pub loop_configure : (uv_loop_configure : Ptr → ℤ → M ℤ) → (l : Ptr) → (option : ℤ) → M ℤ
loop_configure uv_loop_configure l option = do
  result ← uv_loop_configure l option
  decref l
  pure result

unfoldable pub loop_close : (uv_loop_close : Ptr → M ℤ) → (l : Ptr) → M ℤ
loop_close uv_loop_close l = do result ← uv_loop_close l; decref l; pure result

unfoldable pub stop : (uv_stop : Ptr → M (Unit {0})) → (l : Ptr) → M (Unit {0})
stop uv_stop l = do uv_stop l; decref l

unfoldable pub run : (uv_run : Ptr → ℤ → M ℤ) → (l : Ptr) → (mode : ℤ) → M ℤ
run uv_run l mode = do status ← uv_run l mode; decref l; pure status

-- `arg` is the closure
unfoldable pub walk_cb : (code : Ptr → Ptr → M (Unit {0})) → (handle arg : Ptr) → M (Unit {0})
walk_cb code handle arg = do incref arg; incref handle; code arg handle

-- `uv_walk` is given the loop, what to do with each handle, and its argument
unfoldable pub walk :
    (uv_walk : Ptr → (Ptr → Ptr → M (Unit {0})) → Ptr → M (Unit {0}))
    → (code : Ptr → Ptr → M (Unit {0})) → (l arg : Ptr) → M (Unit {0})
unfolding walk_cb
walk uv_walk code l arg = do uv_walk l (walk_cb code) arg; decref l; decref arg

unfoldable pub loop_alive : (uv_loop_alive : Ptr → M ℤ) → (l : Ptr) → M ℤ
loop_alive uv_loop_alive l = do alive ← uv_loop_alive l; decref l; pure alive

unfoldable pub now : (uv_now : Ptr → M ℕ) → (l : Ptr) → M ℕ
now uv_now l = do time ← uv_now l; decref l; pure time

unfoldable pub update_time : (uv_update_time : Ptr → M (Unit {0})) → (l : Ptr) → M (Unit {0})
update_time uv_update_time l = do uv_update_time l; decref l

-- `opened`: does `fdopen` open the stream? `error` is the number that it fails with.
unfoldable pub print_all_handles :
    (uv_print_all_handles : Ptr → M (Unit {0})) → (opened : Bool) → (error : ℤ) → (l : Ptr) → M ℤ
print_all_handles uv_print_all_handles true error l = do
  uv_print_all_handles l
  decref l
  pure (pos 0)
print_all_handles uv_print_all_handles false error l = pure error

unfoldable pub backend_fd : (uv_backend_fd : Ptr → M ℤ) → (l : Ptr) → M ℤ
backend_fd uv_backend_fd l = do fd ← uv_backend_fd l; decref l; pure fd

unfoldable pub backend_timeout : (uv_backend_timeout : Ptr → M ℤ) → (l : Ptr) → M ℤ
backend_timeout uv_backend_timeout l = do timeout ← uv_backend_timeout l; decref l; pure timeout
