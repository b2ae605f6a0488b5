-- ===== src/System/Kinds.antt =====
-- The five kinds of handles, and what libuv documents of them.
use uv_mbt.Base.{ℕ, ℤ}
use uv_mbt.Memory.{Ptr, M, pure}
use uv_mbt.Memory.Idioms.{Starts, Answers}
use uv_mbt.System.{Binding}
use uv_mbt.Watcher.Idle.{idle_make, idle_init, idle_start, idle_cb, idle_stop, idle_finalize}
use uv_mbt.Watcher.Check.{check_make, check_init, check_start, check_cb, check_stop, check_finalize}
use uv_mbt.Watcher.Prepare.{
  prepare_make, prepare_init, prepare_start, prepare_cb, prepare_stop, prepare_finalize,
}
use uv_mbt.Watcher.Timer.{timer_make, timer_init, timer_start, timer_cb, timer_stop, timer_finalize}
use uv_mbt.Watcher.Poll.{poll_make, poll_init, poll_start, poll_cb, poll_stop, poll_finalize}

pub data Kind : Type 0 where
  idle check prepare : Kind
  timer : (timeout repeat : ℕ) → Kind
  poll : (fd events status : ℤ) → Kind

-- what the functions call of libuv
pub record Uv : Type 0 where
  pub uv_idle_init : (l handle : Ptr) → M ℤ
  pub uv_check_init : (l handle : Ptr) → M ℤ
  pub uv_prepare_init : (l handle : Ptr) → M ℤ
  pub uv_timer_init : (l handle : Ptr) → M ℤ
  pub uv_poll_init : (l handle : Ptr) → (fd : ℤ) → M ℤ
  pub uv_idle_start : Ptr → M ℤ
  pub uv_check_start : Ptr → M ℤ
  pub uv_prepare_start : Ptr → M ℤ
  pub uv_timer_start : Ptr → ℕ → ℕ → M ℤ
  pub uv_poll_start : Ptr → ℤ → M ℤ
  pub uv_idle_stop : Ptr → M ℤ
  pub uv_check_stop : Ptr → M ℤ
  pub uv_prepare_stop : Ptr → M ℤ
  pub uv_timer_stop : Ptr → M ℤ
  pub uv_poll_stop : Ptr → M ℤ

-- the C callback hands the closure and the handle over to the MoonBit code
abbrev hand_over : Ptr → Ptr → M (Unit {0})
hand_over cb handle = pure tt

unfoldable pub binding : Uv → Kind → Binding
binding uv idle = record {
  make_handle = idle_make;
  init = idle_init uv.uv_idle_init;
  start = idle_start uv.uv_idle_start;
  fire = idle_cb hand_over;
  stop = idle_stop uv.uv_idle_stop;
  finalize = idle_finalize;
}
binding uv check = record {
  make_handle = check_make;
  init = check_init uv.uv_check_init;
  start = check_start uv.uv_check_start;
  fire = check_cb hand_over;
  stop = check_stop uv.uv_check_stop;
  finalize = check_finalize;
}
binding uv prepare = record {
  make_handle = prepare_make;
  init = prepare_init uv.uv_prepare_init;
  start = prepare_start uv.uv_prepare_start;
  fire = prepare_cb hand_over;
  stop = prepare_stop uv.uv_prepare_stop;
  finalize = prepare_finalize;
}
binding uv (timer timeout repeat) = record {
  make_handle = timer_make;
  init = timer_init uv.uv_timer_init;
  start = λ h cb. timer_start uv.uv_timer_start h cb timeout repeat;
  fire = timer_cb hand_over;
  stop = timer_stop uv.uv_timer_stop;
  finalize = timer_finalize;
}
binding uv (poll fd events status) = record {
  make_handle = poll_make;
  init = λ l h. poll_init uv.uv_poll_init l h fd;
  start = λ h cb. poll_start uv.uv_poll_start h events cb;
  fire = λ h. poll_cb (λ cb handle s e. pure tt) h status events;
  stop = poll_stop uv.uv_poll_stop;
  finalize = poll_finalize;
}

-- What libuv documents: the first call stores the loop in the handle, and the others touch neither the fields
-- nor the counts.
pub record IsDocumented (uv : Uv) : Type 0 where
  pub answer : ℤ
  pub idle_init_law : (l h : Ptr) → Starts answer l h (uv.uv_idle_init l h)
  pub check_init_law : (l h : Ptr) → Starts answer l h (uv.uv_check_init l h)
  pub prepare_init_law : (l h : Ptr) → Starts answer l h (uv.uv_prepare_init l h)
  pub timer_init_law : (l h : Ptr) → Starts answer l h (uv.uv_timer_init l h)
  pub poll_init_law : (l h : Ptr) (fd : ℤ) → Starts answer l h (uv.uv_poll_init l h fd)
  pub idle_start_law : (h : Ptr) → Answers answer (uv.uv_idle_start h)
  pub check_start_law : (h : Ptr) → Answers answer (uv.uv_check_start h)
  pub prepare_start_law : (h : Ptr) → Answers answer (uv.uv_prepare_start h)
  pub timer_start_law :
      (h : Ptr) (timeout repeat : ℕ) → Answers answer (uv.uv_timer_start h timeout repeat)
  pub poll_start_law : (h : Ptr) (events : ℤ) → Answers answer (uv.uv_poll_start h events)
  pub idle_stop_law : (h : Ptr) → Answers answer (uv.uv_idle_stop h)
  pub check_stop_law : (h : Ptr) → Answers answer (uv.uv_check_stop h)
  pub prepare_stop_law : (h : Ptr) → Answers answer (uv.uv_prepare_stop h)
  pub timer_stop_law : (h : Ptr) → Answers answer (uv.uv_timer_stop h)
  pub poll_stop_law : (h : Ptr) → Answers answer (uv.uv_poll_stop h)
