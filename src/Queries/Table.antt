-- ===== src/Queries/Table.antt =====
-- The calls and accessors as data, with what each answers and which parameters it owns.
use uv_mbt.Base.{ℕ, ℤ, ◌%◌, ◌^◌, List, [], ◌∷◌}
use uv_mbt.Memory.{Ptr, M, ◌>>=◌, pure}
use uv_mbt.Queries.Os.{
  os_uname, chdir, cpu_info, exepath, os_homedir, os_tmpdir, cwd, os_gethostname,
}
use uv_mbt.Queries.Env.{os_setenv, os_unsetenv, os_getenv}
use uv_mbt.Queries.Users.{os_get_passwd, os_get_passwd2, os_get_group}
use uv_mbt.Queries.Threads.{key_create, barrier_init, barrier_wait, dlopen, dlsym}
use uv_mbt.Queries.Handles.{
  cancel, req_get_type, send_buffer_size, recv_buffer_size, fs_scandir_next, tty_init, tty_set_mode,
  tty_get_winsize, fs_poll_getpath,
}
use uv_mbt.Queries.Counters.{
  Stat, Metrics, metrics_info, stat_get_dev, stat_get_mode, stat_get_nlink, stat_get_uid,
  stat_get_gid, stat_get_rdev, stat_get_ino, stat_get_size, stat_get_blksize, stat_get_blocks,
  stat_get_flags, stat_get_gen, stat_get_atim_sec, stat_get_atim_nsec, stat_get_mtim_sec,
  stat_get_mtim_nsec, stat_get_ctim_sec, stat_get_ctim_nsec, stat_get_birthtim_sec,
  stat_get_birthtim_nsec, metrics_get_loop_count, metrics_get_events, metrics_get_events_waiting,
}

pub data Query : Type 0 where
  ask_os_uname : Query
  ask_chdir : Query
  ask_cpu_info : Query
  ask_os_setenv : Query
  ask_os_unsetenv : Query
  ask_os_get_passwd : Query
  ask_os_get_passwd2 : (uid : ℤ) → Query
  ask_os_get_group : (gid : ℤ) → Query
  ask_key_create : Query
  ask_barrier_init : (count : ℤ) → Query
  ask_barrier_wait : Query
  ask_dlopen : Query
  ask_dlsym : Query
  ask_cancel : Query
  ask_req_get_type : Query
  ask_send_buffer_size : Query
  ask_recv_buffer_size : Query
  ask_fs_scandir_next : Query
  ask_tty_init : (fd : ℤ) → Query
  ask_tty_set_mode : (mode : ℤ) → Query
  ask_tty_get_winsize : Query
  ask_metrics_info : Query
  ask_exepath : (capacity : ℕ) → Query
  ask_os_homedir : (capacity : ℕ) → Query
  ask_os_tmpdir : (capacity : ℕ) → Query
  ask_cwd : (capacity : ℕ) → Query
  ask_os_gethostname : (capacity : ℕ) → Query
  ask_os_getenv : (capacity : ℕ) → Query
  ask_fs_poll_getpath : (capacity : ℕ) → Query
  ask_stat_get_dev : (stat : Stat) → Query
  ask_stat_get_mode : (stat : Stat) → Query
  ask_stat_get_nlink : (stat : Stat) → Query
  ask_stat_get_uid : (stat : Stat) → Query
  ask_stat_get_gid : (stat : Stat) → Query
  ask_stat_get_rdev : (stat : Stat) → Query
  ask_stat_get_ino : (stat : Stat) → Query
  ask_stat_get_size : (stat : Stat) → Query
  ask_stat_get_blksize : (stat : Stat) → Query
  ask_stat_get_blocks : (stat : Stat) → Query
  ask_stat_get_flags : (stat : Stat) → Query
  ask_stat_get_gen : (stat : Stat) → Query
  ask_stat_get_atim_sec : (stat : Stat) → Query
  ask_stat_get_atim_nsec : (stat : Stat) → Query
  ask_stat_get_mtim_sec : (stat : Stat) → Query
  ask_stat_get_mtim_nsec : (stat : Stat) → Query
  ask_stat_get_ctim_sec : (stat : Stat) → Query
  ask_stat_get_ctim_nsec : (stat : Stat) → Query
  ask_stat_get_birthtim_sec : (stat : Stat) → Query
  ask_stat_get_birthtim_nsec : (stat : Stat) → Query
  ask_metrics_get_loop_count : (metrics : Metrics) → Query
  ask_metrics_get_events : (metrics : Metrics) → Query
  ask_metrics_get_events_waiting : (metrics : Metrics) → Query

-- a status, a status with a size, or a number
pub data Reply : Type 0 where
  status : ℤ → Reply
  size : ℤ → ℕ → Reply
  number : ℕ → Reply

abbrev as_status : M ℤ → M Reply
as_status m = m >>= λ r. pure (status r)

abbrev as_size : M (ℤ × ℕ) → M Reply
as_size m = m >>= λ a. pure (size a.0 a.1)

abbrev as_number : M ℕ → M Reply
as_number m = m >>= λ n. pure (number n)

-- libuv's part: what it answers where it is asked for a number, and where it is told a capacity
pub record Asked : Type 0 where
  pub answer : M ℤ
  pub sized_answer : ℕ → M (ℤ × ℕ)

-- `p`, `q` and `r` are the objects that are passed
unfoldable pub ask : Query → Asked → (p q r : Ptr) → M Reply
ask ask_os_uname u p q r = as_status (os_uname (λ x. u.answer) p)
ask ask_chdir u p q r = as_status (chdir (λ x. u.answer) p)
ask ask_cpu_info u p q r = as_status (cpu_info (λ x y. u.answer) p q)
ask ask_os_setenv u p q r = as_status (os_setenv (λ x y. u.answer) p q)
ask ask_os_unsetenv u p q r = as_status (os_unsetenv (λ x. u.answer) p)
ask ask_os_get_passwd u p q r = as_status (os_get_passwd (λ x. u.answer) p)
ask (ask_os_get_passwd2 uid) u p q r = as_status (os_get_passwd2 (λ x n. u.answer) p uid)
ask (ask_os_get_group gid) u p q r = as_status (os_get_group (λ x n. u.answer) p gid)
ask ask_key_create u p q r = as_status (key_create (λ x. u.answer) p)
ask (ask_barrier_init count) u p q r = as_status (barrier_init (λ x n. u.answer) p count)
ask ask_barrier_wait u p q r = as_status (barrier_wait (λ x. u.answer) p)
ask ask_dlopen u p q r = as_status (dlopen (λ x y. u.answer) p q)
ask ask_dlsym u p q r = as_status (dlsym (λ x y z. u.answer) p q r)
ask ask_cancel u p q r = as_status (cancel (λ x. u.answer) p)
ask ask_req_get_type u p q r = as_status (req_get_type (λ x. u.answer) p)
ask ask_send_buffer_size u p q r = as_status (send_buffer_size (λ x y. u.answer) p q)
ask ask_recv_buffer_size u p q r = as_status (recv_buffer_size (λ x y. u.answer) p q)
ask ask_fs_scandir_next u p q r = as_status (fs_scandir_next (λ x. u.answer) p)
ask (ask_tty_init fd) u p q r = as_status (tty_init (λ x y n. u.answer) p q fd)
ask (ask_tty_set_mode mode) u p q r = as_status (tty_set_mode (λ x n. u.answer) p mode)
ask ask_tty_get_winsize u p q r = as_status (tty_get_winsize (λ x y z. u.answer) p q r)
ask ask_metrics_info u p q r = as_status (metrics_info (λ x y. u.answer) p q)
ask (ask_exepath capacity) u p q r = as_size (exepath u.sized_answer p q capacity)
ask (ask_os_homedir capacity) u p q r = as_size (os_homedir u.sized_answer p q capacity)
ask (ask_os_tmpdir capacity) u p q r = as_size (os_tmpdir u.sized_answer p q capacity)
ask (ask_cwd capacity) u p q r = as_size (cwd u.sized_answer p q capacity)
ask (ask_os_gethostname capacity) u p q r = as_size (os_gethostname u.sized_answer p q capacity)
ask (ask_os_getenv capacity) u p q r = as_size (os_getenv u.sized_answer p q r capacity)
ask (ask_fs_poll_getpath capacity) u p q r = as_size (fs_poll_getpath u.sized_answer p q r capacity)
ask (ask_stat_get_dev stat) u p q r = as_number (stat_get_dev stat p)
ask (ask_stat_get_mode stat) u p q r = as_number (stat_get_mode stat p)
ask (ask_stat_get_nlink stat) u p q r = as_number (stat_get_nlink stat p)
ask (ask_stat_get_uid stat) u p q r = as_number (stat_get_uid stat p)
ask (ask_stat_get_gid stat) u p q r = as_number (stat_get_gid stat p)
ask (ask_stat_get_rdev stat) u p q r = as_number (stat_get_rdev stat p)
ask (ask_stat_get_ino stat) u p q r = as_number (stat_get_ino stat p)
ask (ask_stat_get_size stat) u p q r = as_number (stat_get_size stat p)
ask (ask_stat_get_blksize stat) u p q r = as_number (stat_get_blksize stat p)
ask (ask_stat_get_blocks stat) u p q r = as_number (stat_get_blocks stat p)
ask (ask_stat_get_flags stat) u p q r = as_number (stat_get_flags stat p)
ask (ask_stat_get_gen stat) u p q r = as_number (stat_get_gen stat p)
ask (ask_stat_get_atim_sec stat) u p q r = as_number (stat_get_atim_sec stat p)
ask (ask_stat_get_atim_nsec stat) u p q r = as_number (stat_get_atim_nsec stat p)
ask (ask_stat_get_mtim_sec stat) u p q r = as_number (stat_get_mtim_sec stat p)
ask (ask_stat_get_mtim_nsec stat) u p q r = as_number (stat_get_mtim_nsec stat p)
ask (ask_stat_get_ctim_sec stat) u p q r = as_number (stat_get_ctim_sec stat p)
ask (ask_stat_get_ctim_nsec stat) u p q r = as_number (stat_get_ctim_nsec stat p)
ask (ask_stat_get_birthtim_sec stat) u p q r = as_number (stat_get_birthtim_sec stat p)
ask (ask_stat_get_birthtim_nsec stat) u p q r = as_number (stat_get_birthtim_nsec stat p)
ask (ask_metrics_get_loop_count metrics) u p q r = as_number (metrics_get_loop_count metrics p)
ask (ask_metrics_get_events metrics) u p q r = as_number (metrics_get_events metrics p)
ask (ask_metrics_get_events_waiting metrics) u p q r =
    as_number (metrics_get_events_waiting metrics p)

abbrev pub owned : Query → (p q r : Ptr) → List Ptr
owned ask_cpu_info p q r = p ∷ q ∷ []
owned ask_os_setenv p q r = p ∷ q ∷ []
owned ask_dlopen p q r = p ∷ q ∷ []
owned ask_dlsym p q r = p ∷ q ∷ r ∷ []
owned ask_send_buffer_size p q r = p ∷ q ∷ []
owned ask_recv_buffer_size p q r = p ∷ q ∷ []
owned (ask_tty_init fd) p q r = p ∷ q ∷ []
owned ask_tty_get_winsize p q r = p ∷ q ∷ r ∷ []
owned ask_metrics_info p q r = p ∷ q ∷ []
owned (ask_exepath capacity) p q r = p ∷ q ∷ []
owned (ask_os_homedir capacity) p q r = p ∷ q ∷ []
owned (ask_os_tmpdir capacity) p q r = p ∷ q ∷ []
owned (ask_cwd capacity) p q r = p ∷ q ∷ []
owned (ask_os_gethostname capacity) p q r = p ∷ q ∷ []
owned (ask_os_getenv capacity) p q r = p ∷ q ∷ r ∷ []
owned (ask_fs_poll_getpath capacity) p q r = p ∷ q ∷ r ∷ []
owned query p q r = p ∷ []

-- what is returned then: the field that the accessor is named for, or libuv's answer, with the size cut to 32 bits
unfoldable pub reply : Query → (result : ℤ) → (extent : ℕ) → Reply
reply (ask_exepath capacity) result extent = size result (extent % 2 ^ 32)
reply (ask_os_homedir capacity) result extent = size result (extent % 2 ^ 32)
reply (ask_os_tmpdir capacity) result extent = size result (extent % 2 ^ 32)
reply (ask_cwd capacity) result extent = size result (extent % 2 ^ 32)
reply (ask_os_gethostname capacity) result extent = size result (extent % 2 ^ 32)
reply (ask_os_getenv capacity) result extent = size result (extent % 2 ^ 32)
reply (ask_fs_poll_getpath capacity) result extent = size result (extent % 2 ^ 32)
reply (ask_stat_get_dev stat) result extent = number stat.st_dev
reply (ask_stat_get_mode stat) result extent = number stat.st_mode
reply (ask_stat_get_nlink stat) result extent = number stat.st_nlink
reply (ask_stat_get_uid stat) result extent = number stat.st_uid
reply (ask_stat_get_gid stat) result extent = number stat.st_gid
reply (ask_stat_get_rdev stat) result extent = number stat.st_rdev
reply (ask_stat_get_ino stat) result extent = number stat.st_ino
reply (ask_stat_get_size stat) result extent = number stat.st_size
reply (ask_stat_get_blksize stat) result extent = number stat.st_blksize
reply (ask_stat_get_blocks stat) result extent = number stat.st_blocks
reply (ask_stat_get_flags stat) result extent = number stat.st_flags
reply (ask_stat_get_gen stat) result extent = number stat.st_gen
reply (ask_stat_get_atim_sec stat) result extent = number stat.st_atim_sec
reply (ask_stat_get_atim_nsec stat) result extent = number stat.st_atim_nsec
reply (ask_stat_get_mtim_sec stat) result extent = number stat.st_mtim_sec
reply (ask_stat_get_mtim_nsec stat) result extent = number stat.st_mtim_nsec
reply (ask_stat_get_ctim_sec stat) result extent = number stat.st_ctim_sec
reply (ask_stat_get_ctim_nsec stat) result extent = number stat.st_ctim_nsec
reply (ask_stat_get_birthtim_sec stat) result extent = number stat.st_birthtim_sec
reply (ask_stat_get_birthtim_nsec stat) result extent = number stat.st_birthtim_nsec
reply (ask_metrics_get_loop_count metrics) result extent = number metrics.loop_count
reply (ask_metrics_get_events metrics) result extent = number metrics.events
reply (ask_metrics_get_events_waiting metrics) result extent = number metrics.events_waiting
reply query result extent = status result
