-- ===== src/Queries/Counters.antt =====
-- src/metrics.c, src/time.c, src/rusage.c and src/stat.c
use uv_mbt.Base.{ℕ, ℤ, [], ◌∷◌}
use uv_mbt.Memory.{Ptr, M}
use uv_mbt.Queries.Shapes.{called, value}

unfoldable pub metrics_info : (uv_metrics_info : Ptr → Ptr → M ℤ) → (l metrics : Ptr) → M ℤ
unfolding called
metrics_info uv_metrics_info l metrics = called (uv_metrics_info l metrics) (l ∷ metrics ∷ [])

-- the two numbers are stored in the object
unfoldable pub clock_gettime :
    (uv_clock_gettime : ℤ → M (ℤ × ℤ × ℤ)) → (timespec : Ptr) → (clock_id : ℤ) → M (ℤ × ℤ × ℤ)
unfolding called
clock_gettime uv_clock_gettime timespec clock_id =
    called (uv_clock_gettime clock_id) (timespec ∷ [])

-- the two numbers are stored in the object
unfoldable pub gettimeofday : (uv_gettimeofday : M (ℤ × ℤ × ℤ)) → (timeval : Ptr) → M (ℤ × ℤ × ℤ)
unfolding called
gettimeofday uv_gettimeofday timeval = called uv_gettimeofday (timeval ∷ [])

unfoldable pub metrics_idle_time : (uv_metrics_idle_time : Ptr → M ℕ) → (l : Ptr) → M ℕ
unfolding called
metrics_idle_time uv_metrics_idle_time l = called (uv_metrics_idle_time l) (l ∷ [])

-- `uv_stat_t`, times as seconds and nanoseconds
pub record Stat : Type 0 where
  pub st_dev : ℕ
  pub st_mode : ℕ
  pub st_nlink : ℕ
  pub st_uid : ℕ
  pub st_gid : ℕ
  pub st_rdev : ℕ
  pub st_ino : ℕ
  pub st_size : ℕ
  pub st_blksize : ℕ
  pub st_blocks : ℕ
  pub st_flags : ℕ
  pub st_gen : ℕ
  pub st_atim_sec : ℕ
  pub st_atim_nsec : ℕ
  pub st_mtim_sec : ℕ
  pub st_mtim_nsec : ℕ
  pub st_ctim_sec : ℕ
  pub st_ctim_nsec : ℕ
  pub st_birthtim_sec : ℕ
  pub st_birthtim_nsec : ℕ

unfoldable pub stat_get_dev : (s : Stat) → (stat_ptr : Ptr) → M ℕ
unfolding value
stat_get_dev s stat_ptr = value s.st_dev stat_ptr

unfoldable pub stat_get_mode : (s : Stat) → (stat_ptr : Ptr) → M ℕ
unfolding value
stat_get_mode s stat_ptr = value s.st_mode stat_ptr

unfoldable pub stat_get_nlink : (s : Stat) → (stat_ptr : Ptr) → M ℕ
unfolding value
stat_get_nlink s stat_ptr = value s.st_nlink stat_ptr

unfoldable pub stat_get_uid : (s : Stat) → (stat_ptr : Ptr) → M ℕ
unfolding value
stat_get_uid s stat_ptr = value s.st_uid stat_ptr

unfoldable pub stat_get_gid : (s : Stat) → (stat_ptr : Ptr) → M ℕ
unfolding value
stat_get_gid s stat_ptr = value s.st_gid stat_ptr

unfoldable pub stat_get_rdev : (s : Stat) → (stat_ptr : Ptr) → M ℕ
unfolding value
stat_get_rdev s stat_ptr = value s.st_rdev stat_ptr

unfoldable pub stat_get_ino : (s : Stat) → (stat_ptr : Ptr) → M ℕ
unfolding value
stat_get_ino s stat_ptr = value s.st_ino stat_ptr

unfoldable pub stat_get_size : (s : Stat) → (stat_ptr : Ptr) → M ℕ
unfolding value
stat_get_size s stat_ptr = value s.st_size stat_ptr

unfoldable pub stat_get_blksize : (s : Stat) → (stat_ptr : Ptr) → M ℕ
unfolding value
stat_get_blksize s stat_ptr = value s.st_blksize stat_ptr

unfoldable pub stat_get_blocks : (s : Stat) → (stat_ptr : Ptr) → M ℕ
unfolding value
stat_get_blocks s stat_ptr = value s.st_blocks stat_ptr

unfoldable pub stat_get_flags : (s : Stat) → (stat_ptr : Ptr) → M ℕ
unfolding value
stat_get_flags s stat_ptr = value s.st_flags stat_ptr

unfoldable pub stat_get_gen : (s : Stat) → (stat_ptr : Ptr) → M ℕ
unfolding value
stat_get_gen s stat_ptr = value s.st_gen stat_ptr

unfoldable pub stat_get_atim_sec : (s : Stat) → (stat_ptr : Ptr) → M ℕ
unfolding value
stat_get_atim_sec s stat_ptr = value s.st_atim_sec stat_ptr

unfoldable pub stat_get_atim_nsec : (s : Stat) → (stat_ptr : Ptr) → M ℕ
unfolding value
stat_get_atim_nsec s stat_ptr = value s.st_atim_nsec stat_ptr

unfoldable pub stat_get_mtim_sec : (s : Stat) → (stat_ptr : Ptr) → M ℕ
unfolding value
stat_get_mtim_sec s stat_ptr = value s.st_mtim_sec stat_ptr

unfoldable pub stat_get_mtim_nsec : (s : Stat) → (stat_ptr : Ptr) → M ℕ
unfolding value
stat_get_mtim_nsec s stat_ptr = value s.st_mtim_nsec stat_ptr

unfoldable pub stat_get_ctim_sec : (s : Stat) → (stat_ptr : Ptr) → M ℕ
unfolding value
stat_get_ctim_sec s stat_ptr = value s.st_ctim_sec stat_ptr

unfoldable pub stat_get_ctim_nsec : (s : Stat) → (stat_ptr : Ptr) → M ℕ
unfolding value
stat_get_ctim_nsec s stat_ptr = value s.st_ctim_nsec stat_ptr

unfoldable pub stat_get_birthtim_sec : (s : Stat) → (stat_ptr : Ptr) → M ℕ
unfolding value
stat_get_birthtim_sec s stat_ptr = value s.st_birthtim_sec stat_ptr

unfoldable pub stat_get_birthtim_nsec : (s : Stat) → (stat_ptr : Ptr) → M ℕ
unfolding value
stat_get_birthtim_nsec s stat_ptr = value s.st_birthtim_nsec stat_ptr

-- `uv_metrics_t`
pub record Metrics : Type 0 where
  pub loop_count : ℕ
  pub events : ℕ
  pub events_waiting : ℕ

unfoldable pub metrics_get_loop_count : (m : Metrics) → (metrics : Ptr) → M ℕ
unfolding value
metrics_get_loop_count m metrics = value m.loop_count metrics

unfoldable pub metrics_get_events : (m : Metrics) → (metrics : Ptr) → M ℕ
unfolding value
metrics_get_events m metrics = value m.events metrics

unfoldable pub metrics_get_events_waiting : (m : Metrics) → (metrics : Ptr) → M ℕ
unfolding value
metrics_get_events_waiting m metrics = value m.events_waiting metrics
