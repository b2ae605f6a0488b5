-- ===== src/Queries/Usage.antt =====
-- src/rusage.c: the fields of a `uv_rusage_t`, which is borrowed. The counters are `uint64_t`, and are returned as
-- `int32_t`.
use uv_mbt.Base.{◌≡◌, ◌<◌, ◌↔◌, arith, ℕ, ℤ, pos, negsuc, ◌-◌, ◌%◌, ◌^◌, ltb, if◌then◌else◌}

-- a number cut to an `int32_t`
unfoldable pub to_int32 : ℕ → ℤ
to_int32 n =
    if ltb (n % 2 ^ 32) (2 ^ 31) then pos (n % 2 ^ 32) else negsuc (2 ^ 32 - n % 2 ^ 32 - 1)

pub record Rusage : Type 0 where
  pub ru_utime_sec : ℕ
  pub ru_utime_usec : ℕ
  pub ru_stime_sec : ℕ
  pub ru_stime_usec : ℕ
  pub ru_maxrss : ℕ
  pub ru_ixrss : ℕ
  pub ru_idrss : ℕ
  pub ru_isrss : ℕ
  pub ru_minflt : ℕ
  pub ru_majflt : ℕ
  pub ru_nswap : ℕ
  pub ru_inblock : ℕ
  pub ru_oublock : ℕ
  pub ru_msgsnd : ℕ
  pub ru_msgrcv : ℕ
  pub ru_nsignals : ℕ
  pub ru_nvcsw : ℕ
  pub ru_nivcsw : ℕ

unfoldable pub rusage_get_utime_sec : (rusage : Rusage) → ℕ
rusage_get_utime_sec rusage = rusage.ru_utime_sec

unfoldable pub rusage_get_utime_usec : (rusage : Rusage) → ℕ
rusage_get_utime_usec rusage = rusage.ru_utime_usec

unfoldable pub rusage_get_stime_sec : (rusage : Rusage) → ℕ
rusage_get_stime_sec rusage = rusage.ru_stime_sec

unfoldable pub rusage_get_stime_usec : (rusage : Rusage) → ℕ
rusage_get_stime_usec rusage = rusage.ru_stime_usec

unfoldable pub rusage_get_maxrss : (rusage : Rusage) → ℤ
unfolding to_int32
rusage_get_maxrss rusage = to_int32 rusage.ru_maxrss

unfoldable pub rusage_get_ixrss : (rusage : Rusage) → ℤ
unfolding to_int32
rusage_get_ixrss rusage = to_int32 rusage.ru_ixrss

unfoldable pub rusage_get_idrss : (rusage : Rusage) → ℤ
unfolding to_int32
rusage_get_idrss rusage = to_int32 rusage.ru_idrss

unfoldable pub rusage_get_isrss : (rusage : Rusage) → ℤ
unfolding to_int32
rusage_get_isrss rusage = to_int32 rusage.ru_isrss

unfoldable pub rusage_get_minflt : (rusage : Rusage) → ℤ
unfolding to_int32
rusage_get_minflt rusage = to_int32 rusage.ru_minflt

unfoldable pub rusage_get_majflt : (rusage : Rusage) → ℤ
unfolding to_int32
rusage_get_majflt rusage = to_int32 rusage.ru_majflt

unfoldable pub rusage_get_nswap : (rusage : Rusage) → ℤ
unfolding to_int32
rusage_get_nswap rusage = to_int32 rusage.ru_nswap

unfoldable pub rusage_get_inblock : (rusage : Rusage) → ℤ
unfolding to_int32
rusage_get_inblock rusage = to_int32 rusage.ru_inblock

unfoldable pub rusage_get_oublock : (rusage : Rusage) → ℤ
unfolding to_int32
rusage_get_oublock rusage = to_int32 rusage.ru_oublock

unfoldable pub rusage_get_msgsnd : (rusage : Rusage) → ℤ
unfolding to_int32
rusage_get_msgsnd rusage = to_int32 rusage.ru_msgsnd

unfoldable pub rusage_get_msgrcv : (rusage : Rusage) → ℤ
unfolding to_int32
rusage_get_msgrcv rusage = to_int32 rusage.ru_msgrcv

unfoldable pub rusage_get_nsignals : (rusage : Rusage) → ℤ
unfolding to_int32
rusage_get_nsignals rusage = to_int32 rusage.ru_nsignals

unfoldable pub rusage_get_nvcsw : (rusage : Rusage) → ℤ
unfolding to_int32
rusage_get_nvcsw rusage = to_int32 rusage.ru_nvcsw

unfoldable pub rusage_get_nivcsw : (rusage : Rusage) → ℤ
unfolding to_int32
rusage_get_nivcsw rusage = to_int32 rusage.ru_nivcsw

cut : (n : ℕ) → to_int32 n ≡ pos n → n < 2 ^ 31
unfolding to_int32
cut n e = ground arith

uncut : (n : ℕ) → n < 2 ^ 31 → to_int32 n ≡ pos n
unfolding to_int32
uncut n h = ground arith

exact : (n : ℕ) → (to_int32 n ≡ pos n) ↔ (n < 2 ^ 31)
exact n = (cut n, uncut n)

-- Each of the fourteen counters is returned as it is if and only if it is below 2^31: the others, which libuv's 64
-- bits allow, are cut.
pub usage-exact :
    (rusage : Rusage)
    → ((rusage_get_maxrss rusage ≡ pos rusage.ru_maxrss) ↔ (rusage.ru_maxrss < 2 ^ 31))
      × ((rusage_get_ixrss rusage ≡ pos rusage.ru_ixrss) ↔ (rusage.ru_ixrss < 2 ^ 31))
      × ((rusage_get_idrss rusage ≡ pos rusage.ru_idrss) ↔ (rusage.ru_idrss < 2 ^ 31))
      × ((rusage_get_isrss rusage ≡ pos rusage.ru_isrss) ↔ (rusage.ru_isrss < 2 ^ 31))
      × ((rusage_get_minflt rusage ≡ pos rusage.ru_minflt) ↔ (rusage.ru_minflt < 2 ^ 31))
      × ((rusage_get_majflt rusage ≡ pos rusage.ru_majflt) ↔ (rusage.ru_majflt < 2 ^ 31))
      × ((rusage_get_nswap rusage ≡ pos rusage.ru_nswap) ↔ (rusage.ru_nswap < 2 ^ 31))
      × ((rusage_get_inblock rusage ≡ pos rusage.ru_inblock) ↔ (rusage.ru_inblock < 2 ^ 31))
      × ((rusage_get_oublock rusage ≡ pos rusage.ru_oublock) ↔ (rusage.ru_oublock < 2 ^ 31))
      × ((rusage_get_msgsnd rusage ≡ pos rusage.ru_msgsnd) ↔ (rusage.ru_msgsnd < 2 ^ 31))
      × ((rusage_get_msgrcv rusage ≡ pos rusage.ru_msgrcv) ↔ (rusage.ru_msgrcv < 2 ^ 31))
      × ((rusage_get_nsignals rusage ≡ pos rusage.ru_nsignals) ↔ (rusage.ru_nsignals < 2 ^ 31))
      × ((rusage_get_nvcsw rusage ≡ pos rusage.ru_nvcsw) ↔ (rusage.ru_nvcsw < 2 ^ 31))
      × ((rusage_get_nivcsw rusage ≡ pos rusage.ru_nivcsw) ↔ (rusage.ru_nivcsw < 2 ^ 31))
unfolding rusage_get_maxrss rusage_get_ixrss rusage_get_idrss rusage_get_isrss rusage_get_minflt
    rusage_get_majflt rusage_get_nswap rusage_get_inblock rusage_get_oublock rusage_get_msgsnd
    rusage_get_msgrcv rusage_get_nsignals rusage_get_nvcsw rusage_get_nivcsw
usage-exact rusage = (
  exact rusage.ru_maxrss,
  exact rusage.ru_ixrss,
  exact rusage.ru_idrss,
  exact rusage.ru_isrss,
  exact rusage.ru_minflt,
  exact rusage.ru_majflt,
  exact rusage.ru_nswap,
  exact rusage.ru_inblock,
  exact rusage.ru_oublock,
  exact rusage.ru_msgsnd,
  exact rusage.ru_msgrcv,
  exact rusage.ru_nsignals,
  exact rusage.ru_nvcsw,
  exact rusage.ru_nivcsw,
)
