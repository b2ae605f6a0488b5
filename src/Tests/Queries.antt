-- ===== src/Tests/Queries.antt =====
-- The theorems on queries at concrete inputs.
use uv_mbt.Base.{ℤ, List, pos, ◌<◌, ◌^◌, ◌↔◌, ◌≡◌, refl, none, some, [], ◌∷◌, arith}
use uv_mbt.Memory.{M, Ptr, pure}
use uv_mbt.Memory.Ledger.{Ends}
use uv_mbt.Memory.Rules.{pure-Ends}
use uv_mbt.Queries.Env.{environ_make}
use uv_mbt.Queries.Env.Freed.{arrays, environ_life, environ_life-Ends}
use uv_mbt.Queries.Laws.{IsQuietly}
use uv_mbt.Queries.Table.{Asked}
use uv_mbt.Queries.Strings.{before_zero}
use uv_mbt.Queries.Usage.{
  Rusage, usage-exact, rusage_get_maxrss, rusage_get_ixrss, rusage_get_idrss, rusage_get_isrss,
  rusage_get_minflt, rusage_get_majflt, rusage_get_nswap, rusage_get_inblock, rusage_get_oublock,
  rusage_get_msgsnd, rusage_get_msgrcv, rusage_get_nsignals, rusage_get_nvcsw, rusage_get_nivcsw,
}
use uv_mbt.Queries.Users.{Group, group_get_members}
use uv_mbt.Queries.Users.Members.{group_get_members-Ends}
use uv_mbt.Tests.Fixtures.{desk, done}

-- libuv answers 0, and 5 for a size
abbrev five : Asked
five = record { answer = done; sized_answer = λ capacity. pure (pos 0, 5) }

abbrev five-IsQuietly : IsQuietly five
five-IsQuietly = record {
  result = pos 0;
  extent = 5;
  answers = λ s. pure-Ends (pos 0) s (refl, refl);
  sizes = λ capacity s. pure-Ends (pos 0, 5) s (refl, refl);
}

-- libuv's answers: the second time it fails
abbrev three_calls : List (M (ℤ × Ptr × ℤ))
three_calls = pure (pos 0, 70, pos 3) ∷ pure (pos 1, 0, pos 0) ∷ pure (pos 0, 71, pos 4) ∷ []

environ_life-Ends_example :
    Ends
      (λ freed t. (freed ≡ 70 ∷ 71 ∷ []) × (t.cells ≡ desk.cells))
      (7 ∷ 7 ∷ 7 ∷ [])
      []
      desk
      (environ_life three_calls environ_make 7 desk)
unfolding arrays
environ_life-Ends_example =
    environ_life-Ends three_calls ((pos 0, 70, pos 3) ∷ (pos 1, 0, pos 0) ∷ (pos 0, 71, pos 4) ∷ [])
      7 desk
      (
        (λ s. pure-Ends _ s (refl, refl)),
        ((λ s. pure-Ends _ s (refl, refl)), ((λ s. pure-Ends _ s (refl, refl)), tt)),
      )
      (omega arith)

-- two members, `ab` and `c`
abbrev staff : Group
staff = record {
  groupname = none;
  group_gid = 50;
  members = some (97 ∷ 98 ∷ 0 ∷ []) ∷ some (99 ∷ 0 ∷ []) ∷ none ∷ [];
}

group_get_members-Ends_example :
    Ends
      (λ x t. (x ≡ (97 ∷ 98 ∷ []) ∷ (99 ∷ []) ∷ []) × (t.cells ≡ desk.cells))
      (7 ∷ [])
      []
      desk
      (group_get_members staff 7 desk)
unfolding before_zero
group_get_members-Ends_example =
    group_get_members-Ends staff ((97 ∷ 98 ∷ 0 ∷ []) ∷ (99 ∷ 0 ∷ []) ∷ []) [] 7 desk refl
      (omega arith)

-- a resident set of 2^31 units is the only counter that is cut
abbrev busy : Rusage
busy = record {
  ru_utime_sec = 1;
  ru_utime_usec = 0;
  ru_stime_sec = 0;
  ru_stime_usec = 0;
  ru_maxrss = 2147483648;
  ru_ixrss = 1;
  ru_idrss = 2;
  ru_isrss = 3;
  ru_minflt = 4;
  ru_majflt = 5;
  ru_nswap = 6;
  ru_inblock = 7;
  ru_oublock = 8;
  ru_msgsnd = 9;
  ru_msgrcv = 10;
  ru_nsignals = 11;
  ru_nvcsw = 12;
  ru_nivcsw = 13;
}

usage-exact_example :
    ((rusage_get_maxrss busy ≡ pos busy.ru_maxrss) ↔ (busy.ru_maxrss < 2 ^ 31))
    × ((rusage_get_ixrss busy ≡ pos busy.ru_ixrss) ↔ (busy.ru_ixrss < 2 ^ 31))
    × ((rusage_get_idrss busy ≡ pos busy.ru_idrss) ↔ (busy.ru_idrss < 2 ^ 31))
    × ((rusage_get_isrss busy ≡ pos busy.ru_isrss) ↔ (busy.ru_isrss < 2 ^ 31))
    × ((rusage_get_minflt busy ≡ pos busy.ru_minflt) ↔ (busy.ru_minflt < 2 ^ 31))
    × ((rusage_get_majflt busy ≡ pos busy.ru_majflt) ↔ (busy.ru_majflt < 2 ^ 31))
    × ((rusage_get_nswap busy ≡ pos busy.ru_nswap) ↔ (busy.ru_nswap < 2 ^ 31))
    × ((rusage_get_inblock busy ≡ pos busy.ru_inblock) ↔ (busy.ru_inblock < 2 ^ 31))
    × ((rusage_get_oublock busy ≡ pos busy.ru_oublock) ↔ (busy.ru_oublock < 2 ^ 31))
    × ((rusage_get_msgsnd busy ≡ pos busy.ru_msgsnd) ↔ (busy.ru_msgsnd < 2 ^ 31))
    × ((rusage_get_msgrcv busy ≡ pos busy.ru_msgrcv) ↔ (busy.ru_msgrcv < 2 ^ 31))
    × ((rusage_get_nsignals busy ≡ pos busy.ru_nsignals) ↔ (busy.ru_nsignals < 2 ^ 31))
    × ((rusage_get_nvcsw busy ≡ pos busy.ru_nvcsw) ↔ (busy.ru_nvcsw < 2 ^ 31))
    × ((rusage_get_nivcsw busy ≡ pos busy.ru_nivcsw) ↔ (busy.ru_nivcsw < 2 ^ 31))
usage-exact_example = usage-exact busy
