-- ===== src/Tests/System.antt =====
-- The theorems on processes, threads, name resolution and the loop at concrete inputs, and the life of a
-- request on the file system.
use uv_mbt.Base.{ℤ, pos, ◌≡◌, refl, [], ◌∷◌, some, arith, ◌==◌, if◌then◌else◌}
use uv_mbt.Dns.{AddrInfo, addrinfo_results_iterate}
use uv_mbt.Dns.Resolving.{first_answer, addrinfo_results_iterate-Ends}
use uv_mbt.Fs.Dispatch.{rename, call, owned}
use uv_mbt.Fs.Life.{fs_life, IsEmpty, fs_life-Ends}
use uv_mbt.Memory.{null, dat, exit_cb, read, at, Ptr, State, M, and_then, decref, release, pure}
use uv_mbt.Memory.Ledger.{Ends}
use uv_mbt.Memory.Rules.{Reads, seq, pure-Ends, decref-Same, release-Same}
use uv_mbt.Process.{spawn}
use uv_mbt.Process.Spawning.{spawn-Ends}
use uv_mbt.Memory.{stream}
use uv_mbt.Thread.{thread_create}
use uv_mbt.Thread.Starting.{first_error, block_after, handed_over, thread_create-Ends}
use uv_mbt.Thread.Sharing.{
  copied, ended, block_of, handles_left, block_history, block_history-handles_left,
}
use uv_mbt.Tests.Fixtures.{
  cell, desk, done, done-Answers, enter, enter-Starts, swallow, swallow-Consumes,
}
use uv_mbt.Tests.Requests.{calls}

fs_life-Ends_example :
    Ends
      (λ x t. IsEmpty 95 t)
      (1 ∷ 44 ∷ 45 ∷ 6 ∷ [])
      []
      desk
      (fs_life calls (λ c q. swallow (c ∷ q ∷ [])) 95 1 6 (rename 44 45) desk)
unfolding owned call
fs_life-Ends_example =
    fs_life-Ends calls (λ c q. swallow (c ∷ q ∷ [])) 95 1 6 (rename 44 45) (pos 0) desk
      (enter-Starts 1 95) (swallow-Consumes (6 ∷ 95 ∷ []) (omega arith, (omega arith, tt)))
      (omega arith, (omega arith, tt))

-- 8 is a new process, 60 its options with an exit callback
abbrev shop : State
shop = record desk { cells = cell 60 exit_cb 61 ∷ desk.cells }

spawn-Ends_example :
    Ends
      (λ x t.
        (x ≡ pos 0) × Reads 60 exit_cb null t × Reads 8 dat (if 61 == null then null else 61) t)
      (1 ∷ 60 ∷ 8 ∷ [])
      (8 ∷ [])
      shop
      (spawn (λ l p o. enter l p) 99 1 8 60 shop)
unfolding read at
spawn-Ends_example =
    spawn-Ends (λ l p o. enter l p) 99 1 8 60 61 null (pos 0) shop (enter-Starts 1 8) (omega arith)
      (omega arith) refl refl refl

-- two results; the MoonBit code stops at the one with the flags 3
abbrev info : ℤ → Ptr → AddrInfo
info flags p = record {
  ai_flags = flags;
  ai_family = pos 2;
  ai_socktype = pos 1;
  ai_protocol = pos 6;
  ai_addr = [];
  ai_canonname = null;
  copy = p;
}

abbrev stop_at : Ptr → AddrInfo → Ptr → M ℤ
stop_at c ai p s = and_then (decref c s) λ _ t. and_then (release p t) λ _. pure ai.ai_flags

stop_at-Ends :
    (ai : AddrInfo) (t : State)
    → Ends (λ x u. (x ≡ ai.ai_flags) × Unit {0}) (6 ∷ ai.copy ∷ []) [] t (stop_at 6 ai ai.copy t)
stop_at-Ends ai t =
    seq (decref-Same 6 t (omega arith))
      λ _ u _ _. seq (release-Same ai.copy u) λ _ v _ _. pure-Ends ai.ai_flags v (refl, tt)

addrinfo_results_iterate-Ends_example :
    Ends
      (λ x t.
        x
        ≡ first_answer
            (λ ai. ai.ai_flags)
            (info (pos 0) 71 ∷ info (pos 3) 72 ∷ info (pos 4) 73 ∷ []))
      []
      []
      desk
      (addrinfo_results_iterate stop_at
        (info (pos 0) 71 ∷ info (pos 3) 72 ∷ info (pos 4) 73 ∷ [])
        6
        desk)
addrinfo_results_iterate-Ends_example =
    addrinfo_results_iterate-Ends stop_at (λ ai. ai.ai_flags)
      (info (pos 0) 71 ∷ info (pos 3) 72 ∷ info (pos 4) 73 ∷ []) 6 desk stop_at-Ends (omega arith)

-- the containers of a pipe and of a file
abbrev shelf : State
shelf = record { cells = cell 65 stream 66 ∷ cell 67 stream 3 ∷ []; log = [] }

thread_create-Ends_example :
    Ends
      (λ x t. x ≡ (first_error (pos 0) (pos 0), block_after (first_error (pos 0) (pos 0))))
      (6 ∷ 7 ∷ [])
      (handed_over (first_error (pos 0) (pos 0)) 6)
      desk
      (thread_create done (λ c f n. done) 7 6 (pos 0) 0 desk)
thread_create-Ends_example =
    thread_create-Ends done (λ c f n. done) 7 6 (pos 0) 0 (pos 0) (pos 0) desk done-Answers
      done-Answers (omega arith) (omega arith)

block_history-handles_left_example :
    block_history (copied ∷ ended ∷ copied ∷ ended ∷ ended ∷ []) (block_of 1) ≡ some (block_of 0)
unfolding handles_left
block_history-handles_left_example =
    block_history-handles_left (copied ∷ ended ∷ copied ∷ ended ∷ ended ∷ []) 1 0 (omega arith) refl
