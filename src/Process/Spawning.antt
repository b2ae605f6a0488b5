-- ===== src/Process/Spawning.antt =====
-- src/process.c: the ownership of the exit callback, from the options to the process and out of it.
use uv_mbt.Base.{
  ℤ, ◌≡◌, refl, ◌≢◌, ◌∙◌, ◌==◌, if◌then◌else◌, Bool-cases, ==_ne, inl, inr, [], ◌∷◌, arith,
}
use uv_mbt.Memory.{
  Ptr, null, Field, loop, dat, exit_cb, file, args, env, cwd, State, M, and_then, put, decref, pure,
  read,
}
use uv_mbt.Memory.Cells.{read-has, read-write, read-write_other}
use uv_mbt.Memory.Idioms.{Starts, Consumes, replace-Wrote, get-at, put-then, Wrote}
use uv_mbt.Memory.Ledger.{Ends, Moves}
use uv_mbt.Memory.Rules.{
  Has, Reads, forget, same_zero, seq, settle, weaken, pure-Ends, same-null, decref-Same,
  incref-Same,
}
use uv_mbt.Process.{
  process_exit_cb, process_options_set, process_options_set_exit_cb, process_options_set_file,
  process_options_set_args, process_options_set_env, process_options_set_cwd, spawn,
}

option-Wrote :
    (f : Field) (options v : Ptr) (s : State)
    → options ≢ null
    → Has options f s
    → Ends (Wrote options f v s) (v ∷ options ∷ []) [] s (process_options_set f options v s)
unfolding process_options_set
option-Wrote f options v s ho h =
    seq (replace-Wrote options f v s h) λ _ t w _. weaken (decref-Same options t ho) λ _ u k. k ∙ w

-- Each of the five options that own an object stores it, releases the one before and the parameter,
-- and writes no other field.
process_options_set-Ends :
    (options v : Ptr) (s : State)
    → options ≢ null
    → Has options exit_cb s
    → Has options file s
    → Has options args s
    → Has options env s
    → Has options cwd s
    → Ends
        (Wrote options exit_cb v s)
        (v ∷ options ∷ [])
        []
        s
        (process_options_set_exit_cb options v s)
      × Ends (Wrote options file v s) (v ∷ options ∷ []) [] s (process_options_set_file options v s)
      × Ends (Wrote options args v s) (v ∷ options ∷ []) [] s (process_options_set_args options v s)
      × Ends (Wrote options env v s) (v ∷ options ∷ []) [] s (process_options_set_env options v s)
      × Ends (Wrote options cwd v s) (v ∷ options ∷ []) [] s (process_options_set_cwd options v s)
unfolding process_options_set_exit_cb process_options_set_file process_options_set_args
    process_options_set_env process_options_set_cwd
process_options_set-Ends options v s ho hx hf ha he hc = (
  option-Wrote exit_cb options v s ho hx,
  option-Wrote file options v s ho hf,
  option-Wrote args options v s ho ha,
  option-Wrote env options v s ho he,
  option-Wrote cwd options v s ho hc,
)

-- The exit callback, where the process holds a closure, moves it into the MoonBit code, shares the
-- process with it and leaves NULL; where it holds none, nothing happens.
process_exit_cb-Moves :
    (code : Ptr → Ptr → ℤ → ℤ → M (Unit {0})) (process c : Ptr) (exit_status term_signal : ℤ)
    (s : State)
    → (c ≢ null → Consumes (c ∷ process ∷ []) [] (code c process exit_status term_signal))
    → process ≢ null
    → Reads process dat c s
    → Moves [] [] s (process_exit_cb code process exit_status term_signal s)
unfolding process_exit_cb
process_exit_cb-Moves code process c exit_status term_signal s consumes hp e =
    get-at process dat _ e (elim (Bool-cases (c == null)) [
      | inl z ↦ rw z (pure-Ends tt s tt)
      | inr nz ↦ rw nz (
          settle
            (seq (put-then process dat null _ e λ t _ _. forget (incref-Same process t hp))
              λ _ u _ _. consumes (==_ne c null nz) u)
            (λ p i. omega (arith, same-null p i)))
    ])

-- what follows the hand-over of the callback
spawn_rest :
    (m : M ℤ) (trampoline l process options c : Ptr) (r : ℤ) (s : State)
    → Starts r l process m
    → options ≢ null
    → process ≢ options
    → Reads options exit_cb c s
    → Reads process loop null s
    → Ends
        (λ x t.
          (x ≡ r)
          × Reads options exit_cb null t
          × (read process dat t.cells ≡ read process dat s.cells))
        (l ∷ options ∷ [])
        (c ∷ [])
        s
        (and_then (put options exit_cb trampoline s) λ _ t. and_then (m t) λ x u.
          and_then (put options exit_cb null u) λ _ v. and_then (decref options v) λ _. pure x)
spawn_rest m trampoline l process options c r s starts ho apart ec el =
    settle
      (put-then options exit_cb trampoline _ ec λ t w _.
        let el2 : Reads process loop null t =
          rw
            (
              w,
              read-write_other options exit_cb trampoline process loop s.cells (inr (omega arith)),
            )
            el in
        seq (starts t el2) λ x u (ex, k) _.
          let et : Reads options exit_cb trampoline u =
            rw (k, read-write_other process loop l options exit_cb t.cells (inr (omega arith)), w)
              (read-write options exit_cb trampoline s.cells
                (read-has options exit_cb c s.cells ec)) in
          put-then options exit_cb null _ et λ v w2 _. seq (decref-Same options v ho) λ _ y k2 _.
            pure-Ends x y (
              ex,
              rw (k2, w2)
                  (read-write options exit_cb null u.cells
                    (read-has options exit_cb trampoline u.cells et)),
              rw
                  (
                    k2,
                    w2,
                    read-write_other options exit_cb null process dat u.cells (inr (omega arith)),
                    k,
                    read-write_other process loop l process dat t.cells (inr (omega arith)),
                    w,
                    read-write_other options exit_cb trampoline process dat s.cells
                        (inr (omega arith)),
                  )
                  refl,
            ))
      (λ p i. omega (arith, same-null p i))

-- Spawning a process with options that hold an exit callback moves the callback into the process and
-- releases what that held; with options that hold none it leaves the process as it is. Either way the
-- address of the C function is out of the options again, the options are released, libuv's answer is
-- returned, and no reference is lost or invented, where libuv stores the loop in the process and
-- answers `r`.
pub spawn-Ends :
    (uv_spawn : Ptr → Ptr → Ptr → M ℤ) (trampoline l process options c old : Ptr) (r : ℤ)
    (s : State)
    → Starts r l process (uv_spawn l process options)
    → options ≢ null
    → process ≢ options
    → Reads options exit_cb c s
    → Reads process loop null s
    → Reads process dat old s
    → Ends
        (λ x t.
          (x ≡ r)
          × Reads options exit_cb null t
          × Reads process dat (if c == null then old else c) t)
        (l ∷ options ∷ process ∷ [])
        (process ∷ [])
        s
        (spawn uv_spawn trampoline l process options s)
unfolding spawn
spawn-Ends uv_spawn trampoline l process options c old r s starts ho apart ec el ed =
    get-at options exit_cb _ ec (elim (Bool-cases (c == null)) [
      | inl z ↦ rw z (
          settle
            (weaken
              (spawn_rest (uv_spawn l process options) trampoline l process options c r s starts ho
                apart ec el)
              λ x t (ex, en, same_dat). (ex, en, same_dat ∙ ed))
            (λ p i. omega (arith, same_zero p c z i)))
      | inr nz ↦ rw nz (
          settle
            (seq (replace-Wrote process dat c s (read-has process dat old s.cells ed)) λ _ t w _.
              let ec2 : Reads options exit_cb c t =
                rw (w, read-write_other process dat c options exit_cb s.cells (inr (omega arith)))
                  ec in
              let el2 : Reads process loop null t =
                rw (w, read-write_other process dat c process loop s.cells (inr (omega arith)))
                  el in
              let moved : Reads process dat c t =
                rw w (read-write process dat c s.cells (read-has process dat old s.cells ed)) in
              weaken
                (spawn_rest (uv_spawn l process options) trampoline l process options c r t starts
                  ho apart ec2 el2)
                λ x u (ex, en, same_dat). (ex, en, same_dat ∙ moved))
            (λ p i. omega arith))
    ])
