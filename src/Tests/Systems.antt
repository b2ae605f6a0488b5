-- ===== src/Tests/Systems.antt =====
-- The theorems on the system of handles at a run of it: a timer is made, initialised, started, closed, and
-- let go of.
use uv_mbt.Base.{same, pos, ◌+◌, ◌<◌, ◌≡◌, ◌≢◌, refl, List, [], ◌∷◌, count, arith}
use uv_mbt.Memory.{
  Ptr, null, loop, dat, dec, inc, made, Cell, Event, State, M, make, get, put, read, write, at,
  erase, incref, decref, release,
}
use uv_mbt.Memory.Idioms.{replace}
use uv_mbt.Memory.Cells.{owns}
use uv_mbt.Memory.Ledger.{ups, downs}
use uv_mbt.System.{Call, effect, World, Step, call, Reach, here, next, start_world, run}
use uv_mbt.System.Counting.{Inv}
use uv_mbt.System.Draining.{after}
use uv_mbt.System.Kinds.{Kind, timer, Uv, binding, IsDocumented}
use uv_mbt.System.Watchers.{binding-Inv, binding-safe, binding-drained}
use uv_mbt.Handle.{close, close_cb}
use uv_mbt.System.Objects.{fields_of}
use uv_mbt.Watcher.Timer.{timer_make, timer_init, timer_start, timer_cb}
use uv_mbt.Tests.Fixtures.{cell, done, done-Answers, enter, enter-Starts, nothing, nothing-IsQuiet}

abbrev calm : Uv
calm = record {
  uv_idle_init = enter;
  uv_check_init = enter;
  uv_prepare_init = enter;
  uv_timer_init = enter;
  uv_poll_init = λ l h fd. enter l h;
  uv_idle_start = λ h. done;
  uv_check_start = λ h. done;
  uv_prepare_start = λ h. done;
  uv_timer_start = λ h t r. done;
  uv_poll_start = λ h e. done;
  uv_idle_stop = λ h. done;
  uv_check_stop = λ h. done;
  uv_prepare_stop = λ h. done;
  uv_timer_stop = λ h. done;
  uv_poll_stop = λ h. done;
}

calm-IsDocumented : IsDocumented calm
calm-IsDocumented = record {
  answer = pos 0;
  idle_init_law = λ l h. enter-Starts l h;
  check_init_law = λ l h. enter-Starts l h;
  prepare_init_law = λ l h. enter-Starts l h;
  timer_init_law = λ l h. enter-Starts l h;
  poll_init_law = λ l h fd. enter-Starts l h;
  idle_start_law = λ h. done-Answers;
  check_start_law = λ h. done-Answers;
  prepare_start_law = λ h. done-Answers;
  timer_start_law = λ h t r. done-Answers;
  poll_start_law = λ h e. done-Answers;
  idle_stop_law = λ h. done-Answers;
  check_stop_law = λ h. done-Answers;
  prepare_stop_law = λ h. done-Answers;
  timer_stop_law = λ h. done-Answers;
  poll_stop_law = λ h. done-Answers;
}

abbrev quiet_close : Ptr → M (Unit {0})
quiet_close h = nothing

abbrev late : Kind
late = timer 100 0

abbrev handle : Ptr → Ptr → List Cell
handle l d = cell 8 loop l ∷ cell 8 dat d ∷ []

abbrev world : List Cell → List Event → List Ptr → List Ptr → World
world cells log held handles = record {
  memory = record { cells = cells; log = log };
  held = held;
  handles = handles;
}

-- 1 is a loop, 3 and 4 are closures, 8 is the timer
abbrev with_loop : World
with_loop = world ([]) (made 1 ∷ []) (1 ∷ []) ([])

abbrev with_callback : World
with_callback = world ([]) (made 3 ∷ made 1 ∷ []) (3 ∷ 1 ∷ []) ([])

abbrev with_handle : World
with_handle = world (handle null null) (made 8 ∷ made 3 ∷ made 1 ∷ []) (8 ∷ 3 ∷ 1 ∷ []) (8 ∷ [])

abbrev initialised : World
initialised = world (handle 1 null) (made 8 ∷ made 3 ∷ made 1 ∷ []) (8 ∷ 3 ∷ []) (8 ∷ [])

abbrev shared : World
shared = world (handle 1 null) (inc 8 ∷ made 8 ∷ made 3 ∷ made 1 ∷ []) (8 ∷ 8 ∷ 3 ∷ []) (8 ∷ [])

abbrev started : World
started = world (handle 1 3) (dec 8 ∷ inc 8 ∷ made 8 ∷ made 3 ∷ made 1 ∷ []) (8 ∷ []) (8 ∷ [])

abbrev fired : World
fired =
    world (handle 1 3) (inc 8 ∷ inc 3 ∷ dec 8 ∷ inc 8 ∷ made 8 ∷ made 3 ∷ made 1 ∷ [])
      (3 ∷ 8 ∷ 8 ∷ []) (8 ∷ [])

abbrev stopped : World
stopped =
    world (handle 1 3) (dec 3 ∷ inc 8 ∷ inc 3 ∷ dec 8 ∷ inc 8 ∷ made 8 ∷ made 3 ∷ made 1 ∷ [])
      (8 ∷ 8 ∷ []) (8 ∷ [])

abbrev with_close_callback : World
with_close_callback =
    world (handle 1 3)
      (made 4 ∷ dec 3 ∷ inc 8 ∷ inc 3 ∷ dec 8 ∷ inc 8 ∷ made 8 ∷ made 3 ∷ made 1 ∷ [])
      (4 ∷ 8 ∷ 8 ∷ []) (8 ∷ [])

abbrev closing : World
closing =
    world (handle 1 4)
      (dec 8
        ∷ dec 3
        ∷ made 4
        ∷ dec 3
        ∷ inc 8
        ∷ inc 3
        ∷ dec 8
        ∷ inc 8
        ∷ made 8
        ∷ made 3
        ∷ made 1
        ∷ [])
      (8 ∷ []) (8 ∷ [])

abbrev closed : World
closed =
    world (handle 1 null)
      (dec 8
        ∷ dec 8
        ∷ dec 3
        ∷ made 4
        ∷ dec 3
        ∷ inc 8
        ∷ inc 3
        ∷ dec 8
        ∷ inc 8
        ∷ made 8
        ∷ made 3
        ∷ made 1
        ∷ [])
      (4 ∷ []) (8 ∷ [])

abbrev unheld : World
unheld =
    world (handle 1 null)
      (dec 4
        ∷ dec 8
        ∷ dec 8
        ∷ dec 3
        ∷ made 4
        ∷ dec 3
        ∷ inc 8
        ∷ inc 3
        ∷ dec 8
        ∷ inc 8
        ∷ made 8
        ∷ made 3
        ∷ made 1
        ∷ [])
      ([]) (8 ∷ [])

abbrev Run : World → Type 0
Run = Reach (binding calm) quiet_close start_world

Reach-with_loop : Run with_loop
unfolding run make fields_of
Reach-with_loop = next here (call (Call.new 1) (omega arith, refl) (λ p. omega arith) refl refl)

Reach-with_callback : Run with_callback
unfolding run make fields_of
Reach-with_callback =
    next Reach-with_loop (call (Call.new 3) (omega arith, refl) (λ p. omega arith) refl refl)

Reach-with_handle : Run with_handle
unfolding run binding timer_make make fields_of
Reach-with_handle =
    next Reach-with_callback
      (call (Call.make late 8) (omega arith, refl, refl) (λ p. omega arith) refl refl)

Reach-initialised : Run initialised
unfolding run binding timer_init put read write at same
Reach-initialised =
    next Reach-with_handle
      (call (Call.init late 1 8) (omega arith, refl) (λ p. omega arith) refl refl)

Reach-shared : Run shared
unfolding run incref same
Reach-shared =
    next Reach-initialised
      (call (Call.dup 8) (omega arith, omega arith) (λ p. omega arith) refl refl)

Reach-started : Run started
unfolding run binding timer_start replace get put release read write at decref same
Reach-started =
    next Reach-shared
      (call (Call.start late 8 3) (omega arith, omega arith) (λ p. omega arith) refl refl)

Reach-fired : Run fired
unfolding run binding timer_cb get read at incref same
Reach-fired = next Reach-started (
    call (Call.fire late 8 3) (omega arith, omega arith, omega arith, refl) (λ p. omega arith) refl
      refl)

Reach-stopped : Run stopped
unfolding run decref same
Reach-stopped = next Reach-fired (call (Call.lose 3) omega arith (λ p. omega arith) refl refl)

Reach-with_close_callback : Run with_close_callback
unfolding run make fields_of
Reach-with_close_callback =
    next Reach-stopped (call (Call.new 4) (omega arith, refl) (λ p. omega arith) refl refl)

Reach-closing : Run closing
unfolding run close replace get put release read write at decref same
Reach-closing =
    next Reach-with_close_callback
      (call (Call.close 8 4) (omega arith, omega arith) (λ p. omega arith) refl refl)

Reach-closed : Run closed
unfolding run close_cb get put read write at decref same
Reach-closed =
    next Reach-closing
      (call (Call.closed 8 4) (omega arith, omega arith, refl) (λ p. omega arith) refl refl)

Reach-unheld : Run unheld
unfolding run decref same
Reach-unheld = next Reach-closed (call (Call.lose 4) omega arith (λ p. omega arith) refl refl)

binding-Inv_example : Inv fired
binding-Inv_example =
    binding-Inv calm quiet_close calm-IsDocumented (λ h. nothing-IsQuiet) Reach-fired

-- the timer fires again while the program holds the closure and the handle
binding-safe_example :
    ((t : State) × (t.cells ≡ effect (Call.fire late 8 3) fired.memory.cells)
      × Step (binding calm) quiet_close fired (after (Call.fire late 8 3) fired t))
    × ((p : Ptr)
        → p ≢ null
        → 0 < count p fired.held + owns p fired.memory.cells
        → downs p fired.memory.log < ups p fired.memory.log)
unfolding read at same
binding-safe_example =
    binding-safe calm quiet_close (Call.fire late 8 3) fired calm-IsDocumented
      (λ h. nothing-IsQuiet) Reach-fired (omega arith, omega arith, omega arith, refl) tt

binding-drained_example :
    (v : World) × Reach (binding calm) quiet_close unheld v
    × (v.memory.cells ≡ [])
    × ((p : Ptr) → p ≢ null → ups p v.memory.log ≡ downs p v.memory.log)
unfolding read at owns same erase
binding-drained_example =
    binding-drained calm quiet_close (λ h. late) unheld calm-IsDocumented (λ h. nothing-IsQuiet)
      Reach-unheld (λ p. refl) (omega arith, refl, refl, (1, omega arith, refl), refl)
