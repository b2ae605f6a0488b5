-- ===== src/System/Watchers.antt =====
-- The system of the five kinds of handles.
use uv_mbt.Base.{◌+◌, ◌<◌, ◌≡◌, ◌≢◌, [], count}
use uv_mbt.Memory.{Ptr, null, State, M}
use uv_mbt.Memory.Cells.{owns}
use uv_mbt.Memory.Idioms.{IsQuiet}
use uv_mbt.Memory.Ledger.{ups, downs}
use uv_mbt.System.{Call, takes, effect, World, Ready, Step, Reach, start_world}
use uv_mbt.System.Counting.{Inv, Reach-Inv}
use uv_mbt.System.Draining.{Holds, after, Ready-safe, Tidy, Reach-drained}
use uv_mbt.System.Kinds.{Kind, Uv, binding, IsDocumented}
use uv_mbt.System.Lawful.{binding-IsLawful}

-- Any number of idle, check, prepare, timer and poll handles, and any order of calls by the program and
-- by the loop, calls from within callbacks included: in every world that is reached from the empty one,
-- the count that the runtime keeps of an object is the number of the fields, the variables and the queues that
-- hold it, and every handle has its two fields. libuv is taken to store the loop in a handle and to touch
-- nothing else, and each call to be ready: the handle is one of the world, it is initialised once, and libuv
-- calls back where there is a callback.
pub binding-Inv :
    (uv : Uv) (uv_close : Ptr → M (Unit {0})) {w : World}
    → IsDocumented uv
    → ((h : Ptr) → IsQuiet (uv_close h))
    → Reach (binding uv) uv_close start_world w
    → Inv w
binding-Inv uv uv_close doc closes reach =
    Reach-Inv (binding uv) uv_close (binding-IsLawful uv doc) closes reach

-- For the five kinds of handles, where libuv stores the loop in a handle that is initialised and touches nothing
-- else: in every world that is reached from the empty one, a call that is ready, with references
-- that are held, ends without a fault in a world in which the fields are changed as the call says and the
-- references have changed hands; and whatever a variable, a queue or a field holds has a reference left, so
-- that the runtime has not freed it.
pub binding-safe :
    (uv : Uv) (uv_close : Ptr → M (Unit {0})) (c : Call Kind) (w : World)
    → IsDocumented uv
    → ((h : Ptr) → IsQuiet (uv_close h))
    → Reach (binding uv) uv_close start_world w
    → Ready c w
    → Holds w.held (takes c)
    → ((t : State) × (t.cells ≡ effect c w.memory.cells)
        × Step (binding uv) uv_close w (after c w t))
      × ((p : Ptr)
          → p ≢ null
          → 0 < count p w.held + owns p w.memory.cells
          → downs p w.memory.log < ups p w.memory.log)
binding-safe uv uv_close c w doc closes reach r h =
    Ready-safe (binding uv) uv_close (binding-IsLawful uv doc) closes c w reach r h

-- Nothing leaks, for the five kinds of handles, where libuv stores the loop in a handle that is initialised and
-- touches nothing else: from a world that is reached from the empty one, where neither the program
-- nor libuv holds a reference, and the memory has the fields of initialised handles that no field
-- holds, their finalizers run one after the other to a world with no field left in which every count is
-- down to 0: the handles, their loops and their callbacks are all freed.
pub binding-drained :
    (uv : Uv) (uv_close : Ptr → M (Unit {0})) (kind_of : Ptr → Kind) (w : World)
    → IsDocumented uv
    → ((h : Ptr) → IsQuiet (uv_close h))
    → Reach (binding uv) uv_close start_world w
    → ((p : Ptr) → count p w.held ≡ 0)
    → Tidy w.handles w.memory.cells
    → (v : World) × Reach (binding uv) uv_close w v
      × (v.memory.cells ≡ [])
      × ((p : Ptr) → p ≢ null → ups p v.memory.log ≡ downs p v.memory.log)
binding-drained uv uv_close kind_of w doc closes reach held tidy =
    Reach-drained (binding uv) uv_close (binding-IsLawful uv doc) closes kind_of w reach held tidy
