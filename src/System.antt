-- ===== src/System.antt =====
-- The handles of src/idle.c, check.c, prepare.c, timer.c and poll.c as one system: the MoonBit program and
-- the event loop call the functions of any number of handles, in any order. A callback is two things:
-- the C function shares the closure and the handle with the program, and what the program does then,
-- calls of the bindings included, are further calls of the system. `held` are the references in the variables of
-- the program and in libuv's queues.
pub mod Objects
pub mod Counting
pub mod Kinds
pub mod Bodies
pub mod Lawful
pub mod Watchers
pub mod Draining
use uv_mbt.Base.{
  ℕ, ℤ, ◌+◌, ◌<◌, ◌≡◌, ◌≢◌, true, Option, some, List, [], ◌∷◌, ◌++◌, map, count, ◌==◌,
  if◌then◌else◌, arith,
}
use uv_mbt.Handle.{close as handle_close, close_cb}
use uv_mbt.Memory.{
  Ptr, null, loop, dat, Cell, State, M, ◌>>=◌, ◌>>◌, pure, incref, decref, make as memory_make,
  discard, write, erase, blank,
}
use uv_mbt.Memory.Idioms.{IsQuiet}
use uv_mbt.Memory.Ledger.{Ends, Returns, Balance, ups, downs}
use uv_mbt.Memory.Rules.{Reads, Same, Has}
use Objects.{fields_of, handle_fields}

-- the functions of a kind of handle: `fire` is the C callback up to the call of the closure
pub record Binding : Type 0 where
  pub make_handle : (fresh : Ptr) → M Ptr
  pub init : (l handle : Ptr) → M ℤ
  pub start : (handle cb : Ptr) → M ℤ
  pub fire : (handle : Ptr) → M (Unit {0})
  pub stop : (handle : Ptr) → M ℤ
  pub finalize : (handle : Ptr) → M (Unit {0})

-- what is called: `k` is the kind of the handle
pub data Call (K : Type 0) : Type 0 where
  make : (k : K) (h : Ptr) → Call K
  init : (k : K) (l h : Ptr) → Call K
  start : (k : K) (h cb : Ptr) → Call K
  fire : (k : K) (h cb : Ptr) → Call K
  stop : (k : K) (h : Ptr) → Call K
  close : (h on_close : Ptr) → Call K  -- moonbit_uv_close
  closed : (h on_close : Ptr) → Call K  -- the callback of uv_close
  end : (k : K) (h : Ptr) → Call K  -- the finalizer, and the storage is given back
  new : (p : Ptr) → Call K  -- the program makes another object: a loop, a closure
  dup : (p : Ptr) → Call K  -- the program copies a reference
  lose : (p : Ptr) → Call K  -- the program drops a reference

module _ {K : Type 0} where
  unfoldable pub run : (K → Binding) → (uv_close : Ptr → M (Unit {0})) → Call K → M (Unit {0})
  run b uv_close (Call.make k h) = (b k).make_handle h >> pure tt
  run b uv_close (Call.init k l h) = (b k).init l h >> pure tt
  run b uv_close (Call.start k h cb) = (b k).start h cb >> pure tt
  run b uv_close (Call.fire k h cb) = (b k).fire h
  run b uv_close (Call.stop k h) = (b k).stop h >> pure tt
  run b uv_close (Call.close h on_close) = handle_close uv_close h on_close
  run b uv_close (Call.closed h on_close) = close_cb (λ c. pure tt) h
  run b uv_close (Call.end k h) = (b k).finalize h >> discard h
  run b uv_close (Call.new p) = memory_make p [] >> pure tt
  run b uv_close (Call.dup p) = incref p
  run b uv_close (Call.lose p) = decref p

  -- the references that a call takes over from the program and from libuv
  abbrev pub takes : Call K → List Ptr
  takes (Call.init k l h) = l ∷ []
  takes (Call.start k h cb) = cb ∷ h ∷ []
  takes (Call.stop k h) = h ∷ []
  takes (Call.close h on_close) = on_close ∷ h ∷ []
  takes (Call.closed h on_close) = h ∷ []
  takes (Call.lose p) = p ∷ []
  takes c = []

  -- those that it leaves to them; an initialised handle is the event loop's
  abbrev pub gives : Call K → List Ptr
  gives (Call.make k h) = h ∷ []
  gives (Call.fire k h cb) = cb ∷ h ∷ []
  gives (Call.closed h on_close) = on_close ∷ []
  gives (Call.new p) = p ∷ []
  gives (Call.dup p) = p ∷ []
  gives c = []

  -- what it does to the fields
  abbrev pub effect : Call K → List Cell → List Cell
  effect (Call.make k h) cs = map (blank h) handle_fields ++ cs
  effect (Call.init k l h) cs = write h loop l cs
  effect (Call.start k h cb) cs = write h dat cb cs
  effect (Call.stop k h) cs = write h dat null cs
  effect (Call.close h on_close) cs = write h dat on_close cs
  effect (Call.closed h on_close) cs = write h dat null cs
  effect (Call.end k h) cs = erase h cs
  effect c cs = cs

-- the handles are those that were made and have not ended
pub record World : Type 0 where
  pub memory : State
  pub held : List Ptr
  pub handles : List Ptr

-- is the handle one of the world?
abbrev pub Lives : Ptr → World → Type 0
Lives h w = 0 < count h w.handles

unfoldable pub without : Ptr → List Ptr → List Ptr
without h [] = []
without h (p ∷ ps) = if p == h then without h ps else p ∷ without h ps

module _ {K : Type 0} where
  abbrev pub handles_after : Call K → List Ptr → List Ptr
  handles_after (Call.make k h) hs = h ∷ hs
  handles_after (Call.end k h) hs = without h hs
  handles_after c hs = hs

  -- What the types of MoonBit and the documentation of libuv promise of a call: a new handle has an address
  -- that is not in use; a handle is initialised once; libuv calls back a handle that has a callback; the
  -- runtime ends an object that has no reference left, here one that was initialised.
  abbrev pub Ready : Call K → World → Type 0
  Ready (Call.make k h) w = (h ≢ null) × (count h w.handles ≡ 0) × (fields_of h w.memory.cells ≡ [])
  Ready (Call.init k l h) w = Lives h w × Reads h loop null w.memory
  Ready (Call.start k h cb) w = Lives h w × (h ≢ null)
  Ready (Call.fire k h cb) w = Lives h w × (h ≢ null) × (cb ≢ null) × Reads h dat cb w.memory
  Ready (Call.stop k h) w = Lives h w × (h ≢ null)
  Ready (Call.close h on_close) w = Lives h w × (h ≢ null)
  Ready (Call.closed h on_close) w = Lives h w × (h ≢ null) × Reads h dat on_close w.memory
  Ready (Call.end k h) w =
      Lives h w
      × (ups h w.memory.log ≡ downs h w.memory.log)
      × ((l : Ptr) × (l ≢ null) × Reads h loop l w.memory)
  Ready (Call.new p) w = (p ≢ null) × (fields_of p w.memory.cells ≡ [])
  Ready (Call.dup p) w = (p ≢ null) × (0 < count p w.held)
  Ready (Call.lose p) w = p ≢ null

-- A call, by the program or by the loop, which hands references to it and takes those that it leaves.
pub data Step {K : Type 0} (b : K → Binding) (uv_close : Ptr → M (Unit {0})) (w v : World)
    : Type 0 where
  call :
      (c : Call K)
      → Ready c w
      → ((p : Ptr) → count p v.held + count p (takes c) ≡ count p w.held + count p (gives c))
      → v.handles ≡ handles_after c w.handles
      → run b uv_close c w.memory ≡ some (tt, v.memory)
      → Step b uv_close w v

pub data Reach {K : Type 0} (b : K → Binding) (uv_close : Ptr → M (Unit {0})) (w : World)
    : World → Type 0 where
  here : Reach b uv_close w w
  next : {u v : World} → Reach b uv_close w u → Step b uv_close u v → Reach b uv_close w v

abbrev pub start_world : World
start_world = record { memory = record { cells = []; log = [] }; held = []; handles = [] }

-- how a finalizer ends: giving the storage back then is a call that takes and gives nothing
pub record Finalized (h : Ptr) (s t : State) : Type 0 where
  pub erased : erase h t.cells ≡ erase h s.cells
  pub settled : Balance [] [] s (record t { cells = erase h t.cells })

-- What the functions of a kind owe.
pub record IsLawful (b : Binding) : Type 0 where
  pub make_law :
      (h : Ptr) (s : State)
      → Ends
          (λ _ t. t.cells ≡ map (blank h) handle_fields ++ s.cells)
          []
          (h ∷ [])
          s
          (b.make_handle h s)
  pub init_law :
      (l h : Ptr) (s : State)
      → Reads h loop null s
      → Ends (λ _ t. t.cells ≡ write h loop l s.cells) (l ∷ []) [] s (b.init l h s)
  pub start_law :
      (h cb : Ptr) (s : State)
      → h ≢ null
      → Has h dat s
      → Ends (λ _ t. t.cells ≡ write h dat cb s.cells) (cb ∷ h ∷ []) [] s (b.start h cb s)
  pub fire_law :
      (h cb : Ptr) (s : State)
      → h ≢ null
      → cb ≢ null
      → Reads h dat cb s
      → Ends (Same s) [] (cb ∷ h ∷ []) s (b.fire h s)
  pub stop_law :
      (h : Ptr) (s : State)
      → h ≢ null
      → Has h dat s
      → Ends (λ _ t. t.cells ≡ write h dat null s.cells) (h ∷ []) [] s (b.stop h s)
  pub finalize_law :
      (h l d : Ptr) (s : State)
      → l ≢ null
      → fields_of h s.cells ≡ handle_fields
      → Reads h loop l s
      → Reads h dat d s
      → Returns (λ _ t. Finalized h s t) (b.finalize h s)
