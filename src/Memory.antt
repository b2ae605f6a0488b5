-- ===== src/Memory.antt =====
-- The C memory of the bindings, as far as it owns MoonBit objects: a cell for each pointer field,
-- and the history of the reference counts.
pub mod Cells
pub mod Idioms
pub mod Ledger
pub mod Rules
pub mod Shapes
pub mod Records
use uv_mbt.Base.{ℕ, Bool, ◌&&◌, Option, none, some, List, [], ◌∷◌, ◌++◌, map, ◌==◌, if◌then◌else◌}

abbrev pub Ptr : Type 0
Ptr = ℕ

abbrev pub null : Ptr
null = 0

-- The pointer fields of the structs that the bindings read and write.
pub data Field : Type 0 where
  loop dat bufs_base : Field
  bytes alloc_cb read_cb : Field
  cb bufs buffer work_cb after_cb : Field
  exit_cb file args env cwd : Field
  stream : Field

abbrev pub code : Field → ℕ
code loop = 0
code dat = 1
code bufs_base = 2
code bytes = 3
code alloc_cb = 4
code read_cb = 5
code cb = 6
code bufs = 7
code buffer = 8
code work_cb = 9
code after_cb = 10
code exit_cb = 11
code file = 12
code args = 13
code env = 14
code cwd = 15
code stream = 16

pub record Cell : Type 0 where
  pub object : Ptr
  pub field : Field
  pub value : Ptr

-- What the runtime is asked to do with an object's count: `made` is a new object, with count 1.
pub data Event : Type 0 where
  made : Ptr → Event
  inc : Ptr → Event
  dec : Ptr → Event

pub record State : Type 0 where
  pub cells : List Cell
  pub log : List Event

abbrev pub M : Type 0 → Type 0
M A = State → Option (A × State)

abbrev pub pure : {A : Type 0} → A → M A
pure a s = some (a, s)

module _ {A B : Type 0} where
  abbrev pub and_then : Option (A × State) → (A → M B) → Option (B × State)
  and_then none k = none
  and_then (some (a, s)) k = k a s

  infixl 5 ◌>>=◌ ◌>>◌
  abbrev pub ◌>>=◌ : M A → (A → M B) → M B
  ◌>>=◌ m k s = and_then (m s) k

  abbrev pub ◌>>◌ : M A → M B → M B
  ◌>>◌ m k s = and_then (m s) (λ _. k)

-- is it the field `f` of the object `o`?
unfoldable pub at : Ptr → Field → Ptr → Field → Bool
at o f o' f' = o' == o && code f' == code f

unfoldable pub read : Ptr → Field → List Cell → Option Ptr
read o f [] = none
read o f (c ∷ cs) = if at o f c.object c.field then some c.value else read o f cs

unfoldable pub write : Ptr → Field → Ptr → List Cell → List Cell
write o f v [] = []
write o f v (c ∷ cs) =
    if at o f c.object c.field then record c { value = v } ∷ cs else c ∷ write o f v cs

unfoldable pub erase : Ptr → List Cell → List Cell
erase o [] = []
erase o (c ∷ cs) = if c.object == o then erase o cs else c ∷ erase o cs

-- `o->f`; a fault where there is no such field
unfoldable pub get : Ptr → Field → M Ptr
get o f s = elim (read o f s.cells) [ none ↦ none | some v ↦ some (v, s) ]

-- `o->f = v`
unfoldable pub put : Ptr → Field → Ptr → M (Unit {0})
put o f v s = elim (read o f s.cells) [
  | none ↦ none
  | some old ↦ some (tt, record s { cells = write o f v s.cells })
]

-- `moonbit_incref(p)`; a fault at NULL
unfoldable pub incref : Ptr → M (Unit {0})
incref p s = if p == null then none else some (tt, record s { log = inc p ∷ s.log })

-- `moonbit_decref(p)`; a fault at NULL
unfoldable pub decref : Ptr → M (Unit {0})
decref p s = if p == null then none else some (tt, record s { log = dec p ∷ s.log })

-- `if (p) { moonbit_decref(p); }`
unfoldable pub release : Ptr → M (Unit {0})
unfolding decref
release p = if p == null then pure tt else decref p

abbrev pub blank : Ptr → Field → Cell
blank o f = record { object = o; field = f; value = null }

-- `moonbit_make_external_object` and the `memset` after it: `o` is the address that it returns
unfoldable pub make : Ptr → List Field → M Ptr
make o fs s = some (o, record { cells = map (blank o) fs ++ s.cells; log = made o ∷ s.log })

-- the end of an object, after its finalizer: its storage is given back
unfoldable pub discard : Ptr → M (Unit {0})
discard o s = some (tt, record s { cells = erase o s.cells })
