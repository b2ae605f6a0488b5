-- ===== src/Memory/Cells.antt =====
-- How many cells hold a pointer, and what reads and writes do to the cells.
use uv_mbt.Base.{
  inl, inr, Bool-cases, ℕ, ◌+◌, ◌≡◌, refl, ◌≢◌, ◌⊎◌, Bool, ◌||◌, false, true, some, List, [], ◌∷◌,
  ◌++◌, map, ◌==◌, if◌then◌else◌, arith, same,
}
use uv_mbt.Memory.{Ptr, null, Field, Cell, code, blank, at, read, write, erase}

-- the number of cells that hold `p`
unfoldable pub owns : Ptr → List Cell → ℕ
owns p [] = 0
owns p (c ∷ cs) = same p c.value + owns p cs

-- the number of cells of the object `o` that hold `p`
unfoldable pub owned_by : Ptr → Ptr → List Cell → ℕ
owned_by o p [] = 0
owned_by o p (c ∷ cs) = if c.object == o then same p c.value + owned_by o p cs else owned_by o p cs

-- is there a field `f` of `o`?
unfoldable pub has : Ptr → Field → List Cell → Bool
has o f [] = false
has o f (c ∷ cs) = at o f c.object c.field || has o f cs

pub owns-write :
    (p o : Ptr) (f : Field) (v : Ptr) (old : Ptr) (cs : List Cell)
    → read o f cs ≡ some old
    → owns p (write o f v cs) + same p old ≡ owns p cs + same p v
unfolding owns read write
owns-write p o f v old [] h = ground arith
owns-write p o f v old (c ∷ cs) h = ground (arith, owns-write p o f v old cs)

pub has-write :
    (o : Ptr) (f : Field) (v : Ptr) (o' : Ptr) (f' : Field) (cs : List Cell)
    → has o' f' (write o f v cs) ≡ has o' f' cs
unfolding has write
has-write o f v o' f' [] = refl
has-write o f v o' f' (c ∷ cs) = ground (arith, has-write o f v o' f' cs)

pub has-read :
    (o : Ptr) (f : Field) (cs : List Cell) → has o f cs ≡ true → (v : Ptr) × (read o f cs ≡ some v)
unfolding has read
has-read o f [] h = absurd (cc)
has-read o f (c ∷ cs) h = elim (Bool-cases (at o f c.object c.field)) [
  | inl hit ↦ (c.value, rw hit)
  | inr miss ↦ rw miss (has-read o f cs (rw miss at h))
]

pub read-has :
    (o : Ptr) (f : Field) (v : Ptr) (cs : List Cell) → read o f cs ≡ some v → has o f cs ≡ true
unfolding has read
read-has o f v [] h = ground arith
read-has o f v (c ∷ cs) h = ground (arith, read-has o f v cs)

pub read-write :
    (o : Ptr) (f : Field) (v : Ptr) (cs : List Cell)
    → has o f cs ≡ true
    → read o f (write o f v cs) ≡ some v
unfolding has read write
read-write o f v [] h = ground arith
read-write o f v (c ∷ cs) h = ground (arith, read-write o f v cs)

at_apart :
    (o : Ptr) (f : Field) (o' : Ptr) (f' : Field) (p : Ptr) (g : Field)
    → (o ≢ o') ⊎ (code f ≢ code f')
    → at o f p g ≡ true
    → at o' f' p g ≡ false
unfolding at
at_apart o f o' f' p g (inl h) e = ground arith
at_apart o f o' f' p g (inr h) e = ground arith

-- writing what a field holds changes nothing
pub write-read :
    (o : Ptr) (f : Field) (v : Ptr) (cs : List Cell) → read o f cs ≡ some v → write o f v cs ≡ cs
unfolding read write
write-read o f v [] h = refl
write-read o f v (c ∷ cs) h = ground (arith, write-read o f v cs)

-- a write spares the other fields
pub read-write_other :
    (o : Ptr) (f : Field) (v : Ptr) (o' : Ptr) (f' : Field) (cs : List Cell)
    → (o ≢ o') ⊎ (code f ≢ code f')
    → read o' f' (write o f v cs) ≡ read o' f' cs
unfolding read write
read-write_other o f v o' f' [] h = refl
read-write_other o f v o' f' (c ∷ cs) h =
    ground (arith, at_apart o f o' f' c.object c.field h, read-write_other o f v o' f' cs h)

pub owns-blank :
    (p o : Ptr) (fs : List Field) (cs : List Cell)
    → p ≢ null
    → owns p (map (blank o) fs ++ cs) ≡ owns p cs
unfolding owns same
owns-blank p o [] cs h = refl
owns-blank p o (f ∷ fs) cs h = ground (arith, owns-blank p o fs cs)

pub has-blank :
    (o o' : Ptr) (f : Field) (fs : List Field) (cs : List Cell)
    → has o' f cs ≡ true
    → has o' f (map (blank o) fs ++ cs) ≡ true
unfolding has
has-blank o o' f [] cs h = h
has-blank o o' f (g ∷ fs) cs h = ground (arith, has-blank o o' f fs cs h)

-- to give an object's storage back is to lose what its cells hold
pub owns-erase : (p o : Ptr) (cs : List Cell) → owns p (erase o cs) + owned_by o p cs ≡ owns p cs
unfolding owns owned_by erase
owns-erase p o [] = refl
owns-erase p o (c ∷ cs) = ground (arith, owns-erase p o cs)
