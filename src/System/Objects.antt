-- ===== src/System/Objects.antt =====
-- The cells of one object: which fields it has, and what its end takes out of the memory.
use uv_mbt.Base.{
  ==_refl, sym, ap, inl, inr, Bool-cases, ◌+◌, ◌≡◌, ◌≢◌, refl, ◌∙◌, false, true, some, List, [],
  ◌∷◌, ◌++◌, map, ◌==◌, if◌then◌else◌, arith, same,
}
use mathlib.Core.Option.{some-injective}
use uv_mbt.Memory.{Ptr, Field, loop, dat, Cell, code, blank, at, read, write, erase}
use uv_mbt.Memory.Cells.{owned_by, has}

-- the fields of an object, in the order of the cells
unfoldable pub fields_of : Ptr → List Cell → List Field
fields_of o [] = []
fields_of o (c ∷ cs) = if c.object == o then c.field ∷ fields_of o cs else fields_of o cs

-- the fields of a handle
abbrev pub handle_fields : List Field
handle_fields = loop ∷ dat ∷ []

pub fields_of-write :
    (h o : Ptr) (f : Field) (v : Ptr) (cs : List Cell)
    → fields_of h (write o f v cs) ≡ fields_of h cs
unfolding fields_of write
fields_of-write h o f v [] = refl
fields_of-write h o f v (c ∷ cs) = ground (arith, fields_of-write h o f v cs)

owned_by-none : (o p : Ptr) (cs : List Cell) → fields_of o cs ≡ [] → owned_by o p cs ≡ 0
unfolding fields_of owned_by
owned_by-none o p [] h = refl
owned_by-none o p (c ∷ cs) h = ground (arith, owned_by-none o p cs)

at_other : (o : Ptr) (f : Field) (p : Ptr) (g : Field) → (p == o) ≡ false → at o f p g ≡ false
unfolding at
at_other o f p g e = rw e refl

at_self : (o : Ptr) (f : Field) (p : Ptr) → (p == o) ≡ true → at o f p f ≡ true
unfolding at
at_self o f p e = rw (e, ==_refl (code f)) refl

loop_is_not_dat : (o p : Ptr) → at o dat p loop ≡ false
unfolding at
loop_is_not_dat o p = ground arith

dat_not_loop : (o p : Ptr) (g : Field) → g ≡ loop → at o dat p g ≡ false
dat_not_loop o p g k = rw k (loop_is_not_dat o p)

at_hit : (o : Ptr) (f : Field) (p : Ptr) (g : Field) → (p == o) ≡ true → g ≡ f → at o f p g ≡ true
at_hit o f p g e k = rw k (at_self o f p e)

read-hit :
    (o : Ptr) (f : Field) (v : Ptr) (c : Cell) (cs : List Cell)
    → (c.object == o) ≡ true
    → c.field ≡ f
    → read o f (c ∷ cs) ≡ some v
    → c.value ≡ v
unfolding read
read-hit o f v c cs e k r = some-injective c.value v (rw (at_hit o f c.object c.field e k) at r)

read-skip :
    (o : Ptr) (v : Ptr) (c : Cell) (cs : List Cell)
    → c.field ≡ loop
    → read o dat (c ∷ cs) ≡ some v
    → read o dat cs ≡ some v
unfolding read
read-skip o v c cs k r = rw (dat_not_loop o c.object c.field k) at r

fields_of-head :
    (o : Ptr) (c : Cell) (cs : List Cell) (f : Field) (fs : List Field)
    → (c.object == o) ≡ true
    → fields_of o (c ∷ cs) ≡ f ∷ fs
    → (c.field ≡ f) × (fields_of o cs ≡ fs)
unfolding fields_of
fields_of-head o c cs f fs e h = let k : c.field ∷ fields_of o cs ≡ f ∷ fs = rw e at h in (cc, cc)

owned_by-next :
    (o p : Ptr) (c : Cell) (cs : List Cell)
    → (c.object == o) ≡ true
    → owned_by o p (c ∷ cs) ≡ same p c.value + owned_by o p cs
unfolding owned_by
owned_by-next o p c cs e = rw e refl

owned_by-one :
    (o p : Ptr) (f : Field) (v : Ptr) (cs : List Cell)
    → fields_of o cs ≡ f ∷ []
    → read o f cs ≡ some v
    → owned_by o p cs ≡ same p v
unfolding fields_of owned_by read
owned_by-one o p f v [] h e = cc
owned_by-one o p f v (c ∷ cs) h e = elim (Bool-cases (c.object == o)) [
  | inl hit ↦
      let (k, r) = fields_of-head o c cs f [] hit h in
      omega (
        arith,
        owned_by-next o p c cs hit,
        owned_by-none o p cs r,
        ap (same p) (read-hit o f v c cs hit k e),
      )
  | inr miss ↦
      rw miss
        (owned_by-one o p f v cs (rw miss at h) (rw (at_other o f c.object c.field miss) at e))
]

-- what a handle owns is what its two fields hold
pub owned_by-handle :
    (o p : Ptr) (l d : Ptr) (cs : List Cell)
    → fields_of o cs ≡ handle_fields
    → read o loop cs ≡ some l
    → read o dat cs ≡ some d
    → owned_by o p cs ≡ same p l + same p d
unfolding fields_of owned_by read
owned_by-handle o p l d [] h el ed = absurd (cc)
owned_by-handle o p l d (c ∷ cs) h el ed = elim (Bool-cases (c.object == o)) [
  | inl hit ↦
      let (k, r) = fields_of-head o c cs loop (dat ∷ []) hit h in
      omega (
        arith,
        owned_by-next o p c cs hit,
        ap (same p) (read-hit o loop l c cs hit k el),
        owned_by-one o p dat d cs r (read-skip o d c cs k ed),
      )
  | inr miss ↦ rw miss (
      owned_by-handle o p l d cs (rw miss at h) (rw (at_other o loop c.object c.field miss) at el)
        (rw (at_other o dat c.object c.field miss) at ed))
]

has_one : (o : Ptr) (f : Field) (cs : List Cell) → fields_of o cs ≡ f ∷ [] → has o f cs ≡ true
unfolding fields_of has
has_one o f [] h = absurd (cc)
has_one o f (c ∷ cs) h = elim (Bool-cases (c.object == o)) [
  | inl hit ↦ rw (at_hit o f c.object c.field hit (fields_of-head o c cs f [] hit h).0)
  | inr miss ↦ rw (at_other o f c.object c.field miss) (has_one o f cs (rw miss at h))
]

-- both fields are there
pub fields_of-has :
    (o : Ptr) (cs : List Cell)
    → fields_of o cs ≡ handle_fields
    → (has o loop cs ≡ true) × (has o dat cs ≡ true)
unfolding fields_of has
fields_of-has o [] h = absurd (cc)
fields_of-has o (c ∷ cs) h = elim (Bool-cases (c.object == o)) [
  | inl hit ↦
      let (k, r) = fields_of-head o c cs loop (dat ∷ []) hit h in
      (
        rw (at_hit o loop c.object c.field hit k),
        rw (dat_not_loop o c.object c.field k) (has_one o dat cs r),
      )
  | inr miss ↦
      rw (at_other o loop c.object c.field miss, at_other o dat c.object c.field miss)
        (fields_of-has o cs (rw miss at h))
]

erase-miss :
    (o : Ptr) (c : Cell) (cs ds : List Cell)
    → (c.object == o) ≡ false
    → erase o cs ≡ erase o ds
    → erase o (c ∷ cs) ≡ erase o (c ∷ ds)
unfolding erase
erase-miss o c cs ds e h = rw (e, h) refl

erase-hit :
    (o : Ptr) (c : Cell) (cs : List Cell) → (c.object == o) ≡ true → erase o (c ∷ cs) ≡ erase o cs
unfolding erase
erase-hit o c cs e = rw e refl

pub erase-write :
    (o : Ptr) (f : Field) (v : Ptr) (cs : List Cell) → erase o (write o f v cs) ≡ erase o cs
unfolding write
erase-write o f v [] = refl
erase-write o f v (c ∷ cs) = elim (Bool-cases (c.object == o)) [
  | inl hit ↦ elim (Bool-cases (at o f c.object c.field)) [
    | inl here ↦ rw here (erase-hit o (record c { value = v }) cs hit ∙ sym (erase-hit o c cs hit))
    | inr there ↦
        rw there
          (erase-hit o c (write o f v cs) hit ∙ (erase-write o f v cs ∙ sym (erase-hit o c cs hit)))
  ]
  | inr miss ↦
      rw (at_other o f c.object c.field miss)
        (erase-miss o c (write o f v cs) cs miss (erase-write o f v cs))
]

fields_of-erase_self : (o : Ptr) (cs : List Cell) → fields_of o (erase o cs) ≡ []
unfolding erase fields_of
fields_of-erase_self o [] = refl
fields_of-erase_self o (c ∷ cs) = ground (arith, fields_of-erase_self o cs)

pub fields_of-erase :
    (h o : Ptr) (cs : List Cell) → h ≢ o → fields_of h (erase o cs) ≡ fields_of h cs
unfolding erase fields_of
fields_of-erase h o [] n = refl
fields_of-erase h o (c ∷ cs) n = ground (arith, fields_of-erase h o cs)

pub fields_of-blank :
    (h o : Ptr) (cs : List Cell)
    → fields_of h (map (blank o) handle_fields ++ cs)
      ≡ (if o == h then loop ∷ dat ∷ fields_of h cs else fields_of h cs)
unfolding fields_of
fields_of-blank h o cs = ground arith
