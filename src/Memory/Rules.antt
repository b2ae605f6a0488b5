-- ===== src/Memory/Rules.antt =====
-- The law of each primitive, and of a sequence.
use mathlib.Core.Path.{subst, sym}
use uv_mbt.Base.{
  ◌++◌, map, refl, ◌≡◌, ◌≢◌, inl, inr, true, Option, none, some, List, [], ◌∷◌, ◌++◌, arith, ◌==◌,
  Bool-cases, ==_ne, ==_false, same,
}
use uv_mbt.Memory.{
  made, blank, write, Ptr, null, Field, State, M, and_then, pure, get, incref, decref, dec, release,
  make, read,
}
use uv_mbt.Memory.Cells.{has, owns-write, has-write, has-read, owns-blank, has-blank}
use uv_mbt.Memory.Ledger.{ups, downs, Law, Law-refl, Law-trans, returns, Ends, Moves, SameNet}

-- is there the field in the state?
abbrev pub Has : Ptr → Field → State → Type 0
Has o f s = has o f s.cells ≡ true

abbrev pub Reads : Ptr → Field → Ptr → State → Type 0
Reads o f v s = read o f s.cells ≡ some v

-- what follows a law keeps the sum of both
pub after :
    {B : Type 0} {Q : B → State → Type 0} {s t : State} {r : Option (B × State)}
    {a b c d : List Ptr}
    → Law a b s t
    → Ends Q c d t r
    → Ends Q (a ++ c) (b ++ d) s r
after l (returns (q, m)) = returns (q, Law-trans l m)

-- the second command runs in a state that the first one's law leads to
pub seq :
    {A B : Type 0} {P : A → State → Type 0} {Q : B → State → Type 0} {s : State}
    {m : Option (A × State)} {k : A → M B} {a b c d : List Ptr}
    → Ends P a b s m
    → ((x : A) (t : State) → P x t → Law a b s t → Ends Q c d t (k x t))
    → Ends Q (a ++ c) (b ++ d) s (and_then m k)
seq (returns (p, l)) next = after l (next _ _ p l)

-- what is both taken and given may be left out
pub settle :
    {A : Type 0} {P : A → State → Type 0} {s : State} {r : Option (A × State)} {a b c d : List Ptr}
    → Ends P a b s r
    → SameNet a b c d
    → Ends P c d s r
settle {s} (returns {t} (q, l)) n = returns (
  q,
  record {
    law = record { balance = λ p h. omega (arith, l.law.balance p h, n p h) };
    kept = l.kept;
  },
)

pub pure-Ends :
    {A : Type 0} {P : A → State → Type 0} (x : A) (s : State) → P x s → Ends P [] [] s (pure x s)
pure-Ends x s p = returns (p, Law-refl s)

pub get-Ends :
    {A : Type 0} {P : A → State → Type 0} (o : Ptr) (f : Field) {s : State} (k : Ptr → M A)
    {a b : List Ptr}
    → Has o f s
    → ((v : Ptr) → Reads o f v s → Ends P a b s (k v s))
    → Ends P a b s (and_then (get o f s) k)
unfolding get
get-Ends o f {s} k h next = let (v, e) = has-read o f s.cells h in rw (e, and_then, get) (next v e)

-- a result's property may be forgotten
pub forget :
    {A : Type 0} {P : A → State → Type 0} {s : State} {r : Option (A × State)} {a b : List Ptr}
    → Ends P a b s r
    → Moves a b s r
forget (returns (p, l)) = returns (tt, l)

pub put-Law :
    (o : Ptr) (f : Field) (v : Ptr) {s : State} {old : Ptr}
    → Reads o f old s
    → Law (v ∷ []) (old ∷ []) s (record s { cells = write o f v s.cells })
put-Law o f v {s} {old} e = record {
  law = record { balance = λ p h. omega (arith, owns-write p o f v old s.cells e) };
  kept = record { keeps = λ o' f' i. rw has-write i };
}

pub decref-Law : (p : Ptr) (s : State) → Law (p ∷ []) [] s (record s { log = dec p ∷ s.log })
unfolding downs ups
decref-Law p s = record {
  law = record { balance = λ q i. omega arith };
  kept = record { keeps = λ o f i. i };
}

-- the fields are as they were
abbrev pub Same : {A : Type 0} → State → A → State → Type 0
Same s x t = t.cells ≡ s.cells

pub decref-Same : (p : Ptr) (s : State) → p ≢ null → Ends (Same s) (p ∷ []) [] s (decref p s)
unfolding decref
decref-Same p s h = rw (==_false p null h) (returns (refl, decref-Law p s))

pub incref-Same : (p : Ptr) (s : State) → p ≢ null → Ends (Same s) [] (p ∷ []) s (incref p s)
unfolding incref downs ups
incref-Same p s h = rw (==_false p null h) (
    returns (
      refl,
      record {
        law = record { balance = λ q i. omega arith };
        kept = record { keeps = λ o f i. i };
      },
    ))

pub same-null : (p : Ptr) → p ≢ null → same p null ≡ 0
unfolding same
same-null p h = ground arith

pub same_zero : (q p : Ptr) → (p == null) ≡ true → q ≢ null → same q p ≡ 0
unfolding same
same_zero q p e h = ground arith

pub release-Same : (p : Ptr) (s : State) → Ends (Same s) (p ∷ []) [] s (release p s)
unfolding release downs ups
release-Same p s = elim (Bool-cases (p == null)) [
  | inl e ↦
      rw (e, release)
        (returns (
          refl,
          record {
            law = record { balance = λ q i. omega (arith, same_zero q p e i) };
            kept = record { keeps = λ o f i. i };
          },
        ))
  | inr e ↦ rw (e, release) (decref-Same p s (==_ne p null e))
]

pub make-Law :
    (o : Ptr) (fs : List Field) (s : State)
    → Law [] (o ∷ []) s (record { cells = map (blank o) fs ++ s.cells; log = made o ∷ s.log })
unfolding downs ups
make-Law o fs s = record {
  law = record { balance = λ p h. omega (arith, owns-blank p o fs s.cells h) };
  kept = record { keeps = λ o' f i. has-blank o o' f fs s.cells i };
}

-- what follows a new object is handed its address, and blank fields
pub make-then :
    {A : Type 0} {P : A → State → Type 0} (o : Ptr) (fs : List Field) {s : State} (k : Ptr → M A)
    {a b : List Ptr}
    → ((t : State)
        → t.cells ≡ map (blank o) fs ++ s.cells
        → Law [] (o ∷ []) s t
        → Ends P a b t (k o t))
    → Ends P a (o ∷ b) s (and_then (make o fs s) k)
unfolding make
make-then o fs {s} k next = after (make-Law o fs s) (next _ refl (make-Law o fs s))

pub weaken :
    {A : Type 0} {P Q : A → State → Type 0} {s : State} {r : Option (A × State)} {a b : List Ptr}
    → Ends P a b s r
    → ((x : A) (t : State) → P x t → Q x t)
    → Ends Q a b s r
weaken (returns (p, l)) f = returns (f _ _ p, l)

-- the second command, where the result of the first is known
pub seq-is :
    {A B : Type 0} {x : A} {Q : State → Type 0} {P : B → State → Type 0} {s : State}
    {m : Option (A × State)} (k : A → M B) {a b c d : List Ptr}
    → Ends (λ y t. (y ≡ x) × Q t) a b s m
    → ((t : State) → Q t → Law a b s t → Ends P c d t (k x t))
    → Ends P (a ++ c) (b ++ d) s (and_then m k)
seq-is {x} {P} k {c} {d} e next =
    seq e λ y t (ey, q) l. subst (λ z. Ends P c d t (k z t)) (sym ey) (next t q l)

-- a run that faults at its end, whatever came before
pub and_then-none :
    {A B : Type 0} (m : Option (A × State)) (k : A → M B)
    → ((x : A) (t : State) → k x t ≡ none)
    → and_then m k ≡ none
and_then-none none k faults = refl
and_then-none (some (a, t)) k faults = faults a t
