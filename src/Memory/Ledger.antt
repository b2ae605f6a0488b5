-- ===== src/Memory/Ledger.antt =====
-- The ownership law. An operation takes references over (its owned parameters, those that libuv
-- held) and gives references away (its result, those that libuv or a callback holds from then on).
-- It keeps the law if each object's references add up: none is lost and none is released twice.
use uv_mbt.Base.{
  ℕ, ◌+◌, ◌≡◌, ◌≢◌, true, Option, some, List, [], ◌∷◌, ◌++◌, arith, same, count, count-append,
}
use uv_mbt.Memory.{Ptr, null, Field, Event, made, inc, dec, State}
use uv_mbt.Memory.Cells.{owns, has}

-- the references to `p` that the runtime has been asked to add
unfoldable pub ups : Ptr → List Event → ℕ
ups p [] = 0
ups p (made q ∷ l) = same p q + ups p l
ups p (inc q ∷ l) = same p q + ups p l
ups p (dec q ∷ l) = ups p l

-- the references to `p` that the runtime has been asked to drop
unfoldable pub downs : Ptr → List Event → ℕ
downs p [] = 0
downs p (made q ∷ l) = downs p l
downs p (inc q ∷ l) = downs p l
downs p (dec q ∷ l) = same p q + downs p l

-- what the fields hold and what was added must match what was there, taken and given
pub record Balance (takes gives : List Ptr) (s t : State) : Type 0 where
  pub balance :
      (p : Ptr)
      → p ≢ null
      → owns p t.cells + downs p t.log + ups p s.log + count p gives
        ≡ owns p s.cells + downs p s.log + ups p t.log + count p takes

-- the objects that there are keep their fields
pub record Keeps (s t : State) : Type 0 where
  pub keeps : (o : Ptr) (f : Field) → has o f s.cells ≡ true → has o f t.cells ≡ true

pub record Law (takes gives : List Ptr) (s t : State) : Type 0 where
  pub law : Balance takes gives s t
  pub kept : Keeps s t

-- a run that ends without a fault, and what holds then of its result and its last state
pub data Returns {A : Type 0} (P : A → State → Type 0) : Option (A × State) → Type 0 where
  returns : {a : A} {t : State} → P a t → Returns P (some (a, t))

-- a run from `s` that ends with a result of `P` and keeps the law
abbrev pub Ends :
    {A : Type 0} → (A → State → Type 0) → List Ptr → List Ptr → State → Option (A × State) → Type 0
Ends P takes gives s = Returns (λ a t. P a t × Law takes gives s t)

abbrev pub Any : {A : Type 0} → A → State → Type 0
Any a t = Unit {0}

abbrev pub Is : {A : Type 0} → A → A → State → Type 0
Is a b t = b ≡ a

abbrev pub Moves : {A : Type 0} → List Ptr → List Ptr → State → Option (A × State) → Type 0
Moves takes gives s = Ends Any takes gives s

pub Law-refl : (s : State) → Law [] [] s s
Law-refl s = record {
  law = record { balance = λ p h. omega arith };
  kept = record { keeps = λ o f h. h };
}

pub Law-trans :
    {s t u : State} {a b c d : List Ptr} → Law a b s t → Law c d t u → Law (a ++ c) (b ++ d) s u
Law-trans {s} {t} {u} {a} {b} {c} {d} l m = record {
  law = record {
    balance = λ p h.
        omega (arith, l.law.balance p h, m.law.balance p h, count-append p a c, count-append p b d);
  };
  kept = record { keeps = λ o f h. m.kept.keeps o f (l.kept.keeps o f h) };
}

-- two pairs of lists that differ by what is both taken and given
abbrev pub SameNet : (a b c d : List Ptr) → Type 0
SameNet a b c d = (p : Ptr) → p ≢ null → count p a + count p d ≡ count p c + count p b
