-- ===== src/Memory/Idioms.antt =====
-- The idioms of the bindings on an owned field, with their laws.
use uv_mbt.Base.{
  ==_eq, ℤ, ◌≡◌, refl, ◌≢◌, inl, inr, List, [], ◌∷◌, arith, ◌==◌, Bool-cases, if◌then◌else◌, ==_ne,
  ==_false,
}
use mathlib.Core.Path.{sym, subst}
use uv_mbt.Memory.Cells.{write-read}
use uv_mbt.Memory.Ledger.{Law}
use uv_mbt.Memory.{
  Ptr, null, Field, loop, State, M, and_then, ◌>>=◌, ◌>>◌, pure, get, put, decref, release, write,
}
use uv_mbt.Memory.Ledger.{Law, returns, Ends, Moves}
use uv_mbt.Memory.Rules.{
  Same, Has, Reads, seq, settle, pure-Ends, get-Ends, put-Law, forget, release-Same, same-null,
  same_zero, after, decref-Law,
}

-- `if (o->f) { moonbit_decref(o->f); } o->f = v;`
unfoldable pub replace : Ptr → Field → Ptr → M (Unit {0})
replace o f v = do old ← get o f; release old; put o f v

-- `if (o->f) { moonbit_decref(o->f); o->f = NULL; }`
unfoldable pub clear : Ptr → Field → M (Unit {0})
clear o f = do old ← get o f; if old == null then pure tt else (decref old >> put o f null)

-- `if (o->f) { moonbit_decref(o->f); }`
unfoldable pub drop : Ptr → Field → M (Unit {0})
drop o f = do v ← get o f; release v

-- `v = o->f; o->f = NULL;`
unfoldable pub take : Ptr → Field → M Ptr
take o f = do v ← get o f; put o f null; pure v

-- the fields after a write
abbrev pub Wrote : {A : Type 0} → Ptr → Field → Ptr → State → A → State → Type 0
Wrote o f v s x t = t.cells ≡ write o f v s.cells

pub put-Wrote :
    (o : Ptr) (f : Field) (v : Ptr) {s : State} {old : Ptr}
    → Reads o f old s
    → Ends (Wrote o f v s) (v ∷ []) (old ∷ []) s (put o f v s)
unfolding put
put-Wrote o f v {s} {old} e = rw (e, put) (returns (refl, put-Law o f v e))

-- a decref, then a write to a field that was read before it
decref-put :
    (o : Ptr) (f : Field) (old v : Ptr) {s : State}
    → Reads o f old s
    → old ≢ null
    → Ends (Wrote o f v s) (v ∷ []) [] s (and_then (decref old s) (λ _. put o f v))
unfolding decref
decref-put o f old v {s} e h =
    rw (==_false old null h, and_then)
      (settle (after (decref-Law old s) (put-Wrote o f v e)) (λ p i. omega arith))

pub replace-Wrote :
    (o : Ptr) (f : Field) (v : Ptr) (s : State)
    → Has o f s
    → Ends (Wrote o f v s) (v ∷ []) [] s (replace o f v s)
unfolding replace release
replace-Wrote o f v s h = get-Ends o f _ h λ old e. elim (Bool-cases (old == null)) [
  | inl z ↦
      rw (z, release, and_then)
        (settle (put-Wrote o f v e) (λ p i. omega (arith, same_zero p old z i)))
  | inr nz ↦ rw (nz, release) (decref-put o f old v e (==_ne old null nz))
]

pub clear-Wrote :
    (o : Ptr) (f : Field) (s : State) → Has o f s → Ends (Wrote o f null s) [] [] s (clear o f s)
unfolding clear
clear-Wrote o f s h = get-Ends o f _ h λ old e. elim (Bool-cases (old == null)) [
  | inl z ↦
      let blank : Reads o f null s = subst (λ x. Reads o f x s) (==_eq old null z) e in
      rw z (pure-Ends tt s (sym (write-read o f null s.cells blank)))
  | inr nz ↦
      rw nz (
        settle (decref-put o f old null e (==_ne old null nz))
          (λ p i. omega (arith, same-null p i)))
]

pub clear-Moves : (o : Ptr) (f : Field) (s : State) → Has o f s → Moves [] [] s (clear o f s)
clear-Moves o f s h = forget (clear-Wrote o f s h)

-- a field that is known
pub get-at :
    {A : Type 0} {P : A → State → Type 0} (o : Ptr) (f : Field) {s : State} (k : Ptr → M A)
    {a b : List Ptr} {v : Ptr}
    → Reads o f v s
    → Ends P a b s (k v s)
    → Ends P a b s (and_then (get o f s) k)
unfolding get
get-at o f k e next = rw (e, and_then, get) next

take-Wrote :
    (o : Ptr) (f : Field) {v : Ptr} {s : State}
    → Reads o f v s
    → Ends (λ x t. (x ≡ v) × (t.cells ≡ write o f null s.cells)) [] (v ∷ []) s (take o f s)
unfolding take
take-Wrote o f {v} e = get-at o f _ e (
    settle (seq (put-Wrote o f null e) (λ x t q l. pure-Ends v t (refl, q)))
      (λ p i. omega (arith, same-null p i)))

pub take-then :
    {A : Type 0} {P : A → State → Type 0} (o : Ptr) (f : Field) {v : Ptr} {s : State}
    (k : Ptr → M A) {a b : List Ptr}
    → Reads o f v s
    → ((t : State) → t.cells ≡ write o f null s.cells → Law [] (v ∷ []) s t → Ends P a b t (k v t))
    → Ends P a (v ∷ b) s (and_then (take o f s) k)
take-then {P} o f k {a} {b} e next =
    seq (take-Wrote o f e) λ x t (ex, w) l. subst (λ y. Ends P a b t (k y t)) (sym ex) (next t w l)

pub drop-Same :
    (o : Ptr) (f : Field) {v : Ptr} (s : State)
    → Reads o f v s
    → Ends (Same s) (v ∷ []) [] s (drop o f s)
unfolding drop
drop-Same o f {v} s e = get-at o f _ e (release-Same v s)

-- the result is libuv's, and the fields are as they were
abbrev pub Leaves : ℤ → State → ℤ → State → Type 0
Leaves r s x t = (x ≡ r) × (t.cells ≡ s.cells)

-- the result is libuv's, and one field is written
abbrev pub Sets : ℤ → Ptr → Field → Ptr → State → ℤ → State → Type 0
Sets r o f v s x t = (x ≡ r) × (t.cells ≡ write o f v s.cells)

-- libuv answers `r`, and touches neither the fields that the bindings own nor a count
abbrev pub Answers : ℤ → M ℤ → Type 0
Answers r m = (s : State) → Ends (Leaves r s) [] [] s (m s)

-- libuv stores a reference to the loop in the handle or the request, and answers `r`
abbrev pub Starts : ℤ → (l o : Ptr) → M ℤ → Type 0
Starts r l o m = (s : State) → Reads o loop null s → Ends (Sets r o loop l s) (l ∷ []) [] s (m s)

-- a call of libuv that touches neither fields nor counts
abbrev pub IsQuiet : M (Unit {0}) → Type 0
IsQuiet m = (s : State) → Ends (Same s) [] [] s (m s)

-- the MoonBit code takes over the references in `takes`, and gives those in `gives`
abbrev pub Consumes : {A : Type 0} → List Ptr → List Ptr → M A → Type 0
Consumes takes gives m = (s : State) → Moves takes gives s (m s)

-- a write to a field that holds `old`
pub put-then :
    {A : Type 0} {P : A → State → Type 0} (o : Ptr) (f : Field) (v : Ptr) {old : Ptr} {s : State}
    (k : Unit {0} → M A) {a b : List Ptr}
    → Reads o f old s
    → ((t : State)
        → t.cells ≡ write o f v s.cells
        → Law (v ∷ []) (old ∷ []) s t
        → Ends P a b t (k tt t))
    → Ends P (v ∷ a) (old ∷ b) s (and_then (put o f v s) k)
put-then o f v k e next = seq (put-Wrote o f v e) λ _ t w l. next t w l

-- a write to a field that is known to hold NULL
pub fill-then :
    {A : Type 0} {P : A → State → Type 0} (o : Ptr) (f : Field) (v : Ptr) {s : State}
    (k : Unit {0} → M A) {a b : List Ptr}
    → Reads o f null s
    → ((t : State) → t.cells ≡ write o f v s.cells → Ends P a b t (k tt t))
    → Ends P (v ∷ a) b s (and_then (put o f v s) k)
fill-then o f v k e next =
    settle (put-then o f v k e (λ t w _. next t w)) (λ p i. omega (arith, same-null p i))
