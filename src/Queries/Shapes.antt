-- ===== src/Queries/Shapes.antt =====
-- How the calls that only ask or set something are built: libuv or the system is called, the parameters are
-- released, and the answer is returned.
use uv_mbt.Base.{ap, Option, ℕ, ℤ, ◌%◌, ◌^◌, ◌≡◌, ◌∙◌, refl, List, [], ◌∷◌}
use uv_mbt.Memory.{pure, and_then, Ptr, State, M, ◌>>=◌}
use uv_mbt.Memory.Ledger.{Ends, returns}
use uv_mbt.Memory.Rules.{seq-is}
use uv_mbt.Memory.Shapes.{decrefs, NotNull, decrefs-Ends}

unfoldable pub called : {A : Type 0} → M A → List Ptr → M A
called m ps = m >>= λ r. decrefs ps r

-- `size_t n = *size; r = uv_...(..., &n); *size = n;`, where `*size` is an `int32_t`
unfoldable pub sized : (uv : ℕ → M (ℤ × ℕ)) → List Ptr → (capacity : ℕ) → M (ℤ × ℕ)
sized uv ps capacity = uv capacity >>= λ (status, n). decrefs ps (status, n % 2 ^ 32)

-- `v = o->field; moonbit_decref(o); return v;`
unfoldable pub value : {A : Type 0} → A → Ptr → M A
value v o = decrefs (o ∷ []) v

-- libuv answers `a`, and touches neither fields nor counts
abbrev pub Replies : {A : Type 0} → A → M A → Type 0
Replies a m = (s : State) → Ends (λ x t. (x ≡ a) × (t.cells ≡ s.cells)) [] [] s (m s)

abbrev pub Yields : {A : Type 0} → A → State → A → State → Type 0
Yields a s x t = (x ≡ a) × (t.cells ≡ s.cells)

pub called-Ends :
    {A : Type 0} (m : M A) (a : A) (ps : List Ptr) (s : State)
    → Replies a m
    → NotNull ps
    → Ends (Yields a s) ps [] s (called m ps s)
unfolding called
called-Ends m a ps s replies nn =
    seq-is _ (replies s) λ t k _. decrefs-Ends ps a t nn λ u k'. (refl, k' ∙ k)

pub sized-Ends :
    (uv : ℕ → M (ℤ × ℕ)) (r : ℤ) (n : ℕ) (ps : List Ptr) (capacity : ℕ) (s : State)
    → Replies (r, n) (uv capacity)
    → NotNull ps
    → Ends (Yields (r, n % 2 ^ 32) s) ps [] s (sized uv ps capacity s)
unfolding sized
sized-Ends uv r n ps capacity s replies nn =
    seq-is _ (replies s) λ t k _. decrefs-Ends ps (r, n % 2 ^ 32) t nn λ u k'. (refl, k' ∙ k)

pub value-Ends :
    {A : Type 0} (v : A) (o : Ptr) (s : State)
    → NotNull (o ∷ [])
    → Ends (Yields v s) (o ∷ []) [] s (value v o s)
unfolding value
value-Ends v o s nn = decrefs-Ends (o ∷ []) v s nn λ t k. (refl, k)

-- the answer is put in another form
pub mapped-Ends :
    {A B : Type 0} {a : A} {s : State} {m : Option (A × State)} {ps : List Ptr} (f : A → B)
    → Ends (Yields a s) ps [] s m
    → Ends (Yields (f a) s) ps [] s (and_then m (λ x. pure (f x)))
mapped-Ends f (returns ((e, k), l)) = returns ((ap f e, k), l)
