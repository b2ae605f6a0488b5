-- ===== src/Memory/Shapes.antt =====
-- Whole bodies that the bindings share: a call of libuv between stores and decrefs, and the
-- callbacks that libuv makes once or many times.
use uv_mbt.Base.{◌≡◌, refl, ℤ, ◌≢◌, List, [], ◌∷◌, arith}
use uv_mbt.Memory.{Ptr, null, Field, State, M, and_then, ◌>>◌, pure, get, incref, decref}
use uv_mbt.Base.{◌≡◌, refl, ◌∙◌}
use uv_mbt.Memory.Idioms.{
  drop, drop-Same, clear, clear-Moves, Leaves, Sets, replace, take, replace-Wrote, take-then,
  get-at, Answers,
}
use uv_mbt.Memory.Ledger.{Ends, Moves}
use uv_mbt.Memory.Rules.{
  Same, weaken, same-null, Has, Reads, seq, settle, pure-Ends, decref-Same, incref-Same,
}

-- `moonbit_decref` of each, and the result
abbrev pub decrefs : {A : Type 0} → List Ptr → A → M A
decrefs [] r = pure r
decrefs (p ∷ ps) r = decref p >> decrefs ps r

abbrev pub NotNull : List Ptr → Type 0
NotNull [] = Unit {0}
NotNull (p ∷ ps) = (p ≢ null) × NotNull ps

pub decrefs-Ends :
    {A : Type 0} {P : A → State → Type 0} (ps : List Ptr) (r : A) (s : State)
    → NotNull ps
    → ((t : State) → t.cells ≡ s.cells → P r t)
    → Ends P ps [] s (decrefs ps r s)
decrefs-Ends [] r s nn p = pure-Ends r s (p s refl)
decrefs-Ends (q ∷ ps) r s nn p =
    seq (decref-Same q s nn.0) λ _ t e _. decrefs-Ends ps r t nn.1 λ u e'. p u (e' ∙ e)

-- `r = uv_...(...); moonbit_decref(...); ...; return r;`
pub call-Ends :
    (m : M ℤ) (r : ℤ) (ps : List Ptr) (s : State)
    → Answers r m
    → NotNull ps
    → Ends (Leaves r s) ps [] s (and_then (m s) (λ x. decrefs ps x))
call-Ends m r ps s answers nn =
    seq (answers s) λ x t (e, k) _. decrefs-Ends ps x t nn λ u k'. (e, k' ∙ k)

-- the same, after a reference is stored in a field
pub store-Ends :
    (o : Ptr) (f : Field) (v : Ptr) (m : M ℤ) (r : ℤ) (ps : List Ptr) (s : State)
    → Has o f s
    → Answers r m
    → NotNull ps
    → Ends
        (Sets r o f v s)
        (v ∷ ps)
        []
        s
        (and_then (replace o f v s) (λ _ t. and_then (m t) (λ x. decrefs ps x)))
store-Ends o f v m r ps s h answers nn =
    seq (replace-Wrote o f v s h)
      λ _ t w _. seq (answers t) λ x u (e, k) _. decrefs-Ends ps x u nn λ v k'. (e, k' ∙ (k ∙ w))

-- A callback that libuv may make again: the callback and the handle are shared with it.
pub multi_shot :
    {A : Type 0} (o : Ptr) (f : Field) {cb : Ptr} (code : Ptr → Ptr → M A) (s : State)
    → Reads o f cb s
    → cb ≢ null
    → o ≢ null
    → ((t : State) → Moves (cb ∷ o ∷ []) [] t (code cb o t))
    → Moves [] [] s (
        and_then
          (get o f s)
          λ v t. and_then (incref v t) λ _ u. and_then (incref o u) λ _. code v o)
multi_shot o f {cb} code s e hc ho consumes = get-at o f _ e (
    settle (seq (incref-Same cb s hc) λ _ t _ _. seq (incref-Same o t ho) λ _ u _ _. consumes u)
      (λ p i. omega arith))

-- the same, where what the MoonBit code leaves behind matters
pub multi_shot-then :
    {A : Type 0} {P : A → State → Type 0} (o : Ptr) (f : Field) {cb : Ptr} (code : Ptr → Ptr → M A)
    (s : State)
    → Reads o f cb s
    → cb ≢ null
    → o ≢ null
    → ((t : State) → t.cells ≡ s.cells → Ends P (cb ∷ o ∷ []) [] t (code cb o t))
    → Ends P [] [] s (
        and_then
          (get o f s)
          λ v t. and_then (incref v t) λ _ u. and_then (incref o u) λ _. code v o)
multi_shot-then o f {cb} code s e hc ho runs = get-at o f _ e (
    settle
      (seq (incref-Same cb s hc) λ _ t k _. seq (incref-Same o t ho) λ _ u k' _. runs u (k' ∙ k))
      (λ p i. omega arith))

-- A callback that libuv makes once: the callback, and libuv's reference to the request, are
-- moved into it.
pub one_shot :
    {A : Type 0} (o : Ptr) (f : Field) {cb : Ptr} (code : Ptr → Ptr → M A) (s : State)
    → Reads o f cb s
    → ((t : State) → Moves (cb ∷ o ∷ []) [] t (code cb o t))
    → Moves (o ∷ []) [] s (and_then (take o f s) λ v. code v o)
one_shot o f code s e consumes =
    settle (take-then o f (λ v. code v o) e (λ t _ _. consumes t)) (λ p i. omega arith)

-- the same with NULL stored
pub reset-Ends :
    (o : Ptr) (f : Field) (m : M ℤ) (r : ℤ) (ps : List Ptr) (s : State)
    → Has o f s
    → Answers r m
    → NotNull ps
    → Ends
        (Sets r o f null s)
        ps
        []
        s
        (and_then (replace o f null s) (λ _ t. and_then (m t) (λ x. decrefs ps x)))
reset-Ends o f m r ps s h answers nn =
    settle (store-Ends o f null m r ps s h answers nn) (λ p i. omega (arith, same-null p i))

-- a finalizer that clears two fields
pub clear_both-Moves :
    (o : Ptr) (f g : Field) (s : State)
    → Has o f s
    → Has o g s
    → Moves [] [] s (and_then (clear o f s) (λ _. clear o g))
clear_both-Moves o f g s hf hg =
    seq (clear-Moves o f s hf) λ _ t _ l. clear-Moves o g t (l.kept.keeps o g hg)

-- a finalizer that releases two fields and leaves them to the end of the object
pub drop_both-Same :
    (o : Ptr) (f g : Field) {v w : Ptr} (s : State)
    → Reads o f v s
    → Reads o g w s
    → Ends (Same s) (v ∷ w ∷ []) [] s (and_then (drop o f s) (λ _. drop o g))
drop_both-Same o f g s ef eg =
    seq (drop-Same o f s ef) λ _ t k _. weaken (drop-Same o g t (rw k eg)) λ _ u k'. k' ∙ k
