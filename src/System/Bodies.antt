-- ===== src/System/Bodies.antt =====
-- What the bodies of the functions of a handle owe a system, for any kind of handle with two fields.
use uv_mbt.Base.{
  ◌∙◌, ap, ℤ, ◌≡◌, ◌≢◌, refl, inr, Option, some, List, [], ◌∷◌, ◌++◌, map, arith, count,
}
use uv_mbt.Memory.{
  Ptr, null, loop, dat, Cell, State, M, and_then, pure, get, incref, decref, make, write, erase,
  blank, read,
}
use uv_mbt.Memory.Cells.{has-write, owned_by, owns-erase, read-write, read-write_other}
use uv_mbt.Memory.Idioms.{Answers, get-at, replace, clear, clear-Wrote, drop, drop-Same}
use uv_mbt.Memory.Ledger.{Ends, Returns, returns, Balance}
use uv_mbt.Memory.Rules.{
  Has, Same, Reads, seq, make-Law, weaken, pure-Ends, incref-Same, decref-Same, same-null,
}
use uv_mbt.Memory.Shapes.{decrefs, store-Ends, reset-Ends}
use uv_mbt.System.{Finalized}
use uv_mbt.System.Objects.{
  fields_of, handle_fields, owned_by-handle, erase-write, fields_of-write, fields_of-has,
}

pub made-Ends :
    (h : Ptr) (s : State)
    → Ends
        (λ _ t. t.cells ≡ map (blank h) handle_fields ++ s.cells)
        []
        (h ∷ [])
        s
        (make h handle_fields s)
unfolding make
made-Ends h s = returns (refl, make-Law h handle_fields s)

pub share-Ends :
    (h cb : Ptr) (s : State)
    → h ≢ null
    → cb ≢ null
    → Reads h dat cb s
    → Ends (Same s) [] (cb ∷ h ∷ []) s (
        and_then
          (get h dat s)
          (λ c t. and_then (incref c t) (λ _ u. and_then (incref h u) (λ _. pure tt))))
share-Ends h cb s hn cn e = get-at h dat _ e (
    seq (incref-Same cb s cn)
      λ _ t k _. seq (incref-Same h t hn) λ _ u k' _. pure-Ends tt u (k' ∙ k))

-- what the finalizer released is what the handle held
finalized :
    (h : Ptr) (takes : List Ptr) (s t : State)
    → erase h t.cells ≡ erase h s.cells
    → Balance takes [] s t
    → ((p : Ptr) → p ≢ null → owned_by h p t.cells ≡ count p takes)
    → Finalized h s t
finalized h takes s t e l owned = record {
  erased = e;
  settled = record {
    balance = λ p n. omega (arith, l.balance p n, owned p n, owns-erase p h t.cells);
  };
}

-- the two fields, after both were set to NULL in either order
cleared-owns :
    (h p : Ptr) (cs ds : List Cell)
    → p ≢ null
    → fields_of h cs ≡ handle_fields
    → ds ≡ write h dat null (write h loop null cs)
    → owned_by h p ds ≡ 0
cleared-owns h p cs ds n shape e =
    let (hl, hd) = fields_of-has h cs shape in
    let shape' : fields_of h ds ≡ handle_fields = rw e (
      fields_of-write h h dat null (write h loop null cs)
      ∙ (fields_of-write h h loop null cs ∙ shape)) in
    let el : read h loop ds ≡ some null = rw e (
      read-write_other h dat null h loop (write h loop null cs) (inr (omega arith))
      ∙ read-write h loop null cs hl) in
    let ed : read h dat ds ≡ some null =
      rw e (read-write h dat null (write h loop null cs) (rw has-write hd)) in
    omega (arith, owned_by-handle h p null null ds shape' el ed, same-null p n)

-- a finalizer that sets both fields to NULL
pub cleared :
    (h : Ptr) (s : State)
    → fields_of h s.cells ≡ handle_fields
    → Returns (λ _ t. Finalized h s t) (and_then (clear h loop s) (λ _. clear h dat))
cleared h s shape =
    let (hl, hd) = fields_of-has h s.cells shape in
    finish (
      seq (clear-Wrote h loop s hl)
        λ _ t w l. weaken (clear-Wrote h dat t (l.kept.keeps h dat hd)) λ _ u w'. rw (w', w) refl)
  where
    finish :
        {r : Option (Unit {0} × State)}
        → Ends (λ _ u. u.cells ≡ write h dat null (write h loop null s.cells)) [] [] s r
        → Returns (λ _ t. Finalized h s t) r
    finish (returns {t} (e, l)) = returns (
        finalized h [] s t
          (rw e
            (erase-write h dat null (write h loop null s.cells) ∙ erase-write h loop null s.cells))
          l.law (λ p n. cleared-owns h p s.cells t.cells n shape e))

-- a finalizer that releases both fields and leaves them
pub dropped :
    (h l d : Ptr) (s : State)
    → l ≢ null
    → fields_of h s.cells ≡ handle_fields
    → Reads h loop l s
    → Reads h dat d s
    → Returns
        (λ _ t. Finalized h s t)
        (and_then (get h loop s) (λ x t. and_then (decref x t) (λ _. drop h dat)))
dropped h l d s ln shape el ed = finish (
    get-at h loop _ el
      (seq (decref-Same l s ln) λ _ t k _. weaken (drop-Same h dat t (rw k ed)) λ _ u k'. k' ∙ k))
  where
    finish :
        {r : Option (Unit {0} × State)}
        → Ends (Same s) (l ∷ d ∷ []) [] s r
        → Returns (λ _ t. Finalized h s t) r
    finish (returns {t} (e, l')) = returns (
        finalized h (l ∷ d ∷ []) s t (ap (erase h) e) l'.law
          (λ p n. omega (arith, owned_by-handle h p l d s.cells shape el ed, ap (owned_by h p) e)))

-- a callback is stored, with a call of libuv
pub start-Wrote :
    (h cb : Ptr) (m : M ℤ) (a : ℤ) (s : State)
    → h ≢ null
    → Has h dat s
    → Answers a m
    → Ends
        (λ _ t. t.cells ≡ write h dat cb s.cells)
        (cb ∷ h ∷ [])
        []
        s
        (and_then (replace h dat cb s) (λ _ t. and_then (m t) (λ x. decrefs (h ∷ []) x)))
start-Wrote h cb m a s hn hd answers =
    weaken (store-Ends h dat cb m a (h ∷ []) s hd answers (hn, tt)) (λ x t q. q.1)

-- the callback is given up
pub stop-Wrote :
    (h : Ptr) (m : M ℤ) (a : ℤ) (s : State)
    → h ≢ null
    → Has h dat s
    → Answers a m
    → Ends
        (λ _ t. t.cells ≡ write h dat null s.cells)
        (h ∷ [])
        []
        s
        (and_then (replace h dat null s) (λ _ t. and_then (m t) (λ x. decrefs (h ∷ []) x)))
stop-Wrote h m a s hn hd answers =
    weaken (reset-Ends h dat m a (h ∷ []) s hd answers (hn, tt)) (λ x t q. q.1)
