-- ===== src/Memory/Records.antt =====
-- A request or a handle that owns a record, which is made and filled anew: the part that write.c,
-- udp.c, stream.c, random.c and work.c share.
use uv_mbt.Base.{ℤ, ◌≡◌, ◌≢◌, ◌∙◌, inr, some, true, map, ◌++◌, ap, List, [], ◌∷◌, arith}
use uv_mbt.Memory.{
  Ptr, null, Field, Cell, code, dat, State, M, and_then, put, make, read, write, blank,
}
use uv_mbt.Memory.Cells.{has, has-write, has-blank, read-write_other}
use uv_mbt.Memory.Idioms.{replace, Answers, fill-then}
use uv_mbt.Memory.Ledger.{Ends}
use uv_mbt.Memory.Rules.{Has, Reads, settle, weaken, make-then}
use uv_mbt.Memory.Shapes.{decrefs, NotNull, store-Ends}

module _ (fs : List Field) (f g : Field) where
  -- the cells after a record with the fields `fs` is made, and `f` and `g` are filled
  abbrev pub recorded : (fresh v w : Ptr) → State → List Cell
  recorded fresh v w s = write fresh g w (write fresh f v (map (blank fresh) fs ++ s.cells))

  -- is `h` a field of a new record?
  abbrev pub IsBlank : Field → Type 0
  IsBlank h = (fresh : Ptr) (cs : List Cell) → read fresh h (map (blank fresh) fs ++ cs) ≡ some null

  has-recorded :
      (fresh v w o : Ptr) (h : Field) (s : State)
      → Has o h s
      → has o h (recorded fresh v w s) ≡ true
  has-recorded fresh v w o h s e = rw (has-write, has-write) (has-blank fresh o h fs s.cells e)

  -- make the record, fill it, store it, call libuv, release the rest
  pub record-Ends :
      (m : M ℤ) (fresh o v w : Ptr) (r : ℤ) (ps : List Ptr) (s : State)
      → IsBlank f
      → IsBlank g
      → code f ≢ code g
      → Answers r m
      → NotNull ps
      → Has o dat s
      → Ends
          (λ x t. (x ≡ r) × (t.cells ≡ write o dat fresh (recorded fresh v w s)))
          (v ∷ w ∷ ps)
          []
          s
          (and_then (make fresh fs s) λ d t. and_then (put d f v t) λ _ u.
            and_then
              (put d g w u)
              λ _ y. and_then (replace o dat d y) λ _ z. and_then (m z) (λ x. decrefs ps x))
  record-Ends m fresh o v w r ps s bf bg apart answers nn h =
      settle
        (make-then fresh fs _ λ t k l. fill-then fresh f v _ (rw k (bf fresh s.cells)) λ u k2.
          let e : Reads fresh g null u =
            rw (k2, read-write_other fresh f v fresh g t.cells (inr apart), k) (bg fresh s.cells) in
          fill-then fresh g w _ e λ y k3.
            let full : y.cells ≡ recorded fresh v w s =
              k3 ∙ ap (write fresh g w) (k2 ∙ ap (write fresh f v) k) in
            weaken
              (store-Ends o dat fresh m r ps y (rw full (has-recorded fresh v w o dat s h)) answers
                nn)
              λ x z (e, k). (e, k ∙ ap (write o dat fresh) full))
        (λ p i. omega arith)
