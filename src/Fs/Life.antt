-- ===== src/Fs/Life.antt =====
-- The life of a request on the file system, in the order of docs/memory.md: the request object is
-- made, the request is submitted, libuv calls back once, and the object ends.
use uv_mbt.Base.{ℤ, ◌≡◌, inr, some, map, ◌++◌, List, [], ◌∷◌, arith, count-append}
use uv_mbt.Fs.Dispatch.{FsCalls, Request, call, owned, submit}
use uv_mbt.Fs.Laws.{submit-Ends}
use uv_mbt.Fs.Request.{calls_back, fs_make, fs_cb, fs_finalize}
use uv_mbt.Memory.{
  Ptr, null, Cell, loop, dat, bufs_base, State, M, ◌>>=◌, ◌>>◌, at, read, write, blank,
}
use uv_mbt.Memory.Cells.{read-has, read-write, read-write_other}
use uv_mbt.Memory.Idioms.{Starts, Consumes, clear-Wrote}
use uv_mbt.Memory.Ledger.{Ends}
use uv_mbt.Memory.Rules.{Has, Reads, seq, settle, weaken, make-then}
use uv_mbt.Memory.Shapes.{NotNull, one_shot}

unfoldable pub fs_life :
    FsCalls → (code : Ptr → Ptr → M (Unit {0})) → (fresh l cb : Ptr) → Request → M (Unit {0})
fs_life api code fresh l cb q = do
  fs ← fs_make fresh
  submit api l fs cb q
  fs_cb code fs
  fs_finalize fs

-- a request object that owns nothing
abbrev pub IsEmpty : Ptr → State → Type 0
IsEmpty fs s = Reads fs loop null s × Reads fs dat null s × Reads fs bufs_base null s

-- the fields of a new request object
abbrev made_cells : Ptr → List Cell → List Cell
made_cells fresh cs = map (blank fresh) (loop ∷ dat ∷ bufs_base ∷ []) ++ cs

blank_loop : (fresh : Ptr) (cs : List Cell) → read fresh loop (made_cells fresh cs) ≡ some null
unfolding read at
blank_loop fresh cs = ground arith

blank_dat : (fresh : Ptr) (cs : List Cell) → read fresh dat (made_cells fresh cs) ≡ some null
unfolding read at
blank_dat fresh cs = ground arith

blank_bufs : (fresh : Ptr) (cs : List Cell) → read fresh bufs_base (made_cells fresh cs) ≡ some null
unfolding read at
blank_bufs fresh cs = ground arith

-- The end of a request object leaves NULL in all its fields, and releases what they held.
fs_finalize-Ends :
    (fs : Ptr) (s : State)
    → Has fs loop s
    → Has fs dat s
    → Has fs bufs_base s
    → Ends (λ _ t. IsEmpty fs t) [] [] s (fs_finalize fs s)
unfolding fs_finalize
fs_finalize-Ends fs s hl hd hb = seq (clear-Wrote fs loop s hl) λ _ t w k.
    seq (clear-Wrote fs dat t (k.kept.keeps fs dat hd)) λ _ u w2 k2.
      let hb2 = k2.kept.keeps fs bufs_base (k.kept.keeps fs bufs_base hb) in
      weaken (clear-Wrote fs bufs_base u hb2) λ _ v w3. (
        rw
            (
              w3,
              read-write_other fs bufs_base null fs loop u.cells (inr (omega arith)),
              w2,
              read-write_other fs dat null fs loop t.cells (inr (omega arith)),
              w,
            )
            (read-write fs loop null s.cells hl),
        rw (w3, read-write_other fs bufs_base null fs dat u.cells (inr (omega arith)), w2)
            (read-write fs dat null t.cells (k.kept.keeps fs dat hd)),
        rw w3 (read-write fs bufs_base null u.cells hb2),
      )

-- From the making of its object to its end, a request on the file system loses no reference and
-- releases none twice, and its object owns nothing then: where libuv takes the loop into the object
-- and answers `r`, and the MoonBit code takes over the closure and the object, what was passed in
-- (the loop, the paths and the callback) is what was released, whichever request it is.
pub fs_life-Ends :
    (api : FsCalls) (code : Ptr → Ptr → M (Unit {0})) (fresh l cb : Ptr) (q : Request) (r : ℤ)
    (s : State)
    → Starts r l fresh (call api l fresh calls_back q)
    → Consumes (cb ∷ fresh ∷ []) [] (code cb fresh)
    → NotNull (owned q)
    → Ends
        (λ _ t. IsEmpty fresh t)
        (l ∷ owned q ++ (cb ∷ []))
        []
        s
        (fs_life api code fresh l cb q s)
unfolding fs_life fs_make fs_cb
fs_life-Ends api code fresh l cb q r s starts consumes nn =
    settle
      (make-then fresh (loop ∷ dat ∷ bufs_base ∷ []) _ λ t k _.
        let el : Reads fresh loop null t = rw k (blank_loop fresh s.cells) in
        let ed : Reads fresh dat null t = rw k (blank_dat fresh s.cells) in
        let eb : Reads fresh bufs_base null t = rw k (blank_bufs fresh s.cells) in
        let hd = read-has fresh dat null t.cells ed in
        seq (submit-Ends api q l fresh cb r t starts nn hd el) λ x u (_, w) m.
          let e : Reads fresh dat cb u =
            rw
              (
                w,
                read-write_other fresh loop l fresh dat (write fresh dat cb t.cells)
                    (inr (omega arith)),
              )
              (read-write fresh dat cb t.cells hd) in
          seq (one_shot fresh dat code u e consumes) λ _ v _ n.
            fs_finalize-Ends fresh v
              (n.kept.keeps fresh loop
                (m.kept.keeps fresh loop (read-has fresh loop null t.cells el)))
              (n.kept.keeps fresh dat (m.kept.keeps fresh dat hd))
              (n.kept.keeps fresh bufs_base
                (m.kept.keeps fresh bufs_base (read-has fresh bufs_base null t.cells eb))))
      (λ p i. omega (
        arith,
        count-append p (owned q) (cb ∷ []),
        count-append p (owned q ++ (cb ∷ [])) (fresh ∷ []),
      ))
