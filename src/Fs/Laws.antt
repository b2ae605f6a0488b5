-- ===== src/Fs/Laws.antt =====
-- The ownership of a request on the file system, for all of them at once.
use uv_mbt.Base.{ℤ, ◌≡◌, ◌∙◌, ap, inr, Option, none, some, List, [], ◌∷◌, ◌++◌, arith, count-append}
use uv_mbt.Fs.Dispatch.{FsCalls, Request, call, owned, submit}
use uv_mbt.Fs.Blocking.{serve}
use uv_mbt.Fs.Request.{calls_back, waits, fs_cb, fs_finalize, fs_set_data}
use uv_mbt.Memory.{Ptr, null, loop, dat, bufs_base, State, M, and_then, write}
use uv_mbt.Memory.Cells.{read-has, read-write_other}
use uv_mbt.Memory.Idioms.{Starts, Consumes, replace, replace-Wrote, clear-Moves}
use uv_mbt.Memory.Ledger.{Ends, Moves}
use uv_mbt.Memory.Rules.{Has, Reads, seq, settle, same-null}
use uv_mbt.Memory.Shapes.{decrefs, NotNull, decrefs-Ends, one_shot, clear_both-Moves}

-- the result is libuv's, and the request object owns the callback and the loop
abbrev pub Begun : ℤ → (l fs cb : Ptr) → State → ℤ → State → Type 0
Begun r l fs cb s x t = (x ≡ r) × (t.cells ≡ write fs loop l (write fs dat cb s.cells))

request-Ends :
    (m : M ℤ) (l fs cb : Ptr) (r : ℤ) (ps : List Ptr) (s : State)
    → Starts r l fs m
    → NotNull ps
    → Has fs dat s
    → Reads fs loop null s
    → Ends
        (Begun r l fs cb s)
        (cb ∷ l ∷ ps)
        []
        s
        (and_then (replace fs dat cb s) (λ _ t. and_then (m t) (λ x. decrefs ps x)))
request-Ends m l fs cb r ps s starts nn h e = seq (replace-Wrote fs dat cb s h) λ _ t w _.
    let fresh : Reads fs loop null t =
      rw (w, read-write_other fs dat cb fs loop s.cells (inr (omega arith))) e in
    seq (starts t fresh)
      λ x u (ex, k) _. decrefs-Ends ps x u nn λ v k'. (ex, k' ∙ (k ∙ ap (write fs loop l) w))

submit_part :
    (api : FsCalls) (q : Request) (l fs cb : Ptr) (r : ℤ) (s : State)
    → Starts r l fs (call api l fs calls_back q)
    → NotNull (owned q)
    → Has fs dat s
    → Reads fs loop null s
    → Ends (Begun r l fs cb s) (cb ∷ l ∷ owned q) [] s (submit api l fs cb q s)
unfolding submit call owned fs_set_data
submit_part api (Request.open_file path flags mode) l fs cb r s starts nn h e =
    request-Ends (api.uv_fs_open l fs path flags mode calls_back) l fs cb r (path ∷ []) s starts nn
      h e
submit_part api q l fs cb r s starts nn h e =
    request-Ends (call api l fs calls_back q) l fs cb r (owned q) s starts nn h e

-- Every request on the file system that calls back, on a fresh request object: where libuv takes
-- the loop into the object and answers `r`, the object owns the callback and the loop, no other
-- field is written, the paths are released, the reference to the object stays with libuv, and
-- libuv's answer is returned.
pub submit-Ends :
    (api : FsCalls) (q : Request) (l fs cb : Ptr) (r : ℤ) (s : State)
    → Starts r l fs (call api l fs calls_back q)
    → NotNull (owned q)
    → Has fs dat s
    → Reads fs loop null s
    → Ends (Begun r l fs cb s) (l ∷ fs ∷ owned q ++ (cb ∷ [])) (fs ∷ []) s (submit api l fs cb q s)
submit-Ends api q l fs cb r s starts nn h e =
    settle (submit_part api q l fs cb r s starts nn h e)
      (λ p i. omega (arith, count-append p (owned q) (cb ∷ [])))

abbrev pub Each : (M ℤ → Type 0) → Option (M ℤ) → Type 0
Each P none = Unit {0}
Each P (some m) = P m

Each-map : {P Q : M ℤ → Type 0} (o : Option (M ℤ)) → ((m : M ℤ) → P m → Q m) → Each P o → Each Q o
Each-map none f e = e
Each-map (some m) f e = f m e

serve_part :
    (api : FsCalls) (q : Request) (l fs : Ptr) (r : ℤ) (s : State)
    → Starts r l fs (call api l fs waits q)
    → NotNull (fs ∷ owned q)
    → Has fs dat s
    → Reads fs loop null s
    → Each (λ m. Ends (Begun r l fs null s) (null ∷ l ∷ fs ∷ owned q) [] s (m s)) (serve api l fs q)
unfolding serve call owned fs_set_data
serve_part api (Request.open_file path flags mode) l fs r s starts nn h e =
    request-Ends (api.uv_fs_open l fs path flags mode waits) l fs null r (fs ∷ path ∷ []) s starts
      nn h e
serve_part api (Request.fstat file) l fs r s starts nn h e = tt
serve_part api (Request.ftruncate file offset) l fs r s starts nn h e = tt
serve_part api q l fs r s starts nn h e =
    request-Ends (call api l fs waits q) l fs null r (fs ∷ owned q) s starts nn h e

-- Every request on the file system that waits, on a fresh request object: where libuv takes the
-- loop into the object and answers `r`, the object owns the loop and no callback, no other field is
-- written, the object and the paths are released, and libuv's answer is returned.
pub serve-Ends :
    (api : FsCalls) (q : Request) (l fs : Ptr) (r : ℤ) (s : State)
    → Starts r l fs (call api l fs waits q)
    → NotNull (fs ∷ owned q)
    → Has fs dat s
    → Reads fs loop null s
    → Each (λ m. Ends (Begun r l fs null s) (l ∷ fs ∷ owned q) [] s (m s)) (serve api l fs q)
serve-Ends api q l fs r s starts nn h e =
    Each-map (serve api l fs q) (λ m d. settle d (λ p i. omega (arith, same-null p i)))
      (serve_part api q l fs r s starts nn h e)

-- The callback of such a request takes the closure and libuv's reference to the object into the
-- MoonBit code, and the object's end releases what it owns, once each.
fs_cb-Moves :
    (code : Ptr → Ptr → M (Unit {0})) (fs c : Ptr) (s : State)
    → Consumes (c ∷ fs ∷ []) [] (code c fs)
    → Reads fs dat c s
    → Has fs loop s
    → Has fs bufs_base s
    → Moves (fs ∷ []) [] s (fs_cb code fs s) × Moves [] [] s (fs_finalize fs s)
unfolding fs_cb fs_finalize
fs_cb-Moves code fs c s consumes e hl hb = (
  one_shot fs dat code s e consumes,
  seq (clear-Moves fs loop s hl) (λ _ t _ k.
      clear_both-Moves fs dat bufs_base t (k.kept.keeps fs dat (read-has fs dat c s.cells e))
        (k.kept.keeps fs bufs_base hb)),
)
