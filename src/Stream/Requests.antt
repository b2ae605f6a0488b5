-- ===== src/Stream/Requests.antt =====
-- A request that owns a record of a callback and an array: the part that write.c and udp.c share.
use uv_mbt.Base.{ℤ, ◌≡◌, some, map, ◌++◌, List, [], ◌∷◌, arith}
use uv_mbt.Memory.{
  Ptr, null, Cell, dat, cb, bufs, State, M, and_then, get, put, make, read, write, blank, at,
}
use uv_mbt.Memory.Idioms.{replace, take, Answers, Consumes, get-at, take-then}
use uv_mbt.Memory.Ledger.{Ends, Moves}
use uv_mbt.Memory.Rules.{Has, Reads, settle}
use uv_mbt.Memory.Records.{recorded, record-Ends}
use uv_mbt.Memory.Shapes.{decrefs, NotNull}

-- the fields after the record is made and filled
abbrev pub filled : (fresh array on_done : Ptr) → State → List Cell
filled fresh array on_done s = recorded (cb ∷ bufs ∷ []) bufs cb fresh array on_done s

blank_bufs :
    (fresh : Ptr) (cs : List Cell)
    → read fresh bufs (map (blank fresh) (cb ∷ bufs ∷ []) ++ cs) ≡ some null
unfolding read at
blank_bufs fresh cs = ground arith

blank_cb :
    (fresh : Ptr) (cs : List Cell)
    → read fresh cb (map (blank fresh) (cb ∷ bufs ∷ []) ++ cs) ≡ some null
unfolding read at
blank_cb fresh cs = ground arith

-- the body of such a request: make the record, fill it, store it, call libuv, release the rest
pub request-Ends :
    (m : M ℤ) (fresh req array on_done : Ptr) (r : ℤ) (ps : List Ptr) (s : State)
    → Answers r m
    → NotNull ps
    → Has req dat s
    → Ends
        (λ x t. (x ≡ r) × (t.cells ≡ write req dat fresh (filled fresh array on_done s)))
        (array ∷ on_done ∷ ps)
        []
        s
        (and_then (make fresh (cb ∷ bufs ∷ []) s) λ d t. and_then (put d bufs array t) λ _ u.
          and_then
            (put d cb on_done u)
            λ _ v. and_then (replace req dat d v) λ _ w. and_then (m w) (λ x. decrefs ps x))
request-Ends m fresh req array on_done r ps s answers nn h =
    record-Ends (cb ∷ bufs ∷ []) bufs cb m fresh req array on_done r ps s blank_bufs blank_cb
      (omega arith) answers nn h

-- the callback of such a request takes the closure out of the record, and leaves NULL there
pub request_cb-Moves :
    (code : Ptr → Ptr → ℤ → M (Unit {0})) (req d c : Ptr) (status : ℤ) (s : State)
    → Consumes (c ∷ req ∷ []) [] (code c req status)
    → Reads req dat d s
    → Reads d cb c s
    → Moves
        (req ∷ [])
        []
        s
        (and_then (get req dat s) λ x t. and_then (take x cb t) λ y. code y req status)
request_cb-Moves code req d c status s consumes ed ec =
    get-at req dat _ ed (
      settle (take-then d cb (λ y. code y req status) ec (λ t _ _. consumes t))
        (λ p i. omega arith))
