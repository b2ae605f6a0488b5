-- ===== src/Stream/Reading/Control.antt =====
-- Starting and stopping to read, listening and the end of the shared record.
use uv_mbt.Base.{map, ◌++◌, some, ℤ, ◌≡◌, ◌≢◌, ◌∙◌, List, [], ◌∷◌, arith}
use uv_mbt.Memory.{Cell, at, Ptr, null, dat, bytes, alloc_cb, read_cb, State, M, write, read, blank}
use uv_mbt.Memory.Cells.{read-has}
use uv_mbt.Memory.Idioms.{Sets, Answers, put-then, drop-Same}
use uv_mbt.Memory.Ledger.{Ends}
use uv_mbt.Memory.Rules.{Has, Reads, Same, seq, weaken}
use uv_mbt.Memory.Records.{recorded, record-Ends}
use uv_mbt.Memory.Shapes.{drop_both-Same, call-Ends, reset-Ends}
use uv_mbt.Stream.Reading.{read_start, read_stop, stream_data_finalize, listen}

-- the fields after the record is made and filled
abbrev pub filled : (fresh on_alloc on_read : Ptr) → State → List Cell
filled fresh on_alloc on_read s =
    recorded (bytes ∷ alloc_cb ∷ read_cb ∷ []) read_cb alloc_cb fresh on_read on_alloc s

pub blank_read_cb :
    (fresh : Ptr) (cs : List Cell)
    → read fresh read_cb (map (blank fresh) (bytes ∷ alloc_cb ∷ read_cb ∷ []) ++ cs) ≡ some null
unfolding read at
blank_read_cb fresh cs = ground arith

pub blank_alloc_cb :
    (fresh : Ptr) (cs : List Cell)
    → read fresh alloc_cb (map (blank fresh) (bytes ∷ alloc_cb ∷ read_cb ∷ []) ++ cs) ≡ some null
unfolding read at
blank_alloc_cb fresh cs = ground arith

-- Where `uv_read_start` answers `r` and touches neither fields nor counts: starting to read makes
-- one record, which owns both callbacks and which the stream owns, releases what the stream owned
-- before and the parameter, writes nothing else, and returns libuv's answer.
pub read_start-Ends :
    (uv_read_start : Ptr → M ℤ) (fresh stream on_alloc on_read : Ptr) (r : ℤ) (s : State)
    → Answers r (uv_read_start stream)
    → stream ≢ null
    → Has stream dat s
    → Ends
        (λ x t. (x ≡ r) × (t.cells ≡ write stream dat fresh (filled fresh on_alloc on_read s)))
        (on_read ∷ on_alloc ∷ stream ∷ [])
        []
        s
        (read_start uv_read_start fresh stream on_alloc on_read s)
unfolding read_start
read_start-Ends uv_read_start fresh stream on_alloc on_read r s starts hs h =
    record-Ends (bytes ∷ alloc_cb ∷ read_cb ∷ []) read_cb alloc_cb (uv_read_start stream) fresh
      stream on_read on_alloc r (stream ∷ []) s blank_read_cb blank_alloc_cb (omega arith) starts
      (hs, tt) h

-- Where `uv_read_stop` answers `r` and touches neither fields nor counts: stopping releases the
-- record that the stream owns and the parameter, and writes no other field. The record's own end
-- releases the bytes and both callbacks once each.
read_stop-Ends :
    (uv_read_stop : Ptr → M ℤ) (stream d b c e : Ptr) (r : ℤ) (s : State)
    → Answers r (uv_read_stop stream)
    → stream ≢ null
    → Reads stream dat d s
    → Reads d bytes b s
    → Reads d read_cb c s
    → Reads d alloc_cb e s
    → Ends (Sets r stream dat null s) (stream ∷ []) [] s (read_stop uv_read_stop stream s)
      × Ends (Same s) (b ∷ c ∷ e ∷ []) [] s (stream_data_finalize d s)
unfolding read_stop stream_data_finalize
read_stop-Ends uv_read_stop stream d b c e r s stops hs ed eb ec ee = (
  reset-Ends stream dat (uv_read_stop stream) r (stream ∷ []) s (read-has stream dat d s.cells ed)
      stops (hs, tt),
  seq (drop-Same d bytes s eb) (λ _ t k _.
      weaken (drop_both-Same d read_cb alloc_cb t (rw k ec) (rw k ee)) (λ _ u k'. k' ∙ k)),
)

-- Where `uv_listen` answers `r` and touches neither fields nor counts: listening stores the
-- callback and releases the parameter, but whatever the field held before is lost: the reference
-- to it is released by nobody.
pub listen-Ends :
    (uv_listen : Ptr → ℤ → M ℤ) (stream cb old : Ptr) (backlog r : ℤ) (s : State)
    → Answers r (uv_listen stream backlog)
    → stream ≢ null
    → Reads stream dat old s
    → Ends
        (Sets r stream dat cb s)
        (cb ∷ stream ∷ [])
        (old ∷ [])
        s
        (listen uv_listen stream backlog cb s)
unfolding listen
listen-Ends uv_listen stream cb old backlog r s listens hs e = put-then stream dat cb _ e λ t w l.
    weaken (call-Ends (uv_listen stream backlog) r (stream ∷ []) t listens (hs, tt))
      λ x u (e, k). (e, k ∙ w)
