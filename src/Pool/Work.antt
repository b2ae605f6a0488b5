-- ===== src/Pool/Work.antt =====
-- src/work.c
use uv_mbt.Base.{ℤ, List, [], ◌∷◌}
use uv_mbt.Memory.{
  Ptr, Cell, loop, dat, work_cb as work_field, after_cb as after_field, State, M, ◌>>=◌, ◌>>◌, pure,
  get, put, incref, make,
}
use uv_mbt.Memory.Idioms.{replace, drop, take}
use uv_mbt.Memory.Ledger.{Ends}
use uv_mbt.Memory.Records.{recorded}
use uv_mbt.Memory.Rules.{Reads, Same}
use uv_mbt.Memory.Shapes.{drop_both-Same}

unfoldable pub work_data_finalize : Ptr → M (Unit {0})
work_data_finalize d = do drop d work_field; drop d after_field

-- `fresh` is the address of the new object, here and below
unfoldable pub work_data_make : (fresh : Ptr) → M Ptr
work_data_make fresh = make fresh (work_field ∷ after_field ∷ [])

-- on a thread of the pool
unfoldable pub work_cb : (code : Ptr → Ptr → M (Unit {0})) → (req : Ptr) → M (Unit {0})
work_cb code req = do d ← get req dat; cb ← take d work_field; incref req; code cb req

-- on the thread of the loop
unfoldable pub after_work_cb :
    (code : Ptr → Ptr → ℤ → M (Unit {0})) → (req : Ptr) → (status : ℤ) → M (Unit {0})
after_work_cb code req status = do d ← get req dat; cb ← take d after_field; code cb req status

unfoldable pub work_finalize : Ptr → M (Unit {0})
work_finalize work = do drop work loop; drop work dat

unfoldable pub work_make : (fresh : Ptr) → M Ptr
work_make fresh = make fresh (loop ∷ dat ∷ [])

unfoldable pub req_set_data : (req new_data : Ptr) → M (Unit {0})
req_set_data req new_data = replace req dat new_data

unfoldable pub queue_work :
    (uv_queue_work : Ptr → Ptr → M ℤ) → (fresh l req on_work on_after : Ptr) → M ℤ
unfolding work_data_make req_set_data
queue_work uv_queue_work fresh l req on_work on_after = do
  d ← work_data_make fresh
  put d work_field on_work
  put d after_field on_after
  req_set_data req d
  status ← uv_queue_work l req
  pure status

-- the cells after the work's record is made and filled
abbrev pub queued : (fresh on_work on_after : Ptr) → State → List Cell
queued fresh on_work on_after s =
    recorded (work_field ∷ after_field ∷ []) work_field after_field fresh on_work on_after s

-- The ends of a request and of its record release what they own once each.
work_finalize-Same :
    (work d l c e : Ptr) (s : State)
    → Reads work loop l s
    → Reads work dat d s
    → Reads d work_field c s
    → Reads d after_field e s
    → Ends (Same s) (l ∷ d ∷ []) [] s (work_finalize work s)
      × Ends (Same s) (c ∷ e ∷ []) [] s (work_data_finalize d s)
unfolding work_finalize work_data_finalize
work_finalize-Same work d l c e s el ed ec ee =
    (drop_both-Same work loop dat s el ed, drop_both-Same d work_field after_field s ec ee)
