-- ===== src/Process/Stdio/Containers.antt =====
-- src/process.c: who owns the streams of stdio.
use uv_mbt.Base.{
  ◌≡◌, refl, ◌≢◌, ◌∙◌, Bool, true, false, Bool-cases, inl, inr, if◌then◌else◌, List, [], ◌∷◌,
}
use uv_mbt.Memory.{Ptr, null, stream, State}
use uv_mbt.Memory.Idioms.{get-at}
use uv_mbt.Memory.Ledger.{Ends}
use uv_mbt.Memory.Rules.{Has, Reads, Same, seq, weaken, pure-Ends, decref-Same}
use uv_mbt.Process.Stdio.{
  Container, uv_inherit_fd, uv_inherit_stream, pipe_flags, has_stream, release_stdio,
}

-- the state after `place`
abbrev placed : (slot v : Ptr) → State → State
placed slot v s = record s { cells = record { object = slot; field = stream; value = v } ∷ s.cells }

abbrev pub AllHave : List (Ptr × Container) → State → Type 0
AllHave [] s = Unit {0}
AllHave ((slot, c) ∷ rest) s = Has c.address stream s × AllHave rest s

-- the elements of the new array, with the flags of the containers
abbrev pub moved_to : List (Ptr × Container) → List Container
moved_to [] = []
moved_to ((slot, c) ∷ rest) = record { address = slot; flags = c.flags } ∷ moved_to rest

-- what the elements of an array hold
abbrev pub AllHold : List (Container × Ptr) → State → Type 0
AllHold [] s = Unit {0}
AllHold ((c, v) ∷ rest) s =
    Reads c.address stream v s × (has_stream c.flags ≡ true → v ≢ null) × AllHold rest s

AllHold-cells :
    (cs : List (Container × Ptr)) (s t : State) → t.cells ≡ s.cells → AllHold cs s → AllHold cs t
AllHold-cells [] s t k h = tt
AllHold-cells ((c, v) ∷ rest) s t k (e, n, h) = (rw k e, n, AllHold-cells rest s t k h)

abbrev pub containers_of : List (Container × Ptr) → List Container
containers_of [] = []
containers_of ((c, v) ∷ rest) = c ∷ containers_of rest

-- the streams among them
abbrev pub streams : List (Container × Ptr) → List Ptr
streams [] = []
streams ((c, v) ∷ rest) = if has_stream c.flags then v ∷ streams rest else streams rest

-- The end of the options releases the streams of its array once each, those of the pipes and of the
-- inherited streams, and nothing of the elements that hold the number of a file or nothing.
release_stdio-Ends :
    (cs : List (Container × Ptr)) (s : State)
    → AllHold cs s
    → Ends (Same s) (streams cs) [] s (release_stdio (containers_of cs) s)
unfolding release_stdio
release_stdio-Ends [] s h = pure-Ends tt s refl
release_stdio-Ends ((c, v) ∷ rest) s (e, n, h) = elim (Bool-cases (has_stream c.flags)) [
  | inl z ↦ rw z (
      seq (get-at c.address stream _ e (decref-Same v s (n z)))
        λ _ t k _. weaken (release_stdio-Ends rest t (AllHold-cells rest s t k h)) λ _ u k2. k2 ∙ k)
  | inr z ↦ rw z (release_stdio-Ends rest s h)
]

-- A container has a stream, as the end of the options tests it, if it was made for a pipe, whatever
-- the pipe's flags, or for an inherited stream, and not if it was made for a file or to be ignored.
has_stream-pipe_flags :
    (readable writable non_block : Bool)
    → (has_stream (pipe_flags readable writable non_block) ≡ true)
      × (has_stream uv_inherit_stream ≡ true)
      × (has_stream uv_inherit_fd ≡ false)
      × (has_stream 0 ≡ false)
unfolding has_stream pipe_flags
has_stream-pipe_flags true true true = (refl, refl, refl, refl)
has_stream-pipe_flags true true false = (refl, refl, refl, refl)
has_stream-pipe_flags true false true = (refl, refl, refl, refl)
has_stream-pipe_flags true false false = (refl, refl, refl, refl)
has_stream-pipe_flags false true true = (refl, refl, refl, refl)
has_stream-pipe_flags false true false = (refl, refl, refl, refl)
has_stream-pipe_flags false false true = (refl, refl, refl, refl)
has_stream-pipe_flags false false false = (refl, refl, refl, refl)
