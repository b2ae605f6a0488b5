-- ===== src/Loop/Walking.antt =====
-- src/loop.c: the walk over the handles, and printing them.
use uv_mbt.Base.{ℤ, pos, ◌≡◌, refl, ◌≢◌, ◌∙◌, true, false, List, [], ◌∷◌, arith}
use uv_mbt.Loop.{walk_cb, walk, print_all_handles}
use uv_mbt.Memory.{Ptr, null, State, M, ◌>>◌, pure}
use uv_mbt.Memory.Idioms.{Consumes, IsQuiet, Leaves}
use uv_mbt.Memory.Ledger.{Ends, Moves}
use uv_mbt.Memory.Rules.{seq, settle, forget, pure-Ends, decref-Same, incref-Same}

-- `m` is run for each of the list, in its order
unfoldable pub each : (Ptr → M (Unit {0})) → List Ptr → M (Unit {0})
each m [] = pure tt
each m (h ∷ hs) = m h >> each m hs

-- libuv calls back for each handle of the loop
abbrev pub Walks : List Ptr → (Ptr → (Ptr → Ptr → M (Unit {0})) → Ptr → M (Unit {0})) → Ptr → Type 0
Walks handles uv_walk l =
    (back : Ptr → Ptr → M (Unit {0})) (arg : Ptr) (s : State)
    → uv_walk l back arg s ≡ each (λ h. back h arg) handles s

abbrev pub AllHandles : (Ptr → Type 0) → List Ptr → Type 0
AllHandles P [] = Unit {0}
AllHandles P (h ∷ hs) = P h × AllHandles P hs

each-Moves :
    (m : Ptr → M (Unit {0})) (handles : List Ptr) (s : State)
    → AllHandles (λ h. Consumes [] [] (m h)) handles
    → Moves [] [] s (each m handles s)
unfolding each
each-Moves m [] s hs = pure-Ends tt s tt
each-Moves m (h ∷ handles) s hs = seq (hs.0 s) λ _ t _ _. each-Moves m handles t hs.1

visit :
    (code : Ptr → Ptr → M (Unit {0})) (arg : Ptr) (handles : List Ptr)
    → arg ≢ null
    → AllHandles (λ h. (h ≢ null) × Consumes (arg ∷ h ∷ []) [] (code arg h)) handles
    → AllHandles (λ h. Consumes [] [] (walk_cb code h arg)) handles
unfolding walk_cb
visit code arg [] ha hs = tt
visit code arg (h ∷ handles) ha ((hn, consumes), hs) = (
  λ s.
      settle (seq (incref-Same arg s ha) λ _ t _ _. seq (incref-Same h t hn) λ _ u _ _. consumes u)
        (λ p i. omega arith),
  visit code arg handles ha hs,
)

-- Walking over the handles of a loop shares the closure and each handle with the MoonBit code, and
-- releases the loop and the closure at the end: where libuv calls back for each handle and the code
-- takes over what it is passed, no reference is lost or released twice.
walk-Moves :
    (uv_walk : Ptr → (Ptr → Ptr → M (Unit {0})) → Ptr → M (Unit {0}))
    (code : Ptr → Ptr → M (Unit {0})) (l arg : Ptr) (handles : List Ptr) (s : State)
    → Walks handles uv_walk l
    → AllHandles (λ h. (h ≢ null) × Consumes (arg ∷ h ∷ []) [] (code arg h)) handles
    → l ≢ null
    → arg ≢ null
    → Moves (l ∷ arg ∷ []) [] s (walk uv_walk code l arg s)
unfolding walk
walk-Moves uv_walk code l arg handles s walks hs hl ha = rw (walks (walk_cb code) arg s) (
    seq (each-Moves (λ h. walk_cb code h arg) handles s (visit code arg handles ha hs))
      λ _ t _ _. seq (decref-Same l t hl) λ _ u _ _. forget (decref-Same arg u ha))

-- Printing the handles releases the loop where the stream can be opened; where it cannot, the error
-- is returned and the reference to the loop is released by nobody.
print_all_handles-Ends :
    (uv_print_all_handles : Ptr → M (Unit {0})) (error : ℤ) (l : Ptr) (s : State)
    → IsQuiet (uv_print_all_handles l)
    → l ≢ null
    → Ends (Leaves (pos 0) s) (l ∷ []) [] s (print_all_handles uv_print_all_handles true error l s)
      × Ends
          (Leaves error s)
          (l ∷ [])
          (l ∷ [])
          s
          (print_all_handles uv_print_all_handles false error l s)
unfolding print_all_handles
print_all_handles-Ends uv_print_all_handles error l s quiet hl = (
  seq (quiet s)
      (λ _ t k _. seq (decref-Same l t hl) λ _ u k2 _. pure-Ends (pos 0) u (refl, k2 ∙ k)),
  settle (pure-Ends error s (refl, refl)) (λ p i. omega arith),
)
