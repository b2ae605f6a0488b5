-- ===== src/Queries/Env/Freed.antt =====
-- src/env.c: the arrays that libuv allocates for the environment are freed once each.
use uv_mbt.Base.{ℤ, ◌≡◌, ◌≢◌, refl, ◌∙◌, ◌==◌, if◌then◌else◌, List, [], ◌∷◌, ◌++◌, arith}
use uv_mbt.Memory.{Ptr, null, State, M, ◌>>=◌, pure}
use uv_mbt.Memory.Ledger.{Ends}
use uv_mbt.Memory.Rules.{weaken, seq-is, pure-Ends}
use uv_mbt.Memory.Shapes.{decrefs-Ends}
use uv_mbt.Queries.Env.{Environ, environ_make, environ_finalize, environ_reset, os_environ}
use uv_mbt.Queries.Shapes.{mapped-Ends, Replies, Yields}

-- What is freed in the life of an object that is filled once for each call of libuv, and then ends.
unfoldable pub environ_life : List (M (ℤ × Ptr × ℤ)) → Environ → (env : Ptr) → M (List Ptr)
environ_life [] e env = pure (environ_finalize e).1
environ_life (uv_os_environ ∷ uvs) e env = do
  (status, filled, freed) ← os_environ uv_os_environ e env
  rest ← environ_life uvs filled env
  pure (freed ++ rest)

-- each call of libuv answers a status, an array and a length
abbrev pub AllReply : List (M (ℤ × Ptr × ℤ)) → List (ℤ × Ptr × ℤ) → Type 0
AllReply [] [] = Unit {0}
AllReply (uv ∷ uvs) (a ∷ answers) = Replies a uv × AllReply uvs answers
AllReply [] (a ∷ answers) = ⊥
AllReply (uv ∷ uvs) [] = ⊥

-- the arrays among the answers: those where libuv's pointer is not NULL
unfoldable pub arrays : List (ℤ × Ptr × ℤ) → List Ptr
arrays [] = []
arrays ((status, items, count) ∷ answers) =
    if items == null then arrays answers else items ∷ arrays answers

-- one reference to the object for each call
abbrev pub once_each : List (M (ℤ × Ptr × ℤ)) → Ptr → List Ptr
once_each [] env = []
once_each (uv ∷ uvs) env = env ∷ once_each uvs env

-- an array that the object has already is freed first
abbrev with_array : Environ → List Ptr → List Ptr
with_array e ps = if e.items == null then ps else e.items ∷ ps

finalize-with_array : (e : Environ) → (environ_finalize e).1 ≡ with_array e []
unfolding environ_finalize
finalize-with_array e = ground arith

reset-with_array : (e : Environ) (ps : List Ptr) → (environ_reset e).1 ++ ps ≡ with_array e ps
unfolding environ_reset environ_finalize
reset-with_array e ps = ground arith

os_environ-Ends :
    (uv : M (ℤ × Ptr × ℤ)) (status : ℤ) (items : Ptr) (count : ℤ) (e : Environ) (env : Ptr)
    (s : State)
    → Replies (status, items, count) uv
    → env ≢ null
    → Ends
        (Yields (status, record { items = items; count = count }, (environ_reset e).1) s)
        (env ∷ [])
        []
        s
        (os_environ uv e env s)
unfolding os_environ
os_environ-Ends uv status items count e env s replies h =
    seq-is _ (replies s) λ t k _. decrefs-Ends (env ∷ []) _ t (h, tt) λ u k'. (refl, k' ∙ k)

life-Ends :
    (uvs : List (M (ℤ × Ptr × ℤ))) (answers : List (ℤ × Ptr × ℤ)) (e : Environ) (env : Ptr)
    (s : State)
    → AllReply uvs answers
    → env ≢ null
    → Ends
        (Yields (with_array e (arrays answers)) s)
        (once_each uvs env)
        []
        s
        (environ_life uvs e env s)
unfolding environ_life arrays
life-Ends [] [] e env s all h = pure-Ends _ s (finalize-with_array e, refl)
life-Ends [] (a ∷ answers) e env s all h = absurd all
life-Ends (uv ∷ uvs) [] e env s all h = absurd all
life-Ends (uv ∷ uvs) ((status, items, count) ∷ answers) e env s all h =
    let filled : Environ = record { items = items; count = count } in
    seq-is _ (os_environ-Ends uv status items count e env s all.0 h) λ t k _.
      weaken
        (mapped-Ends (λ rest. (environ_reset e).1 ++ rest)
          (life-Ends uvs answers filled env t all.1 h))
        λ x u (ex, k'). (ex ∙ reset-with_array e (with_array filled (arrays answers)), k' ∙ k)

-- However often an object is filled with the environment, where libuv answers as in the list and touches neither fields nor
-- counts: at its end each array that libuv allocated has been freed once, in their order, and nothing
-- else, and each call has released the parameter.
pub environ_life-Ends :
    (uvs : List (M (ℤ × Ptr × ℤ))) (answers : List (ℤ × Ptr × ℤ)) (env : Ptr) (s : State)
    → AllReply uvs answers
    → env ≢ null
    → Ends
        (λ freed t. (freed ≡ arrays answers) × (t.cells ≡ s.cells))
        (once_each uvs env)
        []
        s
        (environ_life uvs environ_make env s)
unfolding environ_make
environ_life-Ends uvs answers env s all h = life-Ends uvs answers environ_make env s all h
