-- ===== src/System/Draining.antt =====
-- What the counts are for: nothing that is held is freed, no call faults, and nothing is left at the end.
use uv_mbt.Base.{
  ap, ==_refl, refl, ◌+◌, ◌<◌, ◌≡◌, ◌≢◌, Option, some, List, [], ◌∷◌, ◌++◌, count, ◌==◌,
  if◌then◌else◌, arith, same, count-append,
}
use uv_mbt.Memory.{Ptr, null, loop, Cell, State, M, read, erase}
use uv_mbt.Memory.Cells.{owns}
use uv_mbt.Memory.Idioms.{IsQuiet}
use uv_mbt.Memory.Ledger.{returns, ups, downs}
use uv_mbt.System.{
  Binding, Call, run, takes, gives, effect, World, without, handles_after, Ready, Step, call, Reach,
  here, next, start_world, IsLawful,
}
use uv_mbt.System.Counting.{Does, Inv, run-Does, Step-Inv, Reach-Inv}

-- one occurrence is taken away
unfoldable pub remove : Ptr → List Ptr → List Ptr
remove p [] = []
remove p (q ∷ qs) = if q == p then qs else q ∷ remove p qs

unfoldable pub minus : List Ptr → List Ptr → List Ptr
minus ps [] = ps
minus ps (q ∷ qs) = minus (remove q ps) qs

-- are the references in the second list among those in the first, each as often?
abbrev pub Holds : List Ptr → List Ptr → Type 0
Holds ps [] = Unit {0}
Holds ps (q ∷ qs) = (0 < count q ps) × Holds (remove q ps) qs

count-remove :
    (p q : Ptr) (ps : List Ptr) → 0 < count q ps → count p (remove q ps) + same p q ≡ count p ps
unfolding remove same
count-remove p q [] h = absurd (omega arith)
count-remove p q (r ∷ ps) h = ground (arith, count-remove p q ps)

count-minus :
    (p : Ptr) (ps qs : List Ptr) → Holds ps qs → count p (minus ps qs) + count p qs ≡ count p ps
unfolding minus
count-minus p ps [] h = omega arith
count-minus p ps (q ∷ qs) h =
    omega (arith, count-remove p q ps h.0, count-minus p (remove q ps) qs h.1)

-- the world after a call whose run leaves `t`
abbrev pub after : {K : Type 0} → Call K → World → State → World
after c w t = record {
  memory = t;
  held = gives c ++ minus w.held (takes c);
  handles = handles_after c w.handles;
}

module _ {K : Type 0} (b : K → Binding) (uv_close : Ptr → M (Unit {0}))
    (lawful : (k : K) → IsLawful (b k)) (closes : (h : Ptr) → IsQuiet (uv_close h)) where
  -- a ready call whose references are held is a step to the world after it
  Ready-Step :
      (c : Call K) (w : World)
      → Ready c w
      → Holds w.held (takes c)
      → Inv w
      → (t : State) × (t.cells ≡ effect c w.memory.cells) × Step b uv_close w (after c w t)
  Ready-Step c w r h i =
      go (run b uv_close c w.memory) refl (run-Does b uv_close lawful closes c w r i.shaped)
    where
      go :
          (m : Option (Unit {0} × State))
          → run b uv_close c w.memory ≡ m
          → Does (effect c) (takes c) (gives c) w.memory m
          → (t : State) × (t.cells ≡ effect c w.memory.cells) × Step b uv_close w (after c w t)
      go m e (returns {a = tt} {t} (k, l)) = (
        t,
        k,
        call c r
            (λ p. omega (
              arith,
              count-minus p w.held (takes c) h,
              count-append p (gives c) (minus w.held (takes c)),
            ))
            refl e,
      )

-- In a world that is reached from the empty one, a call that is ready, with references that are held,
-- ends without a fault in a world in which the fields are changed as the call says; and whatever a variable,
-- a queue or a field holds has a reference left, so that the runtime has not freed it.
pub Ready-safe :
    {K : Type 0} (b : K → Binding) (uv_close : Ptr → M (Unit {0}))
    (lawful : (k : K) → IsLawful (b k)) (closes : (h : Ptr) → IsQuiet (uv_close h)) (c : Call K)
    (w : World)
    → Reach b uv_close start_world w
    → Ready c w
    → Holds w.held (takes c)
    → ((t : State) × (t.cells ≡ effect c w.memory.cells) × Step b uv_close w (after c w t))
      × ((p : Ptr)
          → p ≢ null
          → 0 < count p w.held + owns p w.memory.cells
          → downs p w.memory.log < ups p w.memory.log)
Ready-safe b uv_close lawful closes c w reach r h =
    let i = Reach-Inv b uv_close lawful closes reach in
    (Ready-Step b uv_close lawful closes c w r h i, λ p n k. omega (arith, i.counted p n))

-- Initialised handles that no field holds, one after the other, and nothing else.
abbrev pub Tidy : List Ptr → List Cell → Type 0
Tidy [] cs = cs ≡ []
Tidy (h ∷ hs) cs =
    (h ≢ null)
    × (count h hs ≡ 0)
    × (owns h cs ≡ 0)
    × ((l : Ptr) × (l ≢ null) × (read h loop cs ≡ some l))
    × Tidy hs (erase h cs)

without-none : (h : Ptr) (hs : List Ptr) → count h hs ≡ 0 → without h hs ≡ hs
unfolding without same
without-none h [] e = refl
without-none h (p ∷ hs) e = ground (arith, without-none h hs)

without-head : (h : Ptr) (hs : List Ptr) → count h hs ≡ 0 → without h (h ∷ hs) ≡ hs
unfolding without
without-head h hs e = rw (==_refl h) (without-none h hs e)

count-head : (h : Ptr) (hs : List Ptr) → 0 < count h (h ∷ hs)
unfolding same
count-head h hs = rw (==_refl h) (omega arith)

minus-nil : (ps : List Ptr) → minus ps [] ≡ ps
unfolding minus
minus-nil ps = refl

module _ {K : Type 0} (b : K → Binding) (uv_close : Ptr → M (Unit {0}))
    (lawful : (k : K) → IsLawful (b k)) (closes : (h : Ptr) → IsQuiet (uv_close h))
    (kind_of : Ptr → K) where
  drain-from :
      (hs : List Ptr) (w₀ w : World)
      → Reach b uv_close w₀ w
      → Inv w
      → ((p : Ptr) → count p w.held ≡ 0)
      → w.handles ≡ hs
      → Tidy hs w.memory.cells
      → (v : World) × Reach b uv_close w₀ v
        × Inv v
        × (v.memory.cells ≡ [])
        × ((p : Ptr) → count p v.held ≡ 0)
  drain-from [] w₀ w r i held e tidy = (w, r, i, tidy, held)
  drain-from (h ∷ hs) w₀ w r i held e tidy =
      let ready : Ready (Call.end (kind_of h) h) w =
        (rw e (count-head h hs), omega (arith, i.counted h tidy.0, tidy.2, held h), tidy.3) in
      let (t, k, st) = Ready-Step b uv_close lawful closes (Call.end (kind_of h) h) w ready tt i in
      drain-from hs w₀ (after (Call.end (kind_of h) h) w t) (next r st)
        (Step-Inv b uv_close lawful closes st i) (λ p. rw (minus-nil w.held) (held p))
        (rw (e, without-head h hs tidy.1) refl) (rw k tidy.4)

-- Nothing leaks: from a world that is reached from the empty one, where neither the program nor libuv holds a
-- reference, and the memory has the fields of initialised handles that no field holds, their finalizers
-- run one after the other to a world with no field left in which every count is down to 0: the handles, their
-- loops and their callbacks are all freed.
pub Reach-drained :
    {K : Type 0} (b : K → Binding) (uv_close : Ptr → M (Unit {0}))
    (lawful : (k : K) → IsLawful (b k)) (closes : (h : Ptr) → IsQuiet (uv_close h))
    (kind_of : Ptr → K) (w : World)
    → Reach b uv_close start_world w
    → ((p : Ptr) → count p w.held ≡ 0)
    → Tidy w.handles w.memory.cells
    → (v : World) × Reach b uv_close w v
      × (v.memory.cells ≡ [])
      × ((p : Ptr) → p ≢ null → ups p v.memory.log ≡ downs p v.memory.log)
unfolding owns
Reach-drained b uv_close lawful closes kind_of w reach held tidy =
    let (v, r, i, k, idle) =
      drain-from b uv_close lawful closes kind_of w.handles w w here
        (Reach-Inv b uv_close lawful closes reach) held refl tidy in
    (v, r, k, λ p n. omega (arith, i.counted p n, idle p, ap (owns p) k))
