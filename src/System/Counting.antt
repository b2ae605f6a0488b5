-- ===== src/System/Counting.antt =====
-- In every world that the program and the loop can reach, the count of each object is the number of those who
-- hold it.
use mathlib.Core.Path.{subst}
use mathlib.Core.Option.{some-injective}
use uv_mbt.Base.{
  false, inl, inr, Bool-cases, ==_eq, ==_ne, ◌∙◌, refl, ap, ℕ, ◌+◌, ◌<◌, ◌≡◌, ◌≢◌, Option, some,
  List, [], ◌∷◌, count, ◌==◌, arith, same,
}
use uv_mbt.Handle.{close-Ends, close_cb}
use uv_mbt.Memory.{
  Ptr, null, loop, dat, Cell, State, M, and_then, pure, make, discard, write, erase,
}
use uv_mbt.Memory.Cells.{owns, has-read}
use uv_mbt.Memory.Idioms.{IsQuiet, get-at, put-Wrote}
use uv_mbt.Memory.Ledger.{Ends, Returns, returns, Balance, ups, downs}
use uv_mbt.Memory.Rules.{
  Reads, Has, seq, make-Law, settle, pure-Ends, decref-Same, incref-Same, same-null,
}
use uv_mbt.System.{
  Binding, Call, run, takes, gives, effect, World, Lives, without, handles_after, Ready, Step, call,
  Reach, here, next, start_world, Finalized, IsLawful,
}
use uv_mbt.System.Objects.{
  fields_of, handle_fields, fields_of-write, fields_of-has, fields_of-erase, fields_of-blank,
}

-- the result of a call is left out
drop_result :
    {A : Type 0} {P : State → Type 0} {s : State} {m : Option (A × State)} {a b : List Ptr}
    → Ends (λ _ t. P t) a b s m
    → Ends (λ _ t. P t) a b s (and_then m (λ _. pure tt))
drop_result (returns (p, l)) = returns (p, l)

-- a run that changes the fields as `f` says, and keeps the counts
abbrev pub Does :
    (List Cell → List Cell) → List Ptr → List Ptr → State → Option (Unit {0} × State) → Type 0
Does f takes gives s = Returns (λ _ t. (t.cells ≡ f s.cells) × Balance takes gives s t)

does :
    (f : List Cell → List Cell) {a b : List Ptr} {s : State} {r : Option (Unit {0} × State)}
    → Ends (λ _ t. t.cells ≡ f s.cells) a b s r
    → Does f a b s r
does f (returns (e, l)) = returns (e, l.law)

finalize_then :
    (h : Ptr) (s : State) (r : Option (Unit {0} × State))
    → Returns (λ _ t. Finalized h s t) r
    → Does (erase h) [] [] s (and_then r (λ _. discard h))
unfolding discard
finalize_then h s r (returns f) = returns (f.erased, f.settled)

plain-Ends : (p : Ptr) (s : State) → Ends (λ _ t. t.cells ≡ s.cells) [] (p ∷ []) s (make p [] s)
unfolding make
plain-Ends p s = returns (refl, make-Law p [] s)

closed-Ends :
    (h on_close : Ptr) (s : State)
    → h ≢ null
    → Reads h dat on_close s
    → Ends
        (λ _ t. t.cells ≡ write h dat null s.cells)
        (h ∷ [])
        (on_close ∷ [])
        s
        (close_cb (λ c. pure tt) h s)
unfolding close_cb
closed-Ends h on_close s hn e = get-at h dat _ e (
    settle
      (seq (put-Wrote h dat null e)
        λ _ t w _. seq (decref-Same h t hn) λ _ u k _. pure-Ends tt u (rw (k, w)))
      (λ p i. omega (arith, same-null p i)))

-- the handles have the fields of handles
abbrev pub Shaped : World → Type 0
Shaped w = (h : Ptr) → Lives h w → fields_of h w.memory.cells ≡ handle_fields

Lives-Has : (w : World) → Shaped w → (h : Ptr) → Lives h w → Has h dat w.memory
Lives-Has w shaped h lives = (fields_of-has h w.memory.cells (shaped h lives)).1

module _ {K : Type 0} (b : K → Binding) (uv_close : Ptr → M (Unit {0}))
    (lawful : (k : K) → IsLawful (b k)) (closes : (h : Ptr) → IsQuiet (uv_close h)) where
  -- A call that is ready ends without a fault, has its effect on the fields and keeps the counts.
  pub run-Does :
      (c : Call K) (w : World)
      → Ready c w
      → Shaped w
      → Does (effect c) (takes c) (gives c) w.memory (run b uv_close c w.memory)
  unfolding run
  run-Does (Call.make k h) w r shaped =
      does (effect (Call.make k h)) (drop_result ((lawful k).make_law h w.memory))
  run-Does (Call.init k l h) w r shaped =
      does (effect (Call.init k l h)) (drop_result ((lawful k).init_law l h w.memory r.1))
  run-Does (Call.start k h cb) w r shaped =
      does (effect (Call.start k h cb))
        (drop_result ((lawful k).start_law h cb w.memory r.1 (Lives-Has w shaped h r.0)))
  run-Does (Call.fire k h cb) w r shaped =
      does (effect (Call.fire k h cb)) ((lawful k).fire_law h cb w.memory r.1 r.2 r.3)
  run-Does (Call.stop k h) w r shaped =
      does (effect (Call.stop k h))
        (drop_result ((lawful k).stop_law h w.memory r.1 (Lives-Has w shaped h r.0)))
  run-Does (Call.close h on_close) w r shaped =
      does (effect {K = K} (Call.close h on_close))
        (close-Ends uv_close h on_close w.memory (closes h) r.1 (Lives-Has w shaped h r.0))
  run-Does (Call.closed h on_close) w r shaped =
      does (effect {K = K} (Call.closed h on_close)) (closed-Ends h on_close w.memory r.1 r.2)
  run-Does (Call.end k h) w r shaped =
      let e = shaped h r.0 in
      let (d, ed) = has-read h dat w.memory.cells (Lives-Has w shaped h r.0) in
      finalize_then h w.memory ((b k).finalize h w.memory)
        ((lawful k).finalize_law h r.2.0 d w.memory r.2.1 e r.2.2 ed)
  run-Does (Call.new p) w r shaped =
      does (effect {K = K} (Call.new p)) (drop_result (plain-Ends p w.memory))
  run-Does (Call.dup p) w r shaped = does (effect {K = K} (Call.dup p)) (incref-Same p w.memory r.0)
  run-Does (Call.lose p) w r shaped = does (effect {K = K} (Call.lose p)) (decref-Same p w.memory r)

count-without_self : (h : Ptr) (hs : List Ptr) → count h (without h hs) ≡ 0
unfolding without same
count-without_self h [] = refl
count-without_self h (p ∷ hs) = ground (arith, count-without_self h hs)

count-without : (h q : Ptr) (hs : List Ptr) → q ≢ h → count q (without h hs) ≡ count q hs
unfolding without same
count-without h q [] n = refl
count-without h q (p ∷ hs) n = ground (arith, count-without h q hs)

-- the count of each object is the number of the fields and of the others that hold it
pub record Inv (w : World) : Type 0 where
  pub counted :
      (p : Ptr)
      → p ≢ null
      → ups p w.memory.log ≡ downs p w.memory.log + owns p w.memory.cells + count p w.held
  pub shaped : (h : Ptr) → Lives h w → fields_of h w.memory.cells ≡ handle_fields

lives_other : (o h n : ℕ) → (o == h) ≡ false → 0 < same h o + n → 0 < n
unfolding same
lives_other o h n e k = ground arith

module _ {K : Type 0} where
  -- the handles keep their fields
  effect-Shaped :
      (c : Call K) (w : World)
      → Ready c w
      → Shaped w
      → (h : Ptr) → 0 < count h (handles_after c w.handles)
      → fields_of h (effect c w.memory.cells) ≡ handle_fields
  effect-Shaped (Call.make k o) w r shaped h lives = elim (Bool-cases (o == h)) [
    | inl e ↦
        let none_yet : fields_of h w.memory.cells ≡ [] = rw (==_eq o h e) at r.2 in
        fields_of-blank h o w.memory.cells ∙ rw (e, none_yet) refl
    | inr n ↦
        fields_of-blank h o w.memory.cells
        ∙ rw n (shaped h (lives_other o h (count h w.handles) n lives))
  ]
  effect-Shaped (Call.init k l o) w r shaped h lives =
      fields_of-write h o loop l w.memory.cells ∙ shaped h lives
  effect-Shaped (Call.start k o cb) w r shaped h lives =
      fields_of-write h o dat cb w.memory.cells ∙ shaped h lives
  effect-Shaped (Call.fire k o cb) w r shaped h lives = shaped h lives
  effect-Shaped (Call.stop k o) w r shaped h lives =
      fields_of-write h o dat null w.memory.cells ∙ shaped h lives
  effect-Shaped (Call.close o on_close) w r shaped h lives =
      fields_of-write h o dat on_close w.memory.cells ∙ shaped h lives
  effect-Shaped (Call.closed o on_close) w r shaped h lives =
      fields_of-write h o dat null w.memory.cells ∙ shaped h lives
  effect-Shaped (Call.end k o) w r shaped h lives = elim (Bool-cases (h == o)) [
    | inl e ↦
        let gone : 0 < count h (without h w.handles) = rw (← (==_eq h o e)) at lives in
        absurd (omega (arith, count-without_self h w.handles))
    | inr n ↦
        fields_of-erase h o w.memory.cells (==_ne h o n)
        ∙ shaped h (rw (count-without o h w.handles (==_ne h o n)) at lives)
  ]
  effect-Shaped (Call.new p) w r shaped h lives = shaped h lives
  effect-Shaped (Call.dup p) w r shaped h lives = shaped h lives
  effect-Shaped (Call.lose p) w r shaped h lives = shaped h lives

-- what a run that does something leaves behind
Does-some :
    (f : List Cell → List Cell) {a b : List Ptr} {s t : State} {r : Option (Unit {0} × State)}
    → Does f a b s r
    → r ≡ some (tt, t)
    → (t.cells ≡ f s.cells) × Balance a b s t
Does-some f {a} {b} {s} {t} (returns d) e =
    subst (λ x. (x.cells ≡ f s.cells) × Balance a b s x) (ap (λ p. p.1) (some-injective _ _ e)) d

module _ {K : Type 0} (b : K → Binding) (uv_close : Ptr → M (Unit {0}))
    (lawful : (k : K) → IsLawful (b k)) (closes : (h : Ptr) → IsQuiet (uv_close h)) where
  pub Step-Inv : {w v : World} → Step b uv_close w v → Inv w → Inv v
  Step-Inv {w} {v} (call c r pays hs e) i =
      let (cells, l) = Does-some (effect c) (run-Does b uv_close lawful closes c w r i.shaped) e in
      record {
        counted = λ p n. omega (arith, l.balance p n, i.counted p n, pays p);
        shaped = λ h lives. rw cells (effect-Shaped c w r i.shaped h (rw hs at lives));
      }

-- Any number of handles of any kinds, and any order of calls by the program and by the loop, calls from
-- within callbacks included: in every world that is reached from the empty one, the count that the runtime keeps of
-- an object is the number of the fields, the variables and the queues that hold it, and every handle has
-- its two fields. libuv is taken to keep what the laws of the kinds say, and each call to be ready.
pub Reach-Inv :
    {K : Type 0} (b : K → Binding) (uv_close : Ptr → M (Unit {0}))
    (lawful : (k : K) → IsLawful (b k)) (closes : (h : Ptr) → IsQuiet (uv_close h)) {w : World}
    → Reach b uv_close start_world w
    → Inv w
unfolding ups downs owns
Reach-Inv b uv_close lawful closes here = record {
  counted = λ p n. refl;
  shaped = λ h lives. absurd (omega arith);
}
Reach-Inv b uv_close lawful closes (next r st) =
    Step-Inv b uv_close lawful closes st (Reach-Inv b uv_close lawful closes r)
