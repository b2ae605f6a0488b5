-- ===== src/Watcher/Session.antt =====
-- The life of a handle, in the order of docs/memory.md: it is initialised and started, libuv calls
-- back any number of times, it is stopped and closed, and libuv reports that it is closed.
use uv_mbt.Base.{ℕ, zero, suc, ℤ, ◌≢◌, Option, List, [], ◌∷◌, arith}
use uv_mbt.Handle.{close, close_cb, close-Ends, close_cb-Moves}
use uv_mbt.Memory.{Ptr, null, loop, dat, State, M, ◌>>◌, pure}
use uv_mbt.Memory.Cells.{read-has, read-write}
use uv_mbt.Memory.Idioms.{IsQuiet, Starts, Sets, Consumes}
use uv_mbt.Memory.Ledger.{Ends, Moves}
use uv_mbt.Memory.Rules.{Has, Reads, seq, settle, weaken, forget, pure-Ends}

-- what is done with such a handle
pub record Watched : Type 0 where
  pub init : M ℤ
  pub start : M ℤ
  pub fire : M (Unit {0})
  pub stop : M ℤ

-- libuv calls back so often
unfoldable pub again : ℕ → M (Unit {0}) → M (Unit {0})
again zero m = pure tt
again (suc n) m = m >> again n m

pub again-Ends :
    {P : State → Type 0} (n : ℕ) (m : M (Unit {0})) (s : State)
    → ((t : State) → P t → Ends (λ _ u. P u) [] [] t (m t))
    → P s
    → Ends (λ _ t. P t) [] [] s (again n m s)
unfolding again
again-Ends zero m s runs p = pure-Ends tt s p
again-Ends (suc n) m s runs p = seq (runs s p) λ _ t p' _. again-Ends n m t runs p'

unfoldable pub session :
    Watched
    → (uv_close : Ptr → M (Unit {0})) (code : Ptr → M (Unit {0})) (o on_close : Ptr) → ℕ
    → M (Unit {0})
session w uv_close code o on_close n =
    w.init >> w.start >> again n w.fire >> w.stop >> close uv_close o on_close >> close_cb code o

-- What it owes. The loop keeps a reference to the handle from the first step on; `cb` is the
-- callback that it is started with.
pub record IsLawful (o l cb : Ptr) (w : Watched) : Type 0 where
  pub init_law : (s : State) → Reads o loop null s → Moves (l ∷ o ∷ []) (o ∷ []) s (w.init s)
  pub start_law :
      (s : State) → Has o dat s → Ends (λ _ t. Reads o dat cb t) (cb ∷ o ∷ []) [] s (w.start s)
  pub fire_law : (s : State) → Reads o dat cb s → Ends (λ _ t. Reads o dat cb t) [] [] s (w.fire s)
  pub stop_law : (s : State) → Has o dat s → Moves (o ∷ []) [] s (w.stop s)

-- the MoonBit code takes over the callback and the handle, and leaves the handle started
abbrev pub Steady : (o cb : Ptr) → M (Unit {0}) → Type 0
Steady o cb m =
    (s : State) → Reads o dat cb s → Ends (λ _ t. Reads o dat cb t) (cb ∷ o ∷ []) [] s (m s)

pub close-Reads :
    (uv_close : Ptr → M (Unit {0})) (o on_close : Ptr) (s : State)
    → IsQuiet (uv_close o)
    → o ≢ null
    → Has o dat s
    → Ends (λ _ t. Reads o dat on_close t) (on_close ∷ o ∷ []) [] s (close uv_close o on_close s)
close-Reads uv_close o on_close s closes ho h =
    weaken (close-Ends uv_close o on_close s closes ho h)
      λ _ t w. rw w (read-write o dat on_close s.cells h)

module _ {o l cb : Ptr} {w : Watched} (lawful : IsLawful o l cb w) where
  pub session-Moves :
      (uv_close code : Ptr → M (Unit {0})) (on_close : Ptr) (n : ℕ) (s : State)
      → IsQuiet (uv_close o)
      → Consumes (on_close ∷ []) [] (code on_close)
      → o ≢ null
      → Reads o loop null s
      → Has o dat s
      → Moves (l ∷ o ∷ cb ∷ o ∷ o ∷ on_close ∷ o ∷ []) [] s (session w uv_close code o on_close n s)
  unfolding session
  session-Moves uv_close code on_close n s closes consumes ho el hd =
      settle
        (seq
          (seq
            (seq
              (seq
                (seq (lawful.init_law s el) λ _ t _ k. lawful.start_law t (k.kept.keeps o dat hd))
                λ _ t e _. again-Ends n w.fire t lawful.fire_law e)
              λ _ t e _. lawful.stop_law t (read-has o dat cb t.cells e))
            λ _ t _ k. close-Reads uv_close o on_close t closes ho (k.kept.keeps o dat hd))
          λ _ t e _. close_cb-Moves code o on_close t consumes ho e)
        (λ p i. omega arith)

module _ (o : Ptr) where
  -- the first step of most handles: libuv stores the loop, and nothing is released
  pub init-Moves :
      (m : M ℤ) {l : Ptr} {r : ℤ}
      → Starts r l o m
      → (s : State) → Reads o loop null s
      → Moves (l ∷ o ∷ []) (o ∷ []) s (m s)
  init-Moves m starts s e = settle (forget (starts s e)) (λ p i. omega arith)

  -- the handle holds its callback after the start
  pub start-Reads :
      {cb : Ptr} {r : ℤ} {s : State} {m : Option (ℤ × State)} {a b : List Ptr}
      → Has o dat s
      → Ends (Sets r o dat cb s) a b s m
      → Ends (λ _ t. Reads o dat cb t) a b s m
  start-Reads {cb} {s} h e = weaken e λ _ t (_, w). rw w (read-write o dat cb s.cells h)
