-- ===== src/Dns/Resolving.antt =====
-- src/dns.c: the ownership of the requests, and the iteration.
use uv_mbt.Base.{
  ℤ, pos, ◌≡◌, refl, ◌≢◌, ◌∙◌, if◌then◌else◌, Bool-cases, inl, inr, Option, none, some, List, [],
  ◌∷◌, arith,
}
use uv_mbt.Dns.{
  AddrInfo, is_zero, addrinfo_results_iterate, getaddrinfo, getaddrinfo_cb, copy_string,
  getnameinfo, getnameinfo_cb,
}
use uv_mbt.Memory.{Ptr, null, dat, State, M, pure, make}
use uv_mbt.Memory.Cells.{read-has}
use uv_mbt.Memory.Idioms.{Sets, Answers, Consumes, replace-Wrote, take-then}
use uv_mbt.Memory.Ledger.{Ends, Moves}
use uv_mbt.Memory.Rules.{
  Reads, seq, seq-is, settle, same-null, pure-Ends, make-then, decref-Same, incref-Same,
  release-Same,
}
use uv_mbt.Memory.Shapes.{store-Ends}

-- the first answer other than 0, or 0
unfoldable pub first_answer : (AddrInfo → ℤ) → List AddrInfo → ℤ
first_answer answer [] = pos 0
first_answer answer (ai ∷ results) =
    if is_zero (answer ai) then first_answer answer results else answer ai

-- going on, or breaking off
go_on :
    (x : ℤ) {rest : ℤ} (m : M ℤ) (s : State)
    → Ends (λ y t. y ≡ rest) [] [] s (m s)
    → Ends
        (λ y t. y ≡ (if is_zero x then rest else x))
        []
        []
        s
        ((if is_zero x then m else pure x) s)
go_on x m s e = elim (Bool-cases (is_zero x)) [
  | inl z ↦ rw z e
  | inr nz ↦ rw nz (pure-Ends x s refl)
]

-- Where the MoonBit code takes over the closure and the copy of the address and answers `answer`,
-- the iteration ends with the first answer other than 0, or with 0 after the last result, and loses
-- and invents no reference.
pub addrinfo_results_iterate-Ends :
    (code : Ptr → AddrInfo → Ptr → M ℤ) (answer : AddrInfo → ℤ) (results : List AddrInfo) (cb : Ptr)
    (s : State)
    → ((ai : AddrInfo) (t : State)
        → Ends (λ x u. (x ≡ answer ai) × Unit {0}) (cb ∷ ai.copy ∷ []) [] t (code cb ai ai.copy t))
    → cb ≢ null
    → Ends
        (λ x t. x ≡ first_answer answer results)
        []
        []
        s
        (addrinfo_results_iterate code results cb s)
unfolding addrinfo_results_iterate first_answer
addrinfo_results_iterate-Ends code answer [] cb s runs hc = pure-Ends (pos 0) s refl
addrinfo_results_iterate-Ends code answer (ai ∷ results) cb s runs hc =
    settle
      (make-then ai.copy [] _ λ t _ _. seq (incref-Same cb t hc) λ _ u _ _.
        seq-is _ (runs ai u) λ v _ _.
          go_on (answer ai) (addrinfo_results_iterate code results cb) v
            (addrinfo_results_iterate-Ends code answer results cb v runs hc))
      (λ p i. omega arith)

-- Where libuv answers `r` and touches neither fields nor counts: asking for addresses, with hints or
-- without, and asking for a name store the callback, release the one before, the loop and the
-- parameters, and return libuv's answer; the reference to the request stays with libuv.
resolve-Ends :
    (uv_getaddrinfo : Ptr → Ptr → Ptr → Ptr → Ptr → M ℤ)
    (uv_getnameinfo : Ptr → Ptr → Ptr → ℤ → M ℤ) (l req cb node service hints addr old : Ptr)
    (flags r : ℤ) (s : State)
    → Answers r (uv_getaddrinfo l req node service hints)
    → Answers r (uv_getnameinfo l req addr flags)
    → l ≢ null
    → node ≢ null
    → service ≢ null
    → addr ≢ null
    → Reads req dat old s
    → Ends
        (Sets r req dat cb s)
        (cb ∷ l ∷ node ∷ service ∷ hints ∷ req ∷ [])
        (req ∷ [])
        s
        (getaddrinfo uv_getaddrinfo l req cb node service hints s)
      × Ends
          (Sets r req dat cb s)
          (cb ∷ l ∷ addr ∷ req ∷ [])
          (req ∷ [])
          s
          (getnameinfo uv_getnameinfo l req cb addr flags s)
unfolding getaddrinfo getnameinfo
resolve-Ends uv_getaddrinfo uv_getnameinfo l req cb node service hints addr old flags r s finds
      names hl hn hs ha e =
    let hd = read-has req dat old s.cells e in
    (
      settle
          (seq (replace-Wrote req dat cb s hd) λ _ t w _. seq (finds t) λ x u (ex, k) _.
            seq (decref-Same l u hl) λ _ v k2 _. seq (decref-Same node v hn) λ _ y k3 _.
              seq (decref-Same service y hs) λ _ z k4 _.
                seq (release-Same hints z)
                  λ _ z2 k5 _. pure-Ends x z2 (ex, k5 ∙ (k4 ∙ (k3 ∙ (k2 ∙ (k ∙ w))))))
          (λ p i. omega arith),
      settle
          (store-Ends req dat cb (uv_getnameinfo l req addr flags) r (l ∷ addr ∷ []) s hd names
            (hl, (ha, tt)))
          (λ p i. omega arith),
    )

-- the address of a copy that may be missing
abbrev pub copied : Option Ptr → Ptr
copied none = null
copied (some p) = p

copy_string-Moves :
    (o : Option Ptr) (s : State)
    → Ends (λ x t. (x ≡ copied o) × Unit {0}) [] (copied o ∷ []) s (copy_string o s)
unfolding copy_string make
copy_string-Moves none s =
    settle (pure-Ends null s (refl, tt)) (λ p i. omega (arith, same-null p i))
copy_string-Moves (some p) s =
    settle (make-then p [] (λ x. λ t. some (x, t)) λ t _ _. pure-Ends p t (refl, tt))
      (λ q i. omega arith)

-- The callbacks of both kinds of request move the closure, the new objects with the results, where
-- there are some, and libuv's reference to the request into the MoonBit code, and leave NULL.
resolve_cb-Moves :
    (code : Ptr → Ptr → ℤ → Ptr → M (Unit {0}))
    (name_code : Ptr → Ptr → ℤ → Ptr → Ptr → M (Unit {0})) (fresh req cb : Ptr) (status : ℤ)
    (hostname service : Option Ptr) (s : State)
    → Consumes (cb ∷ req ∷ fresh ∷ []) [] (code cb req status fresh)
    → Consumes
        (cb ∷ req ∷ copied hostname ∷ copied service ∷ [])
        []
        (name_code cb req status (copied hostname) (copied service))
    → Reads req dat cb s
    → Moves (req ∷ []) [] s (getaddrinfo_cb code fresh req status s)
      × Moves (req ∷ []) [] s (getnameinfo_cb name_code req status hostname service s)
unfolding getaddrinfo_cb getnameinfo_cb
resolve_cb-Moves code name_code fresh req cb status hostname service s consumes name_consumes e = (
  settle (take-then req dat _ e λ t _ _. make-then fresh [] _ λ u _ _. consumes u)
      (λ p i. omega arith),
  settle
      (take-then req dat _ e λ t _ _.
        seq-is _ (copy_string-Moves hostname t)
          λ u _ _. seq-is _ (copy_string-Moves service u) λ v _ _. name_consumes v)
      (λ p i. omega arith),
)
