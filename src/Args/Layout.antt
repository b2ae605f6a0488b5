-- ===== src/Args/Layout.antt =====
-- src/args.c: the block of the command line is large enough, and its parts do not overlap.
use uv_mbt.Args.{Strings, Copy, strlen, strings_size, table_size, copy_strings, lay_out, setup_args}
use uv_mbt.Base.{
  ℕ, pos, negsuc, ◌+◌, ◌*◌, ◌≤◌, ◌≡◌, refl, ◌≢◌, ◌∙◌, true, false, ltb, ltb-false, some, List, [],
  ◌∷◌, length, arith,
}
use uv_mbt.Memory.{null, State, M}
use uv_mbt.Memory.Idioms.{IsQuiet, Leaves}
use uv_mbt.Memory.Ledger.{Ends}
use uv_mbt.Memory.Rules.{seq, pure-Ends, decref-Same}

strlen-length : (a : List ℕ) → strlen a ≤ length a
unfolding strlen
strlen-length [] = omega arith
strlen-length (c ∷ cs) = ground (arith, strlen-length cs)

-- The copies stand one after the other from `s` on, one for each item, with its bytes up to the
-- first zero byte and that byte, and the last one ends at `total` or before.
abbrev pub Chain : (total s : ℕ) → List (List ℕ) → List Copy → Type 0
Chain total s [] [] = s ≤ total
Chain total s (a ∷ argv) (c ∷ copies) =
    (c.offset ≡ s) × (c.source ≡ a) × (c.size ≡ strlen a + 1) × Chain total (s + c.size) argv copies
Chain total s _ _ = ⊥

copy_strings-Chain :
    (argv : List (List ℕ)) (total s : ℕ)
    → s + strings_size argv ≤ total
    → (copies : List Copy) × (copy_strings total s argv ≡ some copies) × Chain total s argv copies
unfolding copy_strings strings_size
copy_strings-Chain [] total s h = ([], refl, omega arith)
copy_strings-Chain (a ∷ argv) total s h =
    let fits : s + (strlen a + 1) + strings_size argv ≤ total = omega (arith, strlen-length a) in
    let (copies, e, chain) = copy_strings-Chain argv total (s + (strlen a + 1)) fits in
    let inside : ltb total (s + (strlen a + 1)) ≡ false =
      ltb-false total (s + (strlen a + 1)) (omega arith) in
    (
      record { offset = s; source = a; size = strlen a + 1 } ∷ copies,
      rw (inside, e) refl,
      (refl, refl, refl, chain),
    )

-- The block of the command line, a table of one pointer of 8 bytes for each string and one more, and
-- the strings, is laid out with no write past its end: the strings stand one after
-- the other behind the table, in their order, each with its terminating zero byte.
pub lay_out-Chain :
    (argv : List (List ℕ))
    → (copies : List Copy) × (lay_out argv ≡ some copies)
      × Chain (strings_size argv + (length argv + 1) * 8) ((length argv + 1) * 8) argv copies
unfolding lay_out table_size
lay_out-Chain argv =
    copy_strings-Chain argv (strings_size argv + (length argv + 1) * 8) ((length argv + 1) * 8)
      (omega arith)

-- Setting up the arguments releases the array and leaves the fields as they were, whether there is
-- memory for the block or not, and answers 0 or the error: where there is memory, no write is past
-- the end of the block, whatever the strings are.
setup_args-Ends :
    (uv_setup_args : ℕ → List Copy → M (Unit {0})) (enomem : ℕ) (argv : Strings) (s : State)
    → ((copies : List Copy) → IsQuiet (uv_setup_args (length argv.items) copies))
    → argv.address ≢ null
    → Ends (Leaves (pos 0) s) (argv.address ∷ []) [] s (setup_args uv_setup_args true enomem argv s)
      × Ends
          (Leaves (negsuc enomem) s)
          (argv.address ∷ [])
          []
          s
          (setup_args uv_setup_args false enomem argv s)
unfolding setup_args
setup_args-Ends uv_setup_args enomem argv s quiet ha =
    let (copies, e, chain) = lay_out-Chain argv.items in
    (
      rw e (
          seq (quiet copies s) λ _ t k _.
            seq (decref-Same argv.address t ha) λ _ u k2 _. pure-Ends (pos 0) u (refl, k2 ∙ k)),
      seq (decref-Same argv.address s ha) λ _ t k _. pure-Ends (negsuc enomem) t (refl, k),
    )
