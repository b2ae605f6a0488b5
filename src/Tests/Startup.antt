-- ===== src/Tests/Startup.antt =====
-- The theorems on the command line at concrete inputs.
use uv_mbt.Args.{Copy, strings_size, lay_out}
use uv_mbt.Args.Layout.{Chain, lay_out-Chain}
use uv_mbt.Base.{ℕ, ◌+◌, ◌*◌, ◌≡◌, some, List, [], ◌∷◌}

-- "ls", and "-" with a zero byte and more behind it
abbrev two_strings : List (List ℕ)
two_strings = (108 ∷ 115 ∷ []) ∷ (45 ∷ 0 ∷ 45 ∷ []) ∷ []

lay_out-Chain_example :
    (copies : List Copy) × (lay_out two_strings ≡ some copies)
    × Chain (strings_size two_strings + (2 + 1) * 8) ((2 + 1) * 8) two_strings copies
lay_out-Chain_example = lay_out-Chain two_strings
