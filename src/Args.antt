-- ===== src/Args.antt =====
-- src/args.c: the copy of the command line that libuv is given, and the process title. The copy is
-- one block: a table of argc + 1 pointers, then the strings. A write past its end is a fault.
pub mod Layout
use uv_mbt.Base.{
  ℕ, zero, suc, ℤ, pos, negsuc, ◌+◌, ◌*◌, ◌==◌, ltb, not, Bool, true, false, if◌then◌else◌, Option,
  none, some, List, [], ◌∷◌, length,
}
use uv_mbt.Memory.{Ptr, M, State, ◌>>=◌, ◌>>◌, pure, decref}

-- `moonbit_bytes_t *`: an array object, and the bytes of its items; a zero byte follows each item
pub record Strings : Type 0 where
  pub address : Ptr
  pub items : List (List ℕ)

-- `strlen` of an item
unfoldable pub strlen : List ℕ → ℕ
strlen [] = 0
strlen (c ∷ cs) = let rest = strlen cs in if c == 0 then 0 else suc rest

-- `Moonbit_array_length(argv[i]) + 1`, added up
unfoldable pub strings_size : List (List ℕ) → ℕ
strings_size [] = 0
strings_size (a ∷ argv) = length a + 1 + strings_size argv

-- `(argc + 1) * sizeof(char *)`
unfoldable pub table_size : ℕ → ℕ
table_size argc = (argc + 1) * 8

-- one `memcpy`: where it writes, from which item, and how many bytes
pub record Copy : Type 0 where
  pub offset : ℕ
  pub source : List ℕ
  pub size : ℕ

-- the loop that copies the strings; `s` is the offset of the next one in a block of `total` bytes
unfoldable pub copy_strings : (total s : ℕ) → List (List ℕ) → Option (List Copy)
copy_strings total s [] = some []
copy_strings total s (a ∷ argv) =
    let n = strlen a + 1 in
    let rest = copy_strings total (s + n) argv in
    if ltb total (s + n) then none else elim rest [
      | none ↦ none
      | some copies ↦ some (record { offset = s; source = a; size = n } ∷ copies)
    ]

-- the block of the command line
unfoldable pub lay_out : List (List ℕ) → Option (List Copy)
lay_out argv =
    let argc = length argv in
    copy_strings (strings_size argv + table_size argc) (table_size argc) argv

-- `allocated`: does `malloc` answer a block? `enomem` is `-UV_ENOMEM - 1`.
unfoldable pub setup_args :
    (uv_setup_args : ℕ → List Copy → M (Unit {0}))
    → (allocated : Bool) → (enomem : ℕ) → Strings
    → M ℤ
setup_args uv_setup_args false enomem argv = do decref argv.address; pure (negsuc enomem)
setup_args uv_setup_args true enomem argv = do
  copies ← λ s. elim (lay_out argv.items) [ none ↦ none | some l ↦ some (l, s) ]
  uv_setup_args (length argv.items) copies
  decref argv.address
  pure (pos 0)

-- `size` is the length in the header of the buffer
unfoldable pub get_process_title :
    (uv_get_process_title : Ptr → ℕ → M ℤ) → (buffer : Ptr) → (size : ℕ) → M ℤ
get_process_title uv_get_process_title buffer size = do
  status ← uv_get_process_title buffer size
  decref buffer
  pure status

unfoldable pub set_process_title : (uv_set_process_title : Ptr → M ℤ) → (title : Ptr) → M ℤ
set_process_title uv_set_process_title title = do
  status ← uv_set_process_title title
  decref title
  pure status
