-- ===== src/Queries/Strings.antt =====
-- Strings of C that the bindings copy into new bytes: src/passwd.c, if.c and fs.c. A string is the list of its bytes,
-- with the zero byte that ends it.
use uv_mbt.Base.{
  ℕ, zero, suc, ◌==◌, if◌then◌else◌, Option, none, some, List, [], ◌∷◌, ◌≡◌, refl, ap, Bool-cases,
  inl, inr,
}
use uv_mbt.Memory.{Ptr, M, ◌>>◌, pure, decref}

-- `strlen`; the zero byte is taken to be there
unfoldable pub string_length : List ℕ → ℕ
string_length [] = 0
string_length (c ∷ cs) = let rest = string_length cs in if c == 0 then 0 else suc rest

-- `memcpy` of so many bytes into new bytes
unfoldable pub copy_bytes : ℕ → List ℕ → List ℕ
copy_bytes zero cs = []
copy_bytes (suc n) [] = []
copy_bytes (suc n) (c ∷ cs) = c ∷ copy_bytes n cs

-- the bytes of a new object
unfoldable pub copied : List ℕ → List ℕ
unfolding string_length copy_bytes
copied s = copy_bytes (string_length s) s

-- a string of the struct is NULL where it was not filled, and `strlen` faults then
unfoldable pub get_string : Option (List ℕ) → (o : Ptr) → M (List ℕ)
unfolding copied
get_string none o = λ s. none
get_string (some c) o = do decref o; pure (copied c)

-- `fs->fs.path`, copied byte by byte
unfoldable pub fs_get_path : (path : Option (List ℕ)) → (fs : Ptr) → M (List ℕ)
unfolding get_string
fs_get_path path fs = get_string path fs

unfoldable pub interface_address_name : (name : List ℕ) → List ℕ
unfolding copied
interface_address_name name = copied name

-- the bytes before the first zero
unfoldable pub before_zero : List ℕ → List ℕ
before_zero [] = []
before_zero (c ∷ cs) = if c == 0 then [] else c ∷ before_zero cs

pub copied-before_zero : (cs : List ℕ) → copied cs ≡ before_zero cs
unfolding copied string_length copy_bytes before_zero
copied-before_zero [] = refl
copied-before_zero (c ∷ cs) = elim (Bool-cases (c == 0)) [
  | inl e ↦ rw e refl
  | inr n ↦ rw n (ap (λ ds. c ∷ ds) (copied-before_zero cs))
]
