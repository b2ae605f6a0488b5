-- ===== src/Text.antt =====
-- src/bytes.c and src/string.c: the length of an object is changed in place. The word `meta` of an object's header
-- has the length in its lower 28 bits and the kind of the object in the upper four.
pub mod Lengths
use Prim.Native.Nat.{bit_or, bit_and}
use uv_mbt.Base.{ℕ, ℤ, ◌+◌, ◌-◌, ◌*◌, ◌%◌, ◌^◌, List, [], ◌∷◌}
use uv_mbt.Memory.{Ptr, M, ◌>>=◌, ◌>>◌, pure, decref}

-- `((uint32_t)1 << 28) - 1`
abbrev pub length_mask : ℕ
length_mask = 2 ^ 28 - 1

-- `~(((uint32_t)1 << 28) - 1)`
abbrev pub kind_mask : ℕ
kind_mask = 15 * 2 ^ 28

-- `meta` after the length bits are cleared and `length` is put in
unfoldable pub set_length : (meta length : ℕ) → ℕ
set_length meta length = bit_or (bit_and meta kind_mask) (bit_and length length_mask)

unfoldable pub bytes_shrink : (meta length : ℕ) → ℕ
unfolding set_length
bytes_shrink meta length = set_length meta length

-- `utf16_length` is a `size_t`, from which 1 is taken
unfoldable pub wtf8_to_utf16 :
    (uv_wtf8_to_utf16 : M (Unit {0})) → (meta utf16_length : ℕ) → (wtf8 utf16 : Ptr) → M ℕ
unfolding set_length
wtf8_to_utf16 uv_wtf8_to_utf16 meta utf16_length wtf8 utf16 = do
  uv_wtf8_to_utf16
  decref utf16
  decref wtf8
  pure (set_length meta ((utf16_length + 2 ^ 64 - 1) % 2 ^ 64))

unfoldable pub utf16_length_as_wtf8 :
    (uv_utf16_length_as_wtf8 : (utf16_length : ℕ) → M ℕ) → (utf16_length : ℕ) → (utf16 : Ptr) → M ℕ
utf16_length_as_wtf8 uv_utf16_length_as_wtf8 utf16_length utf16 = do
  wtf8_length ← uv_utf16_length_as_wtf8 utf16_length
  decref utf16
  pure wtf8_length

unfoldable pub utf16_to_wtf8 :
    (uv_utf16_to_wtf8 : (utf16_length wtf8_length : ℕ) → M ℤ)
    → (utf16_length wtf8_length : ℕ) → (utf16 wtf8 : Ptr) → M ℤ
utf16_to_wtf8 uv_utf16_to_wtf8 utf16_length wtf8_length utf16 wtf8 = do
  status ← uv_utf16_to_wtf8 utf16_length wtf8_length
  decref utf16
  decref wtf8
  pure status

unfoldable pub wtf8_length_as_utf16 : (uv_wtf8_length_as_utf16 : M ℤ) → (wtf8 : Ptr) → M ℤ
wtf8_length_as_utf16 uv_wtf8_length_as_utf16 wtf8 = do
  utf16_length ← uv_wtf8_length_as_utf16
  decref wtf8
  pure utf16_length
