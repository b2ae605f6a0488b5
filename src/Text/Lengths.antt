-- ===== src/Text/Lengths.antt =====
-- The length and the kind in an object's header after its length is changed.
use Prim.Native.Nat.{bit_or, bit_and}
use uv_mbt.Base.{ℕ, ◌+◌, ◌-◌, ◌*◌, ◌/◌, ◌%◌, ◌^◌, ◌≤◌, ◌<◌, ◌≡◌, ◌≢◌, ◌∙◌, ap, refl, [], ◌∷◌, arith}
use uv_mbt.Base.Bits.{bit_or_low, bit_and_high, bit_and_ones}
use uv_mbt.Memory.{Ptr, null, State, M}
use uv_mbt.Memory.Idioms.{IsQuiet}
use uv_mbt.Memory.Ledger.{Ends}
use uv_mbt.Memory.Rules.{seq}
use uv_mbt.Memory.Shapes.{decrefs-Ends}
use uv_mbt.Text.{length_mask, kind_mask, set_length, bytes_shrink, wtf8_to_utf16}

-- every number of four bits
fifteen : (q : ℕ) → q < 16 → bit_and q 15 ≡ q
fifteen q h = ground (arith, bit_and_ones 4 0 q 15)

kind_kept : (meta : ℕ) → meta < 2 ^ 32 → bit_and meta kind_mask ≡ meta / 2 ^ 28 * 2 ^ 28
kind_kept meta h =
    let parts : meta ≡ meta / 2 ^ 28 * 2 ^ 28 + meta % 2 ^ 28 = omega arith in
    ap (λ x. bit_and x kind_mask) parts
    ∙ (bit_and_high 28 (meta / 2 ^ 28) (meta % 2 ^ 28) 15 (omega arith)
        ∙ ap (λ x. x * 2 ^ 28) (fifteen (meta / 2 ^ 28) (omega arith)))

length_kept : (n : ℕ) → bit_and n length_mask ≡ n % 2 ^ 28
length_kept n =
    let parts : n ≡ n / 2 ^ 28 * 2 ^ 28 + n % 2 ^ 28 = omega arith in
    ap (λ x. bit_and x length_mask) parts
    ∙ bit_and_ones 28 (n / 2 ^ 28) (n % 2 ^ 28) length_mask (omega arith) refl

set_length-sum :
    (meta n : ℕ) → meta < 2 ^ 32 → set_length meta n ≡ meta / 2 ^ 28 * 2 ^ 28 + n % 2 ^ 28
unfolding set_length
set_length-sum meta n h =
    ap (λ x. bit_or x (bit_and n length_mask)) (kind_kept meta h)
    ∙ (ap (λ x. bit_or (meta / 2 ^ 28 * 2 ^ 28) x) (length_kept n)
        ∙ bit_or_low 28 (meta / 2 ^ 28) (n % 2 ^ 28) (omega arith))

-- Shrinking bytes: the length in the header, cut to 28 bits, is the new one, the kind of the object is kept, and the
-- header is a word of 32 bits.
pub bytes_shrink-fields :
    (meta n : ℕ)
    → meta < 2 ^ 32
    → (bytes_shrink meta n % 2 ^ 28 ≡ n % 2 ^ 28)
      × (bytes_shrink meta n / 2 ^ 28 ≡ meta / 2 ^ 28)
      × (bytes_shrink meta n < 2 ^ 32)
unfolding bytes_shrink
bytes_shrink-fields meta n h =
    let e = set_length-sum meta n h in (omega arith, omega arith, omega arith)

-- Converting to UTF-16, where libuv touches neither fields nor counts: both parameters are released; the string is one
-- shorter than the buffer of `n` units, which must not be empty, since the last is the zero that ends it, and
-- keeps its kind.
pub wtf8_to_utf16-Ends :
    (uv_wtf8_to_utf16 : M (Unit {0})) (meta n : ℕ) (wtf8 utf16 : Ptr) (s : State)
    → IsQuiet uv_wtf8_to_utf16
    → wtf8 ≢ null
    → utf16 ≢ null
    → meta < 2 ^ 32
    → 0 < n
    → n ≤ 2 ^ 28
    → Ends
        (λ m t. (m % 2 ^ 28 + 1 ≡ n) × (m / 2 ^ 28 ≡ meta / 2 ^ 28) × (t.cells ≡ s.cells))
        (utf16 ∷ wtf8 ∷ [])
        []
        s
        (wtf8_to_utf16 uv_wtf8_to_utf16 meta n wtf8 utf16 s)
unfolding wtf8_to_utf16
wtf8_to_utf16-Ends uv_wtf8_to_utf16 meta n wtf8 utf16 s quiet h8 h16 hm h0 hn =
    let e = set_length-sum meta ((n + 2 ^ 64 - 1) % 2 ^ 64) hm in
    seq (quiet s) λ _ t k _.
      decrefs-Ends (utf16 ∷ wtf8 ∷ []) _ t (h16, (h8, tt))
        λ u k'. (omega arith, omega arith, k' ∙ k)
