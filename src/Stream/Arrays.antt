-- ===== src/Stream/Arrays.antt =====
-- The arrays that MoonBit passes, and the loop that builds libuv's buffers from three of them
-- (src/write.c, src/udp.c, src/fs.c). A read past the end of an array is a fault.
use uv_mbt.Base.{
  ℕ, zero, suc, ◌+◌, ◌≤◌, ◌≡◌, refl, Option, none, some, List, [], ◌∷◌, arith, length,
}
use uv_mbt.Memory.{Ptr, State, M, and_then}
use uv_mbt.Memory.Ledger.{Ends}
use uv_mbt.Stream.Reading.{Buf}

-- `moonbit_bytes_t *`: an array object, and the addresses of the bytes in it
pub record RefArray : Type 0 where
  pub address : Ptr
  pub items : List Ptr

-- `int32_t *`, where no item is negative
pub record IntArray : Type 0 where
  pub address : Ptr
  pub items : List ℕ

-- `for (int i = 0; i < bufs_size; i++)` over the three arrays
unfoldable pub buffers : List Ptr → List ℕ → List ℕ → Option (List Buf)
buffers [] offsets lengths = some []
buffers (b ∷ bs) [] lengths = none
buffers (b ∷ bs) (o ∷ os) [] = none
buffers (b ∷ bs) (o ∷ os) (n ∷ ns) = elim (buffers bs os ns) [
  | none ↦ none
  | some rest ↦ some (record { base = b + o; len = n } ∷ rest)
]

-- the buffers of the three arrays, as a step of a function
unfoldable pub init_bufs : RefArray → IntArray → IntArray → M (List Buf)
init_bufs bufs offsets lengths s = elim (buffers bufs.items offsets.items lengths.items) [
  | none ↦ none
  | some bs ↦ some (bs, s)
]

-- each of three arrays has an item for each of the first one's
abbrev pub Covers : List Ptr → List ℕ → List ℕ → Type 0
Covers bs os ns = (length bs ≤ length os) × (length bs ≤ length ns)

abbrev pub get_elem? {ℓ} : {A : Type ℓ} → List A → ℕ → Option A
get_elem? [] i = none
get_elem? (x ∷ xs) zero = some x
get_elem? (x ∷ xs) (suc i) = get_elem? xs i

-- what the loop answers where the arrays are long enough
unfoldable pub zip_bufs : List Ptr → List ℕ → List ℕ → List Buf
zip_bufs (b ∷ bs) (o ∷ os) (n ∷ ns) = record { base = b + o; len = n } ∷ zip_bufs bs os ns
zip_bufs _ _ _ = []

pub buffers-zip_bufs :
    (bs : List Ptr) (os ns : List ℕ) → Covers bs os ns → buffers bs os ns ≡ some (zip_bufs bs os ns)
unfolding buffers zip_bufs
buffers-zip_bufs [] os ns h = refl
buffers-zip_bufs (b ∷ bs) [] ns h = absurd (omega arith)
buffers-zip_bufs (b ∷ bs) (o ∷ os) [] h = absurd (omega arith)
buffers-zip_bufs (b ∷ bs) (o ∷ os) (n ∷ ns) h =
    rw (buffers-zip_bufs bs os ns (omega arith, omega arith))

length-zip_bufs :
    (bs : List Ptr) (os ns : List ℕ) → Covers bs os ns → length (zip_bufs bs os ns) ≡ length bs
unfolding zip_bufs
length-zip_bufs [] os ns h = refl
length-zip_bufs (b ∷ bs) [] ns h = absurd (omega arith)
length-zip_bufs (b ∷ bs) (o ∷ os) [] h = absurd (omega arith)
length-zip_bufs (b ∷ bs) (o ∷ os) (n ∷ ns) h =
    omega (arith, length-zip_bufs bs os ns (omega arith, omega arith))

elem-zip_bufs :
    (bs : List Ptr) (os ns : List ℕ) (i : ℕ) {b : Ptr} {o n : ℕ}
    → get_elem? bs i ≡ some b
    → get_elem? os i ≡ some o
    → get_elem? ns i ≡ some n
    → get_elem? (zip_bufs bs os ns) i ≡ some (record { base = b + o; len = n })
unfolding zip_bufs
elem-zip_bufs [] os ns i eb eo en = cc
elem-zip_bufs (b ∷ bs) [] ns i eb eo en = cc
elem-zip_bufs (b ∷ bs) (o ∷ os) [] i eb eo en = cc
elem-zip_bufs (b ∷ bs) (o ∷ os) (n ∷ ns) zero eb eo en = ground arith
elem-zip_bufs (b ∷ bs) (o ∷ os) (n ∷ ns) (suc i) eb eo en = elem-zip_bufs bs os ns i eb eo en

-- Where the two other arrays are at least as long, the loop ends without a fault, with as many
-- buffers as there are bytes, and the buffer at each index is made of the three items there.
pub buffers-get_elem :
    (bs : List Ptr) (os ns : List ℕ) (i : ℕ) {b : Ptr} {o n : ℕ}
    → Covers bs os ns
    → get_elem? bs i ≡ some b
    → get_elem? os i ≡ some o
    → get_elem? ns i ≡ some n
    → (out : List Buf) × (buffers bs os ns ≡ some out)
      × (length out ≡ length bs)
      × (get_elem? out i ≡ some (record { base = b + o; len = n }))
buffers-get_elem bs os ns i h eb eo en = (
  zip_bufs bs os ns,
  buffers-zip_bufs bs os ns h,
  length-zip_bufs bs os ns h,
  elem-zip_bufs bs os ns i eb eo en,
)

-- a step of a function that builds the buffers, where the arrays are long enough
pub init_bufs-then :
    {A : Type 0} {P : A → State → Type 0} (bufs : RefArray) (offsets lengths : IntArray) {s : State}
    (k : List Buf → M A) {a b : List Ptr}
    → Covers bufs.items offsets.items lengths.items
    → Ends P a b s (k (zip_bufs bufs.items offsets.items lengths.items) s)
    → Ends P a b s (and_then (init_bufs bufs offsets lengths s) k)
unfolding init_bufs
init_bufs-then bufs offsets lengths k h e =
    rw (buffers-zip_bufs bufs.items offsets.items lengths.items h, and_then, init_bufs) e
