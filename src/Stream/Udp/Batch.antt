-- ===== src/Stream/Udp/Batch.antt =====
-- src/udp.c: sending several datagrams in one call. The C arrays that it allocates are local to the call.
use uv_mbt.Base.{ℕ, ℤ, ◌≡◌, ◌≢◌, refl, Option, none, some, List, [], ◌∷◌}
use uv_mbt.Memory.{Ptr, null, State, M, ◌>>=◌, ◌>>◌, pure, decref}
use uv_mbt.Memory.Idioms.{Answers, Leaves}
use uv_mbt.Memory.Ledger.{Ends}
use uv_mbt.Memory.Shapes.{call-Ends}
use uv_mbt.Stream.Arrays.{buffers, Covers, zip_bufs, buffers-zip_bufs}
use uv_mbt.Stream.Reading.{Buf}

-- arrays of arrays: `moonbit_bytes_t **` and `int32_t **`
pub record RefArrays : Type 0 where
  pub address : Ptr
  pub items : List (List Ptr)

pub record IntArrays : Type 0 where
  pub address : Ptr
  pub items : List (List ℕ)

-- the two loops: for each datagram, its buffers; a read past the end of an array is a fault
unfoldable pub datagrams :
    List (List Ptr) → List (List ℕ) → List (List ℕ) → Option (List (List Buf))
datagrams [] offsets lengths = some []
datagrams (bs ∷ bss) [] lengths = none
datagrams (bs ∷ bss) (os ∷ oss) [] = none
datagrams (bs ∷ bss) (os ∷ oss) (ns ∷ nss) = elim (buffers bs os ns) [
  | none ↦ none
  | some first ↦ elim (datagrams bss oss nss) [ none ↦ none | some rest ↦ some (first ∷ rest) ]
]

unfoldable pub udp_try_send2 :
    (uv_udp_try_send2 : Ptr → List (List Buf) → Ptr → ℤ → M ℤ)
    → (udp : Ptr) → (arrays : RefArrays) → (offsets lengths : IntArrays) → (addrs : Ptr)
    → (flags : ℤ) → M ℤ
udp_try_send2 uv_udp_try_send2 udp arrays offsets lengths addrs flags = λ s.
    elim (datagrams arrays.items offsets.items lengths.items) [
      | none ↦ none
      | some bufs_data ↦
          (uv_udp_try_send2 udp bufs_data addrs flags >>= λ result.
          decref arrays.address
          >> (decref offsets.address
              >> (decref lengths.address >> (decref addrs >> (decref udp >> pure result)))))
            s
    ]

-- each of three arrays of arrays is long enough for the first one's
abbrev pub CoversAll : List (List Ptr) → List (List ℕ) → List (List ℕ) → Type 0
CoversAll [] oss nss = Unit {0}
CoversAll (bs ∷ bss) (os ∷ oss) (ns ∷ nss) = Covers bs os ns × CoversAll bss oss nss
CoversAll (bs ∷ bss) [] nss = ⊥
CoversAll (bs ∷ bss) (os ∷ oss) [] = ⊥

unfoldable pub zip_datagrams : List (List Ptr) → List (List ℕ) → List (List ℕ) → List (List Buf)
zip_datagrams [] oss nss = []
zip_datagrams (bs ∷ bss) [] nss = []
zip_datagrams (bs ∷ bss) (os ∷ oss) [] = []
zip_datagrams (bs ∷ bss) (os ∷ oss) (ns ∷ nss) = zip_bufs bs os ns ∷ zip_datagrams bss oss nss

datagrams-zip :
    (bss : List (List Ptr)) (oss nss : List (List ℕ))
    → CoversAll bss oss nss
    → datagrams bss oss nss ≡ some (zip_datagrams bss oss nss)
unfolding datagrams zip_datagrams
datagrams-zip [] oss nss h = refl
datagrams-zip (bs ∷ bss) [] nss h = absurd h
datagrams-zip (bs ∷ bss) (os ∷ oss) [] h = absurd h
datagrams-zip (bs ∷ bss) (os ∷ oss) (ns ∷ nss) h =
    rw (buffers-zip_bufs bs os ns h.0, datagrams-zip bss oss nss h.1, datagrams) refl

-- Sending several datagrams, where the arrays are long enough, and libuv answers `r` for the buffers that are made of the
-- items of the three arrays, datagram by datagram, and touches neither fields nor counts: no read is past the end
-- of an array, the four arrays and the socket are released once each, no field is written, and libuv's answer is
-- returned.
pub udp_try_send2-Ends :
    (uv_udp_try_send2 : Ptr → List (List Buf) → Ptr → ℤ → M ℤ) (udp : Ptr) (arrays : RefArrays)
    (offsets lengths : IntArrays) (addrs : Ptr) (flags r : ℤ) (s : State)
    → CoversAll arrays.items offsets.items lengths.items
    → Answers r
        (uv_udp_try_send2 udp (zip_datagrams arrays.items offsets.items lengths.items) addrs flags)
    → arrays.address ≢ null
    → offsets.address ≢ null
    → lengths.address ≢ null
    → addrs ≢ null
    → udp ≢ null
    → Ends
        (Leaves r s)
        (arrays.address ∷ offsets.address ∷ lengths.address ∷ addrs ∷ udp ∷ [])
        []
        s
        (udp_try_send2 uv_udp_try_send2 udp arrays offsets lengths addrs flags s)
unfolding udp_try_send2
udp_try_send2-Ends uv_udp_try_send2 udp arrays offsets lengths addrs flags r s covers answers ha ho
      hl hd hu =
    rw (datagrams-zip arrays.items offsets.items lengths.items covers, udp_try_send2)
      (call-Ends
        (uv_udp_try_send2 udp (zip_datagrams arrays.items offsets.items lengths.items) addrs flags)
        r (arrays.address ∷ offsets.address ∷ lengths.address ∷ addrs ∷ udp ∷ []) s answers
        (ha, (ho, (hl, (hd, (hu, tt))))))
