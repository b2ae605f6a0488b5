-- ===== src/Net/Interface.antt =====
-- src/if.c: the names, numbers and physical addresses of network interfaces.
use Prim.Native.Nat.{bit_or}
use uv_mbt.Base.{
  ℕ, ℤ, pos, ◌+◌, ◌*◌, ◌/◌, ◌%◌, ◌^◌, ◌<◌, ◌≡◌, refl, List, arith, if◌then◌else◌, length, is_error,
}
use uv_mbt.Base.Bits.{bit_or_low}
use uv_mbt.Memory.{Ptr, M, ◌>>=◌, ◌>>◌, pure, decref}

-- libuv is passed the size of the buffer, and answers a number, the size and the new contents
unfoldable pub if_indextoname :
    (uv_if_indextoname : ℕ → List ℕ → (size : ℕ) → ℤ × ℕ × List ℕ)
    → (ifindex : ℕ) → (ifname : List ℕ) → (ifsize : ℕ) → ℤ × ℕ × List ℕ
if_indextoname uv_if_indextoname ifindex ifname ifsize =
    let (status, size, name) = uv_if_indextoname ifindex ifname ifsize in (status, size, name)

-- the size is returned in place of the status, but where that is an error
unfoldable pub if_indextoiid :
    (uv_if_indextoiid : ℕ → List ℕ → (size : ℕ) → ℤ × ℕ × List ℕ)
    → (ifindex : ℕ) → (ifname : List ℕ) → ℤ × List ℕ
if_indextoiid uv_if_indextoiid ifindex ifname =
    let (status, size, name) = uv_if_indextoiid ifindex ifname (length ifname) in
    if is_error status then (status, name) else (pos size, name)

unfoldable pub interface_addresses :
    (uv_interface_addresses : Ptr → Ptr → M ℤ) → (addresses count : Ptr) → M ℤ
interface_addresses uv_interface_addresses addresses count = do
  status ← uv_interface_addresses addresses count
  decref addresses
  decref count
  pure status

-- `(uint64_t)(unsigned char)b << k`
unfoldable pub shifted : (b k : ℕ) → ℕ
shifted b k = b % 256 * 2 ^ k % 2 ^ 64

-- the six bytes of `address->phys_addr`
unfoldable pub interface_address_phys_addr : (b0 b1 b2 b3 b4 b5 : ℕ) → ℕ
unfolding shifted
interface_address_phys_addr b0 b1 b2 b3 b4 b5 =
    bit_or
      (bit_or
        (bit_or (bit_or (bit_or (bit_or 0 (shifted b0 40)) (shifted b1 32)) (shifted b2 24))
          (shifted b3 16))
        (shifted b4 8))
      (shifted b5 0)

shifted-lt : (b k : ℕ) → b < 256 → b * 2 ^ k < 2 ^ 64 → shifted b k ≡ b * 2 ^ k
unfolding shifted
shifted-lt b k h g = ground arith

-- one more byte, below the others
or_next :
    (n k x y q b : ℕ)
    → y ≡ x
    → x ≡ q * 2 ^ n
    → b < 256
    → b * 2 ^ k < 2 ^ 64
    → b * 2 ^ k < 2 ^ n
    → bit_or y (shifted b k) ≡ x + b * 2 ^ k
or_next n k x y q b e f h g l = rw (shifted-lt b k h g, e, f) (bit_or_low n q (b * 2 ^ k) l)

phys_addr-sum :
    (b0 b1 b2 b3 b4 b5 : ℕ)
    → b0 < 256
    → b1 < 256
    → b2 < 256
    → b3 < 256
    → b4 < 256
    → b5 < 256
    → interface_address_phys_addr b0 b1 b2 b3 b4 b5
      ≡ 0 + b0 * 2 ^ 40 + b1 * 2 ^ 32 + b2 * 2 ^ 24 + b3 * 2 ^ 16 + b4 * 2 ^ 8 + b5 * 2 ^ 0
unfolding interface_address_phys_addr
phys_addr-sum b0 b1 b2 b3 b4 b5 h0 h1 h2 h3 h4 h5 =
    let e0 = or_next 48 40 0 0 0 b0 refl (omega arith) h0 (omega arith) (omega arith) in
    let e1 =
      or_next 40 32 (0 + b0 * 2 ^ 40) _ b0 b1 e0 (omega arith) h1 (omega arith) (omega arith) in
    let e2 =
      or_next 32 24 (0 + b0 * 2 ^ 40 + b1 * 2 ^ 32) _ (b0 * 256 + b1) b2 e1 (omega arith) h2
        (omega arith) (omega arith) in
    let e3 =
      or_next 24 16 (0 + b0 * 2 ^ 40 + b1 * 2 ^ 32 + b2 * 2 ^ 24) _ (b0 * 65536 + b1 * 256 + b2) b3
        e2 (omega arith) h3 (omega arith) (omega arith) in
    let e4 =
      or_next 16 8 (0 + b0 * 2 ^ 40 + b1 * 2 ^ 32 + b2 * 2 ^ 24 + b3 * 2 ^ 16) _
        (b0 * 16777216 + b1 * 65536 + b2 * 256 + b3) b4 e3 (omega arith) h4 (omega arith)
        (omega arith) in
    or_next 8 0 (0 + b0 * 2 ^ 40 + b1 * 2 ^ 32 + b2 * 2 ^ 24 + b3 * 2 ^ 16 + b4 * 2 ^ 8) _
      (b0 * 4294967296 + b1 * 16777216 + b2 * 65536 + b3 * 256 + b4) b5 e4 (omega arith) h5
      (omega arith) (omega arith)

-- The number of a physical address has its six bytes as digits, the first byte highest: each is read back.
pub phys_addr-bytes :
    (b0 b1 b2 b3 b4 b5 : ℕ)
    → b0 < 256
    → b1 < 256
    → b2 < 256
    → b3 < 256
    → b4 < 256
    → b5 < 256
    → (interface_address_phys_addr b0 b1 b2 b3 b4 b5 / 2 ^ 40 ≡ b0)
      × (interface_address_phys_addr b0 b1 b2 b3 b4 b5 / 2 ^ 32 % 256 ≡ b1)
      × (interface_address_phys_addr b0 b1 b2 b3 b4 b5 / 2 ^ 24 % 256 ≡ b2)
      × (interface_address_phys_addr b0 b1 b2 b3 b4 b5 / 2 ^ 16 % 256 ≡ b3)
      × (interface_address_phys_addr b0 b1 b2 b3 b4 b5 / 2 ^ 8 % 256 ≡ b4)
      × (interface_address_phys_addr b0 b1 b2 b3 b4 b5 % 256 ≡ b5)
phys_addr-bytes b0 b1 b2 b3 b4 b5 h0 h1 h2 h3 h4 h5 =
    let e = phys_addr-sum b0 b1 b2 b3 b4 b5 h0 h1 h2 h3 h4 h5 in
    (omega arith, omega arith, omega arith, omega arith, omega arith, omega arith)
