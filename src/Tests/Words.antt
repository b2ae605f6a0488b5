-- ===== src/Tests/Words.antt =====
-- The theorems on addresses and on the headers of objects at concrete inputs.
use uv_mbt.Base.{ℕ, ℤ, pos, ◌+◌, ◌%◌, ◌/◌, ◌^◌, ◌<◌, ◌≡◌, refl, true, List, [], ◌∷◌, arith}
use uv_mbt.Net.Addresses.{in6_addr_make-bytes, ip4_addr-port}
use uv_mbt.Net.Interface.{interface_address_phys_addr, phys_addr-bytes}
use uv_mbt.Net.Socket.{
  SockaddrIn, in6_addr_make, in6_addr_to_bytes, in_addr_to_bytes, ip4_addr, sockaddr_in_addr,
  sockaddr_in_port,
}
use uv_mbt.Net.Words.{htons}
use uv_mbt.Text.{bytes_shrink, wtf8_to_utf16}
use uv_mbt.Text.Lengths.{bytes_shrink-fields, wtf8_to_utf16-Ends}
use uv_mbt.Memory.Ledger.{Ends}
use uv_mbt.Tests.Fixtures.{desk, nothing, nothing-IsQuiet}

-- 2001:db8::1
in6_addr_make-bytes_example :
    in6_addr_to_bytes (in6_addr_make true 0x2001 0xdb8 0 0 0 0 0 1)
    ≡ 0x20 ∷ 1 ∷ 0xd ∷ 0xb8 ∷ 0 ∷ 0 ∷ 0 ∷ 0 ∷ 0 ∷ 0 ∷ 0 ∷ 0 ∷ 0 ∷ 0 ∷ 0 ∷ 1 ∷ []
in6_addr_make-bytes_example = in6_addr_make-bytes true 0x2001 0xdb8 0 0 0 0 0 1

abbrev local : SockaddrIn
local = record { sin_family = 2; sin_port = 0; s0 = 127; s1 = 0; s2 = 0; s3 = 1 }

-- port 8080 is 0x1f90, and 0x901f as a host with the lowest byte first reads it
abbrev parse : List ℕ → ℤ → SockaddrIn → ℤ × SockaddrIn
parse ip port addr = (pos 0, record addr { sin_port = 0x901f })

ip4_addr-port_example :
    (sockaddr_in_port true (ip4_addr parse [] (pos 8080) local).1 ≡ 8080)
    × (in_addr_to_bytes true (sockaddr_in_addr true local) ≡ 127 ∷ 0 ∷ 0 ∷ 1 ∷ [])
unfolding htons
ip4_addr-port_example =
    ip4_addr-port true parse [] 8080 local refl (omega arith, omega arith, omega arith, omega arith)

phys_addr-bytes_example :
    (interface_address_phys_addr 2 66 172 17 0 200 / 2 ^ 40 ≡ 2)
    × (interface_address_phys_addr 2 66 172 17 0 200 / 2 ^ 32 % 256 ≡ 66)
    × (interface_address_phys_addr 2 66 172 17 0 200 / 2 ^ 24 % 256 ≡ 172)
    × (interface_address_phys_addr 2 66 172 17 0 200 / 2 ^ 16 % 256 ≡ 17)
    × (interface_address_phys_addr 2 66 172 17 0 200 / 2 ^ 8 % 256 ≡ 0)
    × (interface_address_phys_addr 2 66 172 17 0 200 % 256 ≡ 200)
phys_addr-bytes_example =
    phys_addr-bytes 2 66 172 17 0 200 (omega arith) (omega arith) (omega arith) (omega arith)
      (omega arith) (omega arith)

-- an object of kind 5 with 100 bytes, of which 30 are kept
bytes_shrink-fields_example :
    (bytes_shrink 1342177380 30 % 2 ^ 28 ≡ 30)
    × (bytes_shrink 1342177380 30 / 2 ^ 28 ≡ 5)
    × (bytes_shrink 1342177380 30 < 2 ^ 32)
bytes_shrink-fields_example = bytes_shrink-fields 1342177380 30 (omega arith)

-- 7 are the bytes, 8 a string of kind 5 with room for 6 units, of which the last is the zero
wtf8_to_utf16-Ends_example :
    Ends
      (λ m t. (m % 2 ^ 28 + 1 ≡ 6) × (m / 2 ^ 28 ≡ 5) × (t.cells ≡ desk.cells))
      (8 ∷ 7 ∷ [])
      []
      desk
      (wtf8_to_utf16 nothing 1342177286 6 7 8 desk)
wtf8_to_utf16-Ends_example =
    wtf8_to_utf16-Ends nothing 1342177286 6 7 8 desk nothing-IsQuiet (omega arith) (omega arith)
      (omega arith) (omega arith) (omega arith)
