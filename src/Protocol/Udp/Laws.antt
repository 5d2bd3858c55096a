-- ===== src/Protocol/Udp/Laws.antt =====
-- protocol/udp.go: ParseUdpPkt and BuildUdpPkt on one another's results.
use halo.Base.{
  ℕ, Bool, ◌+◌, ◌↔◌, List, [], ◌∷◌, ◌≡◌, ◌≤◌, refl, arith, length, take, take_all, at, slice, be16,
  be16_bytes, bytes16, true, false, All, IsByte, IsU16, u8, u16, shr, if◌then◌else◌,
}
use halo.Base.{ok}
use halo.Protocol.Utils.{get_check_sum}
use halo.Protocol.Utils.Sums.{seal, set_word, word_sum-le}
use halo.Protocol.Ipv4.{Ipv4AddrPair}
use halo.Protocol.Ipv4.Laws.{IsIpv4Addr}
use halo.Protocol.Udp.{UdpPkt, parse_udp_pkt, build_udp_pkt, udp_sum_data}
use halo.Base.{◌⊎◌}

-- The ports and the payload are in the ranges of their types, and the payload is short enough.
pub record IsUdpPkt (p : UdpPkt) : Type 0 where
  pub src : IsU16 p.src_port
  pub dst : IsU16 p.dst_port
  pub short : length p.payload ≤ 1472
  pub bytes : All IsByte p.payload

-- The 8 bytes of the header around the checksum bytes, and the payload.
abbrev pub udp_header_bytes : ℕ → ℕ → UdpPkt → List ℕ
udp_header_bytes c0 c1 p =
    bytes16 p.src_port
      (bytes16 p.dst_port (bytes16 (u16 (length p.payload + 8)) (c0 ∷ c1 ∷ p.payload)))

abbrev pub udp_sum : Bool → UdpPkt → Ipv4AddrPair → ℕ
udp_sum check p addr =
    if check
    then get_check_sum (udp_sum_data addr (u16 (length p.payload + 8)) (udp_header_bytes 0 0 p))
    else 0

-- A datagram in transit between two addresses.
abbrev pub udp_bytes : Bool → UdpPkt → Ipv4AddrPair → List ℕ
udp_bytes check p addr =
    let sum : ℕ = udp_sum check p addr in udp_header_bytes (u8 (shr sum 8)) (u8 sum) p

datagram_verifies :
    (p : UdpPkt) (addr : Ipv4AddrPair)
    → IsUdpPkt p
    → IsIpv4Addr addr.src_addr
    → IsIpv4Addr addr.dst_addr
    → let raw = udp_sum_data addr (u16 (length p.payload + 8)) (udp_header_bytes 0 0 p) in
      get_check_sum (set_word raw 18 (get_check_sum raw)) ≡ 0
datagram_verifies p addr v s d =
    seal (udp_sum_data addr (u16 (length p.payload + 8)) (udp_header_bytes 0 0 p)) 9
      (omega (arith, word_sum-le p.payload v.bytes)) (omega arith) refl refl

pub build_udp_bytes :
    (check : Bool) (p : UdpPkt) (addr : Ipv4AddrPair)
    → length p.payload ≤ 1472
    → build_udp_pkt check [] p addr ≡ ok (udp_bytes check p addr)
unfolding build_udp_pkt
build_udp_bytes true p addr h = ground arith
build_udp_bytes false p addr h = ground arith

pub parse_udp_bytes :
    (check : Bool) (p : UdpPkt) (addr : Ipv4AddrPair)
    → IsUdpPkt p
    → IsIpv4Addr addr.src_addr
    → IsIpv4Addr addr.dst_addr
    → parse_udp_pkt check (udp_bytes check p addr) addr ≡ ok p
unfolding parse_udp_pkt
parse_udp_bytes true p addr v s d = ground (
  arith,
  datagram_verifies p addr v s d,
  take_all (length p.payload) p.payload refl,
  be16_bytes (length p.payload + 8),
  be16_bytes p.src_port,
  be16_bytes p.dst_port,
)
parse_udp_bytes false p addr v s d = ground (
  arith,
  take_all (length p.payload) p.payload refl,
  be16_bytes (length p.payload + 8),
  be16_bytes p.src_port,
  be16_bytes p.dst_port,
)

-- A datagram whose fields are in the ranges of their types, with at most 1472 payload bytes, is
-- built in 8 bytes more than its payload, and the parser verifies it between the same addresses
-- and reads it back, whether checksums are enabled or not.
pub parse-build_udp :
    (check : Bool) (p : UdpPkt) (addr : Ipv4AddrPair)
    → IsUdpPkt p
    → IsIpv4Addr addr.src_addr
    → IsIpv4Addr addr.dst_addr
    → (bytes : List ℕ) × (build_udp_pkt check [] p addr ≡ ok bytes)
      × (length bytes ≡ length p.payload + 8)
      × (parse_udp_pkt check bytes addr ≡ ok p)
parse-build_udp check p addr v s d = (
  udp_bytes check p addr,
  build_udp_bytes check p addr v.short,
  omega arith,
  parse_udp_bytes check p addr v s d,
)

-- The parser returns `p` exactly on slices of 8 to 1480 bytes whose total length is from 8 to that
-- of the slice and whose checksum verifies where checksums are enabled, and then each field is the
-- bytes at its offset and the payload ends at the total length.
pub parse_udp_iff :
    (check : Bool) (pkt : List ℕ) (addr : Ipv4AddrPair) (p : UdpPkt)
    → (parse_udp_pkt check pkt addr ≡ ok p) ↔ (
        (8 ≤ length pkt)
        × (length pkt ≤ 1480)
        × (8 ≤ be16 (at pkt 4) (at pkt 5))
        × (be16 (at pkt 4) (at pkt 5) ≤ length pkt)
        × ((check ≡ false)
            ⊎ (get_check_sum (
                  udp_sum_data addr
                    (be16 (at pkt 4) (at pkt 5))
                    (take (be16 (at pkt 4) (at pkt 5)) pkt))
                ≡ 0))
        × (be16 (at pkt 0) (at pkt 1) ≡ p.src_port)
        × (be16 (at pkt 2) (at pkt 3) ≡ p.dst_port)
        × (slice 8 (be16 (at pkt 4) (at pkt 5)) pkt ≡ p.payload))
unfolding parse_udp_pkt
parse_udp_iff true pkt addr p = ground arith
parse_udp_iff false pkt addr p = ground arith
