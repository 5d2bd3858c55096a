-- ===== src/Protocol/Ethernet/Laws.antt =====
-- protocol/ethernet.go: ParseEthFrm and BuildEthFrm on one another's results.
use halo.Base.{
  ℕ, ◌-◌, ◌+◌, ◌++◌, List, [], ◌≡◌, ◌≤◌, ◌↔◌, refl, arith, length, at, be16, be16_bytes, bytes16,
  drop, replicate, length-append, length-replicate, true, ltb-false,
}
use halo.Base.{ok}
use halo.Protocol.Utils.{mac_at, mac_bytes}
use halo.Protocol.Ethernet.{EthFrm, parse_eth_frm, build_eth_frm, known_eth_proto}

-- What a receiver sees of a frame: the payload is filled up to 46 bytes with zeros.
abbrev pub padded : EthFrm → EthFrm
padded p = record p { payload = p.payload ++ replicate (46 - length p.payload) 0x00 }

-- The bytes of a frame in transit, with its padding.
abbrev pub eth_bytes : EthFrm → List ℕ
eth_bytes p = mac_bytes p.dst_mac (mac_bytes p.src_mac (bytes16 p.eth_proto (padded p).payload))

length-padded :
    (p : EthFrm) → length (padded p).payload ≡ length p.payload + (46 - length p.payload)
length-padded p = rw (length-append, length-replicate) refl

pub build_eth_bytes : (p : EthFrm) → length p.payload ≤ 1500 → build_eth_frm [] p ≡ ok (eth_bytes p)
unfolding build_eth_frm
build_eth_bytes p h =
    let e : 60 - length (mac_bytes p.dst_mac (mac_bytes p.src_mac (bytes16 p.eth_proto p.payload)))
        ≡ 46 - length p.payload =
      omega arith in
    rw (ltb-false 1500 (length p.payload) h, e) refl

-- A frame with a known protocol and a payload of at most 1500 bytes is built, its length is from
-- 60 to 1514 bytes, and the parser reads back its fields with the payload zero-filled to 46 bytes.
pub parse-build_eth :
    (p : EthFrm)
    → known_eth_proto p.eth_proto ≡ true
    → length p.payload ≤ 1500
    → (frm : List ℕ) × (build_eth_frm [] p ≡ ok frm)
      × (60 ≤ length frm)
      × (length frm ≤ 1514)
      × (parse_eth_frm frm ≡ ok (padded p))
unfolding parse_eth_frm
parse-build_eth p k h = (
  eth_bytes p,
  build_eth_bytes p h,
  omega (arith, length-padded p),
  omega (arith, length-padded p),
  ground (arith, length-padded p, be16_bytes p.eth_proto),
)

-- The parser returns `p` exactly on slices of 42 to 1514 bytes with a known protocol, and then
-- each field of `p` is the bytes at its offset and the payload is all that follows the header.
pub parse_eth_iff :
    (frm : List ℕ) (p : EthFrm)
    → (parse_eth_frm frm ≡ ok p) ↔ (
        (42 ≤ length frm)
        × (length frm ≤ 1514)
        × (known_eth_proto p.eth_proto ≡ true)
        × (be16 (at frm 12) (at frm 13) ≡ p.eth_proto)
        × (mac_at frm 0 ≡ p.dst_mac)
        × (mac_at frm 6 ≡ p.src_mac)
        × (drop 14 frm ≡ p.payload))
unfolding parse_eth_frm
parse_eth_iff frm p = ground arith
