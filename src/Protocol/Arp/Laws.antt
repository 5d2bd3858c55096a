-- ===== src/Protocol/Arp/Laws.antt =====
-- protocol/arp.go: ParseArpPkt and BuildArpPkt on one another's results.
use halo.Base.{ℕ, ◌++◌, List, [], ◌≡◌, ◌≤◌, ◌⊎◌, ◌↔◌, arith, length, at, be16, be16_bytes}
use halo.Base.{ok, ◌>>=◌}
use halo.Protocol.Utils.{mac_at, ip_at}
use halo.Protocol.Arp.{ArpPkt, parse_arp_pkt, build_arp_pkt, arp_request, arp_reply}

-- A request or reply of any addresses is read back unchanged from the bytes that were built,
-- also when link-layer padding follows them.
pub parse-build_arp :
    (p : ArpPkt) (padding : List ℕ)
    → (p.option ≡ arp_request) ⊎ (p.option ≡ arp_reply)
    → (build_arp_pkt [] p >>= λ bytes. parse_arp_pkt (bytes ++ padding)) ≡ ok p
unfolding parse_arp_pkt build_arp_pkt
parse-build_arp p padding h = ground (arith, be16_bytes p.option)

-- The parser returns `p` exactly on the slices of at least 28 bytes whose operation is a request
-- or a reply, and then each field of `p` is the bytes at its offset.
pub parse_arp_iff :
    (pkt : List ℕ) (p : ArpPkt)
    → (parse_arp_pkt pkt ≡ ok p) ↔ (
        (28 ≤ length pkt)
        × ((p.option ≡ arp_request) ⊎ (p.option ≡ arp_reply))
        × (be16 (at pkt 6) (at pkt 7) ≡ p.option)
        × (mac_at pkt 8 ≡ p.src_mac)
        × (ip_at pkt 14 ≡ p.src_addr)
        × (mac_at pkt 18 ≡ p.dst_mac)
        × (ip_at pkt 24 ≡ p.dst_addr))
unfolding parse_arp_pkt
parse_arp_iff pkt p = ground arith
