-- ===== src/Protocol/Arp.antt =====
-- protocol/arp.go: ARP packets over Ethernet and IPv4.
pub mod Laws
use halo.Base.{ℕ, ◌++◌, List, [], ◌∷◌, ltb, ◌==◌, if◌then◌else◌, length, at, be16, bytes16}
use halo.Base.{ok, err, Result, Parsed}
use halo.Protocol.Utils.{MacAddr, Ipv4Addr, mac_at, ip_at, mac_bytes, ip_bytes, zero_mac, zero_ip}

abbrev pub arp_request : ℕ
arp_request = 0x0001

abbrev pub arp_reply : ℕ
arp_reply = 0x0002

abbrev pub arp_unknown : ℕ
arp_unknown = 0xffff

pub data ArpError : Type 0 where
  arp_too_short unknown_arp_option : ArpError

pub record ArpPkt : Type 0 where
  pub option : ℕ
  pub src_mac : MacAddr
  pub src_addr : Ipv4Addr
  pub dst_mac : MacAddr
  pub dst_addr : Ipv4Addr

-- `ArpPkt{Option: ARP_UNKNOWN}`
abbrev pub unknown_arp_pkt : ArpPkt
unknown_arp_pkt = record {
  option = arp_unknown;
  src_mac = zero_mac;
  src_addr = zero_ip;
  dst_mac = zero_mac;
  dst_addr = zero_ip;
}

-- What follows the switch on the operation.
read_addresses : List ℕ → ℕ → Parsed ArpError ArpPkt
read_addresses pkt option = ok (record {
  option = option;
  src_mac = mac_at pkt 8;
  src_addr = ip_at pkt 14;
  dst_mac = mac_at pkt 18;
  dst_addr = ip_at pkt 24;
})

unfoldable pub parse_arp_pkt : List ℕ → Parsed ArpError ArpPkt
unfolding read_addresses
parse_arp_pkt pkt =
    if ltb (length pkt) 28
    then err (unknown_arp_pkt, arp_too_short)
    else if be16 (at pkt 6) (at pkt 7) == arp_request
    then read_addresses pkt arp_request
    else if be16 (at pkt 6) (at pkt 7) == arp_reply
    then read_addresses pkt arp_reply
    else err (unknown_arp_pkt, unknown_arp_option)

unfoldable pub build_arp_pkt {ℓ} : {E : Type ℓ} → List ℕ → ArpPkt → Result E (List ℕ)
build_arp_pkt pkt packet = ok (
    pkt
    ++ (0x00
        ∷ 0x01
        ∷ 0x08
        ∷ 0x00
        ∷ 0x06
        ∷ 0x04
        ∷ bytes16 packet.option (
            mac_bytes packet.src_mac
              (ip_bytes packet.src_addr (mac_bytes packet.dst_mac (ip_bytes packet.dst_addr []))))))
