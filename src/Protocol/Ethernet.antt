-- ===== src/Protocol/Ethernet.antt =====
-- protocol/ethernet.go: Ethernet frames with no VLAN tag.
pub mod Laws
use halo.Base.{
  ℕ, Bool, ◌-◌, ◌++◌, List, [], ◌∷◌, ltb, ◌==◌, ◌||◌, if◌then◌else◌, length, at, drop, replicate,
  be16, bytes16,
}
use halo.Base.{ok, err, Result, Parsed}
use halo.Protocol.Utils.{MacAddr, mac_at, mac_bytes, zero_mac}

abbrev pub ieee_802_3 : ℕ
ieee_802_3 = 0x05dc

abbrev pub eth_proto_ipv4 : ℕ
eth_proto_ipv4 = 0x0800

abbrev pub eth_proto_arp : ℕ
eth_proto_arp = 0x0806

abbrev pub eth_proto_ipv6 : ℕ
eth_proto_ipv6 = 0x86dd

abbrev pub eth_proto_unknown : ℕ
eth_proto_unknown = 0xffff

pub data EthError : Type 0 where
  frame_length unknown_eth_proto eth_payload_too_long : EthError

pub record EthFrm : Type 0 where
  pub payload : List ℕ
  pub dst_mac : MacAddr
  pub src_mac : MacAddr
  pub eth_proto : ℕ

-- `EthFrm{EthProto: ETH_PROTO_UNKNOWN}`
abbrev pub unknown_eth_frm : EthFrm
unknown_eth_frm = record {
  payload = [];
  dst_mac = zero_mac;
  src_mac = zero_mac;
  eth_proto = eth_proto_unknown;
}

-- The cases of the switch on the type field.
abbrev pub known_eth_proto : ℕ → Bool
known_eth_proto t =
    t == ieee_802_3 || (t == eth_proto_ipv4 || (t == eth_proto_arp || t == eth_proto_ipv6))

unfoldable pub parse_eth_frm : List ℕ → Parsed EthError EthFrm
parse_eth_frm frm =
    if ltb (length frm) 42 || ltb 1514 (length frm)
    then err (unknown_eth_frm, frame_length)
    else if known_eth_proto (be16 (at frm 12) (at frm 13))
    then ok (record {
      payload = drop 14 frm;
      dst_mac = mac_at frm 0;
      src_mac = mac_at frm 6;
      eth_proto = be16 (at frm 12) (at frm 13);
    })
    else err (unknown_eth_frm, unknown_eth_proto)

-- The loop that appends `60 - len(frm)` zeros; none if that is negative.
unfoldable pub pad_frame : List ℕ → List ℕ
pad_frame frm = frm ++ replicate (60 - length frm) 0x00

unfoldable pub build_eth_frm : List ℕ → EthFrm → Result EthError (List ℕ)
unfolding pad_frame
build_eth_frm frm packet =
    if ltb 1500 (length packet.payload)
    then err eth_payload_too_long
    else ok (
        pad_frame (
          frm
          ++ mac_bytes packet.dst_mac
              (mac_bytes packet.src_mac (bytes16 packet.eth_proto packet.payload))))
