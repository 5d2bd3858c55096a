-- ===== src/Protocol/Ipv4.antt =====
-- protocol/ipv4.go: packets with the fixed 20-byte header. CheckSumEnable is the argument
-- `check`, and the process-wide counter iphId is an argument and a result.
pub mod Laws
use halo.Base.{
  ℕ, Bool, ◌-◌, ◌+◌, ◌^◌, ◌++◌, List, [], ◌∷◌, ltb, ◌==◌, ◌||◌, ◌&&◌, not, if◌then◌else◌, length,
  at, take, slice, set, be16, bytes16, u8, u16, u32, shr,
}
use halo.Base.{ok, err, Result, Parsed}
use halo.Protocol.Utils.{Ipv4Addr, ip_at, ip_bytes, zero_ip, get_check_sum}

abbrev pub iph_proto_icmp : ℕ
iph_proto_icmp = 0x01

abbrev pub iph_proto_tcp : ℕ
iph_proto_tcp = 0x06

abbrev pub iph_proto_udp : ℕ
iph_proto_udp = 0x11

abbrev pub iph_proto_unknown : ℕ
iph_proto_unknown = 0xff

pub data Ipv4Error : Type 0 where
  ip_length ip_not_supported ip_total_length ip_fragment unknown_ip_proto : Ipv4Error
  ip_check_sum ip_payload_too_long : Ipv4Error

pub record Ipv4AddrPair : Type 0 where
  pub src_addr : Ipv4Addr
  pub dst_addr : Ipv4Addr

pub record Ipv4Pkt : Type 0 where
  pub payload : List ℕ
  pub ip_head_proto : ℕ
  pub src_addr : Ipv4Addr
  pub dst_addr : Ipv4Addr

-- `Ipv4Pkt{IpHeadProto: IPH_PROTO_UNKNOWN}`
abbrev pub unknown_ipv4_pkt : Ipv4Pkt
unknown_ipv4_pkt = record {
  payload = [];
  ip_head_proto = iph_proto_unknown;
  src_addr = zero_ip;
  dst_addr = zero_ip;
}

-- The cases of the switch on the protocol.
abbrev pub known_ip_proto : ℕ → Bool
known_ip_proto t = t == iph_proto_icmp || (t == iph_proto_tcp || t == iph_proto_udp)

-- The flags and offset bytes of a packet that is no fragment.
abbrev pub unfragmented : ℕ → ℕ → Bool
unfragmented flags offset = (flags == 0x40 || flags == 0x00) && offset == 0x00

unfoldable pub parse_ipv4_pkt : Bool → List ℕ → Parsed Ipv4Error Ipv4Pkt
parse_ipv4_pkt check pkt =
    let total_len = be16 (at pkt 2) (at pkt 3) in
    if ltb (length pkt) 20 || ltb 1500 (length pkt)
    then err (unknown_ipv4_pkt, ip_length)
    else if not (at pkt 0 == 0x45)
    then err (unknown_ipv4_pkt, ip_not_supported)
    else if ltb total_len 20 || ltb (length pkt) total_len
    then err (unknown_ipv4_pkt, ip_total_length)
    else if not (unfragmented (at pkt 6) (at pkt 7))
    then err (unknown_ipv4_pkt, ip_fragment)
    else if not (known_ip_proto (at pkt 9))
    then err (unknown_ipv4_pkt, unknown_ip_proto)
    else if check && not (get_check_sum (take 20 pkt) == 0)
    then err (unknown_ipv4_pkt, ip_check_sum)
    else ok (record {
      payload = slice 20 total_len pkt;
      ip_head_proto = at pkt 9;
      src_addr = ip_at pkt 12;
      dst_addr = ip_at pkt 16;
    })

-- The header with a zero checksum, behind what the buffer holds.
unfoldable pub ipv4_header : List ℕ → ℕ → ℕ → Ipv4Pkt → List ℕ
ipv4_header pkt len id packet =
    pkt
    ++ (0x45
        ∷ 0x00
        ∷ bytes16 len (
            bytes16 id (
              0x00
              ∷ 0x00
              ∷ 0x80
              ∷ packet.ip_head_proto
              ∷ 0x00
              ∷ 0x00
              ∷ ip_bytes packet.src_addr (ip_bytes packet.dst_addr []))))

-- `id := uint16(iphId.Add(1))`: the new counter is returned with the result.
unfoldable pub build_ipv4_pkt : Bool → ℕ → List ℕ → Ipv4Pkt → Result Ipv4Error (List ℕ) × ℕ
unfolding ipv4_header
build_ipv4_pkt check iph_id pkt packet =
    if ltb 1480 (length packet.payload)
    then (err ip_payload_too_long, iph_id)
    else let next_id = u32 (iph_id + 1) in
      let header = ipv4_header pkt (u16 (length packet.payload + 20)) (u16 next_id) packet in
      let sum = get_check_sum header in
      let filled =
        if check
        then set (set header 10 (u8 (shr sum 8))) 11 (u8 sum)
        else set (set header 10 0x00) 11 0x00 in
      (ok (filled ++ packet.payload), next_id)
