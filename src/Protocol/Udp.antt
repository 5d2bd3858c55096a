-- ===== src/Protocol/Udp.antt =====
-- protocol/udp.go: UDP datagrams and their checksum over the IPv4 pseudo header.
pub mod Laws
use halo.Base.{
  ℕ, Bool, ◌-◌, ◌+◌, ◌^◌, ◌++◌, List, [], ◌∷◌, ltb, ◌==◌, ◌||◌, ◌&&◌, not, if◌then◌else◌, length,
  at, take, slice, set, be16, bytes16, u8, u16, shr,
}
use halo.Base.{ok, err, Result, Parsed}
use halo.Protocol.Utils.{ip_bytes, get_check_sum}
use halo.Protocol.Ipv4.{Ipv4AddrPair}

pub data UdpError : Type 0 where
  udp_length udp_total_length udp_check_sum udp_payload_too_long : UdpError

pub record UdpPkt : Type 0 where
  pub payload : List ℕ
  pub src_port : ℕ
  pub dst_port : ℕ

-- `UdpPkt{}`
abbrev pub zero_udp_pkt : UdpPkt
zero_udp_pkt = record { payload = []; src_port = 0; dst_port = 0 }

-- `sumData`: the pseudo header and the datagram.
abbrev pub udp_sum_data : Ipv4AddrPair → ℕ → List ℕ → List ℕ
udp_sum_data addr len bytes =
    ip_bytes addr.src_addr (ip_bytes addr.dst_addr (0x00 ∷ 0x11 ∷ bytes16 len bytes))

unfoldable pub parse_udp_pkt : Bool → List ℕ → Ipv4AddrPair → Parsed UdpError UdpPkt
parse_udp_pkt check pkt addr =
    let total_len = be16 (at pkt 4) (at pkt 5) in
    if ltb (length pkt) 8 || ltb 1480 (length pkt)
    then err (zero_udp_pkt, udp_length)
    else if ltb total_len 8 || ltb (length pkt) total_len
    then err (zero_udp_pkt, udp_total_length)
    else if check && not (get_check_sum (udp_sum_data addr total_len (take total_len pkt)) == 0)
    then err (zero_udp_pkt, udp_check_sum)
    else ok (record {
      payload = slice 8 total_len pkt;
      src_port = be16 (at pkt 0) (at pkt 1);
      dst_port = be16 (at pkt 2) (at pkt 3);
    })

-- The datagram with a zero checksum, behind what the buffer holds.
unfoldable pub udp_unsealed : List ℕ → ℕ → UdpPkt → List ℕ
udp_unsealed pkt len packet =
    pkt
    ++ bytes16 packet.src_port
        (bytes16 packet.dst_port (bytes16 len (0x00 ∷ 0x00 ∷ packet.payload)))

unfoldable pub build_udp_pkt : Bool → List ℕ → UdpPkt → Ipv4AddrPair → Result UdpError (List ℕ)
unfolding udp_unsealed
build_udp_pkt check pkt packet addr =
    if ltb 1472 (length packet.payload)
    then err udp_payload_too_long
    else let udp_pkt_len = u16 (length packet.payload + 8) in
      let bytes = udp_unsealed pkt udp_pkt_len packet in
      let sum = get_check_sum (udp_sum_data addr udp_pkt_len bytes) in
      ok (
        if check
        then set (set bytes 6 (u8 (shr sum 8))) 7 (u8 sum)
        else set (set bytes 6 0x00) 7 0x00)
