-- ===== src/Engine/Receive.antt =====
-- engine/ipv4_engine.go: where RxIpv4 sends a received packet. The handlers that it calls are the
-- constructors of `RxIpv4`, with the arguments that they are given.
pub mod Forwarded
use halo.Base.{ℕ, Bool, true, false, List, [], ◌∷◌, ◌==◌, ◌||◌, ◌&&◌, not, if◌then◌else◌}
use halo.Base.{ok, err, Parsed}
use halo.Protocol.Utils.{Ipv4Addr}
use halo.Protocol.Ipv4.{
  Ipv4Pkt, Ipv4Error, parse_ipv4_pkt, iph_proto_icmp, iph_proto_tcp, iph_proto_udp,
}
use halo.Protocol.Icmp.{IcmpPkt, IcmpError, parse_icmp_pkt, icmp_request}
use halo.Protocol.Rewrite.{nat_get_src_dst_port}
use halo.Engine.Route.{ip_eq}

-- The fields of NetIf that RxIpv4 reads.
pub record NetIf : Type 0 where
  pub ip_addr : Ipv4Addr
  pub nat_enable : Bool
  pub udp_service_map : ℕ → Bool
  pub tcp_service_map : ℕ → Bool

pub data RxIpv4 : Type 0 where
  ignored : RxIpv4
  rx_udp_broadcast : List ℕ → Ipv4Addr → Ipv4Addr → RxIpv4
  ipv4_route_forward : List ℕ → Ipv4Addr → Ipv4Addr → ℕ → RxIpv4
  rx_icmp rx_udp rx_tcp : List ℕ → Ipv4Addr → RxIpv4

abbrev pub broadcast_ipv4_addr : Ipv4Addr
broadcast_ipv4_addr = record { a0 = 255; a1 = 255; a2 = 255; a3 = 255 }

abbrev pub forward : List ℕ → Ipv4Pkt → RxIpv4
forward eth_payload ipv4 =
    ipv4_route_forward eth_payload ipv4.src_addr ipv4.dst_addr ipv4.ip_head_proto

-- A message that does not parse is logged.
abbrev pub rx_icmp_pkt : NetIf → List ℕ → Ipv4Pkt → Parsed IcmpError IcmpPkt → RxIpv4
rx_icmp_pkt i eth_payload ipv4 (err e) = ignored
rx_icmp_pkt i eth_payload ipv4 (ok icmp) =
    if not i.nat_enable || icmp.icmp_type == icmp_request
    then rx_icmp ipv4.payload ipv4.src_addr
    else forward eth_payload ipv4

abbrev pub dst_port : List ℕ → ℕ
dst_port eth_payload = (nat_get_src_dst_port eth_payload).1

-- The switch on the protocol of a packet for the interface.
abbrev pub rx_local : NetIf → List ℕ → Ipv4Pkt → RxIpv4
rx_local i eth_payload ipv4 =
    if ipv4.ip_head_proto == iph_proto_icmp
    then rx_icmp_pkt i eth_payload ipv4 (parse_icmp_pkt ipv4.payload)
    else if ipv4.ip_head_proto == iph_proto_udp
    then (if not i.nat_enable || i.udp_service_map (dst_port eth_payload)
        then rx_udp ipv4.payload ipv4.src_addr
        else forward eth_payload ipv4)
    else if ipv4.ip_head_proto == iph_proto_tcp
    then (if not i.nat_enable || i.tcp_service_map (dst_port eth_payload)
        then rx_tcp ipv4.payload ipv4.src_addr
        else forward eth_payload ipv4)
    else ignored

abbrev pub rx_parsed : NetIf → List ℕ → Parsed Ipv4Error Ipv4Pkt → RxIpv4
rx_parsed i eth_payload (err e) = ignored
rx_parsed i eth_payload (ok ipv4) =
    if ip_eq ipv4.dst_addr broadcast_ipv4_addr
    then (if ipv4.ip_head_proto == iph_proto_udp
        then rx_udp_broadcast ipv4.payload ipv4.src_addr ipv4.dst_addr
        else ignored)
    else if not (ip_eq ipv4.dst_addr i.ip_addr)
    then forward eth_payload ipv4
    else rx_local i eth_payload ipv4

unfoldable pub rx_ipv4 : Bool → NetIf → List ℕ → RxIpv4
rx_ipv4 check i eth_payload = rx_parsed i eth_payload (parse_ipv4_pkt check eth_payload)
