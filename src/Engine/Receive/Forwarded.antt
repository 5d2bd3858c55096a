-- ===== src/Engine/Receive/Forwarded.antt =====
-- engine/ipv4_engine.go: which packets RxIpv4 forwards.
use halo.Base.{ℕ, Bool, true, false, List, ◌≡◌, ◌≢◌, ◌⊎◌, ◌↔◌, arith}
use halo.Base.{ok}
use halo.Protocol.Ipv4.{Ipv4Pkt, parse_ipv4_pkt, iph_proto_icmp, iph_proto_tcp, iph_proto_udp}
use halo.Protocol.Icmp.{IcmpPkt, parse_icmp_pkt, icmp_request}
use halo.Engine.Route.{ip_eq}
use halo.Engine.Receive.{NetIf, rx_udp, forward, dst_port, rx_ipv4, broadcast_ipv4_addr}

-- An accepted packet is forwarded exactly when it is not for the broadcast address and either is
-- for another address than the interface's, or NAT is enabled and it is an ICMP message that
-- parses and is no request, or a UDP datagram or TCP segment for a port without a service.
pub rx_ipv4_forwards :
    (check : Bool) (i : NetIf) (pkt : List ℕ) (p : Ipv4Pkt)
    → parse_ipv4_pkt check pkt ≡ ok p
    → (rx_ipv4 check i pkt ≡ forward pkt p) ↔ (
        (ip_eq p.dst_addr broadcast_ipv4_addr ≡ false)
        × ((ip_eq p.dst_addr i.ip_addr ≡ false)
            ⊎ ((i.nat_enable ≡ true)
                × (((p.ip_head_proto ≡ iph_proto_icmp)
                      × ((m : IcmpPkt) × (parse_icmp_pkt p.payload ≡ ok m)
                          × (m.icmp_type ≢ icmp_request)))
                    ⊎ ((p.ip_head_proto ≡ iph_proto_udp)
                        × (i.udp_service_map (dst_port pkt) ≡ false))
                    ⊎ ((p.ip_head_proto ≡ iph_proto_tcp)
                        × (i.tcp_service_map (dst_port pkt) ≡ false))))))
unfolding rx_ipv4
rx_ipv4_forwards check i pkt p h = rw h (ground arith)

-- An accepted UDP datagram reaches the UDP handler, with its payload and source, exactly when it is
-- for the interface, whose address is not the broadcast one, and NAT is off or its port has a
-- service.
pub rx_ipv4_udp :
    (check : Bool) (i : NetIf) (pkt : List ℕ) (p : Ipv4Pkt)
    → parse_ipv4_pkt check pkt ≡ ok p
    → p.ip_head_proto ≡ iph_proto_udp
    → (rx_ipv4 check i pkt ≡ rx_udp p.payload p.src_addr) ↔ (
        (ip_eq p.dst_addr broadcast_ipv4_addr ≡ false)
        × (ip_eq p.dst_addr i.ip_addr ≡ true)
        × ((i.nat_enable ≡ false) ⊎ (i.udp_service_map (dst_port pkt) ≡ true)))
unfolding rx_ipv4
rx_ipv4_udp check i pkt p h u = rw h (ground arith)
