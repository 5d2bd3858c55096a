-- ===== src/Examples/Protocol.antt =====
-- The codecs and the packet rewriting at concrete packets.
use halo.Base.{
  List, [], arith, inl, length, none, ok, refl, replicate, some, take, true, u32, ℕ, ◌++◌, ◌+◌,
  ◌>>=◌, ◌≡◌, ◌≢◌, ◌≤◌,
}
use halo.Examples.Data.{
  datagram_a, datagram_a-IsUdpPkt, discover, echo, echo-IsIcmpPkt, ends, ip_packet,
  ip_packet-IsIpv4Pkt, lan_host-IsIpv4Addr, mac_a, mac_b, options, small_frame, syn_message,
  syn_message-IsByte, syn_segment, syn_segment-IsTcpPkt, three, wan_host-IsIpv4Addr, who_has,
}
use halo.Kcp.Enet.{build_enet, conn_enet_syn, enet_fields, has_magic, parse_enet}
use halo.Kcp.Enet.Laws.{build-parse_enet, decoded}
use halo.Protocol.Arp.{build_arp_pkt, parse_arp_pkt}
use halo.Protocol.Arp.Laws.{parse-build_arp}
use halo.Protocol.Delivery.{udp_delivered}
use halo.Protocol.Dhcp.{build_dhcp_option, build_dhcp_pkt, empty, parse_dhcp_option, parse_dhcp_pkt}
use halo.Protocol.Dhcp.Laws.{receive_all}
use halo.Protocol.Dhcp.Message.{parse-build_dhcp_pkt}
use halo.Protocol.Dhcp.Options.{parse_dhcp_option-ne-none}
use halo.Protocol.Ethernet.{EthFrm, build_eth_frm, eth_proto_ipv4, parse_eth_frm}
use halo.Protocol.Ethernet.Laws.{padded, parse-build_eth}
use halo.Protocol.Icmp.{build_icmp_pkt, parse_icmp_pkt}
use halo.Protocol.Icmp.Laws.{parse-build_icmp}
use halo.Protocol.Ipv4.{Ipv4Pkt, build_ipv4_pkt, iph_proto_udp, parse_ipv4_pkt}
use halo.Protocol.Ipv4.Laws.{parse-build_ipv4}
use halo.Protocol.Rewrite.{re_calc_ipv4_check_sum}
use halo.Protocol.Rewrite.Seals.{re_calc_ipv4_verifies}
use halo.Protocol.Tcp.{build_tcp_pkt, parse_tcp_pkt, tcp_header_len}
use halo.Protocol.Tcp.Laws.{parse-build_tcp}
use halo.Protocol.Udp.{build_udp_pkt, parse_udp_pkt}
use halo.Protocol.Utils.{get_check_sum}

udp_delivered_example :
    (udp : List ℕ) × (ip : List ℕ) × (frm : List ℕ) × (frame : EthFrm) × (packet : Ipv4Pkt)
    × (build_udp_pkt true [] datagram_a ends ≡ ok udp)
    × (build_ipv4_pkt true 65535 [] (record {
      payload = udp;
      ip_head_proto = iph_proto_udp;
      src_addr = ends.src_addr;
      dst_addr = ends.dst_addr;
    })
        ≡ (ok ip, u32 (65535 + 1)))
    × (build_eth_frm []
          (record { payload = ip; dst_mac = mac_b; src_mac = mac_a; eth_proto = eth_proto_ipv4 })
        ≡ ok frm)
    × (parse_eth_frm frm ≡ ok frame)
    × (frame.dst_mac ≡ mac_b)
    × (parse_ipv4_pkt true frame.payload ≡ ok packet)
    × (packet.src_addr ≡ ends.src_addr)
    × (packet.dst_addr ≡ ends.dst_addr)
    × (parse_udp_pkt true packet.payload ends ≡ ok datagram_a)
udp_delivered_example =
    udp_delivered true 65535 mac_a mac_b ends datagram_a datagram_a-IsUdpPkt lan_host-IsIpv4Addr
      wan_host-IsIpv4Addr

parse-build_ipv4_example :
    (bytes : List ℕ) × (build_ipv4_pkt true 65535 [] ip_packet ≡ (ok bytes, u32 (65535 + 1)))
    × (length bytes ≡ length ip_packet.payload + 20)
    × (parse_ipv4_pkt true (bytes ++ three) ≡ ok ip_packet)
parse-build_ipv4_example =
    parse-build_ipv4 true 65535 ip_packet three ip_packet-IsIpv4Pkt (omega arith)

parse-build_tcp_example :
    (bytes : List ℕ) × (build_tcp_pkt true [] syn_segment ends ≡ ok bytes)
    × (length bytes ≡ length syn_segment.payload + tcp_header_len syn_segment)
    × (parse_tcp_pkt true bytes ends ≡ ok syn_segment)
parse-build_tcp_example =
    parse-build_tcp true syn_segment ends syn_segment-IsTcpPkt lan_host-IsIpv4Addr
      wan_host-IsIpv4Addr

parse-build_icmp_example :
    (bytes : List ℕ) × (build_icmp_pkt [] echo ≡ ok bytes)
    × (length bytes ≡ length echo.payload + 8)
    × (parse_icmp_pkt bytes ≡ ok echo)
parse-build_icmp_example = parse-build_icmp echo echo-IsIcmpPkt

parse-build_eth_example :
    (frm : List ℕ) × (build_eth_frm [] small_frame ≡ ok frm)
    × (60 ≤ length frm)
    × (length frm ≤ 1514)
    × (parse_eth_frm frm ≡ ok (padded small_frame))
parse-build_eth_example = parse-build_eth small_frame refl (omega arith)

parse-build_arp_example :
    (build_arp_pkt [] who_has >>= λ bytes. parse_arp_pkt (bytes ++ three)) ≡ ok who_has
parse-build_arp_example = parse-build_arp who_has three (inl refl)

parse-build_dhcp_pkt_example :
    (bytes : List ℕ) × (build_dhcp_pkt [] discover options ≡ ok bytes)
    × (length bytes ≡ length (build_dhcp_option options) + 240)
    × (parse_dhcp_pkt bytes ≡ ok (discover, some (receive_all options empty)))
parse-build_dhcp_pkt_example = parse-build_dhcp_pkt discover options refl

re_calc_ipv4_verifies_example :
    get_check_sum (take 20 (re_calc_ipv4_check_sum true (replicate 20 1))) ≡ 0
re_calc_ipv4_verifies_example = re_calc_ipv4_verifies (replicate 20 1) (omega arith) (omega arith)

parse_dhcp_option-ne-none_example : parse_dhcp_option three ≢ none
parse_dhcp_option-ne-none_example = parse_dhcp_option-ne-none three

build-parse_enet_example :
    build_enet
      (decoded conn_enet_syn 3 1 2 syn_message).conn_type
      (decoded conn_enet_syn 3 1 2 syn_message).enet_type
      (decoded conn_enet_syn 3 1 2 syn_message).session_id
      (decoded conn_enet_syn 3 1 2 syn_message).conv
    ≡ some syn_message
unfolding parse_enet has_magic enet_fields
build-parse_enet_example =
    build-parse_enet syn_message (decoded conn_enet_syn 3 1 2 syn_message) syn_message-IsByte refl
