-- ===== src/Engine/Router/Services.antt =====
-- engine/icmp_engine.go, udp_engine.go, tcp_engine.go: the local services of an interface.
use Prim.Native.String.{String}
use halo.Base.{ℕ, List, ◌==◌, ◌&&◌, ◌||◌, if◌then◌else◌}
use halo.Base.{ok, err, Parsed}
use halo.Protocol.Utils.{Ipv4Addr}
use halo.Protocol.Icmp.{IcmpPkt, IcmpError, parse_icmp_pkt, icmp_request, icmp_reply}
use halo.Protocol.Udp.{UdpPkt, UdpError, parse_udp_pkt}
use halo.Protocol.Tcp.{TcpPkt, TcpError, parse_tcp_pkt}
use halo.Engine.Router.{
  M, ◌>>=◌, pure, gets, net_if, put_if, call, udp_handler, tcp_handler, rx_dhcp, Interface,
}
use halo.Engine.Router.Transmit.{tx_icmp}
use halo.Base.{Bool, true}

abbrev pub dhcp_client_port : ℕ
dhcp_client_port = 68

abbrev pub dhcp_server_port : ℕ
dhcp_server_port = 67

-- Only an echo request is answered.
abbrev pub answer_icmp : String → Ipv4Addr → Parsed IcmpError IcmpPkt → M (Unit {0})
answer_icmp name src (err e) = pure tt
answer_icmp name src (ok icmp) =
    if icmp.icmp_type == icmp_request
    then (do done ← tx_icmp name icmp.payload icmp_reply icmp.icmp_id icmp.icmp_seq src; pure tt)
    else pure tt

unfoldable pub rx_icmp : String → List ℕ → Ipv4Addr → M (Unit {0})
unfolding tx_icmp
rx_icmp name payload src = answer_icmp name src (parse_icmp_pkt payload)

abbrev pub deliver_udp :
    String → Interface → List ℕ → Ipv4Addr → Parsed UdpError UdpPkt → M (Unit {0})
deliver_udp name i payload src (err e) = pure tt
deliver_udp name i payload src (ok udp) =
    if i.dhcp_server_enable
      && (udp.src_port == dhcp_client_port && udp.dst_port == dhcp_server_port)
    then call (rx_dhcp name udp.payload udp.src_port udp.dst_port src)
    else if i.base.udp_service_map udp.dst_port
    then call (udp_handler name udp.dst_port src udp.src_port udp.payload)
    else pure tt

unfoldable pub rx_udp : String → List ℕ → Ipv4Addr → M (Unit {0})
rx_udp name payload src = do
  i ← net_if name
  check ← gets (λ r. r.check_sum_enable)
  deliver_udp name i payload src
      (parse_udp_pkt check payload (record { src_addr = src; dst_addr = i.base.ip_addr }))

abbrev pub deliver_broadcast : String → Ipv4Addr → Parsed UdpError UdpPkt → M (Unit {0})
deliver_broadcast name src (err e) = pure tt
deliver_broadcast name src (ok udp) =
    if udp.dst_port == dhcp_client_port || udp.dst_port == dhcp_server_port
    then call (rx_dhcp name udp.payload udp.src_port udp.dst_port src)
    else pure tt

unfoldable pub rx_udp_broadcast : String → List ℕ → Ipv4Addr → Ipv4Addr → M (Unit {0})
rx_udp_broadcast name payload src dst = do
  check ← gets (λ r. r.check_sum_enable)
  deliver_broadcast name src
      (parse_udp_pkt check payload (record { src_addr = src; dst_addr = dst }))

-- The handler takes the whole segment.
abbrev pub deliver_tcp :
    String → Interface → List ℕ → Ipv4Addr → Parsed TcpError TcpPkt → M (Unit {0})
deliver_tcp name i payload src (err e) = pure tt
deliver_tcp name i payload src (ok tcp) =
    if i.base.tcp_service_map tcp.dst_port
    then call (tcp_handler name tcp.dst_port src payload)
    else pure tt

unfoldable pub rx_tcp : String → List ℕ → Ipv4Addr → M (Unit {0})
rx_tcp name payload src = do
  i ← net_if name
  check ← gets (λ r. r.check_sum_enable)
  deliver_tcp name i payload src
      (parse_tcp_pkt check payload (record { src_addr = src; dst_addr = i.base.ip_addr }))

-- RecvUdp and RecvTcp. A nil TCP handler takes the registration back.
abbrev pub registered : (ℕ → Bool) → ℕ → Bool → ℕ → Bool
registered services port present other = if other == port then present else services other

unfoldable pub recv_udp : String → ℕ → M (Unit {0})
recv_udp name port = do
  i ← net_if name
  put_if name (record i {
    base = record i.base { udp_service_map = registered i.base.udp_service_map port true };
  })

unfoldable pub recv_tcp : String → ℕ → Bool → M (Unit {0})
recv_tcp name port present = do
  i ← net_if name
  put_if name (record i {
    base = record i.base { tcp_service_map = registered i.base.tcp_service_map port present };
  })
