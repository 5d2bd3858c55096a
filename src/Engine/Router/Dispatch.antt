-- ===== src/Engine/Router/Dispatch.antt =====
-- engine/ethernet_engine.go: RxEthernet of a router interface; engine/ipv4_engine.go: RxIpv4 with
-- the handlers that it calls; engine/engine.go: the loop of PacketHandle over the loopback channel.
use Prim.Native.String.{String}
use halo.Base.{
  ℕ, Bool, zero, suc, true, false, List, [], ◌∷◌, Option, none, some, ◌==◌, ◌||◌, not,
  if◌then◌else◌,
}
use halo.Base.{ok, err, Parsed}
use halo.Protocol.Ethernet.{
  EthFrm, EthError, parse_eth_frm, eth_proto_arp, eth_proto_ipv4, eth_proto_ipv6,
}
use halo.Protocol.Ipv4.{
  Ipv4Pkt, Ipv4Error, parse_ipv4_pkt, iph_proto_icmp, iph_proto_udp, iph_proto_tcp,
}
use halo.Engine.Route.{ip_eq}
use halo.Engine.Receive.{RxIpv4}
use halo.Engine.Receive
use halo.Engine.Router.{M, ◌>>=◌, ◌>>◌, pure, gets, net_if, put_if, transmit, Interface, Answers}
use halo.Engine.Router.Link.{broadcast_mac_addr}
use halo.Engine.Router.Arp.{handle_arp, mac_eq}
use halo.Engine.Router.Services.{rx_icmp, rx_udp, rx_tcp, rx_udp_broadcast}
use halo.Engine.Router.Forward.{ipv4_route_forward}

-- The call that RxIpv4 ends with.
abbrev pub handle : String → Answers → RxIpv4 → M (Unit {0})
handle name g RxIpv4.ignored = pure tt
handle name g (RxIpv4.rx_udp_broadcast payload src dst) = rx_udp_broadcast name payload src dst
handle name g (RxIpv4.ipv4_route_forward pkt src dst proto) =
    ipv4_route_forward name g pkt src dst proto
handle name g (RxIpv4.rx_icmp payload src) = rx_icmp name payload src
handle name g (RxIpv4.rx_udp payload src) = rx_udp name payload src
handle name g (RxIpv4.rx_tcp payload src) = rx_tcp name payload src

unfoldable pub handle_ipv4 : String → Answers → List ℕ → M (Unit {0})
unfolding ipv4_route_forward rx_icmp rx_udp rx_tcp rx_udp_broadcast
handle_ipv4 name g eth_payload = do
  i ← net_if name
  check ← gets (λ r. r.check_sum_enable)
  handle name g (Receive.rx_ipv4 check i.base eth_payload)

-- An IPv6 frame goes to the peer as it is.
abbrev pub pass_through : Option String → List ℕ → M (Unit {0})
pass_through none frm = pure tt
pass_through (some peer) frm = transmit peer frm

abbrev pub receive_frame :
    String → Answers → List ℕ → Interface → Parsed EthError EthFrm → M (Unit {0})
receive_frame name g frm i (err e) = pure tt
receive_frame name g frm i (ok eth) =
    if eth.eth_proto == eth_proto_ipv6
    then pass_through i.ipv6_passthrough_peer frm
    else if not (mac_eq eth.dst_mac i.mac_addr || mac_eq eth.dst_mac broadcast_mac_addr)
    then pure tt
    else if eth.eth_proto == eth_proto_arp
    then handle_arp g name eth.payload eth.src_mac
    else if eth.eth_proto == eth_proto_ipv4
    then handle_ipv4 name g eth.payload
    else pure tt

unfoldable pub rx_ethernet : String → Answers → List ℕ → M (Unit {0})
unfolding handle_arp handle_ipv4
rx_ethernet name g frm = do i ← net_if name; receive_frame name g frm i (parse_eth_frm frm)

-- A packet out of the loopback channel.
abbrev pub handle_looped : String → Interface → Parsed Ipv4Error Ipv4Pkt → M (Unit {0})
handle_looped name i (err e) = pure tt
handle_looped name i (ok p) =
    if not (ip_eq p.dst_addr i.base.ip_addr)
    then pure tt
    else if p.ip_head_proto == iph_proto_icmp
    then rx_icmp name p.payload p.src_addr
    else if p.ip_head_proto == iph_proto_udp
    then rx_udp name p.payload p.src_addr
    else if p.ip_head_proto == iph_proto_tcp
    then rx_tcp name p.payload p.src_addr
    else pure tt

abbrev pub take_looped : String → Interface → List (List ℕ) → M Bool
take_looped name i [] = pure false
take_looped name i (pkt ∷ rest) = do
  put_if name (record i { lo_chan = rest })
  check ← gets (λ r. r.check_sum_enable)
  handle_looped name i (parse_ipv4_pkt check pkt)
  pure true

-- One round of the inner loop: whether there was a packet.
unfoldable pub drain_round : String → M Bool
unfolding rx_icmp rx_udp rx_tcp
drain_round name = do i ← net_if name; take_looped name i i.lo_chan

-- The inner loop, for at most `rounds` packets. A handler may loop packets back again, so the code
-- bounds it only by the channel being empty.
unfoldable pub drain : String → ℕ → M (Unit {0})
unfolding drain_round
drain name zero = pure tt
drain name (suc rounds) = do more ← drain_round name; if more then drain name rounds else pure tt
