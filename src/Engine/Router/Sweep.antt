-- ===== src/Engine/Router/Sweep.antt =====
-- engine/ipv4_engine.go: one tick of NatPortMappingFlowClear, the ticks and lists of an interface's
-- NAT, and SendUdpPktByFlow.
use Prim.Native.String.{String}
use text.Mathlib.Text.{◌==◌ as str_eq}
use halo.Base.{ℕ, ◌+◌, ◌-◌, ◌^◌, List, [], ◌∷◌, Option, none, some, ltb, not, if◌then◌else◌, u32}
use halo.Base.{ok, err, Result}
use halo.Protocol.Utils.{Ipv4Addr, u_to_ip_addr}
use halo.Protocol.Ethernet.{eth_proto_ipv4}
use halo.Protocol.Ipv4.{Ipv4AddrPair, iph_proto_udp}
use halo.Protocol.Udp.{UdpError, build_udp_pkt}
use halo.Engine.NatKey.{NatFlowHash, NatFlow}
use halo.Engine.Nat.{Dir, lan_to_wan, wan_to_lan}
use halo.Engine.Nat.Clear.{nat_table_clear, list_nat}
use halo.Engine.Router.{
  M, ◌>>=◌, pure, gets, net_if, on_nat, route_to, Answers, ArpCache, NatPortMappingFlow,
}
use halo.Engine.Router.Link.{tx_ethernet}
use halo.Engine.Router.Arp.{get_arp_cache}
use halo.Engine.Router.Transmit.{build_packet}
use halo.Engine.Router.Outbound.{flow_for}

-- `TimeNow-LastAliveTime > 60`, of uint32.
unfoldable pub live_mappings :
    ℕ → List (NatFlowHash × NatPortMappingFlow) → List (NatFlowHash × NatPortMappingFlow)
live_mappings now [] = []
live_mappings now ((key, f) ∷ rest) =
    let kept = live_mappings now rest in
    if ltb 60 (u32 (now + 2 ^ 32 - f.last_alive_time)) then kept else (key, f) ∷ kept

unfoldable pub nat_port_mapping_flow_clear : M (Unit {0})
unfolding live_mappings
nat_port_mapping_flow_clear r = some (
  tt,
  record r { nat_port_mapping_flow_table = live_mappings r.time_now r.nat_port_mapping_flow_table },
)

unfoldable pub clear_nat : String → M (Unit {0})
unfolding nat_table_clear
clear_nat name = on_nat name (λ n. (tt, nat_table_clear n))

unfoldable pub list_nat_flows : String → M (List NatFlow)
unfolding list_nat
list_nat_flows name = on_nat name (λ n. (list_nat n, n))

abbrev pub packet_of : Ipv4AddrPair → Result UdpError (List ℕ) → M (Option (List ℕ))
packet_of addr (err e) = pure none
packet_of addr (ok udp) = do
  built ← build_packet (record {
    payload = udp;
    ip_head_proto = iph_proto_udp;
    src_addr = addr.src_addr;
    dst_addr = addr.dst_addr;
  })
  pure (elim built [ err e ↦ none | ok pkt ↦ some pkt ])

-- The datagram in its packet, or nothing if one of the two is too long.
unfoldable pub udp_packet : List ℕ → ℕ → ℕ → Ipv4AddrPair → M (Option (List ℕ))
udp_packet payload src_port dst_port addr = do
  check ← gets (λ r. r.check_sum_enable)
  packet_of addr (
      build_udp_pkt check []
        (record { payload = payload; src_port = src_port; dst_port = dst_port }) addr)

abbrev pub send_resolved : String → List ℕ → Option ArpCache → M (Unit {0})
send_resolved out pkt none = pure tt
send_resolved out pkt (some c) = do done ← tx_ethernet out pkt c.mac_addr eth_proto_ipv4; pure tt

-- To the remote, through the interface itself: only over a next hop.
abbrev pub send_to_wan : String → Ipv4Addr → Option (List ℕ) → M (Unit {0})
send_to_wan name remote none = pure tt
send_to_wan name remote (some pkt) = do
  (hop, out, has_hop) ← route_to remote
  if not has_hop then pure tt else (do c ← get_arp_cache name hop; send_resolved name pkt c)

-- To the LAN host, through the interface of its route.
abbrev pub send_to_lan : Ipv4Addr → Option (List ℕ) → M (Unit {0})
send_to_lan host none = pure tt
send_to_lan host (some pkt) = do
  (hop, out, has_hop) ← route_to host
  if str_eq out "" then pure tt else (do c ← get_arp_cache out host; send_resolved out pkt c)

abbrev pub send_by_flow :
    String → Dir → Ipv4Addr → Ipv4Addr → List ℕ → Option NatFlow → M (Unit {0})
send_by_flow name dir remote host payload none = pure tt
send_by_flow name lan_to_wan remote host payload (some f) = do
  i ← net_if name
  pkt ←
      udp_packet payload f.wan_port f.remote_port
        (record { src_addr = i.base.ip_addr; dst_addr = remote })
  send_to_wan name remote pkt
send_by_flow name wan_to_lan remote host payload (some f) = do
  pkt ←
      udp_packet payload f.remote_port f.lan_host_port
        (record { src_addr = remote; dst_addr = host })
  send_to_lan host pkt

unfoldable pub send_udp_pkt_by_flow : String → Answers → NatFlowHash → Dir → List ℕ → M (Unit {0})
unfolding flow_for udp_packet get_arp_cache tx_ethernet
send_udp_pkt_by_flow name g key dir payload = do
  let remote = u_to_ip_addr key.remote_ip_addr
  let host = u_to_ip_addr key.lan_host_ip_addr
  f ← flow_for name g host remote (key.lan_host_port, key.remote_port) iph_proto_udp
  send_by_flow name dir remote host payload f
