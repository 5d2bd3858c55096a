-- ===== src/Engine/Router/Forward.antt =====
-- engine/ipv4_engine.go: Ipv4RouteForward.
use Prim.Native.String.{String}
use halo.Base.{
  ℕ, Bool, true, false, List, [], ◌∷◌, Option, none, some, ◌==◌, ◌&&◌, not, if◌then◌else◌, take,
}
use halo.Base.{ok, err, Parsed}
use halo.Protocol.Utils.{Ipv4Addr, ip_addr_to_u}
use halo.Protocol.Ethernet.{eth_proto_ipv4}
use halo.Protocol.Ipv4.{Ipv4Pkt, Ipv4Error, parse_ipv4_pkt}
use halo.Protocol.Icmp.{icmp_ttl}
use halo.Protocol.Rewrite.{handle_ipv4_pkt_ttl}
use halo.Engine.NatKey.{NatPortMappingEntry}
use halo.Engine.Nat.{Dir, lan_to_wan, wan_to_lan}
use halo.Engine.Router.{
  M, ◌>>=◌, pure, gets, net_if, route_to, Answers, ArpCache, NatPortMappingFlow,
}
use halo.Engine.Router.Link.{tx_ethernet}
use halo.Engine.Router.Arp.{get_arp_cache}
use halo.Engine.Router.Transmit.{tx_icmp, loop_back}
use halo.Engine.Router.Inbound.{Inbound, dnat}
use halo.Engine.Router.Outbound.{mapping_flow, choose_out, snat, record_mapping}

-- The last part, once the link address is known or not.
abbrev pub send_out :
    String
    → Answers
    → String
    → List ℕ
    → ℕ
    → Option NatPortMappingEntry
    → Option ArpCache
    → M (Unit {0})
send_out name g out pkt proto entry none = pure tt
send_out name g out pkt proto entry (some c) = do
  noted ← record_mapping name g pkt proto entry
  if noted then (do done ← tx_ethernet out pkt c.mac_addr eth_proto_ipv4; pure tt) else pure tt

abbrev pub resolve_out :
    String
    → Answers
    → String
    → Ipv4Addr
    → ℕ
    → Option NatPortMappingEntry
    → Option (List ℕ)
    → M (Unit {0})
resolve_out name g out target proto entry none = pure tt
resolve_out name g out target proto entry (some pkt) = do
  c ← get_arp_cache out target
  send_out name g out pkt proto entry c

-- From the chosen interface on.
abbrev pub leave :
    String
    → Answers
    → List ℕ
    → Ipv4Pkt
    → Option NatPortMappingEntry
    → Option NatPortMappingFlow
    → Option (Ipv4Addr × String × Bool)
    → M (Unit {0})
leave name g pkt p entry m none = pure tt
leave name g pkt p entry m (some (hop, out, has_hop)) = do
  i ← net_if name
  o ← net_if out
  if ip_addr_to_u p.dst_addr == ip_addr_to_u o.base.ip_addr && not i.base.nat_enable
      then (do done ← loop_back out pkt; pure tt)
      else (do
        pkt' ← snat out g pkt p.src_addr p.dst_addr p.ip_head_proto m
        resolve_out name g out (if has_hop then hop else p.dst_addr) p.ip_head_proto entry pkt')

abbrev pub forward_parsed :
    String → Answers → List ℕ → Option NatPortMappingEntry → Parsed Ipv4Error Ipv4Pkt → M (Unit {0})
forward_parsed name g pkt entry (err e) = pure tt
forward_parsed name g pkt entry (ok p) = do
  m ← mapping_flow name pkt p.src_addr p.dst_addr p.ip_head_proto
  found ← route_to p.dst_addr
  way ← choose_out m found
  leave name g pkt p entry m way

abbrev pub direction : Bool → Dir
direction nat_enable = if nat_enable then wan_to_lan else lan_to_wan

-- Whether the hook drops the packet, and the packet that it gives back.
abbrev pub run_hook : Option (List ℕ → Dir → Bool × List ℕ) → List ℕ → Dir → Bool × List ℕ
run_hook none pkt dir = (false, pkt)
run_hook (some hook) pkt dir = hook pkt dir

abbrev pub forward_hooked :
    String → Answers → Option NatPortMappingEntry → Bool × List ℕ → M (Unit {0})
forward_hooked name g entry (true, pkt) = pure tt
forward_hooked name g entry (false, pkt) = do
  check ← gets (λ r. r.check_sum_enable)
  forward_parsed name g pkt entry (parse_ipv4_pkt check pkt)

-- A packet whose time to live is over is answered with its first 28 bytes.
abbrev pub forward_alive :
    String → Answers → Ipv4Addr → Option NatPortMappingEntry → List ℕ × Bool → M (Unit {0})
forward_alive name g src entry (pkt, false) = do
  done ← tx_icmp name (take 28 pkt) icmp_ttl (0x00 ∷ 0x00 ∷ []) 0 src
  pure tt
forward_alive name g src entry (pkt, true) = do
  i ← net_if name
  hook ← gets (λ r. r.ipv4_pkt_fwd_hook)
  forward_hooked name g entry (run_hook hook pkt (direction i.base.nat_enable))

abbrev pub forward_inbound : String → Answers → Ipv4Addr → Inbound → M (Unit {0})
forward_inbound name g src none = pure tt
forward_inbound name g src (some (pkt, entry)) = do
  check ← gets (λ r. r.check_sum_enable)
  forward_alive name g src entry (handle_ipv4_pkt_ttl check pkt)

unfoldable pub ipv4_route_forward :
    String → Answers → List ℕ → Ipv4Addr → Ipv4Addr → ℕ → M (Unit {0})
ipv4_route_forward name g pkt src dst proto = do
  inbound ← dnat name pkt src dst proto
  forward_inbound name g src inbound
