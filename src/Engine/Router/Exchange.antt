-- ===== src/Engine/Router/Exchange.antt =====
-- engine/ipv4_engine.go: Ipv4RouteForward on a datagram of a LAN endpoint to a remote and on the
-- remote's answer.
use Prim.Native.String.{String}
use text.Mathlib.Text.{◌==◌ as str_eq}
use mathlib.Core.Path.{subst}
use halo.Base.{
  some_inj, ℕ, Bool, true, false, ◌≡◌, ◌<◌, ◌-◌, inl, inr, [], ◌∷◌, ◌++◌, none, some, ◌==◌, sym,
  ◌∙◌, lookup, nat_key, if◌then◌else◌,
}
use halo.Protocol.Utils.{Ipv4Addr, ip_addr_to_u}
use halo.Protocol.Ethernet.Laws.{eth_bytes}
use halo.Protocol.Ipv4.{iph_proto_udp}
use halo.Protocol.Ipv4.Laws.{IsIpv4Addr}
use halo.Protocol.Udp.{UdpPkt}
use halo.Protocol.Udp.Laws.{IsUdpPkt}
use halo.Protocol.Rewrite.Rebuild.{datagram}
use halo.Engine.NatKey.{NatFlow, NatFlowHash, flow_key}
use halo.Engine.Nat.{flow_hash, check_nat_port_mapping, lan_to_wan}
use halo.Engine.Nat.Create.{Established, nat_add_flow-Outcome}
use halo.Engine.Route.{ip_eq, find_route, net_if_route}
use halo.Engine.Router.{Router, Interface, Answers, ArpCache, name_key, nat_view}
use halo.Engine.Router.Outbound.{mapping_hash}
use halo.Engine.Router.Forward.{ipv4_route_forward}
use halo.Engine.Router.Datagrams.{frame}
use halo.Engine.Router.ToWan.{added, forward_to_wan}
use halo.Engine.Router.Answer.{r1, r2, answer_sent, both_sent}

module _ (r : Router) (name out back : String) (i o b : Interface) (c d : ArpCache) (g : Answers)
    (id id2 ttl ttl2 : ℕ) (src dst hop hop2 : Ipv4Addr) (has_hop has_hop2 : Bool) (p q : UdpPkt)
    (f : NatFlow) where
  abbrev key : NatFlowHash
  key =
      flow_hash (nat_view r o) (ip_addr_to_u dst) p.dst_port (ip_addr_to_u src) p.src_port
        iph_proto_udp

  abbrev next_target : Ipv4Addr
  next_target = if has_hop then hop else dst

  abbrev back_target : Ipv4Addr
  back_target = if has_hop2 then hop2 else src

  -- A LAN endpoint sends the first UDP datagram to a remote, and the remote answers to the WAN
  -- address and port that the datagram came from. The router then sends two frames and nothing
  -- else: the datagram out of the WAN interface, from its address and the port that NAT gave, and the
  -- answer out of the LAN interface, to the address and port of the endpoint. Both are as they
  -- would be built there, with a time to live one less. The routes exist, the next addresses are
  -- cached, and there is no hook, no static mapping and no padding.
  pub first_exchange :
      lookup name r.net_if_map ≡ some i
      → lookup out r.net_if_map ≡ some o
      → lookup back r.net_if_map ≡ some b
      → str_eq out back ≡ false
      → i.base.nat_enable ≡ false
      → o.base.nat_enable ≡ true
      → b.base.nat_enable ≡ false
      → r.ipv4_pkt_fwd_hook ≡ none
      → 1 < ttl
      → ttl < 256
      → 1 < ttl2
      → ttl2 < 256
      → IsIpv4Addr src
      → IsIpv4Addr dst
      → IsIpv4Addr o.base.ip_addr
      → IsUdpPkt p
      → IsUdpPkt q
      → q.src_port ≡ p.dst_port
      → q.dst_port ≡ f.wan_port
      → lookup
          (mapping_hash (ip_addr_to_u dst) p.dst_port (ip_addr_to_u src) p.src_port iph_proto_udp)
          r.nat_port_mapping_flow_table
        ≡ none
      → net_if_route (find_route r.fnv r.route_table dst) ≡ some (hop, out, has_hop)
      → net_if_route (find_route r.fnv r.route_table src) ≡ some (hop2, back, has_hop2)
      → str_eq out "" ≡ false
      → str_eq back "" ≡ false
      → (ip_addr_to_u dst == ip_addr_to_u o.base.ip_addr) ≡ false
      → check_nat_port_mapping (nat_view r o) lan_to_wan (ip_addr_to_u src) p.src_port iph_proto_udp
        ≡ none
      → lookup key o.nat.nat_flow_table ≡ none
      → (added r out o g src dst p).0 ≡ some f
      → ip_eq next_target o.base.ip_addr ≡ false
      → lookup (ip_addr_to_u next_target) o.arp_cache_table ≡ some c
      → ip_eq back_target b.base.ip_addr ≡ false
      → lookup (ip_addr_to_u back_target) b.arp_cache_table ≡ some d
      → (r1 : Router) × (r2 : Router) × (ipv4_route_forward name g
            (datagram r.check_sum_enable id ttl src dst p)
            src
            dst
            iph_proto_udp
            r
          ≡ some (tt, r1))
        × (ipv4_route_forward out g
              (datagram r.check_sum_enable id2 ttl2 dst o.base.ip_addr q)
              dst
              o.base.ip_addr
              iph_proto_udp
              r1
            ≡ some (tt, r2))
        × (r2.sent
            ≡ r.sent
              ++ ((
                out,
                eth_bytes (
                    frame o c (
                      datagram r.check_sum_enable id
                        (ttl - 1)
                        o.base.ip_addr
                        dst
                        (record p { src_port = f.wan_port }))),
              )
                  ∷ (
                    back,
                    eth_bytes (
                        frame b d (
                          datagram r.check_sum_enable id2
                            (ttl2 - 1)
                            dst
                            src
                            (record q { dst_port = p.src_port }))),
                  )
                  ∷ []))
  first_exchange here there home apart lan wan lan2 hook lo hi lo2 hi2 s t w v v2 e1 e2 no_flow way
        way2 named named2 remote unmapped absent given other known other2 known2 =
      elim (nat_add_flow-Outcome (nat_view r o) g.nat (ip_addr_to_u src) (ip_addr_to_u dst)
        p.src_port p.dst_port iph_proto_udp absent) [
          | inr (missing, u) ↦ absurd (cc)
          | inl (f', is_f, est') ↦
              let est : Established (nat_view r o) key f (added r out o g src dst p).1 =
                subst (λ x. Established (nat_view r o) key x (added r out o g src dst p).1)
                  (some_inj (sym is_f ∙ given)) est' in
              (
                r1 r name out back i o b c d g id id2 ttl ttl2 src dst hop hop2 has_hop has_hop2 p q
                    f,
                r2 r name out back i o b c d g id id2 ttl ttl2 src dst hop hop2 has_hop has_hop2 p q
                    f,
                forward_to_wan r name out i o c g id ttl src dst hop has_hop p f here there lan wan
                    hook lo hi s t v no_flow way named remote unmapped absent given other known,
                answer_sent r name out back i o b c d g id id2 ttl ttl2 src dst hop hop2 has_hop
                    has_hop2 p q f est home apart wan lan2 hook lo2 hi2 s t w v2 e1 e2 way2 named2
                    other2 known2,
                both_sent r name out back i o b c d g id id2 ttl ttl2 src dst hop hop2 has_hop
                    has_hop2 p q f est s w,
              )
        ]
