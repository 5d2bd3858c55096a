-- ===== src/Engine/Router/ToLan.antt =====
-- engine/ipv4_engine.go: Ipv4RouteForward from a WAN interface with NAT to a LAN interface, for a
-- UDP datagram of a flow.
use Prim.Native.String.{String}
use text.Mathlib.Text.{◌==◌ as str_eq}
use halo.Base.{
  ℕ, Bool, true, false, ◌≡◌, ◌≤◌, ◌<◌, ◌-◌, List, [], ◌∷◌, ◌++◌, none, some, ◌==◌, ◌&&◌, not, refl,
  ap, ◌∙◌, arith, lookup, insert, lookup-insert, beq_refl, nat_key, if◌then◌else◌, length,
}
use halo.Protocol.Utils.{Ipv4Addr, ip_addr_to_u, u_to_ip_addr}
use halo.Protocol.Ethernet.Laws.{eth_bytes}
use halo.Protocol.Ipv4.{iph_proto_udp}
use halo.Protocol.Ipv4.Laws.{IsIpv4Addr}
use halo.Protocol.Udp.{UdpPkt}
use halo.Protocol.Udp.Laws.{IsUdpPkt}
use halo.Protocol.Rewrite.Rebuild.{datagram, nat_change_dst-datagram}
use halo.Engine.NatKey.{NatFlow}
use halo.Engine.Nat.{Nat, nat_get_flow_by_wan, check_nat_port_mapping, wan_to_lan}
use halo.Engine.Route.{ip_eq, find_route, net_if_route}
use halo.Engine.Router.{
  Router, Interface, Answers, ArpCache, name_key, net_if_lem, nat_view, ◌>>=◌, pure,
}
use halo.Engine.Router.Transmit.{loop_back}
use halo.Engine.Router.Inbound.{dnat, icmp_ttl_deep_nat, deep_nat_packet, dnat_plain}
use halo.Engine.Router.Outbound.{mapping_flow, snat}
use halo.Engine.Router.Forward.{ipv4_route_forward, resolve_out}
use halo.Engine.Router.Datagrams.{
  packet, frame, ports-datagram, parse-datagram, forward-datagram, forward-routed,
  resolve_out_cached,
}

and-false : (b : Bool) → (b && false) ≡ false
and-false b = ground arith

-- A datagram carries no quoted packet.
deep_nat-datagram :
    (r : Router) (name : String) (id ttl : ℕ) (src dst : Ipv4Addr) (p : UdpPkt)
    → ttl < 256
    → IsIpv4Addr src
    → IsIpv4Addr dst
    → length p.payload ≤ 1472
    → icmp_ttl_deep_nat name (datagram r.check_sum_enable id ttl src dst p) r
      ≡ some ((datagram r.check_sum_enable id ttl src dst p, false), r)
unfolding icmp_ttl_deep_nat
deep_nat-datagram r name id ttl src dst p hi s d h =
    ap (λ x. deep_nat_packet name (datagram r.check_sum_enable id ttl src dst p) x r)
      (parse-datagram r.check_sum_enable id ttl src dst p hi s d h)

-- A NAT interface translates.
dnat-nat :
    (r : Router) (name : String) (i : Interface) (pkt : List ℕ) (src dst : Ipv4Addr) (proto : ℕ)
    → lookup name r.net_if_map ≡ some i
    → i.base.nat_enable ≡ true
    → dnat name pkt src dst proto r
      ≡ (icmp_ttl_deep_nat name pkt >>= dnat_plain name pkt src dst proto) r
unfolding dnat
dnat-nat r name i pkt src dst proto here wan = rw (net_if_lem name i r here, ◌>>=◌) (rw wan refl)

-- A NAT interface looks for no flow of a static mapping.
mapping_flow-nat :
    (r : Router) (name : String) (i : Interface) (pkt : List ℕ) (src dst : Ipv4Addr) (proto : ℕ)
    → lookup name r.net_if_map ≡ some i
    → i.base.nat_enable ≡ true
    → mapping_flow name pkt src dst proto r ≡ some (none, r)
unfolding mapping_flow
mapping_flow-nat r name i pkt src dst proto here wan =
    rw (net_if_lem name i r here, ◌>>=◌) (rw wan refl)

-- A LAN interface sends packets as they are.
snat-lan :
    (r : Router) (out : String) (o : Interface) (g : Answers) (pkt : List ℕ) (src dst : Ipv4Addr)
    (proto : ℕ)
    → lookup out r.net_if_map ≡ some o
    → o.base.nat_enable ≡ false
    → snat out g pkt src dst proto none r ≡ some (some pkt, r)
unfolding snat
snat-lan r out o g pkt src dst proto there lan = rw (net_if_lem out o r there, ◌>>=◌) (rw lan refl)

module _ (r : Router) (name out : String) (i o : Interface) (c : ArpCache) (g : Answers)
    (id ttl : ℕ) (src dst hop : Ipv4Addr) (has_hop : Bool) (p : UdpPkt) (f : NatFlow)
    (n : Nat) where
  -- The LAN host, and its next address on the link.
  abbrev pub host : Ipv4Addr
  host = u_to_ip_addr f.lan_host_ip_addr

  abbrev pub host_target : Ipv4Addr
  host_target = if has_hop then hop else host

  -- The datagram for the host, with `ttl` to live.
  abbrev for_host : ℕ → List ℕ
  for_host t = datagram r.check_sum_enable id t src host (record p { dst_port = f.lan_host_port })

  abbrev i' : Interface
  i' = record i { nat = n }

  abbrev r1 : Router
  r1 = record r { net_if_map = insert name i' r.net_if_map }

  -- The router after the datagram was sent to the host.
  abbrev pub sent_in : Router
  sent_in = record r1 { sent = r.sent ++ ((out, eth_bytes (frame o c (for_host (ttl - 1)))) ∷ []) }

  here' : lookup name r1.net_if_map ≡ some i'
  here' = lookup-insert name name i' r.net_if_map ∙ rw (beq_refl name) refl

  dnat_found :
      lookup name r.net_if_map ≡ some i
      → i.base.nat_enable ≡ true
      → ttl < 256
      → IsIpv4Addr src
      → IsIpv4Addr dst
      → IsUdpPkt p
      → check_nat_port_mapping
          (nat_view r i)
          wan_to_lan
          (ip_addr_to_u i.base.ip_addr)
          p.dst_port
          iph_proto_udp
        ≡ none
      → nat_get_flow_by_wan
          (nat_view r i)
          (ip_addr_to_u src)
          p.src_port
          (ip_addr_to_u dst)
          p.dst_port
          iph_proto_udp
        ≡ (some f, n)
      → dnat name (datagram r.check_sum_enable id ttl src dst p) src dst iph_proto_udp r
        ≡ some (some (for_host ttl, none), r1)
  dnat_found here wan hi s d v unmapped found =
      let ports = ports-datagram r.check_sum_enable id ttl src dst p v in
      dnat-nat r name i (datagram r.check_sum_enable id ttl src dst p) src dst iph_proto_udp here
        wan
      ∙ rw (deep_nat-datagram r name id ttl src dst p hi s d v.short, ◌>>=◌)
          (rw (net_if_lem name i r here, ◌>>=◌)
            (rw (ports, unmapped, ◌>>=◌)
              (rw (net_if_lem name i r here, ◌>>=◌)
                (rw (ports, found, ◌>>=◌)
                  (ap (λ l. some (some (l, none), r1))
                    (nat_change_dst-datagram r.check_sum_enable id ttl src dst host p
                      f.lan_host_port v.short))))))

  -- A UDP datagram for a flow of NAT, that comes in on the NAT interface by no static mapping and
  -- whose LAN host is routed to another interface without NAT where the next address is cached,
  -- leaves there in one frame: it is the datagram built for the host's address and port, with a time
  -- to live one less and right checksums, and nothing else of the router changes but the NAT
  -- tables. There is no hook and no padding.
  pub forward_to_lan :
      lookup name r.net_if_map ≡ some i
      → lookup out r.net_if_map ≡ some o
      → str_eq name out ≡ false
      → i.base.nat_enable ≡ true
      → o.base.nat_enable ≡ false
      → r.ipv4_pkt_fwd_hook ≡ none
      → 1 < ttl
      → ttl < 256
      → IsIpv4Addr src
      → IsIpv4Addr dst
      → IsIpv4Addr host
      → IsUdpPkt p
      → check_nat_port_mapping
          (nat_view r i)
          wan_to_lan
          (ip_addr_to_u i.base.ip_addr)
          p.dst_port
          iph_proto_udp
        ≡ none
      → nat_get_flow_by_wan
          (nat_view r i)
          (ip_addr_to_u src)
          p.src_port
          (ip_addr_to_u dst)
          p.dst_port
          iph_proto_udp
        ≡ (some f, n)
      → net_if_route (find_route r.fnv r.route_table host) ≡ some (hop, out, has_hop)
      → str_eq out "" ≡ false
      → ip_eq host_target o.base.ip_addr ≡ false
      → lookup (ip_addr_to_u host_target) o.arp_cache_table ≡ some c
      → ipv4_route_forward name g
          (datagram r.check_sum_enable id ttl src dst p)
          src
          dst
          iph_proto_udp
          r
        ≡ some (tt, sent_in)
  unfolding ipv4_route_forward
  forward_to_lan here there apart wan lan hook lo hi s d hd v unmapped found way named other known =
      let check = r.check_sum_enable in
      let p' : UdpPkt = record p { dst_port = f.lan_host_port } in
      let pkt = for_host (ttl - 1) in
      let q = packet check src host p' in
      let there' : lookup out r1.net_if_map ≡ some o =
        lookup-insert name out i' r.net_if_map ∙ rw apart there in
      rw (dnat_found here wan hi s d v unmapped found, ◌>>=◌)
        (forward-datagram r1 name i' g id ttl src src host p' here' hook lo hi s hd v.short
          ∙ forward-routed r1 name out g pkt hop has_hop q
              (mapping_flow-nat r1 name i' pkt src host iph_proto_udp here' wan) way named
          ∙ rw (net_if_lem name i' r1 here', ◌>>=◌)
              (rw (net_if_lem out o r1 there', ◌>>=◌)
                (ap
                    (λ b.
                      (if (ip_addr_to_u host == ip_addr_to_u o.base.ip_addr && not b)
                          then (do done ← loop_back out pkt; pure tt)
                          else (do
                            pkt' ← snat out g pkt src host iph_proto_udp none
                            resolve_out name g out host_target iph_proto_udp none pkt'))
                        r1)
                    wan
                  ∙ ap
                      (λ b.
                        (if b then (do done ← loop_back out pkt; pure tt) else (do
                          pkt' ← snat out g pkt src host iph_proto_udp none
                          resolve_out name g out host_target iph_proto_udp none pkt'))
                          r1)
                      (and-false (ip_addr_to_u host == ip_addr_to_u o.base.ip_addr))
                  ∙ rw (snat-lan r1 out o g pkt src host iph_proto_udp there' lan, ◌>>=◌)
                      (resolve_out_cached r1 name out o c g host_target iph_proto_udp pkt there'
                        other known (omega (arith, v.short))))))
