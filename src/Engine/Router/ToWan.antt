-- ===== src/Engine/Router/ToWan.antt =====
-- engine/ipv4_engine.go: Ipv4RouteForward from a LAN interface to a WAN interface with NAT, for the
-- first UDP datagram of a LAN endpoint to a remote.
use Prim.Native.String.{String}
use text.Mathlib.Text.{◌==◌ as str_eq}
use halo.Base.{
  Bool-cases, inl, inr, ℕ, Bool, true, false, ◌≡◌, ◌<◌, ◌-◌, List, [], ◌∷◌, ◌++◌, Option, none,
  some, ◌==◌, refl, ap, ◌∙◌, arith, lookup, insert, lookup-insert, beq_refl, nat_key, if◌then◌else◌,
}
use halo.Protocol.Utils.{Ipv4Addr, ip_addr_to_u, u_to_ip_addr}
use halo.Protocol.Ethernet.Laws.{eth_bytes}
use halo.Protocol.Ipv4.{iph_proto_udp}
use halo.Protocol.Ipv4.Laws.{IsIpv4Addr}
use halo.Protocol.Udp.{UdpPkt}
use halo.Protocol.Udp.Laws.{IsUdpPkt}
use halo.Protocol.Rewrite.Rebuild.{datagram, nat_change_src-datagram}
use halo.Engine.NatKey.{NatFlow, flow_key}
use halo.Engine.Nat.{
  Nat, flow_hash, nat_get_flow_by_hash, nat_add_flow, check_nat_port_mapping, lan_to_wan,
}
use halo.Engine.Route.{ip_eq, find_route, net_if_route}
use halo.Engine.Router.{Router, Interface, Answers, ArpCache, name_key, net_if_lem, nat_view, ◌>>=◌}
use halo.Engine.Router.Inbound.{dnat}
use halo.Engine.Router.Outbound.{mapping_hash, flow_for, snat, snat_by, snat_flow}
use halo.Protocol.Rewrite.{nat_get_src_dst_port}
use halo.Engine.Router.{pure}
use halo.Engine.Router.Forward.{ipv4_route_forward, resolve_out}
use halo.Engine.Router.Datagrams.{
  packet, frame, ports-datagram, forward-datagram, resolve_out_cached,
}
use halo.Base.{Bool-cases}
use halo.Base.{inl}
use halo.Base.{inr}
use halo.Engine.Router.Datagrams.{forward-routed}
use halo.Engine.Router.Datagrams.{mapping_flow-none}

module _ (r : Router) (out : String) (o : Interface) (g : Answers) (src dst : Ipv4Addr)
    (p : UdpPkt) where
  -- What NAT answers to the endpoint.
  abbrev pub added : Option NatFlow × Nat
  added =
      nat_add_flow (nat_view r o) g.nat (ip_addr_to_u src) (ip_addr_to_u dst) p.src_port p.dst_port
        iph_proto_udp

  -- The interface and the router afterwards, but for what was sent.
  abbrev pub o' : Interface
  o' = record o { nat = added.1 }

  abbrev pub r' : Router
  r' = record r { net_if_map = insert out o' r.net_if_map }

pub insert_twice :
    (name : String) (i j : Interface) (m : List (String × Interface))
    → insert name j (insert name i m) ≡ insert name j m
insert_twice name i j [] = rw (beq_refl name) refl
insert_twice name i j ((k, x) ∷ m) = elim (Bool-cases (str_eq k name)) [
  | inl y ↦ rw (y, y) refl
  | inr n ↦ rw (n, n) (ap (λ t. (k, x) ∷ t) (insert_twice name i j m))
]

module _ (r : Router) (out : String) (o : Interface) (g : Answers) (src dst : Ipv4Addr) (p : UdpPkt)
    (there : lookup out r.net_if_map ≡ some o) where
  there' : (i : Interface) (r0 : Router) → lookup out (insert out i r0.net_if_map) ≡ some i
  there' i r0 = lookup-insert out out i r0.net_if_map ∙ rw (beq_refl out) refl

  -- An endpoint without a flow gets the one that NAT makes.
  flow_for_fresh :
      lookup
          (flow_hash
            (nat_view r o)
            (ip_addr_to_u dst)
            p.dst_port
            (ip_addr_to_u src)
            p.src_port
            iph_proto_udp)
          o.nat.nat_flow_table
        ≡ none
      → flow_for out g src dst (p.src_port, p.dst_port) iph_proto_udp r
        ≡ some ((added r out o g src dst p).0, r' r out o g src dst p)
  unfolding flow_for nat_get_flow_by_hash
  flow_for_fresh absent =
      let v : nat_get_flow_by_hash (nat_view r o) (ip_addr_to_u dst) p.dst_port (ip_addr_to_u src)
            p.src_port iph_proto_udp
          ≡ (none, nat_view r o) =
        rw absent refl in
      let o1 : Interface = record o { nat = nat_view r o } in
      let r1 : Router = record r { net_if_map = insert out o1 r.net_if_map } in
      rw (net_if_lem out o r there, ◌>>=◌)
        (rw v (
          rw (net_if_lem out o1 r1 (there' o1 r), ◌>>=◌)
            (ap (λ m. some ((added r out o g src dst p).0, record r { net_if_map = m }))
              (insert_twice out o1 (o' r out o g src dst p) r.net_if_map))))

module _ (r : Router) (out : String) (o : Interface) (g : Answers) (src dst : Ipv4Addr) (p : UdpPkt)
    (pkt : List ℕ) where
  snat_fresh :
      lookup out r.net_if_map ≡ some o
      → o.base.nat_enable ≡ true
      → nat_get_src_dst_port pkt ≡ (p.src_port, p.dst_port)
      → check_nat_port_mapping (nat_view r o) lan_to_wan (ip_addr_to_u src) p.src_port iph_proto_udp
        ≡ none
      → lookup
          (flow_hash
            (nat_view r o)
            (ip_addr_to_u dst)
            p.dst_port
            (ip_addr_to_u src)
            p.src_port
            iph_proto_udp)
          o.nat.nat_flow_table
        ≡ none
      → snat out g pkt src dst iph_proto_udp none r
        ≡ some
            (snat_flow r.check_sum_enable pkt (added r out o g src dst p).0, r' r out o g src dst p)
  unfolding snat
  snat_fresh there wan ports unmapped absent =
      rw (net_if_lem out o r there, ◌>>=◌)
        (ap
            (λ b.
              (if b
                  then snat_by out g pkt src dst iph_proto_udp o none
                  else pure {A = Option (List ℕ)} (some pkt))
                r)
            wan
          ∙ rw (ports, unmapped, ◌>>=◌)
              (rw (ports, flow_for_fresh r out o g src dst p there absent, ◌>>=◌) refl))

module _ (r : Router) (name out : String) (i o : Interface) (c : ArpCache) (g : Answers)
    (id ttl : ℕ) (src dst hop : Ipv4Addr) (has_hop : Bool) (p : UdpPkt) (f : NatFlow) where
  -- The next address on the link.
  abbrev pub target : Ipv4Addr
  target = if has_hop then hop else dst

  -- The frame that leaves, and the router behind it.
  abbrev pub out_frame : List ℕ
  out_frame = eth_bytes (
      frame o c (
        datagram r.check_sum_enable id (ttl - 1) (u_to_ip_addr f.wan_ip_addr) dst
          (record p { src_port = f.wan_port })))

  abbrev pub sent_out : Router
  sent_out = record (r' r out o g src dst p) { sent = r.sent ++ ((out, out_frame) ∷ []) }

  -- A UDP datagram from an endpoint without a flow, that comes in on an interface without NAT and
  -- whose route leads to one with NAT where the next address is cached, leaves in one frame: it is
  -- the datagram built from the WAN address and port of the flow that NAT made, with a time to live
  -- one less and right checksums, and nothing else of the router changes but the NAT tables of
  -- that interface. There is no hook, no static mapping of the endpoint and no padding.
  pub forward_to_wan :
      lookup name r.net_if_map ≡ some i
      → lookup out r.net_if_map ≡ some o
      → i.base.nat_enable ≡ false
      → o.base.nat_enable ≡ true
      → r.ipv4_pkt_fwd_hook ≡ none
      → 1 < ttl
      → ttl < 256
      → IsIpv4Addr src
      → IsIpv4Addr dst
      → IsUdpPkt p
      → lookup
          (mapping_hash (ip_addr_to_u dst) p.dst_port (ip_addr_to_u src) p.src_port iph_proto_udp)
          r.nat_port_mapping_flow_table
        ≡ none
      → net_if_route (find_route r.fnv r.route_table dst) ≡ some (hop, out, has_hop)
      → str_eq out "" ≡ false
      → (ip_addr_to_u dst == ip_addr_to_u o.base.ip_addr) ≡ false
      → check_nat_port_mapping (nat_view r o) lan_to_wan (ip_addr_to_u src) p.src_port iph_proto_udp
        ≡ none
      → lookup
          (flow_hash
            (nat_view r o)
            (ip_addr_to_u dst)
            p.dst_port
            (ip_addr_to_u src)
            p.src_port
            iph_proto_udp)
          o.nat.nat_flow_table
        ≡ none
      → (added r out o g src dst p).0 ≡ some f
      → ip_eq target o.base.ip_addr ≡ false
      → lookup (ip_addr_to_u target) o.arp_cache_table ≡ some c
      → ipv4_route_forward name g
          (datagram r.check_sum_enable id ttl src dst p)
          src
          dst
          iph_proto_udp
          r
        ≡ some (tt, sent_out)
  unfolding ipv4_route_forward dnat
  forward_to_wan here there lan wan hook lo hi s d v no_flow way named remote unmapped absent given
        other known =
      let check = r.check_sum_enable in
      let pkt = datagram check id (ttl - 1) src dst p in
      let q = packet check src dst p in
      let ports = ports-datagram check id (ttl - 1) src dst p v in
      let inbound : dnat name (datagram check id ttl src dst p) src dst iph_proto_udp r
          ≡ some (some (datagram check id ttl src dst p, none), r) =
        rw (net_if_lem name i r here, ◌>>=◌) (rw lan refl) in
      rw (inbound, ◌>>=◌)
        (forward-datagram r name i g id ttl src src dst p here hook lo hi s d v.short
          ∙ forward-routed r name out g pkt hop has_hop q
              (mapping_flow-none r name i pkt src dst p here ports no_flow) way named
          ∙ rw (net_if_lem name i r here, ◌>>=◌)
              (rw (net_if_lem out o r there, ◌>>=◌)
                (rw (remote, ◌>>=◌)
                  (rw (snat_fresh r out o g src dst p pkt there wan ports unmapped absent, ◌>>=◌)
                    (ap
                        (λ x.
                          resolve_out name g out target iph_proto_udp none (snat_flow check pkt x)
                            (r' r out o g src dst p))
                        given
                      ∙ ap
                          (λ x.
                            resolve_out name g out target iph_proto_udp none (some x)
                              (r' r out o g src dst p))
                          (nat_change_src-datagram check id (ttl - 1) src dst
                            (u_to_ip_addr f.wan_ip_addr) p f.wan_port v.short)
                      ∙ resolve_out_cached (r' r out o g src dst p) name out
                          (o' r out o g src dst p) c g target iph_proto_udp
                          (datagram check id (ttl - 1) (u_to_ip_addr f.wan_ip_addr) dst
                            (record p { src_port = f.wan_port }))
                          (lookup-insert out out (o' r out o g src dst p) r.net_if_map
                            ∙ rw (beq_refl out) refl)
                          other known (omega (arith, v.short)))))))
