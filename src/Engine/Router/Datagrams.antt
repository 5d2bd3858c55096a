-- ===== src/Engine/Router/Datagrams.antt =====
-- engine/ipv4_engine.go: Ipv4RouteForward on a UDP datagram, but for the address translation.
use Prim.Native.String.{String}
use text.Mathlib.Text.{◌==◌ as str_eq}
use halo.Base.{
  ℕ, Bool, true, false, ◌≡◌, ◌≤◌, ◌<◌, ◌-◌, List, [], ◌∷◌, ◌++◌, none, some, refl, sym, ap, ◌∙◌,
  arith, Bool-cases, lookup, nat_key, length, leb, ltb-false, be16_bytes,
}
use halo.Base.{ok}
use mathlib.Core.List.{append-nil}
use halo.Protocol.Utils.{Ipv4Addr, ip_addr_to_u}
use halo.Protocol.Ethernet.{EthFrm, eth_proto_ipv4}
use halo.Protocol.Ethernet.Laws.{eth_bytes, build_eth_bytes}
use halo.Protocol.Ipv4.{Ipv4Pkt, iph_proto_udp, parse_ipv4_pkt}
use halo.Protocol.Ipv4.Laws.{IsIpv4Addr, ipv4_bytes, parse_ipv4_bytes}
use halo.Protocol.Udp.{UdpPkt}
use halo.Protocol.Udp.Laws.{IsUdpPkt, udp_bytes}
use halo.Protocol.Rewrite.{handle_ipv4_pkt_ttl, nat_get_src_dst_port}
use halo.Protocol.Rewrite.Seals.{handle_ttl_bytes}
use halo.Protocol.Rewrite.Rebuild.{datagram}
use halo.Engine.NatKey.{flow_key}
use halo.Engine.Route.{ip_eq, find_route, net_if_route}
use halo.Engine.Router.{Router, Interface, Answers, ArpCache, name_key, net_if_lem, ◌>>=◌}
use halo.Engine.Router.Link.{tx_ethernet}
use halo.Engine.Router.Arp.{get_arp_cache}
use halo.Engine.Router.Outbound.{mapping_hash, mapping_flow, record_mapping}
use halo.Engine.Router.Forward.{
  forward_alive, forward_hooked, run_hook, direction, forward_inbound, forward_parsed, resolve_out,
  leave,
}
use halo.Engine.Router.{route_to_lem}
use halo.Base.{inl}
use halo.Base.{inr}

-- The packet as the parser reads it.
abbrev pub packet : Bool → Ipv4Addr → Ipv4Addr → UdpPkt → Ipv4Pkt
packet check src dst p = record {
  payload = udp_bytes check p (record { src_addr = src; dst_addr = dst });
  ip_head_proto = iph_proto_udp;
  src_addr = src;
  dst_addr = dst;
}

-- The frame that carries a packet out of an interface.
abbrev pub frame : Interface → ArpCache → List ℕ → EthFrm
frame o c pkt = record {
  payload = pkt;
  dst_mac = c.mac_addr;
  src_mac = o.mac_addr;
  eth_proto = eth_proto_ipv4;
}

pub ports-datagram :
    (check : Bool) (id ttl : ℕ) (src dst : Ipv4Addr) (p : UdpPkt)
    → IsUdpPkt p
    → nat_get_src_dst_port (datagram check id ttl src dst p) ≡ (p.src_port, p.dst_port)
unfolding nat_get_src_dst_port
ports-datagram check id ttl src dst p v =
    rw (ltb-false (length (datagram check id ttl src dst p)) 26 (omega arith))
      (ground (arith, be16_bytes p.src_port v.src, be16_bytes p.dst_port v.dst))

pub parse-datagram :
    (check : Bool) (id ttl : ℕ) (src dst : Ipv4Addr) (p : UdpPkt)
    → ttl < 256
    → IsIpv4Addr src
    → IsIpv4Addr dst
    → length p.payload ≤ 1472
    → parse_ipv4_pkt check (datagram check id ttl src dst p) ≡ ok (packet check src dst p)
parse-datagram check id ttl src dst p t s d h =
    ap (λ (l : List ℕ). parse_ipv4_pkt check (ipv4_bytes check id ttl (packet check src dst p) l))
      (sym (append-nil (packet check src dst p).payload))
    ∙ parse_ipv4_bytes check id ttl (packet check src dst p) [] t
        (record { known = refl; src = s; dst = d; short = omega arith }) (omega arith)

-- A datagram that may live on, with no hook set, is parsed again with one hop less.
pub forward-datagram :
    (r : Router) (name : String) (i : Interface) (g : Answers) (id ttl : ℕ)
    (from src dst : Ipv4Addr) (p : UdpPkt)
    → lookup name r.net_if_map ≡ some i
    → r.ipv4_pkt_fwd_hook ≡ none
    → 1 < ttl
    → ttl < 256
    → IsIpv4Addr src
    → IsIpv4Addr dst
    → length p.payload ≤ 1472
    → forward_inbound name g from (some (datagram r.check_sum_enable id ttl src dst p, none)) r
      ≡ forward_parsed name g
          (datagram r.check_sum_enable id (ttl - 1) src dst p)
          none
          (ok (packet r.check_sum_enable src dst p))
          r
forward-datagram r name i g id ttl from src dst p here hook lo hi s d h =
    let check = r.check_sum_enable in
    let e : leb ttl 1 ≡ false = ground arith in
    let alive : handle_ipv4_pkt_ttl check (datagram check id ttl src dst p)
        ≡ (datagram check id (ttl - 1) src dst p, true) =
      handle_ttl_bytes check id ttl (packet check src dst p) (packet check src dst p).payload
      ∙ rw e refl in
    ap (λ x. forward_alive name g from none x r) alive
    ∙ rw (net_if_lem name i r here, ◌>>=◌)
        (ap
            (λ h.
              forward_hooked name g none
                (run_hook h (datagram check id (ttl - 1) src dst p) (direction i.base.nat_enable))
                r)
            hook
          ∙ ap (λ x. forward_parsed name g (datagram check id (ttl - 1) src dst p) none x r)
              (parse-datagram check id (ttl - 1) src dst p (omega arith) s d h))

-- A packet whose next address is cached leaves in one frame.
pub resolve_out_cached :
    (r : Router) (name out : String) (o : Interface) (c : ArpCache) (g : Answers)
    (target : Ipv4Addr) (proto : ℕ) (pkt : List ℕ)
    → lookup out r.net_if_map ≡ some o
    → ip_eq target o.base.ip_addr ≡ false
    → lookup (ip_addr_to_u target) o.arp_cache_table ≡ some c
    → length pkt ≤ 1500
    → resolve_out name g out target proto none (some pkt) r
      ≡ some (tt, record r { sent = r.sent ++ ((out, eth_bytes (frame o c pkt)) ∷ []) })
unfolding get_arp_cache record_mapping tx_ethernet
resolve_out_cached r name out o c g target proto pkt there other known h =
    rw (net_if_lem out o r there, ◌>>=◌)
      (rw (other, known, net_if_lem out o r there, build_eth_bytes (frame o c pkt) h, ◌>>=◌) refl)

-- No flow of a static mapping has the addresses and ports of the datagram.
pub mapping_flow-none :
    (r : Router) (name : String) (i : Interface) (pkt : List ℕ) (src dst : Ipv4Addr) (p : UdpPkt)
    → lookup name r.net_if_map ≡ some i
    → nat_get_src_dst_port pkt ≡ (p.src_port, p.dst_port)
    → lookup
        (mapping_hash (ip_addr_to_u dst) p.dst_port (ip_addr_to_u src) p.src_port iph_proto_udp)
        r.nat_port_mapping_flow_table
      ≡ none
    → mapping_flow name pkt src dst iph_proto_udp r ≡ some (none, r)
unfolding mapping_flow
mapping_flow-none r name i pkt src dst p here ports absent =
    rw (net_if_lem name i r here, ◌>>=◌)
      (rw (ports, absent)
        (elim (Bool-cases i.base.nat_enable) [
          | inl y ↦ rw (y, ◌>>=◌) refl
          | inr n ↦ rw (n, ◌>>=◌) refl
        ]))

-- A packet that came in by no mapping leaves where its route says.
pub forward-routed :
    (r : Router) (name out : String) (g : Answers) (pkt : List ℕ) (hop : Ipv4Addr) (has_hop : Bool)
    (q : Ipv4Pkt)
    → mapping_flow name pkt q.src_addr q.dst_addr q.ip_head_proto r ≡ some (none, r)
    → net_if_route (find_route r.fnv r.route_table q.dst_addr) ≡ some (hop, out, has_hop)
    → str_eq out "" ≡ false
    → forward_parsed name g pkt none (ok q) r
      ≡ leave name g pkt q none none (some (hop, out, has_hop)) r
forward-routed r name out g pkt hop has_hop q m way named =
    rw (m, ◌>>=◌)
      (rw (route_to_lem q.dst_addr (hop, out, has_hop) r way, ◌>>=◌) (rw (named, ◌>>=◌) refl))
