-- ===== src/Engine/Router/Answer.antt =====
-- engine/ipv4_engine.go: the remote's answer to the first datagram of a LAN endpoint.
use Prim.Native.String.{String}
use text.Mathlib.Text.{◌==◌ as str_eq}
use mathlib.Core.Path.{subst}
use mathlib.Core.List.{append_assoc}
use halo.Base.{
  ap₂, ℕ, Bool, true, false, ◌≡◌, ◌<◌, ◌-◌, [], ◌∷◌, ◌++◌, none, some, refl, sym, ap, ◌∙◌, arith,
  lookup, lookup-insert, beq_refl, nat_key, if◌then◌else◌,
}
use halo.Protocol.Utils.{Ipv4Addr, ip_addr_to_u, u_to_ip_addr}
use halo.Protocol.Utils.Address.{ip_addr_to_u_inverse}
use halo.Protocol.Ethernet.Laws.{eth_bytes}
use halo.Protocol.Ipv4.{iph_proto_udp}
use halo.Protocol.Ipv4.Laws.{IsIpv4Addr}
use halo.Protocol.Udp.{UdpPkt}
use halo.Protocol.Udp.Laws.{IsUdpPkt}
use halo.Protocol.Rewrite.Rebuild.{datagram}
use halo.Engine.NatKey.{NatFlow, NatFlowHash, flow_key}
use halo.Engine.Nat.{
  Nat, flow_hash, nat_get_flow_by_wan, check_nat_port_mapping, wan_to_lan, write_flow,
}
use halo.Engine.Nat.Create.{Established}
use halo.Engine.Route.{ip_eq, find_route, net_if_route}
use halo.Engine.Router.{Router, Interface, Answers, ArpCache, name_key, nat_view}
use halo.Engine.Router.Forward.{ipv4_route_forward}
use halo.Engine.Router.Datagrams.{frame}
use halo.Engine.Router.ToWan.{added, o', sent_out}
use halo.Engine.Router.ToLan.{forward_to_lan, sent_in}
use halo.Engine.Router.Refound.{found_later, unmapped_port}

module _ (r : Router) (name out back : String) (i o b : Interface) (c d : ArpCache) (g : Answers)
    (id id2 ttl ttl2 : ℕ) (src dst hop hop2 : Ipv4Addr) (has_hop has_hop2 : Bool) (p q : UdpPkt)
    (f : NatFlow) where
  abbrev pub key : NatFlowHash
  key =
      flow_hash (nat_view r o) (ip_addr_to_u dst) p.dst_port (ip_addr_to_u src) p.src_port
        iph_proto_udp

  abbrev pub next_target : Ipv4Addr
  next_target = if has_hop then hop else dst

  -- The router after the first datagram.
  abbrev pub r1 : Router
  r1 = sent_out r name out i o c g id ttl src dst hop has_hop p f

  abbrev pub made : Interface
  made = o' r out o g src dst p

  abbrev pub view : Nat
  view = nat_view r1 made

  abbrev pub answered : NatFlow
  answered = record f { last_alive_time = r.time_now }

  abbrev pub tables : Nat
  tables = record view { flows = write_flow o.nat.next_flow (some answered) view.flows }

  abbrev pub r2 : Router
  r2 = sent_in r1 out back made b d g id2 ttl2 dst o.base.ip_addr hop2 has_hop2 q answered tables

  abbrev pub back_target : Ipv4Addr
  back_target = if has_hop2 then hop2 else src

  module _ (est : Established (nat_view r o) key f (added r out o g src dst p).1) where
    own_host : IsIpv4Addr src → u_to_ip_addr f.lan_host_ip_addr ≡ src
    own_host s =
        ap (λ x. u_to_ip_addr x.lan_host_ip_addr) est.made
        ∙ (ip_addr_to_u_inverse src 0 s.0 s.1 s.2 s.3 (omega arith)).1

    own_wan : IsIpv4Addr o.base.ip_addr → u_to_ip_addr f.wan_ip_addr ≡ o.base.ip_addr
    own_wan w =
        ap (λ x. u_to_ip_addr x.wan_ip_addr) est.made
        ∙ (ip_addr_to_u_inverse o.base.ip_addr 0 w.0 w.1 w.2 w.3 (omega arith)).1

    own_port : f.lan_host_port ≡ p.src_port
    own_port = ap (λ x. x.lan_host_port) est.made

    found_answer :
        q.src_port ≡ p.dst_port
        → q.dst_port ≡ f.wan_port
        → nat_get_flow_by_wan view
            (ip_addr_to_u dst)
            q.src_port
            (ip_addr_to_u o.base.ip_addr)
            q.dst_port
            iph_proto_udp
          ≡ (some answered, tables)
    found_answer e1 e2 =
        ap
          (λ x.
            nat_get_flow_by_wan view (ip_addr_to_u dst) x (ip_addr_to_u o.base.ip_addr) q.dst_port
              iph_proto_udp)
          e1
        ∙ ap
            (λ x.
              nat_get_flow_by_wan view (ip_addr_to_u dst) p.dst_port (ip_addr_to_u o.base.ip_addr) x
                iph_proto_udp)
            e2
        ∙ found_later (nat_view r o) (added r out o g src dst p).1 (ip_addr_to_u dst) p.dst_port
            (ip_addr_to_u src) p.src_port f est (ip_addr_to_u o.base.ip_addr) r.time_now
            o.base.tcp_service_map o.base.udp_service_map

    unmapped_answer :
        q.dst_port ≡ f.wan_port
        → check_nat_port_mapping view wan_to_lan
            (ip_addr_to_u o.base.ip_addr)
            q.dst_port
            iph_proto_udp
          ≡ none
    unmapped_answer e2 =
        ap
          (λ x.
            check_nat_port_mapping view wan_to_lan (ip_addr_to_u o.base.ip_addr) x iph_proto_udp)
          e2
        ∙ unmapped_port (nat_view r o) (added r out o g src dst p).1 (ip_addr_to_u dst) p.dst_port
            (ip_addr_to_u src) p.src_port f est (ip_addr_to_u o.base.ip_addr) r.time_now
            o.base.tcp_service_map o.base.udp_service_map

    pub answer_sent :
        lookup back r.net_if_map ≡ some b
        → str_eq out back ≡ false
        → o.base.nat_enable ≡ true
        → b.base.nat_enable ≡ false
        → r.ipv4_pkt_fwd_hook ≡ none
        → 1 < ttl2
        → ttl2 < 256
        → IsIpv4Addr src
        → IsIpv4Addr dst
        → IsIpv4Addr o.base.ip_addr
        → IsUdpPkt q
        → q.src_port ≡ p.dst_port
        → q.dst_port ≡ f.wan_port
        → net_if_route (find_route r.fnv r.route_table src) ≡ some (hop2, back, has_hop2)
        → str_eq back "" ≡ false
        → ip_eq back_target b.base.ip_addr ≡ false
        → lookup (ip_addr_to_u back_target) b.arp_cache_table ≡ some d
        → ipv4_route_forward out g
            (datagram r.check_sum_enable id2 ttl2 dst o.base.ip_addr q)
            dst
            o.base.ip_addr
            iph_proto_udp
            r1
          ≡ some (tt, r2)
    answer_sent home apart wan lan2 hook lo hi s t w v e1 e2 way named other known =
        let h = own_host s in
        forward_to_lan r1 out back made b d g id2 ttl2 dst o.base.ip_addr hop2 has_hop2 q answered
          tables (lookup-insert out out made r.net_if_map ∙ rw (beq_refl out) refl)
          (lookup-insert out back made r.net_if_map ∙ rw apart home) apart wan lan2 hook lo hi t w
          (subst IsIpv4Addr (sym h) s) v (unmapped_answer e2) (found_answer e1 e2)
          (subst
            (λ x. net_if_route (find_route r.fnv r.route_table x) ≡ some (hop2, back, has_hop2))
            (sym h) way)
          named
          (subst (λ x. ip_eq (if has_hop2 then hop2 else x) b.base.ip_addr ≡ false) (sym h) other)
          (subst
            (λ x. lookup (ip_addr_to_u (if has_hop2 then hop2 else x)) b.arp_cache_table ≡ some d)
            (sym h) known)

    -- What was sent.
    pub both_sent :
        IsIpv4Addr src
        → IsIpv4Addr o.base.ip_addr
        → r2.sent
          ≡ r.sent
            ++ ((
              out,
              eth_bytes (
                  frame o c (
                    datagram r.check_sum_enable id
                      (ttl - 1)
                      o.base.ip_addr
                      dst
                      (record p { src_port = f.wan_port }))),
            )
                ∷ (
                  back,
                  eth_bytes (
                      frame b d (
                        datagram r.check_sum_enable id2
                          (ttl2 - 1)
                          dst
                          src
                          (record q { dst_port = p.src_port }))),
                )
                ∷ [])
    both_sent s w =
        append_assoc r.sent _ _
        ∙ ap₂
            (λ x (y : Ipv4Addr × ℕ).
              r.sent
              ++ ((
                out,
                eth_bytes (
                    frame o c (
                      datagram r.check_sum_enable id (ttl - 1) x dst
                        (record p { src_port = f.wan_port }))),
              )
                  ∷ (
                    back,
                    eth_bytes (
                        frame b d (
                          datagram r.check_sum_enable id2 (ttl2 - 1) dst y.0
                            (record q { dst_port = y.1 }))),
                  )
                  ∷ []))
            (own_wan w) (ap₂ (λ x y. (x, y)) (own_host s) own_port)
