-- ===== src/Examples/Routing.antt =====
-- The forwarding, the ARP cache and the NAT tables of the test router.
use halo.Base.{
  ℕ, true, false, List, [], ◌∷◌, ◌++◌, ◌-◌, none, some, ◌≡◌, ◌↔◌, refl, arith, lookup, nat_key,
}
use halo.Protocol.Utils.{Ipv4Addr, ip_addr_to_u, u_to_ip_addr}
use halo.Protocol.Ethernet.Laws.{eth_bytes}
use halo.Protocol.Rewrite.Rebuild.{datagram}
use halo.Engine.NatKey.{NatFlowHash, NatFlow, flow_key}
use halo.Engine.Nat.{
  Nat, contains, flow_hash, nat_add_flow, allocate_flow, find_port, port_taken,
  check_nat_port_mapping, first_mapping, commit_flow, nat_get_flow_by_wan,
}
use halo.Engine.Nat.Clear.{nat_table_clear}
use halo.Engine.Nat.Consistent.{IsConsistent, held_ports}
use halo.Engine.Nat.Running.{
  Step-IsConsistent, Reach-separate, Reach-ports, IsEmpty-IsConsistent, Reach, here, next, added,
}
use halo.Engine.Nat.Kept.{flow_of, unless_idle, nat_table_clear_kept}
use halo.Engine.Route.{
  find_route, find_node, add_route, update_route, update_node, same_route, drop_route, mask_size,
  mask_loop,
}
use halo.Engine.Router.{Router, Interface, ArpCache, nat_view}
use halo.Engine.Router.Arp.{get_arp_cache, handle_arp}
use halo.Engine.Router.Dispatch.{rx_ethernet}
use halo.Engine.Router.Forward.{ipv4_route_forward}
use halo.Engine.Router.Datagrams.{frame}
use halo.Engine.Router.Exchange.{first_exchange}
use halo.Engine.Router.ToLan.{forward_to_lan, sent_in}
use halo.Engine.Router.Trusted.{Trusted, handle_arp-Trusted}
use halo.Engine.Router.Resolution.{address_resolved}
use halo.Examples.Data.{
  lan_host, wan_host, router_addr, lan_host-IsIpv4Addr, wan_host-IsIpv4Addr, empty_nat, all_granted,
  mac_a, first_flow,
}
use halo.Examples.Routers.{
  router, lan0, wan0, host_entry, gateway_entry, gateway_addr, answers, query, response, query_flow,
  query-IsUdpPkt, response-IsUdpPkt, router_addr-IsIpv4Addr,
}
use halo.Engine.Nat.Running.{added}

first_exchange_example :
    (r1 : Router) × (r2 : Router) × (ipv4_route_forward "lan0" answers
        (datagram true 1 64 lan_host wan_host query)
        lan_host
        wan_host
        17
        router
      ≡ some (tt, r1))
    × (ipv4_route_forward "wan0" answers
          (datagram true 2 60 wan_host router_addr response)
          wan_host
          router_addr
          17
          r1
        ≡ some (tt, r2))
    × (r2.sent
        ≡ []
          ++ ((
            "wan0",
            eth_bytes (
                frame wan0 gateway_entry (
                  datagram true 1
                    (64 - 1)
                    router_addr
                    wan_host
                    (record query { src_port = 32768 }))),
          )
              ∷ (
                "lan0",
                eth_bytes (
                    frame lan0 host_entry (
                      datagram true 2
                        (60 - 1)
                        wan_host
                        lan_host
                        (record response { dst_port = 1000 }))),
              )
              ∷ []))
unfolding find_route find_node add_route update_route update_node same_route drop_route mask_size
    mask_loop ip_addr_to_u check_nat_port_mapping first_mapping nat_add_flow allocate_flow find_port
    port_taken commit_flow
first_exchange_example =
    first_exchange router "lan0" "wan0" "lan0" lan0 wan0 lan0 gateway_entry host_entry answers 1 2
      64 60 lan_host wan_host gateway_addr lan_host true false query response query_flow refl refl
      refl refl refl refl refl refl (omega arith) (omega arith) (omega arith) (omega arith)
      lan_host-IsIpv4Addr wan_host-IsIpv4Addr router_addr-IsIpv4Addr query-IsUdpPkt
      response-IsUdpPkt refl refl refl refl refl refl refl refl refl refl refl refl refl refl refl

-- The tables with the flow of the query.
abbrev used_nat : Nat
used_nat =
    (nat_add_flow (nat_view router wan0) all_granted (ip_addr_to_u lan_host) (ip_addr_to_u wan_host)
      1000 53 17).1

abbrev used_wan0 : Interface
used_wan0 = record wan0 { nat = used_nat }

abbrev used_router : Router
used_router = record router { net_if_map = ("lan0", lan0) ∷ ("wan0", used_wan0) ∷ [] }

abbrev found_nat : Nat
found_nat =
    (nat_get_flow_by_wan (nat_view used_router used_wan0) (ip_addr_to_u wan_host) 53
      (ip_addr_to_u router_addr) 32768 17).1

forward_to_lan_example :
    ipv4_route_forward "wan0" answers
      (datagram true 2 60 wan_host router_addr response)
      wan_host
      router_addr
      17
      used_router
    ≡ some (
      tt,
      sent_in used_router "wan0" "lan0" used_wan0 lan0 host_entry answers 2 60 wan_host router_addr
          lan_host false response query_flow found_nat,
    )
unfolding find_route find_node add_route update_route update_node same_route drop_route mask_size
    mask_loop ip_addr_to_u u_to_ip_addr check_nat_port_mapping first_mapping nat_add_flow
    allocate_flow find_port port_taken commit_flow nat_get_flow_by_wan
forward_to_lan_example =
    forward_to_lan used_router "wan0" "lan0" used_wan0 lan0 host_entry answers 2 60 wan_host
      router_addr lan_host false response query_flow found_nat refl refl refl refl refl refl
      (omega arith) (omega arith) wan_host-IsIpv4Addr router_addr-IsIpv4Addr lan_host-IsIpv4Addr
      response-IsUdpPkt refl refl refl refl refl refl

abbrev peer_addr : Ipv4Addr
peer_addr = record { a0 = 10; a1 = 0; a2 = 0; a3 = 7 }

abbrev peer : Interface
peer = record lan0 { base = record lan0.base { ip_addr = peer_addr }; mac_addr = mac_a }

abbrev peer_router : Router
peer_router = record router { net_if_map = ("eth0", peer) ∷ [] }

address_resolved_example :
    (ra1 : Router) × (ra2 : Router) × (rb1 : Router) × (f1 : List ℕ) × (f2 : List ℕ)
    × (ca : ArpCache) × (cb : ArpCache) × (get_arp_cache "lan0" peer_addr router ≡ some (none, ra1))
    × (ra1.sent ≡ [] ++ (("lan0", f1) ∷ []))
    × (rx_ethernet "eth0" answers f1 peer_router ≡ some (tt, rb1))
    × (rb1.sent ≡ [] ++ (("eth0", f2) ∷ []))
    × (rx_ethernet "lan0" answers f2 ra1 ≡ some (tt, ra2))
    × (ra2.sent ≡ ra1.sent)
    × (get_arp_cache "lan0" peer_addr ra2 ≡ some (some ca, ra2))
    × (ca.mac_addr ≡ mac_a)
    × (get_arp_cache "eth0" lan0.base.ip_addr rb1 ≡ some (some cb, rb1))
    × (cb.mac_addr ≡ lan0.mac_addr)
unfolding ip_addr_to_u
address_resolved_example =
    address_resolved router peer_router "lan0" "eth0" lan0 peer answers answers refl refl refl refl
      refl refl

-- A request of the host for the address of the LAN interface.
abbrev host_request : List ℕ
host_request =
    0 ∷ 1 ∷ 8 ∷ 0 ∷ 6 ∷ 4 ∷ 0 ∷ 1 ∷ 2 ∷ 0 ∷ 0 ∷ 0 ∷ 0 ∷ 1 ∷ 10 ∷ 0 ∷ 0 ∷ 1 ∷ 0 ∷ 0 ∷ 0 ∷ 0 ∷ 0 ∷ 0
    ∷ 10 ∷ 0 ∷ 0 ∷ 254 ∷ []

handle_arp-Trusted_example :
    Trusted answers router "lan0" lan0 host_request mac_a 167772161
      (handle_arp answers "lan0" host_request mac_a router)
handle_arp-Trusted_example =
    handle_arp-Trusted answers router "lan0" lan0 host_request mac_a 167772161 refl

empty_nat-IsConsistent : IsConsistent empty_nat
empty_nat-IsConsistent = IsEmpty-IsConsistent empty_nat (refl, refl, refl)

Step-IsConsistent_example : IsConsistent (nat_add_flow empty_nat all_granted 10 20 1000 80 6).1
Step-IsConsistent_example =
    Step-IsConsistent (added empty_nat all_granted 10 20 1000 80 6) empty_nat-IsConsistent

abbrev one_key : NatFlowHash
one_key = flow_hash empty_nat 20 80 10 1000 6

abbrev one_flow : Nat
one_flow = (nat_add_flow empty_nat all_granted 10 20 1000 80 6).1

one_flow-Reach : Reach empty_nat one_flow
one_flow-Reach = next here (added empty_nat all_granted 10 20 1000 80 6)

Reach-separate_example : one_key ≡ one_key
unfolding nat_add_flow allocate_flow find_port port_taken check_nat_port_mapping first_mapping
    commit_flow
Reach-separate_example =
    Reach-separate one_key one_key 0 0 first_flow first_flow (refl, refl, refl) one_flow-Reach refl
      refl refl refl refl refl

Reach-ports_example : (contains 32768 (held_ports one_flow 20) ≡ true) ↔ (
    (k : NatFlowHash) × (id : ℕ) × (f : NatFlow) × (lookup k one_flow.nat_flow_table ≡ some id)
    × (one_flow.flows id ≡ some f)
    × (f.remote_ip_addr ≡ 20)
    × (f.wan_port ≡ 32768))
Reach-ports_example = Reach-ports 20 32768 (refl, refl, refl) one_flow-Reach

nat_table_clear_kept_example :
    flow_of (nat_table_clear one_flow) one_key ≡ unless_idle one_flow (flow_of one_flow one_key)
nat_table_clear_kept_example =
    nat_table_clear_kept one_flow one_key
      (Step-IsConsistent (added empty_nat all_granted 10 20 1000 80 6) empty_nat-IsConsistent)
