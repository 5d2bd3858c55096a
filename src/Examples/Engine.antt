-- ===== src/Examples/Engine.antt =====
-- NAT, the route table and the dispatch of a router at concrete tables.
use halo.Base.{List, Option, arith, false, ok, refl, some, true, ℕ, ◌↔◌, ◌≡◌, ◌≢◌, ◌≤◌, ◌⊎◌}
use halo.Engine.Nat.{
  allocate_flow, check_nat_port_mapping, commit_flow, find_port, first_mapping, flow_hash,
  nat_add_flow, nat_get_flow_by_hash, nat_get_flow_by_wan, port_taken,
}
use halo.Engine.Nat.Create.{Outcome, nat_add_flow-Outcome, nat_add_flow_translates}
use halo.Engine.Receive.{broadcast_ipv4_addr, dst_port, forward, rx_ipv4}
use halo.Engine.Receive.Forwarded.{rx_ipv4_forwards}
use halo.Engine.Route.{
  RouteEntry, add_route, conclude, delete_route, drop_route, find_node, find_route, ip_eq, panics,
  same_route, update_node, update_route,
}
use halo.Engine.Route.Deleted.{find_route-delete_last, find_route_matches}
use halo.Engine.Route.Longest.{IsLongest, find_route-IsLongest}
use halo.Engine.Route.Places.{path, prefix}
use halo.Examples.Data.{
  all_granted, empty_nat, first_flow, host_route, ip_packet, received_pkt, table, table-IsPlaced,
  wan_host, wan_if,
}
use halo.Protocol.Icmp.{IcmpPkt, icmp_request, parse_icmp_pkt}
use halo.Protocol.Ipv4.{iph_proto_icmp, iph_proto_tcp, iph_proto_udp, parse_ipv4_pkt}
use halo.Protocol.Utils.{ip_addr_to_u}

nat_add_flow-Outcome_example :
    Outcome empty_nat
      (flow_hash empty_nat 20 80 10 1000 6)
      (nat_add_flow empty_nat all_granted 10 20 1000 80 6)
nat_add_flow-Outcome_example = nat_add_flow-Outcome empty_nat all_granted 10 20 1000 80 6 refl

nat_add_flow_translates_example :
    let j = (nat_add_flow empty_nat all_granted 10 20 1000 80 6).1 in
    ((nat_get_flow_by_wan j 20 80 empty_nat.ip_addr first_flow.wan_port 6).0 ≡ some first_flow)
    × ((nat_get_flow_by_hash j 20 80 10 1000 6).0 ≡ some first_flow)
    × (first_flow.lan_host_ip_addr ≡ 10)
    × (first_flow.lan_host_port ≡ 1000)
    × (first_flow.wan_ip_addr ≡ empty_nat.ip_addr)
unfolding nat_add_flow allocate_flow find_port port_taken check_nat_port_mapping first_mapping
    commit_flow
nat_add_flow_translates_example =
    nat_add_flow_translates empty_nat all_granted 10 20 1000 80 6 first_flow refl refl

find_route-IsLongest_example :
    (best : Option (List RouteEntry)) × IsLongest (path wan_host 0 32) table best
    × (find_route ip_addr_to_u table wan_host ≡ conclude (ip_addr_to_u wan_host) best)
find_route-IsLongest_example = find_route-IsLongest ip_addr_to_u table wan_host

find_route_matches_example : (n : ℕ) × (n ≤ 32) × (prefix host_route ≡ path wan_host 0 n)
unfolding find_route find_node add_route update_route update_node same_route drop_route
find_route_matches_example =
    find_route_matches ip_addr_to_u table wan_host host_route table-IsPlaced refl

find_route-delete_last_example :
    find_route ip_addr_to_u (delete_route table host_route) wan_host ≡ panics
unfolding add_route update_route update_node same_route drop_route
find_route-delete_last_example =
    find_route-delete_last ip_addr_to_u table host_route wan_host 32 (omega arith) refl refl
      (λ m a b. absurd (omega arith))

rx_ipv4_forwards_example : (rx_ipv4 false wan_if received_pkt ≡ forward received_pkt ip_packet) ↔ (
    (ip_eq ip_packet.dst_addr broadcast_ipv4_addr ≡ false)
    × ((ip_eq ip_packet.dst_addr wan_if.ip_addr ≡ false)
        ⊎ ((wan_if.nat_enable ≡ true)
            × (((ip_packet.ip_head_proto ≡ iph_proto_icmp)
                  × ((m : IcmpPkt) × (parse_icmp_pkt ip_packet.payload ≡ ok m)
                      × (m.icmp_type ≢ icmp_request)))
                ⊎ ((ip_packet.ip_head_proto ≡ iph_proto_udp)
                    × (wan_if.udp_service_map (dst_port received_pkt) ≡ false))
                ⊎ ((ip_packet.ip_head_proto ≡ iph_proto_tcp)
                    × (wan_if.tcp_service_map (dst_port received_pkt) ≡ false))))))
unfolding parse_ipv4_pkt
rx_ipv4_forwards_example = rx_ipv4_forwards false wan_if received_pkt ip_packet refl
