-- ===== src/Engine/Router/Outbound.antt =====
-- engine/ipv4_engine.go: the parts of Ipv4RouteForward from the route on: where a packet leaves,
-- from the private to the public addresses, and the flow of a static mapping.
use Prim.Native.String.{String}
use text.Mathlib.Text.{◌==◌ as str_eq}
use halo.Base.{
  ℕ, Bool, true, false, List, Option, none, some, ◌&&◌, not, if◌then◌else◌, lookup, insert,
}
use halo.Protocol.Utils.{Ipv4Addr, ip_at, ip_addr_to_u, u_to_ip_addr}
use halo.Protocol.Rewrite.{nat_get_src_dst_port, nat_change_src}
use halo.Engine.NatKey.{NatFlow, NatFlowHash, NatPortMappingEntry, flow_key}
use halo.Engine.Nat.{nat_get_flow_by_hash, nat_add_flow, check_nat_port_mapping, lan_to_wan}
use halo.Engine.Router.{
  M, ◌>>=◌, pure, gets, net_if, on_nat, nat_view, name_key, Interface, Answers, NatPortMappingFlow,
}

abbrev pub mapping_hash : ℕ → ℕ → ℕ → ℕ → ℕ → NatFlowHash
mapping_hash remote_ip remote_port lan_ip lan_port proto = record {
  remote_ip_addr = remote_ip;
  remote_port = remote_port;
  lan_host_ip_addr = lan_ip;
  lan_host_port = lan_port;
  ipv4_head_proto = proto;
}

-- The lookup in NatPortMappingFlowTable, which refreshes what it finds.
abbrev pub refresh_mapping : NatFlowHash → Option NatPortMappingFlow → M (Option NatPortMappingFlow)
refresh_mapping key none r = some (none, r)
refresh_mapping key (some f) r =
    let f' = record f { last_alive_time = r.time_now } in
    some (
      some f',
      record r { nat_port_mapping_flow_table = insert key f' r.nat_port_mapping_flow_table },
    )

unfoldable pub mapping_flow :
    String → List ℕ → Ipv4Addr → Ipv4Addr → ℕ → M (Option NatPortMappingFlow)
mapping_flow name pkt src dst proto = do
  i ← net_if name
  let ports = nat_get_src_dst_port pkt
  let key = mapping_hash (ip_addr_to_u dst) ports.1 (ip_addr_to_u src) ports.0 proto
  found ← gets (λ r. lookup key r.nat_port_mapping_flow_table)
  if i.base.nat_enable then pure none else refresh_mapping key found

abbrev pub gateway_of : String → Option Interface → Option (Ipv4Addr × String × Bool)
gateway_of wan none = none
gateway_of wan (some i) = if i.has_gateway then some (i.gateway, wan, true) else none

-- The next hop, the interface and whether there is a next hop. `none` drops the packet: the WAN of
-- the mapping has no gateway, or there is no route.
abbrev pub choose_out :
    Option NatPortMappingFlow → Ipv4Addr × String × Bool → M (Option (Ipv4Addr × String × Bool))
choose_out none (hop, out, has_hop) =
    if str_eq out "" then pure none else pure (some (hop, out, has_hop))
choose_out (some f) (hop, out, has_hop) =
    if not (str_eq out f.wan_net_if)
    then gets (λ r. gateway_of f.wan_net_if (lookup f.wan_net_if r.net_if_map))
    else if str_eq out ""
    then pure none
    else pure (some (hop, out, has_hop))

-- The flow of a LAN endpoint, made if there is none.
abbrev pub found_or_added :
    String → Answers → Ipv4Addr → Ipv4Addr → ℕ × ℕ → ℕ → Option NatFlow → M (Option NatFlow)
found_or_added out g src dst ports proto (some f) = pure (some f)
found_or_added out g src dst ports proto none =
    on_nat out
      (λ n. nat_add_flow n g.nat (ip_addr_to_u src) (ip_addr_to_u dst) ports.0 ports.1 proto)

unfoldable pub flow_for : String → Answers → Ipv4Addr → Ipv4Addr → ℕ × ℕ → ℕ → M (Option NatFlow)
flow_for out g src dst ports proto = do
  found ←
      on_nat out
        (λ n. nat_get_flow_by_hash n (ip_addr_to_u dst) ports.1 (ip_addr_to_u src) ports.0 proto)
  found_or_added out g src dst ports proto found

abbrev pub snat_flow : Bool → List ℕ → Option NatFlow → Option (List ℕ)
snat_flow check pkt none = none
snat_flow check pkt (some f) =
    some (nat_change_src check pkt (u_to_ip_addr f.wan_ip_addr) f.wan_port)

abbrev pub snat_entry :
    String
    → Answers
    → List ℕ
    → Ipv4Addr
    → Ipv4Addr
    → ℕ
    → Interface
    → Option NatPortMappingEntry
    → M (Option (List ℕ))
snat_entry out g pkt src dst proto o (some e) = do
  check ← gets (λ r. r.check_sum_enable)
  pure (some (nat_change_src check pkt o.base.ip_addr e.wan_port))
snat_entry out g pkt src dst proto o none = do
  f ← flow_for out g src dst (nat_get_src_dst_port pkt) proto
  check ← gets (λ r. r.check_sum_enable)
  pure (snat_flow check pkt f)

abbrev pub snat_by :
    String
    → Answers
    → List ℕ
    → Ipv4Addr
    → Ipv4Addr
    → ℕ
    → Interface
    → Option NatPortMappingFlow
    → M (Option (List ℕ))
snat_by out g pkt src dst proto o (some m) = do
  check ← gets (λ r. r.check_sum_enable)
  pure (some (nat_change_src check pkt o.base.ip_addr m.wan_port))
snat_by out g pkt src dst proto o none = do
  n ← gets (λ r. nat_view r o)
  snat_entry out g pkt src dst proto o
      (check_nat_port_mapping n lan_to_wan (ip_addr_to_u src) (nat_get_src_dst_port pkt).0 proto)

-- `none` means that no port could be given out.
unfoldable pub snat :
    String
    → Answers
    → List ℕ
    → Ipv4Addr
    → Ipv4Addr
    → ℕ
    → Option NatPortMappingFlow
    → M (Option (List ℕ))
snat out g pkt src dst proto m = do
  o ← net_if out
  if o.base.nat_enable then snat_by out g pkt src dst proto o m else pure (some pkt)

-- The first packet of a static mapping leaves the flow of the replies behind. `false` means that
-- the allocator or the table had no room, and the packet is not sent.
unfoldable pub record_mapping : String → Answers → List ℕ → ℕ → Option NatPortMappingEntry → M Bool
record_mapping name g pkt proto none r = some (true, r)
record_mapping name g pkt proto (some e) r =
    let key =
      mapping_hash (ip_addr_to_u (ip_at pkt 12)) (nat_get_src_dst_port pkt).0 e.lan_host_ip_addr
        e.lan_host_port proto in
    let f : NatPortMappingFlow = record {
      wan_net_if = name;
      wan_port = e.wan_port;
      last_alive_time = r.time_now;
    } in
    let r' = record r {
      nat_port_mapping_flow_table = insert key f r.nat_port_mapping_flow_table;
    } in
    elim (lookup key r.nat_port_mapping_flow_table) [
      | some old ↦ some (true, r')
      | none ↦ if g.mapping_cell && g.mapping_slot then some (true, r') else some (false, r)
    ]
