-- ===== src/Engine/Router/Inbound.antt =====
-- engine/ipv4_engine.go: the first part of Ipv4RouteForward, from the public to the private
-- addresses; engine/icmp_engine.go: IcmpTtlDeepNat. Slices that share memory are one list here: a
-- write through the inner slice is a write at its offset.
use Prim.Native.String.{String}
use halo.Base.{
  ℕ, Bool, true, false, List, ◌++◌, Option, none, some, ◌==◌, ltb, not, if◌then◌else◌, length, at,
  take, drop, be16,
}
use halo.Base.{ok, err, Parsed}
use halo.Protocol.Utils.{Ipv4Addr, ip_at, ip_addr_to_u, u_to_ip_addr}
use halo.Protocol.Ipv4.{Ipv4Pkt, Ipv4Error, parse_ipv4_pkt, iph_proto_icmp}
use halo.Protocol.Icmp.{IcmpPkt, IcmpError, parse_icmp_pkt, icmp_ttl}
use halo.Protocol.Rewrite.{nat_get_src_dst_port, nat_change_src, nat_change_dst}
use halo.Engine.NatKey.{NatFlow, NatPortMappingEntry}
use halo.Engine.Nat.{nat_get_flow_by_wan, check_nat_port_mapping, wan_to_lan}
use halo.Engine.Router.{M, ◌>>=◌, pure, gets, net_if, on_nat, nat_view}

-- `icmp.Payload` is the part of the packet from byte 28 to its total length.
abbrev pub with_inner : List ℕ → List ℕ → List ℕ
with_inner pkt inner = take 28 pkt ++ (inner ++ drop (be16 (at pkt 2) (at pkt 3)) pkt)

abbrev pub restore_inner : Bool → List ℕ → List ℕ → Option NatFlow → List ℕ × Bool
restore_inner check pkt inner none = (pkt, false)
restore_inner check pkt inner (some f) =
    let host = u_to_ip_addr f.lan_host_ip_addr in
    (
      nat_change_dst check (with_inner pkt (nat_change_src check inner host f.lan_host_port)) host
          0,
      true,
    )

-- The flow that the quoted header names: its source is the WAN side.
abbrev pub deep_nat_icmp : String → List ℕ → Parsed IcmpError IcmpPkt → M (List ℕ × Bool)
deep_nat_icmp name pkt (err e) = pure (pkt, false)
deep_nat_icmp name pkt (ok icmp) =
    if not (icmp.icmp_type == icmp_ttl)
    then pure (pkt, false)
    else if ltb (length icmp.payload) 28
    then pure (pkt, false)
    else (do
      let inner = icmp.payload
      let ports = nat_get_src_dst_port inner
      found ← on_nat name (λ n.
          nat_get_flow_by_wan n (ip_addr_to_u (ip_at inner 16)) ports.1
            (ip_addr_to_u (ip_at inner 12)) ports.0 (at inner 9))
      check ← gets (λ r. r.check_sum_enable)
      pure (restore_inner check pkt inner found))

abbrev pub deep_nat_packet : String → List ℕ → Parsed Ipv4Error Ipv4Pkt → M (List ℕ × Bool)
deep_nat_packet name pkt (err e) = pure (pkt, false)
deep_nat_packet name pkt (ok ipv4) =
    if not (ipv4.ip_head_proto == iph_proto_icmp)
    then pure (pkt, false)
    else deep_nat_icmp name pkt (parse_icmp_pkt ipv4.payload)

unfoldable pub icmp_ttl_deep_nat : String → List ℕ → M (List ℕ × Bool)
icmp_ttl_deep_nat name pkt = do
  check ← gets (λ r. r.check_sum_enable)
  deep_nat_packet name pkt (parse_ipv4_pkt check pkt)

-- The packet goes on, with the static mapping that it came in by, or is dropped.
abbrev pub Inbound : Type 0
Inbound = Option (List ℕ × Option NatPortMappingEntry)

abbrev pub dnat_flow : Bool → List ℕ → Option NatFlow → Inbound
dnat_flow check pkt none = none
dnat_flow check pkt (some f) =
    some (nat_change_dst check pkt (u_to_ip_addr f.lan_host_ip_addr) f.lan_host_port, none)

abbrev pub dnat_mapped :
    String → List ℕ → Ipv4Addr → Ipv4Addr → ℕ → Option NatPortMappingEntry → M Inbound
dnat_mapped name pkt src dst proto (some e) = do
  check ← gets (λ r. r.check_sum_enable)
  pure (some (nat_change_dst check pkt (u_to_ip_addr e.lan_host_ip_addr) e.lan_host_port, some e))
dnat_mapped name pkt src dst proto none = do
  let ports = nat_get_src_dst_port pkt
  found ←
      on_nat name
        (λ n. nat_get_flow_by_wan n (ip_addr_to_u src) ports.0 (ip_addr_to_u dst) ports.1 proto)
  check ← gets (λ r. r.check_sum_enable)
  pure (dnat_flow check pkt found)

abbrev pub dnat_plain : String → List ℕ → Ipv4Addr → Ipv4Addr → ℕ → List ℕ × Bool → M Inbound
dnat_plain name pkt src dst proto (pkt', true) = pure (some (pkt', none))
dnat_plain name pkt src dst proto (pkt', false) = do
  i ← net_if name
  n ← gets (λ r. nat_view r i)
  dnat_mapped name pkt src dst proto
      (check_nat_port_mapping n wan_to_lan n.ip_addr (nat_get_src_dst_port pkt).1 proto)

unfoldable pub dnat : String → List ℕ → Ipv4Addr → Ipv4Addr → ℕ → M Inbound
unfolding icmp_ttl_deep_nat
dnat name pkt src dst proto = do
  i ← net_if name
  if not i.base.nat_enable
      then pure (some (pkt, none))
      else (do deep ← icmp_ttl_deep_nat name pkt; dnat_plain name pkt src dst proto deep)
