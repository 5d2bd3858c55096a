-- ===== src/Engine/Nat/Clear.antt =====
-- engine/ipv4_engine.go: one tick of NatTableClear, and ListNat.
use halo.Base.{
  ℕ, Bool, ◌+◌, ◌-◌, ◌^◌, List, [], ◌∷◌, Option, none, some, ltb, if◌then◌else◌, u32, map, nat_key,
  lookup, insert, erase,
}
use halo.Engine.NatKey.{NatFlowHash, NatWanFlowHash, NatFlow, flow_key, wan_key}
use halo.Engine.Nat.{Nat, write_flow, no_ports, remove}

-- The WAN key that a flow is listed under.
abbrev pub wan_hash_of : NatFlow → NatWanFlowHash
wan_hash_of f = record {
  remote_ip_addr = f.remote_ip_addr;
  remote_port = f.remote_port;
  wan_ip_addr = f.wan_ip_addr;
  wan_port = f.wan_port;
  ipv4_head_proto = f.ipv4_head_proto;
}

-- The port goes back to its set, and a set that is empty then is freed.
unfoldable pub give_back : ℕ → ℕ → List (ℕ × List ℕ) → Option (List ℕ) → List (ℕ × List ℕ)
give_back remote port alloc none = alloc
give_back remote port alloc (some used) =
    if no_ports (some (remove port used))
    then erase remote alloc
    else insert remote (remove port used) alloc

unfoldable pub drop_flow : Nat → NatFlowHash → ℕ → NatFlow → Nat
unfolding give_back
drop_flow i key id f = record i {
  nat_flow_table = erase key i.nat_flow_table;
  nat_wan_flow_table = erase (wan_hash_of f) i.nat_wan_flow_table;
  nat_port_alloc =
      give_back f.remote_ip_addr f.wan_port i.nat_port_alloc
        (lookup f.remote_ip_addr i.nat_port_alloc);
  flows = write_flow id none i.flows;
}

-- `TimeNow-LastAliveTime > 60`, of uint32.
abbrev pub idle : Nat → NatFlow → Bool
idle i f = ltb 60 (u32 (i.time_now + 2 ^ 32 - f.last_alive_time))

abbrev pub clear_flow : Nat → NatFlowHash → ℕ → Option NatFlow → Nat
clear_flow i key id none = i
clear_flow i key id (some f) = if idle i f then drop_flow i key id f else i

abbrev pub clear_found : Nat → NatFlowHash → Option ℕ → Nat
clear_found i key none = i
clear_found i key (some id) = clear_flow i key id (i.flows id)

-- For hands each key to the closure, with the flow that the table holds for it.
unfoldable pub clear_keys : List NatFlowHash → Nat → Nat
unfolding drop_flow
clear_keys [] i = i
clear_keys (key ∷ keys) i = clear_keys keys (clear_found i key (lookup key i.nat_flow_table))

unfoldable pub nat_table_clear : Nat → Nat
unfolding clear_keys
nat_table_clear i = clear_keys (map (λ (e : NatFlowHash × ℕ). e.0) i.nat_flow_table) i

unfoldable pub list_flows : (ℕ → Option NatFlow) → List (NatFlowHash × ℕ) → List NatFlow
list_flows flows [] = []
list_flows flows ((key, id) ∷ rest) =
    let others = list_flows flows rest in elim (flows id) [ none ↦ others | some f ↦ f ∷ others ]

unfoldable pub list_nat : Nat → List NatFlow
unfolding list_flows
list_nat i = list_flows i.flows i.nat_flow_table
