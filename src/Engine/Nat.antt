-- ===== src/Engine/Nat.antt =====
-- engine/ipv4_engine.go: the NAT flow tables of one interface, under NatLock. A flow object that
-- both tables share is a cell of `flows`. The outcome of each allocation of a call is in `Grants`.
-- Addresses are the integers that IpAddrToU gives.
pub mod Ports
pub mod Flows
pub mod Create
pub mod Clear
pub mod Consistent
pub mod Added
pub mod Dropped
pub mod Running
pub mod Kept
use halo.Base.{
  ℕ, Bool, zero, suc, true, false, ◌+◌, ◌-◌, ◌&&◌, ◌||◌, not, List, [], ◌∷◌, Option, none, some,
  ◌==◌, if◌then◌else◌, u16,
}
use halo.Base.{nat_key, lookup, insert, erase}
use halo.Protocol.Ipv4.{iph_proto_icmp, iph_proto_tcp, iph_proto_udp}
use halo.Engine.NatKey.{
  nat_type_symmetric, NatFlowHash, NatWanFlowHash, NatFlow, NatPortMappingEntry, flow_key, wan_key,
}

-- The fields of NetIf that NAT reads and writes. A service map holds the ports that have a service.
pub record Nat : Type 0 where
  pub nat_type : ℕ
  pub ip_addr : ℕ
  pub tcp_service_map : ℕ → Bool
  pub udp_service_map : ℕ → Bool
  pub nat_port_mapping_table : List NatPortMappingEntry
  pub nat_flow_table : List (NatFlowHash × ℕ)
  pub nat_wan_flow_table : List (NatWanFlowHash × ℕ)
  pub nat_port_alloc : List (ℕ × List ℕ)
  pub flows : ℕ → Option NatFlow
  pub next_flow : ℕ
  pub time_now : ℕ

-- Whether each allocation of one call of NatAddFlow succeeds, in the order of the code.
pub record Grants : Type 0 where
  pub port_alloc : Bool
  pub port_map : Bool
  pub port_alloc_slot : Bool
  pub port_slot : Bool
  pub flow : Bool
  pub flow_slot : Bool
  pub wan_slot : Bool

-- `_remoteIpAddrU` and `_remotePort`
abbrev pub key_remote_ip : Nat → ℕ → ℕ
key_remote_ip i remote_ip = if i.nat_type == nat_type_symmetric then remote_ip else 0

abbrev pub key_remote_port : Nat → ℕ → ℕ → ℕ
key_remote_port i remote_port proto =
    if proto == iph_proto_icmp
    then 0
    else if i.nat_type == nat_type_symmetric
    then remote_port
    else 0

abbrev pub flow_hash : Nat → ℕ → ℕ → ℕ → ℕ → ℕ → NatFlowHash
flow_hash i remote_ip remote_port lan_ip lan_port proto = record {
  remote_ip_addr = key_remote_ip i remote_ip;
  remote_port = key_remote_port i remote_port proto;
  lan_host_ip_addr = lan_ip;
  lan_host_port = lan_port;
  ipv4_head_proto = proto;
}

abbrev pub wan_hash : Nat → ℕ → ℕ → ℕ → ℕ → ℕ → NatWanFlowHash
wan_hash i remote_ip remote_port wan_ip wan_port proto = record {
  remote_ip_addr = key_remote_ip i remote_ip;
  remote_port = key_remote_port i remote_port proto;
  wan_ip_addr = wan_ip;
  wan_port = wan_port;
  ipv4_head_proto = proto;
}

abbrev pub write_flow : ℕ → Option NatFlow → (ℕ → Option NatFlow) → ℕ → Option NatFlow
write_flow id f flows j = if j == id then f else flows j

-- `natFlow.LastAliveTime = i.Router.TimeNow; flow = *natFlow`
abbrev pub touch : Nat → ℕ → Option NatFlow → Option NatFlow × Nat
touch i id none = (none, i)
touch i id (some f) =
    let f' = record f { last_alive_time = i.time_now } in
    (some f', record i { flows = write_flow id (some f') i.flows })

abbrev pub touch_found : Nat → Option ℕ → Option NatFlow × Nat
touch_found i none = (none, i)
touch_found i (some id) = touch i id (i.flows id)

unfoldable pub nat_get_flow_by_hash : Nat → ℕ → ℕ → ℕ → ℕ → ℕ → Option NatFlow × Nat
nat_get_flow_by_hash i remote_ip remote_port lan_ip lan_port proto =
    touch_found i
      (lookup (flow_hash i remote_ip remote_port lan_ip lan_port proto) i.nat_flow_table)

unfoldable pub nat_get_flow_by_wan : Nat → ℕ → ℕ → ℕ → ℕ → ℕ → Option NatFlow × Nat
nat_get_flow_by_wan i remote_ip remote_port wan_ip wan_port proto =
    touch_found i
      (lookup (wan_hash i remote_ip remote_port wan_ip wan_port proto) i.nat_wan_flow_table)

pub data Dir : Type 0 where
  lan_to_wan wan_to_lan : Dir

-- The test of CheckNatPortMapping on one entry.
abbrev pub mapping_fits : Dir → ℕ → ℕ → ℕ → NatPortMappingEntry → Bool
mapping_fits lan_to_wan ip port proto entry =
    entry.lan_host_ip_addr == ip && (entry.lan_host_port == port && entry.ipv4_head_proto == proto)
mapping_fits wan_to_lan ip port proto entry =
    entry.wan_port == port && entry.ipv4_head_proto == proto

unfoldable pub first_mapping :
    Dir → ℕ → ℕ → ℕ → List NatPortMappingEntry → Option NatPortMappingEntry
first_mapping dir ip port proto [] = none
first_mapping dir ip port proto (entry ∷ rest) =
    if mapping_fits dir ip port proto entry
    then some entry
    else first_mapping dir ip port proto rest

unfoldable pub check_nat_port_mapping : Nat → Dir → ℕ → ℕ → ℕ → Option NatPortMappingEntry
unfolding first_mapping
check_nat_port_mapping i dir ip port proto =
    if not (proto == iph_proto_tcp) && not (proto == iph_proto_udp)
    then none
    else first_mapping dir ip port proto i.nat_port_mapping_table

abbrev pub contains : ℕ → List ℕ → Bool
contains p [] = false
contains p (q ∷ ports) = p == q || contains p ports

abbrev pub remove : ℕ → List ℕ → List ℕ
remove p [] = []
remove p (q ∷ ports) = if p == q then remove p ports else q ∷ remove p ports

abbrev pub is_some {ℓ} : {A : Type ℓ} → Option A → Bool
is_some none = false
is_some (some a) = true

-- The tests after which the search for a port goes on.
unfoldable pub port_taken : Nat → List ℕ → ℕ → ℕ → Bool
port_taken i used proto port =
    contains port used
    || ((proto == iph_proto_tcp && i.tcp_service_map port)
        || ((proto == iph_proto_udp && i.udp_service_map port)
            || is_some (check_nat_port_mapping i wan_to_lan i.ip_addr port proto)))

-- The search loop over the uint16 `wanPort`, on fuel; `some 0` means that no port is free, and
-- `none` that the fuel ran out.
unfoldable pub find_port : (ℕ → Bool) → ℕ → ℕ → Option ℕ
find_port taken zero port = none
find_port taken (suc fuel) port =
    let next = u16 (port + 1) in
    let rest = find_port taken fuel next in
    if next == 0 then some 0 else if taken next then rest else some next

-- `make` and `free` of the port set, as the deferred function undoes it.
abbrev pub set_ports : Nat → ℕ → List ℕ → Nat
set_ports i remote ports = record i { nat_port_alloc = insert remote ports i.nat_port_alloc }

abbrev pub no_ports : Option (List ℕ) → Bool
no_ports none = false
no_ports (some []) = true
no_ports (some (p ∷ ports)) = false

-- The deferred function: a port set that this call has made is deleted again if it is empty.
abbrev pub settle : Bool → ℕ → Nat → Nat
settle fresh remote i =
    if fresh && no_ports (lookup remote i.nat_port_alloc)
    then record i { nat_port_alloc = erase remote i.nat_port_alloc }
    else i

-- `portAlloc.UsePortMap.Del(PortHash(wanPort))`
abbrev pub release : Nat → ℕ → List ℕ → ℕ → Nat
release i remote used port = set_ports i remote (remove port (port ∷ used))

abbrev pub new_flow : Nat → NatFlowHash → ℕ → NatFlow
new_flow i key port = record {
  nat_flow_hash = key;
  remote_ip_addr = key.remote_ip_addr;
  remote_port = key.remote_port;
  wan_ip_addr = i.ip_addr;
  wan_port = port;
  lan_host_ip_addr = key.lan_host_ip_addr;
  lan_host_port = key.lan_host_port;
  ipv4_head_proto = key.ipv4_head_proto;
  last_alive_time = i.time_now;
}

abbrev pub new_wan_hash : Nat → NatFlowHash → ℕ → NatWanFlowHash
new_wan_hash i key port = record {
  remote_ip_addr = key.remote_ip_addr;
  remote_port = key.remote_port;
  wan_ip_addr = i.ip_addr;
  wan_port = port;
  ipv4_head_proto = key.ipv4_head_proto;
}

-- What follows the search, with the port set `used` of the remote address and a free port. Each
-- failure undoes what was done before it.
unfoldable pub commit_flow : Nat → Grants → NatFlowHash → List ℕ → ℕ → Option NatFlow × Nat
commit_flow i g key used port =
    let remote = key.remote_ip_addr in
    let id = i.next_flow in
    let flow = new_flow i key port in
    let taken = set_ports i remote (port ∷ used) in
    let made = record taken { flows = write_flow id (some flow) i.flows; next_flow = id + 1 } in
    let listed = record made { nat_flow_table = insert key id i.nat_flow_table } in
    if not g.port_slot
    then (none, i)
    else if not g.flow
    then (none, release taken remote used port)
    else if not g.flow_slot
    then (none, record (release made remote used port) { flows = write_flow id none made.flows })
    else if not g.wan_slot
    then (
      none,
      record (release listed remote used port) {
        nat_flow_table = erase key listed.nat_flow_table;
        flows = write_flow id none listed.flows;
      },
    )
    else (
      some flow,
      record listed {
        nat_wan_flow_table = insert (new_wan_hash i key port) id i.nat_wan_flow_table;
      },
    )

abbrev pub commit_found : Nat → Grants → NatFlowHash → List ℕ → Option ℕ → Option NatFlow × Nat
commit_found i g key used none = (none, i)
commit_found i g key used (some zero) = (none, i)
commit_found i g key used (some (suc p)) = commit_flow i g key used (suc p)

-- The first free port from 32768 on, and the flow on it. At most 32768 ports are tried.
unfoldable pub allocate_flow : Nat → Grants → NatFlowHash → List ℕ → Option NatFlow × Nat
allocate_flow i g key used =
    commit_found i g key used (find_port (port_taken i used key.ipv4_head_proto) 32769 32767)

abbrev pub settled : Bool → ℕ → Option NatFlow × Nat → Option NatFlow × Nat
settled fresh remote (f, i) = (f, settle fresh remote i)

-- The port set of the remote address, made if there is none.
abbrev pub with_port_set : Nat → Grants → NatFlowHash → Option (List ℕ) → Option NatFlow × Nat
with_port_set i g key (some used) = settled false key.remote_ip_addr (allocate_flow i g key used)
with_port_set i g key none =
    if g.port_alloc && (g.port_map && g.port_alloc_slot)
    then settled true key.remote_ip_addr
        (allocate_flow (set_ports i key.remote_ip_addr []) g key [])
    else (none, i)

abbrev pub add_or_touch : Nat → Grants → NatFlowHash → Option ℕ → Option NatFlow × Nat
add_or_touch i g key (some id) = touch i id (i.flows id)
add_or_touch i g key none = with_port_set i g key (lookup key.remote_ip_addr i.nat_port_alloc)

unfoldable pub nat_add_flow : Nat → Grants → ℕ → ℕ → ℕ → ℕ → ℕ → Option NatFlow × Nat
nat_add_flow i g lan_ip remote_ip lan_port remote_port proto =
    let key = flow_hash i remote_ip remote_port lan_ip lan_port proto in
    if lan_port == 0 || remote_port == 0
    then (none, i)
    else add_or_touch i g key (lookup key i.nat_flow_table)
