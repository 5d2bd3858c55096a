-- ===== src/Engine/Router.antt =====
-- engine/engine.go, ethernet_engine.go, arp_engine.go, ipv4_engine.go, icmp_engine.go,
-- udp_engine.go, tcp_engine.go: the state of a router, and the sequence of calls on it. A call of
-- EthTxFunc adds to `sent`, and a call of a service's handler, or of RxDhcp, adds to `calls`.
-- The locks make each table access one step.
pub mod Link
pub mod Arp
pub mod Transmit
pub mod Services
pub mod Inbound
pub mod Outbound
pub mod Forward
pub mod Dispatch
pub mod Sweep
pub mod Datagrams
pub mod ToWan
pub mod ToLan
pub mod Refound
pub mod Answer
pub mod Exchange
pub mod ArpPackets
pub mod Trusted
pub mod Resolution
use Prim.Native.String.{String}
use text.Mathlib.Text.{◌==◌ as str_eq}
use text.Mathlib.TextEquality.{eq_iff}
use halo.Base.{ℕ, Bool, List, [], ◌∷◌, ◌++◌, Option, none, some, Eq, lookup, insert}
use halo.Protocol.Utils.{MacAddr, Ipv4Addr, ip_addr_to_u}
use halo.Engine.NatKey.{NatFlowHash}
use halo.Engine.Nat.{Nat, Grants, Dir}
use halo.Engine.Receive.{NetIf}
use halo.Engine.Route.{TrieNode, find_route, net_if_route}
use halo.Base.{◌≡◌}
use halo.Base.{refl}

instance abbrev pub name_key : Eq String
name_key = record { beq = str_eq; beq_iff = eq_iff }

pub record ArpCache : Type 0 where
  pub ip_addr : ℕ
  pub mac_addr : MacAddr
  pub exp_time : ℕ

pub record NatPortMappingFlow : Type 0 where
  pub wan_net_if : String
  pub wan_port : ℕ
  pub last_alive_time : ℕ

-- The fields of NetIf. `base` holds those that RxIpv4 reads, and `nat` the NAT tables.
pub record Interface : Type 0 where
  pub base : NetIf
  pub mac_addr : MacAddr
  pub gateway : Ipv4Addr
  pub has_gateway : Bool
  pub dhcp_server_enable : Bool
  pub ipv6_passthrough_peer : Option String
  pub lo_chan : List (List ℕ)
  pub arp_cache_table : List (ℕ × ArpCache)
  pub nat : Nat

-- A call of code outside the router's data path.
pub data Call : Type 0 where
  udp_handler : String → ℕ → Ipv4Addr → ℕ → List ℕ → Call
  tcp_handler : String → ℕ → Ipv4Addr → List ℕ → Call
  rx_dhcp : String → List ℕ → ℕ → ℕ → Ipv4Addr → Call

-- `fnv` is the sum of hash/fnv that FindRoute takes.
pub record Router : Type 0 where
  pub net_if_map : List (String × Interface)
  pub route_table : TrieNode
  pub nat_port_mapping_flow_table : List (NatFlowHash × NatPortMappingFlow)
  pub ipv4_pkt_fwd_hook : Option (List ℕ → Dir → Bool × List ℕ)
  pub time_now : ℕ
  pub iph_id : ℕ
  pub check_sum_enable : Bool
  pub fnv : Ipv4Addr → ℕ
  pub sent : List (String × List ℕ)
  pub calls : List Call

-- What the shared static allocator answers to one received frame.
pub record Answers : Type 0 where
  pub nat : Grants
  pub arp_cell : Bool
  pub arp_slot : Bool
  pub mapping_cell : Bool
  pub mapping_slot : Bool

-- `none` is a run-time panic: a nil interface, or the division by zero of FindRoute.
abbrev pub M : Type 0 → Type 0
M A = Router → Option (A × Router)

infixl 5 ◌>>=◌ ◌>>◌
abbrev pub ◌>>=◌ : {A B : Type 0} → M A → (A → M B) → M B
◌>>=◌ m f r = elim (m r) [ none ↦ none | some (a, r') ↦ f a r' ]

abbrev pub ◌>>◌ : {B : Type 0} → M (Unit {0}) → M B → M B
m >> k = m >>= λ _. k

abbrev pub pure : {A : Type 0} → A → M A
pure a r = some (a, r)

abbrev pub gets : {A : Type 0} → (Router → A) → M A
gets f r = some (f r, r)

abbrev pub orelse_panic : {A : Type 0} → Option A → M A
orelse_panic none r = none
orelse_panic (some a) r = some (a, r)

-- `r.NetIfMap[name]`, used as a receiver.
unfoldable pub net_if : String → M Interface
net_if name r = orelse_panic (lookup name r.net_if_map) r

abbrev pub put_if : String → Interface → M (Unit {0})
put_if name i r = some (tt, record r { net_if_map = insert name i r.net_if_map })

abbrev pub transmit : String → List ℕ → M (Unit {0})
transmit name frm r = some (tt, record r { sent = r.sent ++ ((name, frm) ∷ []) })

abbrev pub call : Call → M (Unit {0})
call c r = some (tt, record r { calls = r.calls ++ (c ∷ []) })

-- `i.FindRoute(ip)`
unfoldable pub route_to : Ipv4Addr → M (Ipv4Addr × String × Bool)
route_to ip r = orelse_panic (net_if_route (find_route r.fnv r.route_table ip)) r

-- The NAT tables with the fields of their interface and router that NAT reads.
abbrev pub nat_view : Router → Interface → Nat
nat_view r i = record i.nat {
  ip_addr = ip_addr_to_u i.base.ip_addr;
  tcp_service_map = i.base.tcp_service_map;
  udp_service_map = i.base.udp_service_map;
  time_now = r.time_now;
}

-- A method of NAT on an interface.
abbrev pub on_nat : {A : Type 0} → String → (Nat → A × Nat) → M A
on_nat name f = do
  i ← net_if name
  n ← gets (λ r. nat_view r i)
  put_if name (record i { nat = (f n).1 })
  pure (f n).0

-- The two reads that may panic, where they do not.
pub net_if_lem :
    (name : String) (i : Interface) (r : Router)
    → lookup name r.net_if_map ≡ some i
    → net_if name r ≡ some (i, r)
unfolding net_if
net_if_lem name i r h = rw h refl

pub route_to_lem :
    (ip : Ipv4Addr) (way : Ipv4Addr × String × Bool) (r : Router)
    → net_if_route (find_route r.fnv r.route_table ip) ≡ some way
    → route_to ip r ≡ some (way, r)
unfolding route_to
route_to_lem ip way r h = rw h refl
